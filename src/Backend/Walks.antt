-- ===== src/Backend/Walks.antt =====
-- src_vwave/backend/backend.h: WaveBackend::scopes and WaveBackend::find. A recursive lambda that
-- appends to `result` takes the result so far and returns it; the levels left are the fuel, as
-- the source bounds the level.
pub mod Found
pub mod Listed
use tool_debug.Common.{
  ℕ, zero, suc, ◌+◌, ◌-◌, Bytes, codes, List, [], ◌∷◌, ◌==◌, ◌++◌, Bool, true, false, ◌&&◌, ◌||◌,
  not, if◌then◌else◌, leb, is_empty, length,
}
use tool_debug.Backend.{
  Error, backend_error, Result, ok, error, ◌>>=◌, SignalInfo, WaveBackend, wildcard_match,
}

abbrev pub flat_map {ℓ κ} : {A : Type ℓ} {B : Type κ} → (A → List B) → List A → List B
flat_map f [] = []
flat_map f (x ∷ xs) = f x ++ flat_map f xs

-- What may be asked for its children: the root or a scope of the design.
abbrev pub is_parent : WaveBackend → Bytes → Bool
is_parent b path = is_empty path || b.has_scope path

-- BackendError("SCOPE_NOT_FOUND", …)
abbrev pub scope_not_found {ℓ} : {A : Type ℓ} → Bytes → Result A
scope_not_found path =
    error
      (backend_error (codes "SCOPE_NOT_FOUND") (codes "Scope '" ++ (path ++ codes "' not found")))

unfoldable pub scopes_limit : ℕ
scopes_limit = 500

unfoldable pub find_limit : ℕ
find_limit = 200

-- `level > 20` ends a walk that starts at 0.
unfoldable pub find_levels : ℕ
find_levels = 21

-- The bytes before the terminator.
unfoldable pub c_str : Bytes → Bytes
c_str [] = []
c_str (c ∷ s) = if c == 0 then [] else c ∷ c_str s

-- The loop over the children in `scopes`, with what is done below a child.
unfoldable pub walk_children :
    (Bytes → List Bytes → Result (List Bytes))
    → Bytes
    → List Bytes
    → List Bytes
    → Result (List Bytes)
walk_children descend parent [] result = ok result
walk_children descend parent (child ∷ rest) result =
    descend child (result ++ child ∷ []) >>= (λ result'.
      let more = walk_children descend parent rest result' in
      if not (is_empty parent) && leb scopes_limit (length result') then ok result' else more)

-- The loop over the children in `find`.
unfoldable pub walk_each :
    (Bytes → List Bytes → Result (List Bytes)) → List Bytes → List Bytes → Result (List Bytes)
walk_each descend [] result = ok result
walk_each descend (child ∷ rest) result = do
  result' ← descend child result
  walk_each descend rest result'

-- The loop over the signals of one scope in `find`: it returns when the limit is reached.
unfoldable pub find_signals : Bytes → List SignalInfo → List Bytes → List Bytes
find_signals pattern [] result = result
find_signals pattern (sig ∷ rest) result =
    let result' =
      if wildcard_match (c_str pattern) (c_str sig.name)
      then result ++ sig.full_name ∷ []
      else result in
    if leb find_limit (length result') then result' else find_signals pattern rest result'

module _ (b : WaveBackend) where
  -- `walk(parent, level)` of `scopes`, by `depth - level`.
  unfoldable pub walk_scopes : ℕ → Bytes → List Bytes → Result (List Bytes)
  unfolding walk_children
  walk_scopes zero parent result = do
    kids ← b.children parent
    walk_children (λ child result'. ok result') parent kids result
  walk_scopes (suc n) parent result = do
    kids ← b.children parent
    walk_children (walk_scopes n) parent kids result

  unfoldable pub scopes : Bytes → ℕ → Result (List Bytes)
  unfolding walk_scopes
  scopes path depth =
      if not (is_empty path) && not (b.has_scope path)
      then scope_not_found path
      else walk_scopes (depth - 1) path []

  -- `walk(parent, level)` of `find`, by `21 - level`.
  unfoldable pub walk_find : Bytes → ℕ → Bytes → List Bytes → Result (List Bytes)
  walk_find pattern zero parent result = ok result
  walk_find pattern (suc n) parent result =
      let below : List Bytes → Result (List Bytes) =
        λ result'. b.children parent >>= (λ kids. walk_each (walk_find pattern n) kids result') in
      let searched : Result (List Bytes) = b.signals parent >>= (λ sigs.
        let result' = find_signals pattern sigs result in
        if leb find_limit (length result') then ok result' else below result') in
      if leb find_limit (length result) then ok result else searched

  unfoldable pub find_all : Bytes → Bytes → Result (List Bytes)
  unfolding walk_find
  find_all scope pattern =
      if not (is_empty scope) && not (b.has_scope scope)
      then scope_not_found scope
      else if is_empty scope
      then b.children [] >>= (λ kids. walk_each (walk_find pattern find_levels) kids [])
      else walk_find pattern find_levels scope []
