-- ===== src/Wave/Truncation.antt =====
-- When a listing of the vwave server is complete.
use tool_debug.Common.{
  suc, ℕ, ◌+◌, ◌≤◌, ◌<◌, Bytes, codes, List, [], ◌∷◌, ◌++◌, map, ◌≡◌, refl, ap, ◌∙◌, ◌⊎◌, inl, inr,
  Bool, true, false, not, ◌&&◌, leb, pos, negsuc, ℤ, is_empty, length, take, length-take, All,
  arith, Bool-cases,
}
use tool_debug.Json.Parser.{Maps, get_string, get_int, get_bool}
use tool_debug.Backend.{ok, SignalInfo}
use tool_debug.Backend.Walks.{flat_map, find_limit, find_levels, is_parent}
use tool_debug.Backend.Walks.Found.{all_matches, starts, find_all-all_matches}
use tool_debug.Backend.Walks.Listed.{subtree, scopes-subtree}
use tool_debug.Wave.{
  ServerState, set_truncated, clamp, shown_scopes, scope_fields, handle_list_scopes,
}
use tool_debug.Wave.Dispatch.{found_fields, handle_find_signals}

leb-length-take : (n : ℕ) (xs : List Bytes) → leb n (length (take n xs)) ≡ leb n (length xs)
leb-length-take n xs = ap (leb n) (length-take n xs) ∙ ground arith

clamp_positive : (high : ℕ) (i : ℤ) → 0 < clamp high i
unfolding clamp
clamp_positive high (pos n) = ground arith
clamp_positive high (negsuc n) = omega arith

length-map : (f : Bytes → Bytes) (xs : List Bytes) → length (map f xs) ≡ length xs
length-map f [] = refl
length-map f (x ∷ xs) = ap suc (length-map f xs)

length-shown_scopes :
    (path : Bytes) (compact : Bool) (found : List Bytes)
    → length (shown_scopes path compact found) ≡ length found
unfolding shown_scopes
length-shown_scopes path compact found = elim (Bool-cases (compact && not (is_empty path))) [
  | inl short ↦ rw short (length-map _ found)
  | inr long ↦ rw long refl
]

module _ (g : ServerState) (kids : Bytes → List Bytes)
    (kids-eq : (p : Bytes) → is_parent g.backend p ≡ true → g.backend.children p ≡ ok (kids p))
    (kids-known : (p : Bytes) → All (λ c. g.backend.has_scope c ≡ true) (kids p))
    (params : Maps) where
  -- The search handler lists the first 200 of the matches in the first 21 levels, from the scope that
  -- is asked for or else from the tops on, in the order of the tree, and marks the list as truncated
  -- just when there are 200 or more of these, where the backend answers for the root and every scope
  -- of the design, its children are scopes of the design, and the scope that is asked for is one.
  -- Matches below these levels are neither listed nor counted.
  pub handle_find_signals-all_matches :
      (sigs : Bytes → List SignalInfo)
      → ((p : Bytes) → g.backend.has_scope p ≡ true → g.backend.signals p ≡ ok (sigs p))
      → is_empty (get_string params (codes "pattern") []) ≡ false
      → not (is_empty (get_string params (codes "scope") []))
          && not (g.backend.has_scope (get_string params (codes "scope") []))
        ≡ false
      → (all : List Bytes) × (all
          ≡ flat_map
              (all_matches kids sigs (get_string params (codes "pattern") []) 21)
              (starts kids (get_string params (codes "scope") [])))
        × (handle_find_signals g params
            ≡ ok (
                set_truncated (leb 200 (length all)) (
                  found_fields
                    (get_string params (codes "pattern") [])
                    (get_string params (codes "scope") [])
                    (take 200 all))))
  unfolding handle_find_signals find_limit find_levels
  handle_find_signals-all_matches sigs sigs-eq asked there =
      let pattern = get_string params (codes "pattern") [] in
      let scope = get_string params (codes "scope") [] in
      let all = flat_map (all_matches kids sigs pattern 21) (starts kids scope) in
      let found =
        find_all-all_matches g.backend kids sigs kids-eq kids-known sigs-eq pattern scope there in
      (
        all,
        refl,
        rw (asked, found)
            (ap (λ b. ok (set_truncated b (found_fields pattern scope (take 200 all))))
              (leb-length-take 200 all)),
      )

  -- The scope handler's list below a scope of the design is a front of its subtree to the depth that
  -- is asked for, between 1 and 10: all of it unless it has 500 names or more, which is just when it
  -- is marked as truncated, and never more than 499 and the depth, where the backend answers for the
  -- root and every scope of the design, and its children are scopes of the design and have no empty
  -- name.
  pub handle_list_scopes-subtree :
      ((p : Bytes) → All (λ c. is_empty c ≡ false) (kids p))
      → is_empty (get_string params (codes "path") []) ≡ false
      → g.backend.has_scope (get_string params (codes "path") []) ≡ true
      → (found : List Bytes) × (rest : List Bytes) × (handle_list_scopes g params
          ≡ ok (
              set_truncated (leb 500 (length found)) (
                scope_fields (get_string params (codes "path") []) (
                  shown_scopes
                    (get_string params (codes "path") [])
                    (get_bool params (codes "compact") false)
                    found))))
        × (found ++ rest
            ≡ subtree kids
                (clamp 10 (get_int params (codes "depth") (pos 1)))
                (get_string params (codes "path") []))
        × ((rest ≡ []) ⊎ (500 ≤ length found))
        × (length found ≤ 499 + clamp 10 (get_int params (codes "depth") (pos 1)))
  unfolding handle_list_scopes
  handle_list_scopes-subtree kids-named below there =
      let path = get_string params (codes "path") [] in
      let depth = clamp 10 (get_int params (codes "depth") (pos 1)) in
      let compact = get_bool params (codes "compact") false in
      let (found, rest, e, whole, cut, bound) =
        scopes-subtree g.backend kids kids-eq kids-known kids-named path depth below there
          (clamp_positive 10 (get_int params (codes "depth") (pos 1))) in
      (
        found,
        rest,
        rw e (
            ap
              (λ n.
                ok
                  (set_truncated (leb 500 n) (scope_fields path (shown_scopes path compact found))))
              (length-shown_scopes path compact found)),
        whole,
        cut,
        bound,
      )
