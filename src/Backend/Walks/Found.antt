-- ===== src/Backend/Walks/Found.antt =====
-- What WaveBackend::find lists: the first matches in the order of the scope tree.
use tool_debug.Common.{
  subst, ℕ, zero, suc, ◌+◌, ◌≤◌, ◌≡◌, refl, ap, sym, ◌∙◌, Bytes, List, [], ◌∷◌, ◌++◌, append_assoc,
  append-nil, true, false, not, ◌&&◌, if◌then◌else◌, leb, leb→le, is_empty, length, take,
  length-append, length-take, All, take-append_self, arith, Bool-cases, inl, inr,
}
use tool_debug.Backend.{Result, ok, ◌>>=◌, SignalInfo, WaveBackend, wildcard_match}
use tool_debug.Backend.Walks.{
  flat_map, find_limit, find_levels, c_str, find_signals, walk_each, walk_find, find_all, is_parent,
}

-- The full names of the signals of one scope that match.
unfoldable pub matching : Bytes → List SignalInfo → List Bytes
matching pattern [] = []
matching pattern (sig ∷ rest) =
    let later = matching pattern rest in
    if wildcard_match (c_str pattern) (c_str sig.name) then sig.full_name ∷ later else later

-- All the matches in the first levels at and below a scope, parents first.
unfoldable pub all_matches :
    (Bytes → List Bytes) → (Bytes → List SignalInfo) → Bytes → ℕ → Bytes → List Bytes
all_matches kids sigs pattern zero scope = []
all_matches kids sigs pattern (suc n) scope =
    matching pattern (sigs scope) ++ flat_map (all_matches kids sigs pattern n) (kids scope)

-- The scopes at which a search starts.
abbrev pub starts : (Bytes → List Bytes) → Bytes → List Bytes
starts kids scope = if is_empty scope then kids [] else scope ∷ []

module _ {ℓ} {A : Type ℓ} where
  take-full : (n : ℕ) (xs ys : List A) → length xs ≡ n → take n (xs ++ ys) ≡ xs
  take-full n xs ys e = subst (λ k. take k (xs ++ ys) ≡ xs) e (take-append_self xs ys)

  take-short : (n : ℕ) (xs : List A) → length xs ≤ n → take n xs ≡ xs
  take-short zero [] h = refl
  take-short zero (x ∷ xs) h = absurd (omega arith)
  take-short (suc n) [] h = refl
  take-short (suc n) (x ∷ xs) h = ap (◌∷◌ x) (take-short n xs (omega arith))

  take-take_append : (n : ℕ) (xs ys : List A) → take n (take n xs ++ ys) ≡ take n (xs ++ ys)
  take-take_append zero xs ys = refl
  take-take_append (suc n) [] ys = refl
  take-take_append (suc n) (x ∷ xs) ys = ap (◌∷◌ x) (take-take_append n xs ys)

  length-take_le : (n : ℕ) (xs : List A) → length (take n xs) ≤ n
  length-take_le n xs = omega (arith, length-take n xs)

  -- A cut list that is full is what is left of any longer one.
  take-cut :
      (n : ℕ) (xs ys : List A) → leb n (length (take n xs)) ≡ true → take n xs ≡ take n (xs ++ ys)
  take-cut n xs ys h =
      let full = leb→le n (length (take n xs)) h in
      sym (take-full n (take n xs) ys (omega (arith, length-take_le n xs)))
      ∙ take-take_append n xs ys

  take-below : (n : ℕ) (xs : List A) → leb n (length xs) ≡ false → take n xs ≡ xs
  take-below n xs h = take-short n xs (ground arith)

-- One more name that fills the list.
full-append :
    (r one rest : List Bytes)
    → length (r ++ one) ≡ length r + 1
    → leb find_limit (length r) ≡ false
    → leb find_limit (length (r ++ one)) ≡ true
    → r ++ one ≡ take find_limit (r ++ (one ++ rest))
full-append r one rest e h k = sym (
    ap (take find_limit) (sym (append_assoc r one rest))
    ∙ take-full find_limit (r ++ one) rest
        (ground (arith, leb→le find_limit (length (r ++ one)) k)))

find_signals-matching :
    (pattern : Bytes) (sigs : List SignalInfo) (r : List Bytes)
    → leb find_limit (length r) ≡ false
    → find_signals pattern sigs r ≡ take find_limit (r ++ matching pattern sigs)
unfolding find_signals matching
find_signals-matching pattern [] r h =
    sym (ap (take find_limit) (append-nil r) ∙ take-below find_limit r h)
find_signals-matching pattern (sig ∷ rest) r h =
    elim (Bool-cases (wildcard_match (c_str pattern) (c_str sig.name))) [
      | inr other ↦ rw (other, h) (find_signals-matching pattern rest r h)
      | inl hit ↦ rw hit (elim (Bool-cases (leb find_limit (length (r ++ sig.full_name ∷ [])))) [
        | inr more ↦ rw more (
            find_signals-matching pattern rest (r ++ sig.full_name ∷ []) more
            ∙ ap (take find_limit) (append_assoc r (sig.full_name ∷ []) (matching pattern rest)))
        | inl end ↦ rw end (
            full-append r (sig.full_name ∷ []) (matching pattern rest)
              (length-append r (sig.full_name ∷ [])) h end)
      ])
    ]

module _ (b : WaveBackend) (kids : Bytes → List Bytes) (sigs : Bytes → List SignalInfo)
    (kids-eq : (p : Bytes) → is_parent b p ≡ true → b.children p ≡ ok (kids p))
    (kids-known : (p : Bytes) → All (λ c. b.has_scope c ≡ true) (kids p))
    (sigs-eq : (p : Bytes) → b.has_scope p ≡ true → b.signals p ≡ ok (sigs p))
    (pattern : Bytes) where
  known-parent : (p : Bytes) → b.has_scope p ≡ true → is_parent b p ≡ true
  known-parent p h = ground arith

  abbrev Finds : (Bytes → List Bytes → Result (List Bytes)) → (Bytes → List Bytes) → Type 0
  Finds walk found =
      (scope : Bytes) (r : List Bytes)
      → b.has_scope scope ≡ true
      → length r ≤ find_limit
      → walk scope r ≡ ok (take find_limit (r ++ found scope))

  walk_each-Finds :
      (walk : Bytes → List Bytes → Result (List Bytes)) (found : Bytes → List Bytes)
      → Finds walk found
      → (scopes : List Bytes) (r : List Bytes) → All (λ c. b.has_scope c ≡ true) scopes
      → length r ≤ find_limit
      → walk_each walk scopes r ≡ ok (take find_limit (r ++ flat_map found scopes))
  unfolding walk_each
  walk_each-Finds walk found ih [] r known h =
      ap ok (sym (ap (take find_limit) (append-nil r) ∙ take-short find_limit r h))
  walk_each-Finds walk found ih (s ∷ rest) r known h =
      rw
        (
          ih s r known.0 h,
          walk_each-Finds walk found ih rest (take find_limit (r ++ found s)) known.1
              (length-take_le find_limit (r ++ found s)),
        )
        (ap ok (
          take-take_append find_limit (r ++ found s) (flat_map found rest)
          ∙ ap (take find_limit) (append_assoc r (found s) (flat_map found rest))))

  -- What stands behind the signals of a scope that has room: the children, unless they fill it.
  walk_below :
      (n : ℕ)
      → Finds (walk_find b pattern n) (all_matches kids sigs pattern n)
      → (scope : Bytes) (r : List Bytes) → b.has_scope scope ≡ true
      → (if leb find_limit (length (take find_limit (r ++ matching pattern (sigs scope))))
          then ok (take find_limit (r ++ matching pattern (sigs scope)))
          else (b.children scope >>= (λ tops.
              walk_each
                (walk_find b pattern n)
                tops
                (take find_limit (r ++ matching pattern (sigs scope))))))
        ≡ ok (
            take find_limit (
              r
              ++ (matching pattern (sigs scope)
                  ++ flat_map (all_matches kids sigs pattern n) (kids scope))))
  walk_below n ih scope r known =
      let here = matching pattern (sigs scope) in
      let deeper = flat_map (all_matches kids sigs pattern n) (kids scope) in
      let joined = ap (take find_limit) (append_assoc r here deeper) in
      elim (Bool-cases (leb find_limit (length (take find_limit (r ++ here))))) [
        | inl full ↦ rw full (ap ok (take-cut find_limit (r ++ here) deeper full ∙ joined))
        | inr more ↦
            rw (more, kids-eq scope (known-parent scope known))
              (walk_each-Finds (walk_find b pattern n) (all_matches kids sigs pattern n) ih
                  (kids scope) (take find_limit (r ++ here)) (kids-known scope)
                  (length-take_le find_limit (r ++ here))
                ∙ ap ok (take-take_append find_limit (r ++ here) deeper ∙ joined))
      ]

  walk_find-all_matches : (n : ℕ) → Finds (walk_find b pattern n) (all_matches kids sigs pattern n)
  unfolding walk_find all_matches
  walk_find-all_matches zero scope r known h =
      ap ok (sym (ap (take find_limit) (append-nil r) ∙ take-short find_limit r h))
  walk_find-all_matches (suc n) scope r known h = elim (Bool-cases (leb find_limit (length r))) [
    | inl full ↦
        let at_limit = leb→le find_limit (length r) full in
        rw full (
          ap ok (
            sym
              (take-full find_limit r (all_matches kids sigs pattern (suc n) scope) (omega arith))))
    | inr room ↦
        rw (room, sigs-eq scope known, find_signals-matching pattern (sigs scope) r room)
          (walk_below n (walk_find-all_matches n) scope r known)
  ]

  -- `find` lists the first matches in the levels that it walks at and below the scope it starts at,
  -- or at and below each top, in the order of the tree, up to its limit, where the backend answers
  -- for the root and every scope of the design, its children are scopes of the design, and the scope
  -- is one.
  pub find_all-all_matches :
      (scope : Bytes)
      → not (is_empty scope) && not (b.has_scope scope) ≡ false
      → find_all b scope pattern
        ≡ ok (
            take find_limit
              (flat_map (all_matches kids sigs pattern find_levels) (starts kids scope)))
  unfolding find_all
  find_all-all_matches scope h = elim (Bool-cases (is_empty scope)) [
    | inl root ↦
        rw (h, root, kids-eq [] refl)
          (walk_each-Finds (walk_find b pattern find_levels)
            (all_matches kids sigs pattern find_levels) (walk_find-all_matches find_levels)
            (kids []) [] (kids-known []) (omega arith))
    | inr inner ↦
        rw (h, inner)
          (walk_find-all_matches find_levels scope [] (ground arith) (omega arith)
            ∙ ap ok (
                ap (take find_limit)
                  (sym (append-nil (all_matches kids sigs pattern find_levels scope)))))
  ]
