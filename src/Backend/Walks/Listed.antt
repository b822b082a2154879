-- ===== src/Backend/Walks/Listed.antt =====
-- What WaveBackend::scopes lists below a scope.
use Prim.Native.Nat.{max}
use tool_debug.Common.{
  ℕ, zero, suc, ◌+◌, ◌-◌, ◌≤◌, ◌<◌, ◌≡◌, refl, ap, sym, ◌∙◌, ◌⊎◌, Bytes, List, [], ◌∷◌, ◌++◌,
  append_assoc, append-nil, true, false, leb, leb→le, is_empty, length, length-append, All, arith,
  Bool-cases, inl, inr,
}
use tool_debug.Backend.{Result, ok, WaveBackend}
use tool_debug.Backend.Walks.{flat_map, scopes_limit, walk_children, walk_scopes, scopes, is_parent}

-- The scopes in the first levels below a scope, parents first.
unfoldable pub subtree : (Bytes → List Bytes) → ℕ → Bytes → List Bytes
subtree kids zero scope = []
subtree kids (suc n) scope = flat_map (λ child. child ∷ subtree kids n child) (kids scope)

-- `result` continues `start` by a front of `whole`, which is all of it unless the limit is reached.
abbrev pub IsFront : List Bytes → List Bytes → List Bytes → Type 0
IsFront whole start result =
    (out : List Bytes) × (rest : List Bytes) × (result ≡ start ++ out)
    × (out ++ rest ≡ whole)
    × ((rest ≡ []) ⊎ (scopes_limit ≤ length result))

-- A walk that adds a front, and `m` names at most where the list is full but for one.
abbrev Lists : ℕ → Result (List Bytes) → List Bytes → List Bytes → Type 0
Lists m walked whole start =
    (result : List Bytes) × (walked ≡ ok result)
    × IsFront whole start result
    × (length result ≤ max (scopes_limit - 1) (length start) + m)

one_less : (n : ℕ) → suc n - 1 ≡ n
one_less n = omega arith

leb_false→lt : (a b : ℕ) → leb a b ≡ false → b < a
leb_false→lt a b h = ground arith

-- What is listed is all, where the limit is not reached.
whole_below :
    (o r whole mid : List Bytes)
    → o ++ r ≡ whole
    → (r ≡ []) ⊎ (scopes_limit ≤ length mid)
    → leb scopes_limit (length mid) ≡ false
    → o ≡ whole
whole_below o r whole mid w (inl e) h = sym (append-nil o) ∙ ap (◌++◌ o) (sym e) ∙ w
whole_below o r whole mid w (inr k) h =
    absurd (let low = leb_false→lt scopes_limit (length mid) h in omega arith)

append_one :
    (start : List Bytes) (child : Bytes) (o1 o2 : List Bytes)
    → ((start ++ child ∷ []) ++ o1) ++ o2 ≡ start ++ (child ∷ (o1 ++ o2))
append_one start child o1 o2 =
    append_assoc (start ++ child ∷ []) o1 o2 ∙ append_assoc start (child ∷ []) (o1 ++ o2)

module _ (m : ℕ) (descend : Bytes → List Bytes → Result (List Bytes)) (below : Bytes → List Bytes)
    (known : Bytes → Type 0)
    (ih : (child : Bytes) (start : List Bytes)
      → is_empty child ≡ false
      → known child
      → Lists m (descend child start) (below child) start)
    (parent : Bytes) (named : is_empty parent ≡ false) where
  walk_children-Lists :
      (tops start : List Bytes)
      → All (λ c. is_empty c ≡ false) tops
      → All known tops
      → Lists
          (suc m)
          (walk_children descend parent tops start)
          (flat_map (λ child. child ∷ below child) tops)
          start
  unfolding walk_children scopes_limit
  walk_children-Lists [] start a k =
      (start, refl, ([], [], sym (append-nil start), refl, inl refl), omega arith)
  walk_children-Lists (child ∷ rest) start a k =
      let (mid, e, (o1, r1, e1, w1, d1), k1) = ih child (start ++ child ∷ []) a.0 k.0 in
      let grown = length-append start (child ∷ []) in
      let others = flat_map (λ c. c ∷ below c) rest in
      elim (Bool-cases (leb scopes_limit (length mid))) [
        | inl full ↦
            let listed = sym (append_assoc o1 r1 others) ∙ ap (λ x. x ++ others) w1 in
            (
              mid,
              rw (e, named, full) refl,
              (
                child ∷ o1,
                r1 ++ others,
                e1 ∙ append_assoc start (child ∷ []) o1,
                ap (◌∷◌ child) listed,
                inr (leb→le 500 (length mid) full),
              ),
              omega arith,
            )
        | inr more ↦
            let (end, e2, (o2, r2, e3, w2, d2), k2) = walk_children-Lists rest mid a.1 k.1 in
            let room = leb_false→lt 500 (length mid) more in
            let done_below = whole_below o1 r1 (below child) mid w1 d1 more in
            let listed =
              append_assoc o1 o2 r2 ∙ ap (◌++◌ o1) w2 ∙ ap (λ x. x ++ others) done_below in
            (
              end,
              rw (e, named, more) e2,
              (
                child ∷ (o1 ++ o2),
                r2,
                e3 ∙ ap (λ x. x ++ o2) e1 ∙ append_one start child o1 o2,
                ap (◌∷◌ child) listed,
                d2,
              ),
              omega arith,
            )
      ]

module _ (b : WaveBackend) (kids : Bytes → List Bytes)
    (kids-eq : (p : Bytes) → is_parent b p ≡ true → b.children p ≡ ok (kids p))
    (kids-known : (p : Bytes) → All (λ c. b.has_scope c ≡ true) (kids p))
    (kids-named : (p : Bytes) → All (λ c. is_empty c ≡ false) (kids p)) where
  walk_scopes-Lists :
      (n : ℕ) (parent : Bytes) (start : List Bytes)
      → is_empty parent ≡ false
      → b.has_scope parent ≡ true
      → Lists (suc n) (walk_scopes b n parent start) (subtree kids (suc n) parent) start
  unfolding walk_scopes subtree
  walk_scopes-Lists zero parent start named there = rw (kids-eq parent (ground arith)) (
      walk_children-Lists 0 (λ child result. ok result) (λ child. [])
        (λ child. b.has_scope child ≡ true)
        (λ child r h k. (r, refl, ([], [], sym (append-nil r), refl, inl refl), omega arith)) parent
        named (kids parent) start (kids-named parent) (kids-known parent))
  walk_scopes-Lists (suc n) parent start named there = rw (kids-eq parent (ground arith)) (
      walk_children-Lists (suc n) (walk_scopes b n) (subtree kids (suc n))
        (λ child. b.has_scope child ≡ true) (λ child r h k. walk_scopes-Lists n child r h k) parent
        named (kids parent) start (kids-named parent) (kids-known parent))

  -- `scopes` below a scope of the design lists a front of its subtree to the depth, all of it
  -- unless 500 names are reached, and never more than 499 and the depth, where the backend
  -- answers for the root and every scope of the design, and its children are scopes of the design
  -- and have no empty name.
  pub scopes-subtree :
      (path : Bytes) (depth : ℕ)
      → is_empty path ≡ false
      → b.has_scope path ≡ true
      → 0 < depth
      → (result : List Bytes) × (rest : List Bytes) × (scopes b path depth ≡ ok result)
        × (result ++ rest ≡ subtree kids depth path)
        × ((rest ≡ []) ⊎ (500 ≤ length result))
        × (length result ≤ 499 + depth)
  unfolding scopes scopes_limit
  scopes-subtree path zero named there h = absurd (omega arith)
  scopes-subtree path (suc n) named there h =
      let (result, e, (out, rest, same, whole, cut), bound) =
        walk_scopes-Lists n path [] named there in
      (
        result,
        rest,
        rw (named, there, one_less n) e,
        ap (λ x. x ++ rest) same ∙ whole,
        cut,
        omega arith,
      )
