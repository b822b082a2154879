-- ===== src/Lsf/Find.antt =====
-- What std::string::find gives: the first occurrence, which what stands behind it does not change.
use tool_debug.Common.{
  behind, ◌⊎◌, ℕ, ◌≤◌, Bytes, [], ◌∷◌, ◌++◌, append_assoc, false, Option, none, some, ◌≡◌, refl, ap,
  sym, ◌∙◌, ◌==◌, ==_iff, length, length-append, All, arith, Bool-cases, inl, inr,
}
use tool_debug.Lsf.{here_or, find}

pub behind-append : (key text : Bytes) → behind key (key ++ text) ≡ some text
unfolding behind
behind-append [] text = refl
behind-append (k ∷ key) text = rw ((==_iff k k).1 refl) (behind-append key text)

-- Whether a text begins with a key is seen in as many bytes.
behind-none :
    (key front a b : Bytes)
    → length key ≤ length front
    → behind key (front ++ a) ≡ none
    → behind key (front ++ b) ≡ none
unfolding behind
behind-none [] front a b h e = absurd cc
behind-none (k ∷ key) [] a b h e = absurd (omega arith)
behind-none (k ∷ key) (c ∷ front) a b h e = elim (Bool-cases (k == c)) [
  | inl same ↦ rw same (behind-none key front a b (omega arith) (rw same at e))
  | inr other ↦ rw other refl
]

-- A byte that the key does not begin with is stepped over.
pub find-skip :
    (k : ℕ) (key front text before after : Bytes)
    → All (λ c. (k == c) ≡ false) front
    → find (k ∷ key) text ≡ some (before, after)
    → find (k ∷ key) (front ++ text) ≡ some (front ++ before, after)
unfolding find
find-skip k key [] text before after h e = e
find-skip k key (c ∷ front) text before after h e =
    let other : behind (k ∷ key) (c ∷ (front ++ text)) ≡ none = unfold behind in rw h.0 refl in
    rw (other, find-skip k key front text before after h.1 e) refl

here_or-some :
    (c : ℕ) (o : Option Bytes) (later : Option (Bytes × Bytes)) (before after : Bytes)
    → here_or c o later ≡ some (before, after)
    → ((before ≡ []) × (o ≡ some after))
      ⊎ ((rest : Bytes) × (before ≡ c ∷ rest) × (o ≡ none) × (later ≡ some (rest, after)))
here_or-some c (some t) later before after e = inl (cc, cc)
here_or-some c none none before after e = absurd cc
here_or-some c none (some (rest, t)) before after e = inr (rest, cc, refl, cc)

find-here : (k : ℕ) (key text : Bytes) → find (k ∷ key) (k ∷ (key ++ text)) ≡ some ([], text)
unfolding find
find-here k key text = rw (behind-append (k ∷ key) text) refl

behind-split : (key text after : Bytes) → behind key text ≡ some after → text ≡ key ++ after
unfolding behind
behind-split [] text after e = cc
behind-split (k ∷ key) [] after e = absurd cc
behind-split (k ∷ key) (c ∷ text) after e = elim (Bool-cases (k == c)) [
  | inl same ↦
      ap (◌∷◌ c) (behind-split key text after (rw same at e))
      ∙ ap (λ x. x ∷ (key ++ after)) (sym ((==_iff k c).0 same))
  | inr other ↦ absurd (let missed = rw other at e in cc)
]

missed_too :
    (k : ℕ) (key : Bytes) (c : ℕ) (before after other : Bytes)
    → behind (k ∷ key) (c ∷ (before ++ k ∷ (key ++ after))) ≡ none
    → behind (k ∷ key) (c ∷ (before ++ k ∷ (key ++ other))) ≡ none
missed_too k key c before after other missed =
    let size = length-append before (k ∷ key) in
    ap (λ x. behind (k ∷ key) (c ∷ x)) (sym (append_assoc before (k ∷ key) other))
    ∙ behind-none (k ∷ key) (c ∷ (before ++ k ∷ key)) after other (omega arith)
        (ap (λ x. behind (k ∷ key) (c ∷ x)) (append_assoc before (k ∷ key) after) ∙ missed)

-- The first occurrence of a key stays the first, whatever stands behind it.
pub find-again :
    (k : ℕ) (key before after other : Bytes)
    → find (k ∷ key) (before ++ (k ∷ (key ++ after))) ≡ some (before, after)
    → find (k ∷ key) (before ++ (k ∷ (key ++ other))) ≡ some (before, other)
unfolding find
find-again k key [] after other e = find-here k key other
find-again k key (c ∷ before) after other e =
    elim (here_or-some c (behind (k ∷ key) (c ∷ (before ++ k ∷ (key ++ after))))
      (find (k ∷ key) (before ++ k ∷ (key ++ after))) (c ∷ before) after e) [
        | inl (start, hit) ↦ absurd cc
        | inr (rest, begins, missed, hit) ↦
            let same : before ≡ rest = cc in
            let found = hit ∙ ap (λ x. some (x, after)) (sym same) in
            rw
              (
                missed_too k key c before after other missed,
                find-again k key before after other found,
              )
              refl
      ]

pub find-split :
    (k : ℕ) (key text before after : Bytes)
    → find (k ∷ key) text ≡ some (before, after)
    → text ≡ before ++ (k ∷ (key ++ after))
unfolding find
find-split k key [] before after e = absurd cc
find-split k key (c ∷ text) before after e =
    elim (here_or-some c (behind (k ∷ key) (c ∷ text)) (find (k ∷ key) text) before after e) [
      | inl (start, hit) ↦
          behind-split (k ∷ key) (c ∷ text) after hit
          ∙ sym (ap (λ x. x ++ k ∷ (key ++ after)) start)
      | inr (rest, begins, missed, hit) ↦
          ap (◌∷◌ c) (find-split k key text rest after hit)
          ∙ sym (ap (λ x. x ++ k ∷ (key ++ after)) begins)
    ]
