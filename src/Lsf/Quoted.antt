-- ===== src/Lsf/Quoted.antt =====
-- The search for the field of the process id in a text with quoted strings.
use tool_debug.Common.{
  behind, ◌⊎◌, ℕ, Bytes, codes, [], ◌∷◌, ◌++◌, ◌≡◌, refl, inl, inr, ◌==◌, false, none, some, All,
  arith, Bool-cases,
}
use tool_debug.Lsf.{find, pid_key}
use tool_debug.Lsf.Find.{find-skip}
use tool_debug.Json.Builder.{quote_byte, quote_body}

quote_byte-cases :
    (c : ℕ)
    → ((quote_byte c ≡ c ∷ []) × ((b'"' == c) ≡ false))
      ⊎ ((d : ℕ) × (quote_byte c ≡ b'\\' ∷ (d ∷ [])))
unfolding quote_byte
quote_byte-cases c = elim (Bool-cases (c == b'"')) [
  | inl e ↦ rw e (inr (b'"', refl))
  | inr n ↦
      let other : (b'"' == c) ≡ false = ground arith in
      rw n (elim (Bool-cases (c == b'\\')) [
        | inl e ↦ rw e (inr (b'\\', refl))
        | inr n₂ ↦ rw n₂ (elim (Bool-cases (c == b'\n')) [
          | inl e ↦ rw e (inr (b'n', refl))
          | inr n₃ ↦ rw n₃ (elim (Bool-cases (c == b'\t')) [
            | inl e ↦ rw e (inr (b't', refl))
            | inr n₄ ↦ rw n₄ (inl (refl, other))
          ])
        ])
      ])
]

-- The letters of a key, which are written as they are.
abbrev pub IsLetters : Bytes → Type 0
IsLetters = All (λ c. ((c == b'"') ≡ false) × ((c == b'\\') ≡ false))

-- The text of a string value ends before it shows the end of a key.
pub behind-quote_body :
    (letters s rest : Bytes)
    → IsLetters letters
    → behind (letters ++ codes "\":") (quote_body s ++ b'"' ∷ (b',' ∷ rest)) ≡ none
unfolding behind quote_body
behind-quote_body [] [] rest h = refl
behind-quote_body (l ∷ letters) [] rest h = rw h.0.0 refl
behind-quote_body [] (c ∷ s) rest h = elim (quote_byte-cases c) [
  | inl (e, other) ↦ rw (e, other) refl
  | inr (d, e) ↦ rw e refl
]
behind-quote_body (l ∷ letters) (c ∷ s) rest h = elim (quote_byte-cases c) [
  | inl (e, other) ↦ rw e (elim (Bool-cases (l == c)) [
    | inl same ↦ rw same (behind-quote_body letters s rest h.1)
    | inr differs ↦ rw differs refl
  ])
  | inr (d, e) ↦ rw (e, h.0.1) refl
]

pub pid-IsLetters : IsLetters (codes "pid")
pid-IsLetters = ((refl, refl), ((refl, refl), ((refl, refl), tt)))

-- A byte with no key behind it is stepped over.
find-step :
    (d : ℕ) (text before after : Bytes)
    → behind (codes "pid\":") text ≡ none
    → find pid_key text ≡ some (before, after)
    → find pid_key (d ∷ text) ≡ some (d ∷ before, after)
unfolding find behind
find-step d text before after h e = elim (Bool-cases (b'"' == d)) [
  | inl same ↦ rw (same, h, e) refl
  | inr other ↦ rw (other, e) refl
]

pub find-quote_body :
    (s rest before after : Bytes)
    → find pid_key (b'"' ∷ (b',' ∷ rest)) ≡ some (before, after)
    → find pid_key (quote_body s ++ b'"' ∷ (b',' ∷ rest)) ≡ some (quote_body s ++ before, after)
unfolding quote_body
find-quote_body [] rest before after e = e
find-quote_body (c ∷ s) rest before after e =
    let later = find-quote_body s rest before after e in
    let none_here = behind-quote_body (codes "pid") s rest pid-IsLetters in
    elim (quote_byte-cases c) [
      | inl (plain, other) ↦ rw plain (find-step c _ _ after none_here later)
      | inr (d, escape) ↦ rw escape (
          find-skip b'"' (codes "pid\":") (b'\\' ∷ []) (d ∷ (quote_body s ++ b'"' ∷ (b',' ∷ rest)))
            (d ∷ (quote_body s ++ before)) after (refl, tt) (find-step d _ _ after none_here later))
    ]
