-- ===== src/Backend/Termination.antt =====
-- The loop of `wildcard_match` ends on every pattern and text, stars in the text included.
use tool_debug.Common.{
  ℕ, zero, suc, ◌+◌, ◌*◌, ◌≤◌, ◌<◌, Bytes, codes, [], ◌∷◌, ◌≡◌, refl, Bool, true, false, Option,
  none, some, ◌==◌, length, arith,
}
use tool_debug.Common.Run.{done, Ends, Ends-done, split}
use tool_debug.Backend.{fits, retry_star, match_loop, wildcard_run}
use tool_debug.Backend.Glob.{any_suffix, glob}
use tool_debug.Backend.Greedy.{weight, Small}

-- The retried text is no shorter than the text at hand.
abbrev Longer : Bytes → Option (Bytes × Bytes) → Type 0
Longer t none = Unit
Longer t (some (sp, st)) = length t ≤ length st

scaled : (n a b : ℕ) → a ≤ b → a * (n + 1) ≤ b * (n + 1)
scaled n a b h = grind arith

abbrev EndsBelow : ℕ → ℕ → Type 0
EndsBelow n f =
    (p t : Bytes) (star : Option (Bytes × Bytes))
    → Small n p star
    → weight n p t star < f
    → Longer t star
    → Ends (match_loop f p t star)

module _ (n f : ℕ) (ih : EndsBelow n f) where
  retry_star-Ends :
      (p t : Bytes) (star : Option (Bytes × Bytes))
      → Small n p star
      → weight n p t star < suc f
      → Ends (retry_star (match_loop f) star)
  retry_star-Ends p t none s w = tt
  retry_star-Ends p t (some (sp, [])) s w = tt
  retry_star-Ends p t (some (sp, e ∷ retry)) s w =
      ih sp retry (some (sp, retry)) (s.1, s.1) (omega arith) (omega arith)

  one-Ends :
      (c d : ℕ) (p t : Bytes) (star : Option (Bytes × Bytes))
      → Small n (c ∷ p) star
      → weight n (c ∷ p) (d ∷ t) star < suc f
      → Longer (d ∷ t) star
      → Ends (match_loop f p t star)
  one-Ends c d p t none s w l = ih p t none (omega arith) (omega arith) tt
  one-Ends c d p t (some (sp, st)) s w l =
      ih p t (some (sp, st)) (omega arith) (omega arith) (omega arith)

  star-Ends :
      (c d : ℕ) (p t : Bytes) (star : Option (Bytes × Bytes))
      → Small n (c ∷ p) star
      → weight n (c ∷ p) (d ∷ t) star < suc f
      → Longer (d ∷ t) star
      → Ends (match_loop f p (d ∷ t) (some (p, d ∷ t)))
  star-Ends c d p t none s w l =
      ih p (d ∷ t) (some (p, d ∷ t)) (omega arith, omega arith) (omega arith) (omega arith)
  star-Ends c d p t (some (sp, st)) s w l =
      ih p (d ∷ t) (some (p, d ∷ t)) (omega arith, omega arith)
        (omega (arith, scaled n (length (d ∷ t)) (length st) l)) (omega arith)

match_loop-EndsBelow : (f n : ℕ) → EndsBelow n f
unfolding match_loop
match_loop-EndsBelow zero n p t none s w l = absurd (omega arith)
match_loop-EndsBelow zero n p t (some (sp, st)) s w l = absurd (omega arith)
match_loop-EndsBelow (suc f) n p [] star s w l = tt
match_loop-EndsBelow (suc f) n [] (d ∷ t) star s w l =
    retry_star-Ends n f (match_loop-EndsBelow f n) [] (d ∷ t) star s w
match_loop-EndsBelow (suc f) n (c ∷ p) (d ∷ t) star s w l =
    let ih = match_loop-EndsBelow f n in
    let P = Ends {A = Bool} in
    split P (fits c d) (λ _. one-Ends n f ih c d p t star s w l)
      (λ _.
        split P (c == b'*') (λ _. star-Ends n f ih c d p t star s w l)
          (λ _. retry_star-Ends n f ih (c ∷ p) (d ∷ t) star s w))

-- `wildcard_match` returns on every pattern and text.
pub wildcard_run_total : (pattern text : Bytes) → (b : Bool) × (wildcard_run pattern text ≡ done b)
unfolding wildcard_run
wildcard_run_total pattern text =
    let enough : length text * (length pattern + 1) + length pattern
        < suc ((length text + 1) * (length pattern + 1)) =
      omega arith in
    Ends-done _ (
      match_loop-EndsBelow (suc ((length text + 1) * (length pattern + 1))) (length pattern) pattern
        text none (omega arith) enough tt)

literal_star :
    (f d : ℕ) (text : Bytes)
    → 1 < f
    → match_loop (suc f) (codes "*") (b'*' ∷ d ∷ text) none ≡ done false
unfolding match_loop
literal_star zero d text h = absurd (omega arith)
literal_star (suc zero) d text h = absurd (omega arith)
literal_star (suc (suc f)) d text h = refl

any_suffix-nil : (t : Bytes) → any_suffix (glob []) t ≡ true
unfolding any_suffix glob
any_suffix-nil [] = refl
any_suffix-nil (d ∷ t) = any_suffix-nil t

-- The pattern `*` refuses every text of two bytes or more that begins with a star: the loop takes
-- the star of the pattern for a literal. What the pattern means matches every text.
pub wildcard_run_star :
    (d : ℕ) (text : Bytes)
    → (wildcard_run (codes "*") (b'*' ∷ d ∷ text) ≡ done false)
      × (glob (codes "*") (b'*' ∷ d ∷ text) ≡ true)
unfolding wildcard_run
wildcard_run_star d text = (
  literal_star ((length (b'*' ∷ d ∷ text) + 1) * (length (codes "*") + 1)) d text (omega arith),
  (unfold glob in any_suffix-nil (b'*' ∷ d ∷ text)),
)
