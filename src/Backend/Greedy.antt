-- ===== src/Backend/Greedy.antt =====
-- The loop of `wildcard_match`, which remembers one star only, decides what the pattern matches.
use tool_debug.Common.{
  zero, suc, ◌<◌, subst, ℕ, ◌+◌, ◌*◌, ◌≤◌, Bytes, [], ◌∷◌, ◌++◌, ◌≡◌, refl, ap, sym, ◌∙◌, Bool,
  true, false, ◌||◌, Option, none, some, ◌==◌, length, length-append, arith, append_assoc,
  Bool-cases, inl, inr,
}
use tool_debug.Backend.{wildcard_run, retry_star, done, match_loop, fits, only_stars}
use tool_debug.Backend.Glob.{
  one_then, Starless-append, any_suffix, glob, Starless, any_suffix-append, any_suffix→split,
  glob-Starless, suffix_of,
}

Star : Type 0
Star = Option (Bytes × Bytes)

-- What the remembered star may still match.
abbrev alt : Option (Bytes × Bytes) → Bool
alt none = false
alt (some (sp, [])) = false
alt (some (sp, e ∷ st)) = any_suffix (glob sp) st

-- Behind the star, a starless piece of the pattern has taken as many bytes of the text.
record Held (p t sp st : Bytes) : Type 0 where
  piece : Bytes
  eaten : Bytes
  pattern_is : sp ≡ piece ++ p
  text_is : st ≡ eaten ++ t
  starless : Starless piece
  same_length : length eaten ≡ length piece

abbrev Inv : Bytes → Bytes → Option (Bytes × Bytes) → Type 0
Inv p t none = Unit
Inv p t (some (sp, st)) = Held p t sp st × Starless st

absorb :
    (p t sp st : Bytes) (e : ℕ)
    → Held p t sp (e ∷ st)
    → any_suffix (glob sp) st ≡ true
    → (b z : Bytes) × (t ≡ b ++ z) × (glob p z ≡ true)
absorb p t sp st e h k =
    let (a, v, e₁, k₁) = any_suffix→split (glob sp) st k in
    let (y, z, e₂, l, k₂) =
      glob-Starless h.piece p v h.starless (subst (λ q. glob q v ≡ true) h.pattern_is k₁) in
    let whole : h.eaten ++ t ≡ (e ∷ (a ++ y)) ++ z =
      sym h.text_is ∙ ap (◌∷◌ e) (e₁ ∙ ap (λ r. a ++ r) e₂ ∙ sym (append_assoc a y z)) in
    let (b, e₃) =
      suffix_of h.eaten t (e ∷ (a ++ y)) z whole
        (omega (arith, l, h.same_length, length-append a y)) in
    (b, z, e₃, k₂)

-- The old star gives nothing that a newer one does not give.
absorb_star :
    (c : ℕ) (p t sp st : Bytes)
    → (c == b'*') ≡ true
    → Held (c ∷ p) t sp st
    → alt (some (sp, st)) ≡ true
    → any_suffix (glob p) t ≡ true
absorb_star c p t sp [] n h k = cc
absorb_star c p t sp (e ∷ st) n h k =
    let (b, z, e₁, k₁) = absorb (c ∷ p) t sp st e h k in
    let found : any_suffix (glob p) z ≡ true = unfold glob in ground arith in
    rw e₁ (any_suffix-append (glob p) b z found)

-- At the end of the text a star behind which a piece was taken cannot match.
absorb_end : (p sp st : Bytes) → Held p [] sp st → alt (some (sp, st)) ≡ false
absorb_end p sp [] h = refl
absorb_end p sp (e ∷ st) h = elim (Bool-cases (any_suffix (glob sp) st)) [
  | inr no_match ↦ no_match
  | inl k ↦
      let (a, v, e₁, k₁) = any_suffix→split (glob sp) st k in
      let (y, z, e₂, l, k₂) =
        glob-Starless h.piece p v h.starless (subst (λ q. glob q v ≡ true) h.pattern_is k₁) in
      absurd (
        omega (
          arith,
          l,
          h.same_length,
          ap length h.text_is,
          ap length e₁,
          ap length e₂,
          length-append a v,
          length-append y z,
          length-append h.eaten [],
        ))
]

glob_nil-only_stars : (p : Bytes) → glob p [] ≡ only_stars p
unfolding glob only_stars
glob_nil-only_stars [] = refl
glob_nil-only_stars (c ∷ p) = ground (arith, glob_nil-only_stars p)

any_suffix-alt : (sp st : Bytes) → glob sp st || alt (some (sp, st)) ≡ any_suffix (glob sp) st
unfolding any_suffix
any_suffix-alt sp [] = ground arith
any_suffix-alt sp (d ∷ st) = refl

abbrev pub weight : ℕ → Bytes → Bytes → Option (Bytes × Bytes) → ℕ
weight n p t none = length t * (n + 1) + length p
weight n p t (some (sp, st)) = length st * (n + 1) + length p

abbrev pub Small : ℕ → Bytes → Option (Bytes × Bytes) → Type 0
Small n p none = length p ≤ n
Small n p (some (sp, st)) = (length p ≤ n) × (length sp ≤ n)

-- The three kinds of step keep the invariant.
Held-step :
    (c d : ℕ) (p t sp st : Bytes)
    → (c == b'*') ≡ false
    → Held (c ∷ p) (d ∷ t) sp st
    → Held p t sp st
Held-step c d p t sp st n h = record {
  piece = h.piece ++ c ∷ [];
  eaten = h.eaten ++ d ∷ [];
  pattern_is = h.pattern_is ∙ sym (append_assoc h.piece (c ∷ []) p);
  text_is = h.text_is ∙ sym (append_assoc h.eaten (d ∷ []) t);
  starless = Starless-append h.piece (c ∷ []) h.starless (n, tt);
  same_length =
      omega (arith, h.same_length, length-append h.piece (c ∷ []), length-append h.eaten (d ∷ []));
}

Held-fresh : (p t : Bytes) → Held p t p t
Held-fresh p t = record {
  piece = [];
  eaten = [];
  pattern_is = refl;
  text_is = refl;
  starless = tt;
  same_length = refl;
}

abbrev Correct : ℕ → ℕ → Type 0
Correct n f =
    (p t : Bytes) (star : Option (Bytes × Bytes))
    → Small n p star
    → weight n p t star < f
    → Starless t
    → Inv p t star
    → match_loop f p t star ≡ done (glob p t || alt star)

module _ (n f : ℕ) (ih : Correct n f) where
  retry_star-alt :
      (p t : Bytes) (star : Option (Bytes × Bytes))
      → Small n p star
      → weight n p t star < suc f
      → Inv p t star
      → retry_star (match_loop f) star ≡ done (alt star)
  retry_star-alt p t none s w i = refl
  retry_star-alt p t (some (sp, [])) s w i = refl
  retry_star-alt p t (some (sp, e ∷ retry)) s w i =
      ih sp retry (some (sp, retry)) (s.1, s.1) (omega arith) i.1.1 (Held-fresh sp retry, i.1.1)
      ∙ ap done (any_suffix-alt sp retry)

  step_one :
      (c d : ℕ) (p t : Bytes) (star : Option (Bytes × Bytes))
      → fits c d ≡ true
      → (c == b'*') ≡ false
      → Small n (c ∷ p) star
      → weight n (c ∷ p) (d ∷ t) star < suc f
      → Starless (d ∷ t)
      → Inv (c ∷ p) (d ∷ t) star
      → match_loop f p t star ≡ done (glob (c ∷ p) (d ∷ t) || alt star)
  step_one c d p t none fit plain s w clean i =
      ih p t none (omega arith) (omega arith) clean.1 tt ∙ (unfold glob in rw (plain, fit))
  step_one c d p t (some (sp, st)) fit plain s w clean i =
      ih p t (some (sp, st)) (omega arith) (omega arith) clean.1
        (Held-step c d p t sp st plain i.0, i.1)
      ∙ (unfold glob in rw (plain, fit))

  step_star :
      (c d : ℕ) (p t : Bytes) (star : Option (Bytes × Bytes))
      → (c == b'*') ≡ true
      → Small n (c ∷ p) star
      → weight n (c ∷ p) (d ∷ t) star < suc f
      → Starless (d ∷ t)
      → Inv (c ∷ p) (d ∷ t) star
      → match_loop f p (d ∷ t) (some (p, d ∷ t)) ≡ done (glob (c ∷ p) (d ∷ t) || alt star)
  step_star c d p t none is_star s w clean i =
      ih p (d ∷ t) (some (p, d ∷ t)) (omega arith, omega arith) (omega arith) clean
        (Held-fresh p (d ∷ t), clean)
      ∙ (unfold glob any_suffix in ground arith)
  step_star c d p t (some (sp, st)) is_star s w clean i =
      let longer : length st ≡ length i.0.eaten + length (d ∷ t) =
        ap length i.0.text_is ∙ length-append i.0.eaten (d ∷ t) in
      let lighter : length (d ∷ t) * (n + 1) + length p < f =
        omega (arith, ap (λ (v : ℕ). v * (n + 1)) longer) in
      ih p (d ∷ t) (some (p, d ∷ t)) (omega arith, omega arith) lighter clean
        (Held-fresh p (d ∷ t), clean)
      ∙ (unfold glob any_suffix in ground (arith, absorb_star c p (d ∷ t) sp st is_star i.0))

alt_end : (p : Bytes) (star : Option (Bytes × Bytes)) → Inv p [] star → alt star ≡ false
alt_end p none i = refl
alt_end p (some (sp, st)) i = absorb_end p sp st i.0

fits-plain : (c d : ℕ) → fits c d ≡ true → (d == b'*') ≡ false → (c == b'*') ≡ false
fits-plain c d h k = ground arith

match_loop-Correct : (f n : ℕ) → Correct n f
unfolding match_loop
match_loop-Correct zero n p t star s w clean i = absurd (weighs n p t star w)
  where
    weighs : (n : ℕ) (p t : Bytes) (star : Option (Bytes × Bytes)) → weight n p t star < 0 → ⊥
    weighs n p t none w = omega arith
    weighs n p t (some (sp, st)) w = omega arith
match_loop-Correct (suc f) n p [] star s w clean i =
    rw (alt_end p star i, glob_nil-only_stars) (ground arith)
match_loop-Correct (suc f) n [] (d ∷ t) star s w clean i =
    retry_star-alt n f (match_loop-Correct f n) [] (d ∷ t) star s w i ∙ (unfold glob in refl)
match_loop-Correct (suc f) n (c ∷ p) (d ∷ t) star s w clean i =
    let ih = match_loop-Correct f n in
    elim (Bool-cases (fits c d)) [
      | inl fit ↦ rw fit (step_one n f ih c d p t star fit (fits-plain c d fit clean.0) s w clean i)
      | inr unfit ↦ elim (Bool-cases (c == b'*')) [
        | inl is_star ↦ rw (unfit, is_star) (step_star n f ih c d p t star is_star s w clean i)
        | inr plain ↦
            rw (unfit, plain)
              (retry_star-alt n f ih (c ∷ p) (d ∷ t) star s w i
                ∙ (unfold glob one_then in ground arith))
      ]
    ]

-- For a text without a star, the greedy loop ends and decides whether the pattern matches.
pub wildcard_run-glob :
    (pattern text : Bytes) → Starless text → wildcard_run pattern text ≡ done (glob pattern text)
unfolding wildcard_run
wildcard_run-glob pattern text clean =
    match_loop-Correct (suc ((length text + 1) * (length pattern + 1))) (length pattern) pattern
      text none (omega arith) (omega arith) clean tt
    ∙ ap done (ground arith)
