-- ===== src/Json/Nested.antt =====
-- Texts in which braces and string literals are balanced, and `skip_nested_object` over them.
use tool_debug.Common.{
  ℕ, zero, suc, ◌-◌, ◌<◌, Bytes, [], ◌∷◌, ◌++◌, ◌≡◌, refl, ap, ◌∙◌, Bool, true, not, ◌||◌, ◌==◌,
  arith, length, length-append, take-append_self, append_assoc, append-nil,
}
use tool_debug.Common.Decimal.{AllDigits}
use tool_debug.Json.Builder.{quote}
use tool_debug.Json.Parser.{done, skip_nested_object, taken}
use tool_debug.Json.Strings.{parse_string_val-quote}

abbrev pub is_plain : ℕ → Bool
is_plain c = not (c == b'{' || c == b'}' || c == b'"')

pub data Balanced : Bytes → Type 0 where
  nil : Balanced []
  plain : {c : ℕ} {s : Bytes} → is_plain c ≡ true → Balanced s → Balanced (c ∷ s)
  quoted : (t : Bytes) {s : Bytes} → Balanced s → Balanced (quote t ++ s)
  braces : {inner s : Bytes} → Balanced inner → Balanced s → Balanced (b'{' ∷ (inner ++ (b'}' ∷ s)))

pub Balanced-append : {s : Bytes} (t : Bytes) → Balanced s → Balanced t → Balanced (s ++ t)
Balanced-append t nil k = k
Balanced-append t (plain p h) k = plain p (Balanced-append t h k)
Balanced-append t (quoted q {s} h) k = rw append_assoc (quoted q (Balanced-append t h k))
Balanced-append t (braces {inner} {s} i h) k = rw append_assoc (braces i (Balanced-append t h k))

pub quote-Balanced : (t : Bytes) → Balanced (quote t)
quote-Balanced t = rw append-nil at (quoted t nil)

pub digits-Balanced : (t : Bytes) → AllDigits t → Balanced t
digits-Balanced [] h = nil
digits-Balanced (c ∷ t) h = plain (let d = h.0 in ground arith) (digits-Balanced t h.1)

-- Inside a brace the scan passes over the text `v`, with fuel left for what follows.
abbrev Skips : Bytes → Type 0
Skips v =
    (f d : ℕ) (rest : Bytes)
    → length (v ++ rest) < f
    → (f' : ℕ) × (length rest < f')
      × (skip_nested_object f (suc d) (v ++ rest) ≡ skip_nested_object f' (suc d) rest)

skip_plain :
    (f d c : ℕ) (s : Bytes)
    → is_plain c ≡ true
    → skip_nested_object (suc f) (suc d) (c ∷ s) ≡ skip_nested_object f (suc d) s
unfolding skip_nested_object
skip_plain f d c s h = ground arith

skip_open :
    (f d : ℕ) (s : Bytes) → skip_nested_object (suc f) d (b'{' ∷ s) ≡ skip_nested_object f (suc d) s
unfolding skip_nested_object
skip_open f d s = ap (λ e. skip_nested_object f e s) (omega arith)

skip_close :
    (f d : ℕ) (s : Bytes)
    → skip_nested_object (suc f) (suc (suc d)) (b'}' ∷ s) ≡ skip_nested_object f (suc d) s
unfolding skip_nested_object
skip_close f d s = let e : suc (suc d) - 1 ≡ suc d = omega arith in rw e (ground arith)

skip_last : (f : ℕ) (s : Bytes) → skip_nested_object (suc f) 1 (b'}' ∷ s) ≡ done s
unfolding skip_nested_object
skip_last f s = refl

skip_quote :
    (f d : ℕ) (t s : Bytes) → skip_nested_object (suc f) d (quote t ++ s) ≡ skip_nested_object f d s
unfolding skip_nested_object quote
skip_quote f d t s =
    ap (λ (r : Bytes × Bytes). skip_nested_object f d r.1) (parse_string_val-quote t s)

length-quote : (t : Bytes) → 0 < length (quote t)
unfolding quote
length-quote t = omega arith

Skips-close :
    (s : Bytes)
    → Skips s
    → (f d : ℕ) (rest : Bytes) → length (b'}' ∷ (s ++ rest)) < f
    → (f' : ℕ) × (length rest < f')
      × (skip_nested_object f (suc (suc d)) (b'}' ∷ (s ++ rest))
          ≡ skip_nested_object f' (suc d) rest)
Skips-close s k zero d rest h = absurd (omega arith)
Skips-close s k (suc f) d rest h =
    let (f', lt, e) = k f d rest (omega arith) in (f', lt, skip_close f d (s ++ rest) ∙ e)

-- A balanced text is passed over whole, whatever stands behind it.
Balanced-Skips : {v : Bytes} → Balanced v → Skips v
Balanced-Skips nil f d rest h = (f, h, refl)
Balanced-Skips (plain p b) zero d rest h = absurd (omega arith)
Balanced-Skips (plain {c} {s} p b) (suc f) d rest h =
    let (f', lt, e) = Balanced-Skips b f d rest (omega arith) in
    (f', lt, skip_plain f d c (s ++ rest) p ∙ e)
Balanced-Skips (quoted t b) zero d rest h = absurd (omega arith)
Balanced-Skips (quoted t {s} b) (suc f) d rest h =
    let regroup = append_assoc (quote t) s rest in
    let shorter : length (s ++ rest) < f =
      omega (arith, length-quote t, ap length regroup, length-append (quote t) (s ++ rest)) in
    let (f', lt, e) = Balanced-Skips b f d rest shorter in
    (
      f',
      lt,
      ap (skip_nested_object (suc f) (suc d)) regroup ∙ skip_quote f (suc d) t (s ++ rest) ∙ e,
    )
Balanced-Skips (braces i b) zero d rest h = absurd (omega arith)
Balanced-Skips (braces {inner} {s} i b) (suc f) d rest h =
    let regroup = append_assoc inner (b'}' ∷ s) rest in
    let shorter : length (inner ++ (b'}' ∷ (s ++ rest))) < f = omega (arith, ap length regroup) in
    let (f₁, lt₁, e₁) = Balanced-Skips i f (suc d) (b'}' ∷ (s ++ rest)) shorter in
    let (f', lt, e) = Skips-close s (Balanced-Skips b) f₁ d rest lt₁ in
    (f', lt, skip_open f (suc d) _ ∙ ap (skip_nested_object f (suc (suc d))) regroup ∙ e₁ ∙ e)

-- An object's text, nested as deep as it may be, is what `skip_nested_object` steps over.
pub skip_nested_object-Balanced :
    {inner : Bytes} (rest : Bytes)
    → Balanced inner
    → let text = b'{' ∷ (inner ++ (b'}' ∷ rest)) in
      skip_nested_object (suc (length text)) 0 text ≡ done rest
skip_nested_object-Balanced {inner} rest b =
    let text = b'{' ∷ (inner ++ (b'}' ∷ rest)) in
    let (f', lt, e) = Balanced-Skips b (length text) 0 (b'}' ∷ rest) (omega arith) in
    skip_open (length text) 0 _ ∙ e ∙ last f' lt
  where
    last : (f : ℕ) → length (b'}' ∷ rest) < f → skip_nested_object f 1 (b'}' ∷ rest) ≡ done rest
    last zero h = absurd (omega arith)
    last (suc f) h = skip_last f rest

pub taken-append : (s rest : Bytes) → taken (s ++ rest) rest ≡ s
taken-append s rest =
    let e : length (s ++ rest) - length rest ≡ length s = omega (arith, length-append s rest) in
    rw e (take-append_self s rest)
