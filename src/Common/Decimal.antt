-- ===== src/Common/Decimal.antt =====
-- std::to_string(int64_t) and std::strtoll(…, 10), with the latter's saturation at both ends.
use Prim.Native.Nat.{◌≤◌, ℕ, zero, suc, ◌+◌, ◌-◌, ◌*◌, ◌/◌, ◌%◌, ◌^◌, ◌<◌}
use mathlib.Core.Bool.{true, false}
use mathlib.Core.List.{[], ◌∷◌, ◌++◌, concat-ne-nil}
use mathlib.Core.Logic.{◌≢◌, inl, inr}
use mathlib.Core.Path.{◌≡◌, refl, ap, ◌∙◌}
use native.Mathlib.Omega.{arith}
use tool_debug.Common.Int.{ℤ, pos, negsuc, IsInt64}
use tool_debug.Common.Lists.{All}
use tool_debug.Common.Tests.{◌==◌, ltb, if◌then◌else◌, Bool-cases}
use tool_debug.Common.Text.{Bytes, is_space, is_digit}

-- The fuel is more than the number, which falls by a factor of ten in each round.
decimal_fuel : ℕ → ℕ → Bytes
decimal_fuel zero n = []
decimal_fuel (suc f) n =
    let higher = decimal_fuel f (n / 10) in
    if ltb n 10 then (n + b'0') ∷ [] else higher ++ (n % 10 + b'0') ∷ []

unfoldable pub decimal : ℕ → Bytes
unfolding decimal_fuel
decimal n = decimal_fuel (suc n) n

unfoldable pub to_string : ℤ → Bytes
unfolding decimal
to_string (pos n) = decimal n
to_string (negsuc n) = b'-' ∷ decimal (suc n)

-- The digits at the front of the text, onto what was read before.
read_digits : ℕ → Bytes → ℕ
read_digits acc [] = acc
read_digits acc (c ∷ cs) = if is_digit c then read_digits (acc * 10 + (c - b'0')) cs else acc

abbrev clamp_pos : ℕ → ℤ
clamp_pos n = if ltb n (2 ^ 63) then pos n else pos (2 ^ 63 - 1)

abbrev clamp_neg : ℕ → ℤ
clamp_neg zero = pos 0
clamp_neg (suc n) = if ltb n (2 ^ 63) then negsuc n else negsuc (2 ^ 63 - 1)

read_signed : Bytes → ℤ
read_signed [] = pos 0
read_signed (c ∷ cs) =
    if c == b'-'
    then clamp_neg (read_digits 0 cs)
    else if c == b'+'
    then clamp_pos (read_digits 0 cs)
    else clamp_pos (read_digits 0 (c ∷ cs))

unfoldable pub strtoll : Bytes → ℤ
unfolding read_digits read_signed
strtoll [] = pos 0
strtoll (c ∷ cs) = if is_space c then strtoll cs else read_signed (c ∷ cs)

abbrev pub AllDigits : Bytes → Type 0
AllDigits = All (λ c. is_digit c ≡ true)

AllDigits-append : (xs ys : Bytes) → AllDigits xs → AllDigits ys → AllDigits (xs ++ ys)
AllDigits-append [] ys h k = k
AllDigits-append (x ∷ xs) ys h k = (h.0, AllDigits-append xs ys h.1 k)

read_digits-append :
    (acc : ℕ) (xs ys : Bytes)
    → AllDigits xs
    → read_digits acc (xs ++ ys) ≡ read_digits (read_digits acc xs) ys
unfolding read_digits
read_digits-append acc [] ys h = refl
read_digits-append acc (x ∷ xs) ys h = rw h.0 (read_digits-append (acc * 10 + (x - b'0')) xs ys h.1)

digit_is_digit : (d : ℕ) → d < 10 → is_digit (d + b'0') ≡ true
digit_is_digit d h = ground arith

decimal_fuel-digits : (f n : ℕ) → AllDigits (decimal_fuel f n)
unfolding decimal_fuel
decimal_fuel-digits zero n = tt
decimal_fuel-digits (suc f) n = elim (Bool-cases (ltb n 10)) [
  | inl h ↦ rw h (digit_is_digit n (ground arith), tt)
  | inr h ↦ rw h (
      AllDigits-append _ _ (decimal_fuel-digits f (n / 10))
        (digit_is_digit (n % 10) (omega arith), tt))
]

pub decimal-AllDigits : (n : ℕ) → AllDigits (decimal n)
unfolding decimal
decimal-AllDigits n = decimal_fuel-digits (suc n) n

read_digits-decimal_fuel : (f n : ℕ) → n < f → read_digits 0 (decimal_fuel f n) ≡ n
unfolding decimal_fuel
read_digits-decimal_fuel zero n h = absurd (omega arith)
read_digits-decimal_fuel (suc f) n h = elim (Bool-cases (ltb n 10)) [
  | inl t ↦ rw t (unfold read_digits in ground arith)
  | inr t ↦ rw t (
      read_digits-append 0 (decimal_fuel f (n / 10)) _ (decimal_fuel-digits f (n / 10))
      ∙ ap (λ v. read_digits v ((n % 10 + b'0') ∷ []))
          (read_digits-decimal_fuel f (n / 10) (ground arith))
      ∙ (unfold read_digits in ground arith))
]

read_digits-decimal : (n : ℕ) → read_digits 0 (decimal n) ≡ n
unfolding decimal
read_digits-decimal n = read_digits-decimal_fuel (suc n) n (omega arith)

decimal-ne-nil : (n : ℕ) → decimal n ≢ []
unfolding decimal
decimal-ne-nil n = elim (Bool-cases (ltb n 10)) [
  | inl h ↦ rw h (λ e. cc e)
  | inr h ↦ rw h (concat-ne-nil _ _)
]

-- A decimal text begins with a digit.
pub decimal_cons : (n : ℕ) → (c : ℕ) × (cs : Bytes) × (decimal n ≡ c ∷ cs) × (is_digit c ≡ true)
decimal_cons n = go (decimal n) refl (decimal-AllDigits n)
  where
    go :
        (t : Bytes)
        → decimal n ≡ t
        → AllDigits t
        → (c : ℕ) × (cs : Bytes) × (decimal n ≡ c ∷ cs) × (is_digit c ≡ true)
    go [] e h = absurd (decimal-ne-nil n e)
    go (c ∷ cs) e h = (c, cs, e, h.0)

strtoll_digits :
    (c : ℕ) (cs : Bytes) → is_digit c ≡ true → strtoll (c ∷ cs) ≡ clamp_pos (read_digits 0 (c ∷ cs))
unfolding strtoll
strtoll_digits c cs h = ground arith

-- Reading back what was printed gives the number, at every int64_t.
pub strtoll-to_string : (i : ℤ) → IsInt64 i → strtoll (to_string i) ≡ i
unfolding to_string
strtoll-to_string (pos n) h =
    let (c, cs, e, d) = decimal_cons n in
    let value = rw e at (read_digits-decimal n) in
    rw e (strtoll_digits c cs d ∙ rw value (ground arith))
strtoll-to_string (negsuc n) h =
    let value = read_digits-decimal (suc n) in unfold strtoll in rw value (ground arith)

read_digits-line : (n : ℕ) → read_digits 0 (decimal n ++ b'\n' ∷ []) ≡ n
unfolding read_digits
read_digits-line n =
    read_digits-append 0 (decimal n) (b'\n' ∷ []) (decimal-AllDigits n) ∙ read_digits-decimal n

-- The same for a number on a line.
pub strtoll-to_string_line : (i : ℤ) → IsInt64 i → strtoll (to_string i ++ b'\n' ∷ []) ≡ i
unfolding to_string
strtoll-to_string_line (pos n) h =
    let (c, cs, e, d) = decimal_cons n in
    let value = rw e at (read_digits-line n) in
    rw e (strtoll_digits c (cs ++ b'\n' ∷ []) d ∙ rw value (ground arith))
strtoll-to_string_line (negsuc n) h =
    let value = read_digits-line (suc n) in unfold strtoll in rw value (ground arith)

strtoll_saturates : strtoll (to_string (negsuc (2 ^ 64))) ≡ negsuc (2 ^ 63 - 1)
unfolding strtoll to_string
strtoll_saturates = refl

strtoll_prefix : strtoll (32 ∷ b'-' ∷ b'4' ∷ b'2' ∷ b'x' ∷ []) ≡ negsuc 41
unfolding strtoll
strtoll_prefix = refl

decimal_fuel-enough : (f g n : ℕ) → n < f → n < g → decimal_fuel f n ≡ decimal_fuel g n
unfolding decimal_fuel
decimal_fuel-enough zero g n h k = absurd (omega arith)
decimal_fuel-enough (suc f) zero n h k = absurd (omega arith)
decimal_fuel-enough (suc f) (suc g) n h k = elim (Bool-cases (ltb n 10)) [
  | inl digit ↦ rw digit refl
  | inr more ↦ rw more (
      ap (λ ds. ds ++ (n % 10 + b'0') ∷ [])
        (decimal_fuel-enough f g (n / 10) (ground arith) (ground arith)))
]

pub decimal_digit : (n : ℕ) → n < 10 → decimal n ≡ (n + b'0') ∷ []
unfolding decimal decimal_fuel
decimal_digit n h = ground arith

pub decimal_step : (n : ℕ) → 10 ≤ n → decimal n ≡ decimal (n / 10) ++ (n % 10 + b'0') ∷ []
unfolding decimal
decimal_step n h =
    let large : ltb n 10 ≡ false = ground arith in
    (unfold decimal_fuel in rw large refl)
    ∙ ap (λ ds. ds ++ (n % 10 + b'0') ∷ [])
        (decimal_fuel-enough n (suc (n / 10)) (n / 10) (omega arith) (omega arith))
