-- ===== src/Ffr/Doubling.antt =====
-- Doubling a decimal text digit by digit.
use tool_debug.Common.{
  ℕ, zero, suc, ◌+◌, ◌-◌, ◌*◌, ◌/◌, ◌%◌, ◌≤◌, ◌<◌, Bytes, codes, equal, [], ◌∷◌, ◌++◌, true, false,
  ◌||◌, ◌==◌, ltb, ltb→lt, All, ◌≡◌, refl, ap, sym, ◌∙◌, arith, Bool-cases, inl, inr,
}
use tool_debug.Common.Decimal.{decimal, decimal_digit, decimal_step}
use tool_debug.Ffr.{double_digits, insert_carry, decimal_loop, convert_decimal, contains, convert}

double_last :
    (ds : Bytes) (d c v : ℕ)
    → (d - b'0') * 2 + c ≡ v
    → double_digits (ds ++ d ∷ []) c
      ≡ ((double_digits ds (v / 10)).0 ++ (b'0' + v % 10) ∷ [], (double_digits ds (v / 10)).1)
unfolding double_digits
double_last [] d c v e = ap (λ u. ((b'0' + u % 10) ∷ [], u / 10)) e
double_last (x ∷ ds) d c v e =
    ap
      (λ (p : Bytes × ℕ). ((b'0' + ((x - b'0') * 2 + p.1) % 10) ∷ p.0, ((x - b'0') * 2 + p.1) / 10))
      (double_last ds d c v e)

insert_carry-append :
    (ds : Bytes) (carry e : ℕ)
    → insert_carry (ds ++ e ∷ [], carry) ≡ insert_carry (ds, carry) ++ e ∷ []
insert_carry-append ds carry e = elim (Bool-cases (carry == 0)) [
  | inl none_left ↦ rw none_left refl
  | inr some_left ↦ rw some_left refl
]

double_digit :
    (n c : ℕ)
    → n < 10
    → c ≤ 1
    → insert_carry (double_digits ((n + b'0') ∷ []) c) ≡ decimal (n * 2 + c)
unfolding double_digits
double_digit n c h k = elim (Bool-cases (ltb (n * 2 + c) 10)) [
  | inl one ↦ rw (decimal_digit (n * 2 + c) (ltb→lt (n * 2 + c) 10 one)) (ground arith)
  | inr two ↦
      let tens : (n * 2 + c) / 10 ≡ 1 = ground arith in
      let shown =
        decimal_step (n * 2 + c) (ground arith)
        ∙ ap (λ q. decimal q ++ ((n * 2 + c) % 10 + b'0') ∷ []) tens
        ∙ ap (λ ds. ds ++ ((n * 2 + c) % 10 + b'0') ∷ []) (decimal_digit 1 (omega arith)) in
      rw shown (ground arith)
]

double_digits-decimal :
    (f n c : ℕ) → n < f → c ≤ 1 → insert_carry (double_digits (decimal n) c) ≡ decimal (n * 2 + c)
double_digits-decimal zero n c h k = absurd (omega arith)
double_digits-decimal (suc f) n c h k = elim (Bool-cases (ltb n 10)) [
  | inl digit ↦
      let low = ltb→lt n 10 digit in
      ap (λ ds. insert_carry (double_digits ds c)) (decimal_digit n low) ∙ double_digit n c low k
  | inr more ↦
      let large : 10 ≤ n = ground arith in
      let v = n % 10 * 2 + c in
      let last : (n % 10 + b'0' - b'0') * 2 + c ≡ v = omega arith in
      let higher : n / 10 * 2 + v / 10 ≡ (n * 2 + c) / 10 = omega arith in
      let lowest : b'0' + v % 10 ≡ (n * 2 + c) % 10 + b'0' = omega arith in
      let ih = double_digits-decimal f (n / 10) (v / 10) (omega arith) (omega arith) in
      ap (λ ds. insert_carry (double_digits ds c)) (decimal_step n large)
      ∙ ap insert_carry (double_last (decimal (n / 10)) (n % 10 + b'0') c v last)
      ∙ insert_carry-append (double_digits (decimal (n / 10)) (v / 10)).0
          (double_digits (decimal (n / 10)) (v / 10)).1 (b'0' + v % 10)
      ∙ ap (λ ds. ds ++ (b'0' + v % 10) ∷ []) (ih ∙ ap decimal higher)
      ∙ ap (λ d. decimal ((n * 2 + c) / 10) ++ d ∷ []) lowest
      ∙ sym (decimal_step (n * 2 + c) (omega arith))
]

-- The number that bits stand for, onto the bits before them.
unfoldable pub binary_from : ℕ → Bytes → ℕ
binary_from n [] = n
binary_from n (bit ∷ bin) = binary_from (n * 2 + (bit - b'0')) bin

abbrev pub AreBits : Bytes → Type 0
AreBits = All (λ b. (b == b'0' || b == b'1') ≡ true)

decimal_loop-decimal :
    (n : ℕ) (bin : Bytes) → AreBits bin → decimal_loop (decimal n) bin ≡ decimal (binary_from n bin)
unfolding decimal_loop binary_from
decimal_loop-decimal n [] h = refl
decimal_loop-decimal n (bit ∷ bin) h =
    let low : bit - b'0' ≤ 1 = let one = h.0 in ground arith in
    ap (λ ds. decimal_loop ds bin) (double_digits-decimal (suc n) n (bit - b'0') (omega arith) low)
    ∙ decimal_loop-decimal (n * 2 + (bit - b'0')) bin h.1

bits-no :
    (c : ℕ) → (c == b'x' || c == b'z') ≡ true → (bin : Bytes) → AreBits bin → contains c bin ≡ false
unfolding contains
bits-no c e [] h = refl
bits-no c e (bit ∷ bin) h =
    let other : (bit == c) ≡ false = let one = h.0 in ground arith in
    rw (other, bits-no c e bin h.1) refl

-- In the radix `dec`, a value of known bits is written as the decimal number that the bits stand
-- for, of any width.
pub convert-decimal :
    (bin : Bytes) → AreBits bin → convert bin (codes "dec") ≡ decimal (binary_from 0 bin)
unfolding convert convert_decimal equal
convert-decimal bin h =
    rw (bits-no b'x' refl bin h, bits-no b'z' refl bin h)
      (ap (λ ds. decimal_loop ds bin) (sym (decimal_digit 0 (omega arith)))
        ∙ decimal_loop-decimal 0 bin h)
