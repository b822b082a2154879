-- ===== src/Transport/RoundTrip.antt =====
-- The worker decodes what the proxy encoded, and the encoding is one shell word.
use tool_debug.Common.{
  inl, inr, sym, subst, ==_iff, Bool-cases, ◌≤◌, ℕ, zero, suc, ◌+◌, ◌*◌, ◌/◌, ◌%◌, ◌<◌, Bytes,
  codes, [], ◌∷◌, ◌≡◌, refl, ap, ◌∙◌, Bool, true, false, ◌&&◌, ◌||◌, Option, some, none, ◌==◌,
  arith, length, get_or, All, is_digit, leb,
}
use tool_debug.Common.Outcome.{ok}
use tool_debug.Transport.{encode_text, hex_encode, digit, decode_pairs, hex_decode}

abbrev pub IsByte : ℕ → Type 0
IsByte c = c < 256

-- A test that holds for `count` numbers from `from` on.
checked : (ℕ → Bool) → ℕ → ℕ → Bool
checked test from zero = true
checked test from (suc count) = test from && checked test (from + 1) count

checked-at :
    (test : ℕ → Bool) (from count : ℕ)
    → checked test from count ≡ true
    → (i : ℕ) → from ≤ i
    → i < from + count
    → test i ≡ true
unfolding checked
checked-at test from zero all i low high = absurd (omega arith)
checked-at test from (suc count) all i low high = elim (Bool-cases (i == from)) [
  | inl here ↦ subst (λ k. test k ≡ true) (sym ((==_iff i from).0 here)) (ground arith)
  | inr later ↦ checked-at test (from + 1) count (ground arith) i (ground arith) (omega arith)
]

reads_as : Option ℕ → ℕ → Bool
reads_as none n = false
reads_as (some m) n = m == n

reads_as→eq : (o : Option ℕ) (n : ℕ) → reads_as o n ≡ true → o ≡ some n
unfolding reads_as
reads_as→eq o n h = ground arith

table : checked (λ n. reads_as (digit (get_or (codes "0123456789abcdef") n 0)) n) 0 16 ≡ true
unfolding checked reads_as digit
table = refl

digit-get_or : (n : ℕ) → n < 16 → digit (get_or (codes "0123456789abcdef") n 0) ≡ some n
digit-get_or n h = reads_as→eq _ n (checked-at _ 0 16 table n (omega arith) h)

decode_pairs_step :
    (hi lo h l : ℕ) (hex t : Bytes)
    → digit hi ≡ some h
    → digit lo ≡ some l
    → decode_pairs hex ≡ ok t
    → decode_pairs (hi ∷ lo ∷ hex) ≡ ok ((h * 16 + l) ∷ t)
unfolding decode_pairs
decode_pairs_step hi lo h l hex t a b c = rw (a, b, c)

decode_pairs-encode_text :
    (text : Bytes) → All IsByte text → decode_pairs (encode_text text) ≡ ok text
unfolding encode_text
decode_pairs-encode_text [] h = unfold decode_pairs in refl
decode_pairs-encode_text (c ∷ text) h =
    let high = digit-get_or (c / 16) (let b = h.0 in omega arith) in
    let low = digit-get_or (c % 16) (omega arith) in
    let whole : c / 16 * 16 + c % 16 ≡ c = omega arith in
    decode_pairs_step _ _ (c / 16) (c % 16) (encode_text text) text high low
      (decode_pairs-encode_text text h.1)
    ∙ ap (λ d. ok (d ∷ text)) whole

length-encode_text : (text : Bytes) → length (encode_text text) ≡ 2 * length text
unfolding encode_text
length-encode_text [] = refl
length-encode_text (c ∷ text) = omega (arith, length-encode_text text)

-- The worker gets back every string of bytes that the proxy encoded.
pub hex_decode-hex_encode :
    (text : Bytes) → All IsByte text → hex_decode (hex_encode text) ≡ ok text
unfolding hex_decode hex_encode
hex_decode-hex_encode text h =
    let even : (length (encode_text text) % 2 == 1) ≡ false =
      rw length-encode_text (ground arith) in
    rw even (decode_pairs-encode_text text h)

-- What the LSF shell leaves alone in an unquoted word.
abbrev pub is_word_byte : ℕ → Bool
is_word_byte c = is_digit c || leb b'a' c && leb c b'z' || c == b':'

abbrev pub IsWordByte : ℕ → Type 0
IsWordByte c = is_word_byte c ≡ true

word_table : checked (λ n. is_word_byte (get_or (codes "0123456789abcdef") n 0)) 0 16 ≡ true
unfolding checked
word_table = refl

encode_text-IsWordByte : (text : Bytes) → All IsByte text → All IsWordByte (encode_text text)
unfolding encode_text
encode_text-IsWordByte [] h = tt
encode_text-IsWordByte (c ∷ text) h = (
  checked-at _ 0 16 word_table (c / 16) (omega arith) (let b = h.0 in omega arith),
  (
    checked-at _ 0 16 word_table (c % 16) (omega arith) (omega arith),
    encode_text-IsWordByte text h.1,
  ),
)

-- The encoded session is one word of letters, digits and a colon, twice as long as the text and
-- four bytes more: it has no quote and no blank that a shell could take.
hex_encode-IsWordByte :
    (text : Bytes)
    → All IsByte text
    → All IsWordByte (hex_encode text) × (length (hex_encode text) ≡ 4 + 2 * length text)
unfolding hex_encode
hex_encode-IsWordByte text h = (
  (refl, (refl, (refl, (refl, encode_text-IsWordByte text h)))),
  omega (arith, length-encode_text text),
)
