-- ===== src/Transport.antt =====
-- src_common/transport.h: the hex form in which a session travels as one argument.
pub mod RoundTrip
use tool_debug.Common.{
  ℕ, ◌+◌, ◌-◌, ◌*◌, ◌/◌, ◌%◌, Bytes, codes, List, [], ◌∷◌, ◌++◌, Bool, true, false, ◌&&◌, Option,
  none, some, if◌then◌else◌, ◌==◌, leb, not, length, drop, get_or,
}
use tool_debug.Common.Outcome.{Outcome, ok, throw, ◌>>=◌}
use tool_debug.Json.Parser.{starts_with}

abbrev digits : Bytes
digits = codes "0123456789abcdef"

unfoldable pub encode_byte : ℕ → Bytes
encode_byte value = get_or digits (value / 16) 0 ∷ get_or digits (value % 16) 0 ∷ []

unfoldable pub encode_text : Bytes → Bytes
unfolding encode_byte
encode_text [] = []
encode_text (value ∷ text) = encode_byte value ++ encode_text text

unfoldable pub hex_encode : Bytes → Bytes
unfolding encode_text
hex_encode text = codes "hex:" ++ encode_text text

-- `none` is the -1 of the lambda.
unfoldable pub digit : ℕ → Option ℕ
digit value =
    if leb b'0' value && leb value b'9'
    then some (value - b'0')
    else if leb b'a' value && leb value b'f'
    then some (value - b'a' + 10)
    else if leb b'A' value && leb value b'F'
    then some (value - b'A' + 10)
    else none

abbrev pub invalid {ℓ} : {A : Type ℓ} → Outcome A
invalid = throw (codes "Invalid hex worker session")

abbrev decode_pair : Option ℕ → Option ℕ → Outcome ℕ
decode_pair (some hi) (some lo) = ok (hi * 16 + lo)
decode_pair (some hi) none = invalid
decode_pair none _ = invalid

-- The loop over the pairs of digits; the caller has checked that the length is even, so the
-- clause for a single digit is never reached.
unfoldable pub decode_pairs : Bytes → Outcome Bytes
decode_pairs [] = ok []
decode_pairs (hi ∷ []) = invalid
decode_pairs (hi ∷ lo ∷ hex) = do
  value ← decode_pair (digit hi) (digit lo)
  text ← decode_pairs hex
  ok (value ∷ text)

unfoldable pub hex_decode : Bytes → Outcome Bytes
unfolding decode_pairs starts_with
hex_decode encoded =
    if not (starts_with (codes "hex:") encoded)
    then ok encoded
    else if length (drop 4 encoded) % 2 == 1
    then invalid
    else decode_pairs (drop 4 encoded)
