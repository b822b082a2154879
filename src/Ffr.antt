-- ===== src/Ffr.antt =====
-- src_vwave/backend/ffr_backend.h: the text of a value in a radix.
pub mod Doubling
pub mod Slice
pub mod Cursor
pub mod Listing
pub mod Edges
pub mod Brackets
pub mod Dimensions
use tool_debug.Common.{
  ℕ, zero, suc, ◌+◌, ◌-◌, ◌*◌, ◌/◌, ◌%◌, Bytes, codes, equal, List, [], ◌∷◌, ◌++◌, reverse, Bool,
  true, false, not, ◌&&◌, ◌||◌, if◌then◌else◌, ◌==◌, length, take, drop, get_or,
}

-- `bin.find(c) != npos`
unfoldable pub contains : ℕ → Bytes → Bool
contains c [] = false
contains c (b ∷ bin) = b == c || contains c bin

-- `bin.find_first_not_of(c) == npos`
unfoldable pub only : ℕ → Bytes → Bool
only c [] = true
only c (b ∷ bin) = b == c && only c bin

-- The loop over the digits from the last to the first: the doubled digits, and what is carried out.
unfoldable pub double_digits : Bytes → ℕ → Bytes × ℕ
double_digits [] carry = ([], carry)
double_digits (d ∷ result) carry =
    let (rest, carry') = double_digits result carry in
    let v = (d - b'0') * 2 + carry' in ((b'0' + v % 10) ∷ rest, v / 10)

-- `if (carry) result.insert(result.begin(), '0' + carry)`
abbrev pub insert_carry : Bytes × ℕ → Bytes
insert_carry (result, carry) = if carry == 0 then result else (b'0' + carry) ∷ result

-- The loop over the bits, onto the digits so far.
unfoldable pub decimal_loop : Bytes → Bytes → Bytes
unfolding double_digits
decimal_loop result [] = result
decimal_loop result (bit ∷ bin) =
    decimal_loop (insert_carry (double_digits result (bit - b'0'))) bin

unfoldable pub convert_decimal : Bytes → Bytes
unfolding contains only decimal_loop
convert_decimal bin =
    if contains b'x' bin
    then if only b'x' bin then codes "X" else codes "x"
    else if contains b'z' bin
    then if only b'z' bin then codes "Z" else codes "z"
    else decimal_loop (codes "0") bin

-- `value = (value << 1) | (bin[i] == '1')`
unfoldable pub group_value : ℕ → Bytes → ℕ
group_value value [] = value
group_value value (b ∷ bits) = group_value (value * 2 + (if b == b'1' then 1 else 0)) bits

-- One digit: `x`, `z` and `known` are whether the group has such a bit.
unfoldable pub group_digit : Bytes → ℕ
unfolding contains group_value
group_digit bits =
    let x = contains b'x' bits in
    let z = contains b'z' bits in
    let known = contains b'0' bits || contains b'1' bits in
    let digit = get_or (codes "0123456789abcdef") (group_value 0 bits) 0 in
    if x
    then if known || z then b'x' else b'X'
    else if z
    then if known then b'z' else b'Z'
    else digit

-- The loop over the groups from the end, on the bits in reverse: the digits from the last to the
-- first.
unfoldable pub group_loop : ℕ → ℕ → Bytes → Bytes
unfolding group_digit
group_loop fuel group [] = []
group_loop zero group (b ∷ bits) = []
group_loop (suc fuel) group (b ∷ bits) =
    group_digit (reverse (take group (b ∷ bits))) ∷ group_loop fuel group (drop group (b ∷ bits))

unfoldable pub convert : Bytes → Bytes → Bytes
unfolding convert_decimal group_loop
convert bin radix =
    let group = if equal radix (codes "oct") then 3 else 4 in
    let grouped = reverse (group_loop (length bin) group (reverse bin)) in
    if equal radix (codes "bin")
    then bin
    else if equal radix (codes "dec")
    then convert_decimal bin
    else grouped
