-- ===== src/Ffr/Brackets.antt =====
-- src_vwave/backend/ffr_backend.h: the ranges that stand in brackets behind a name.
use tool_debug.Common.{
  ℕ, ◌^◌, Bytes, List, [], ◌∷◌, ◌++◌, reverse, ℤ, pos, negsuc, Bool, false, not, ◌&&◌, ◌||◌, Option,
  none, some, if◌then◌else◌, ltb, ◌==◌, is_space, is_digit, is_empty,
}
use tool_debug.Common.Decimal.{strtoll}

abbrev pub starts_number : Bytes → Bool
starts_number [] = false
starts_number (c ∷ s) = is_digit c

-- Whether strtol reads a digit: blanks, perhaps a sign, and a digit.
unfoldable pub has_number : Bytes → Bool
has_number [] = false
has_number (c ∷ s) =
    let later = has_number s in
    if is_space c then later else is_digit c || (c == b'-' || c == b'+') && starts_number s

abbrev pub in_int : ℤ → Option ℤ
in_int (pos n) = if ltb n (2 ^ 31) then some (pos n) else none
in_int (negsuc n) = if ltb n (2 ^ 31) then some (negsuc n) else none

-- std::stoi; `none` where it throws.
unfoldable pub stoi : Bytes → Option ℤ
unfolding has_number strtoll
stoi text = if has_number text then in_int (strtoll text) else none

-- The text up to a byte and the text behind it, where it occurs.
abbrev pub step_over : ℕ → Option (Bytes × Bytes) → Option (Bytes × Bytes)
step_over c none = none
step_over c (some (front, rest)) = some (c ∷ front, rest)

unfoldable pub find_byte : ℕ → Bytes → Option (Bytes × Bytes)
find_byte b [] = none
find_byte b (c ∷ text) =
    let later = find_byte b text in if c == b then some ([], text) else step_over c later

abbrev pub both_ends : Option ℤ → Option ℤ → Option (ℤ × ℤ)
both_ends (some left) (some right) = some (left, right)
both_ends (some left) none = none
both_ends none _ = none

abbrev pub range_between : Bytes → Option (Bytes × Bytes) → Option (ℤ × ℤ)
range_between inner none = both_ends (stoi inner) (stoi inner)
range_between inner (some (left, right)) = both_ends (stoi left) (stoi right)

-- What stands between the first byte and the last.
abbrev pub without_last : Bytes → Option Bytes
without_last [] = none
without_last (c ∷ front) = if c == b']' && not (is_empty front) then some (reverse front) else none

abbrev pub between_brackets : Bytes → Option Bytes
between_brackets [] = none
between_brackets (c ∷ text) = if c == b'[' then without_last (reverse text) else none

abbrev pub range_inside : Option Bytes → Option (ℤ × ℤ)
range_inside none = none
range_inside (some inner) = range_between inner (find_byte b':' inner)

-- `parse_range`: the two ends; `none` where it returns false.
unfoldable pub parse_range : Bytes → Option (ℤ × ℤ)
unfolding find_byte stoi
parse_range text = range_inside (between_brackets text)

-- The loop of `ranges_in` within a bracket that is open, by what was read of it, and outside of one.
unfoldable pub ranges_loop : Option Bytes → Bytes → List Bytes
ranges_loop open_bracket [] = []
ranges_loop none (c ∷ text) =
    let inside = ranges_loop (some (c ∷ [])) text in
    let outside = ranges_loop none text in if c == b'[' then inside else outside
ranges_loop (some read) (c ∷ text) =
    let closed = (read ++ c ∷ []) ∷ ranges_loop none text in
    let longer = ranges_loop (some (read ++ c ∷ [])) text in if c == b']' then closed else longer

unfoldable pub ranges_in : Bytes → List Bytes
unfolding ranges_loop
ranges_in text = ranges_loop none text
