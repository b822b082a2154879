-- ===== src/Json/Strings.antt =====
-- The parser's string literals against the builder's `quote`.
use tool_debug.Common.{
  true, ℕ, ◌<◌, ◌≤◌, Bytes, [], ◌∷◌, ◌++◌, ◌≡◌, refl, ap, ◌∙◌, false, ◌==◌, ==_iff, if◌then◌else◌,
  arith, length, append_assoc,
}
use tool_debug.Json.Builder.{quote_byte, quote_body, quote}
use tool_debug.Json.Parser.{
  advance, at, skip_ws, cons_text, string_body, unescape, parse_string_val,
}

string_body_plain :
    (c : ℕ) (s : Bytes)
    → (c == b'"') ≡ false
    → (c == b'\\') ≡ false
    → string_body (c ∷ s) ≡ cons_text c (string_body s)
unfolding string_body
string_body_plain c [] h k = rw h
string_body_plain c (d ∷ s) h k = ground arith

string_body-quote_byte :
    (c : ℕ) (s : Bytes) → string_body (quote_byte c ++ s) ≡ cons_text c (string_body s)
unfolding quote_byte unescape
string_body-quote_byte c s =
    ground (arith, string_body_plain c s, escaped b'"', escaped b'\\', escaped b'n', escaped b't')
  where
    escaped : (d : ℕ) → string_body (b'\\' ∷ d ∷ s) ≡ cons_text (unescape d) (string_body s)
    escaped d = unfold string_body in refl

-- The loop of `parse_string_val` reads back what the loop of `quote` wrote.
string_body-quote_body : (s rest : Bytes) → string_body (quote_body s ++ (b'"' ∷ rest)) ≡ (s, rest)
unfolding quote_body
string_body-quote_body [] [] = unfold string_body in refl
string_body-quote_body [] (c ∷ rest) = unfold string_body in refl
string_body-quote_body (c ∷ s) rest =
    rw append_assoc (string_body-quote_byte c _ ∙ ap (cons_text c) (string_body-quote_body s rest))

-- A quoted string parses to the string, whatever bytes it holds and whatever follows it.
pub parse_string_val-quote : (s rest : Bytes) → parse_string_val (quote s ++ rest) ≡ (s, rest)
unfolding parse_string_val quote skip_ws at
parse_string_val-quote s rest = rw append_assoc (string_body-quote_body s rest)

-- What a literal leaves is no longer than what it was given.
length-string_body : (s : Bytes) → length (string_body s).1 ≤ length s
unfolding string_body
length-string_body [] = omega arith
length-string_body (c ∷ []) = ground arith
length-string_body (c ∷ d ∷ s) = ground (arith, length-string_body s, length-string_body (d ∷ s))

pub length-skip_ws : (s : Bytes) → length (skip_ws s) ≤ length s
unfolding skip_ws
length-skip_ws [] = omega arith
length-skip_ws (c ∷ s) = ground (arith, length-skip_ws s)

length-quoted :
    (s : Bytes) → length (if at b'"' s then string_body (advance s) else ([], s)).1 ≤ length s
unfolding at
length-quoted [] = omega arith
length-quoted (c ∷ s) = ground (arith, length-string_body s)

pub length-parse_string_val : (s : Bytes) → length (parse_string_val s).1 ≤ length s
unfolding parse_string_val
length-parse_string_val s = omega (arith, length-quoted (skip_ws s), length-skip_ws s)

-- A literal at hand is stepped over by its opening quote at least.
pub length-parse_string_val_lt :
    (c : ℕ) (s : Bytes) → (c == b'"') ≡ true → length (parse_string_val (c ∷ s)).1 < length (c ∷ s)
length-parse_string_val_lt c s h =
    rw ((==_iff c b'"').0 h)
      (unfold parse_string_val skip_ws at in omega (arith, length-string_body s))
