-- ===== src/Json/Values.antt =====
-- The parser reads each kind of value that the builder writes.
use tool_debug.Common.{
  is_empty, ◌≤◌, ℕ, zero, suc, ◌<◌, Bytes, List, [], ◌∷◌, ◌++◌, ◌≡◌, refl, ap, ◌∙◌, Bool, true,
  false, ◌||◌, ◌==◌, is_digit, arith, length, length-append, append_assoc, ℤ, pos, negsuc, All, sym,
  IsInt64,
}
use tool_debug.Common.Decimal.{
  AllDigits, decimal, to_string, strtoll-to_string, decimal-AllDigits, decimal_cons,
}
use tool_debug.Json.Builder.{quote, quote_rest, quote_list}
use tool_debug.Json.Parser.{
  then_run, skip_nested_object, taken, put_string, done, Maps, put_int, at, skip_ws, array_loop,
  parse_array, expect, number_text, after_number, parse_number, parse_value,
}
use tool_debug.Json.Strings.{parse_string_val-quote}
use tool_debug.Json.Nested.{skip_nested_object-Balanced, taken-append}
use tool_debug.Json.Fields.{
  Field, text, int, flag, array, nested, store, value_text, IsGoodField, IsObjectText,
}

abbrev is_numeric : ℕ → Bool
is_numeric c = is_digit c || c == b'-' || c == b'+'

-- What stands behind a value does not go on a number.
abbrev pub Stops : Bytes → Type 0
Stops [] = Unit
Stops (c ∷ s) = is_numeric c ≡ false

number_text-append :
    (v rest : Bytes)
    → All (λ c. is_numeric c ≡ true) v
    → Stops rest
    → (number_text (v ++ rest) ≡ v) × (after_number (v ++ rest) ≡ rest)
unfolding number_text after_number
number_text-append [] [] h k = (refl, refl)
number_text-append [] (c ∷ rest) h k = (rw k, rw k)
number_text-append (c ∷ v) rest h k =
    let (e, e') = number_text-append v rest h.1 k in (rw h.0 (ap (◌∷◌ c) e), rw h.0 e')

digits-numeric : (v : Bytes) → AllDigits v → All (λ c. is_numeric c ≡ true) v
digits-numeric [] h = tt
digits-numeric (c ∷ v) h = (rw h.0, digits-numeric v h.1)

to_string-numeric : (i : ℤ) → All (λ c. is_numeric c ≡ true) (to_string i)
unfolding to_string
to_string-numeric (pos n) = digits-numeric (decimal n) (decimal-AllDigits n)
to_string-numeric (negsuc n) = (refl, digits-numeric (decimal (suc n)) (decimal-AllDigits (suc n)))

-- The first character of a printed number.
to_string_cons : (i : ℤ) → (c : ℕ) × (cs : Bytes) × (to_string i ≡ c ∷ cs) × (is_numeric c ≡ true)
unfolding to_string
to_string_cons (pos n) = let (c, cs, e, d) = decimal_cons n in (c, cs, e, rw d)
to_string_cons (negsuc n) = (b'-', decimal (suc n), refl, refl)

array_loop-quote :
    (s : Bytes) (ss : List Bytes) (f : ℕ) (result : List Bytes) (rest : Bytes)
    → length ss < f
    → array_loop f result (quote s ++ (quote_rest ss ++ (b']' ∷ rest)))
      ≡ done (result ++ s ∷ ss, rest)
unfolding array_loop quote_rest
array_loop-quote s ss zero result rest h = absurd (omega arith)
array_loop-quote s [] (suc f) result rest h = rw parse_string_val-quote (unfold skip_ws at in refl)
array_loop-quote s (s' ∷ ss) (suc f) result rest h = rw parse_string_val-quote (
    unfold skip_ws at in
    ap (array_loop f (result ++ s ∷ [])) (append_assoc (quote s') (quote_rest ss) (b']' ∷ rest))
    ∙ array_loop-quote s' ss f (result ++ s ∷ []) rest (omega arith)
    ∙ ap (λ r. done (r, rest)) (append_assoc result (s ∷ []) (s' ∷ ss)))

length-quote_rest : (ss : List Bytes) → length ss ≤ length (quote_rest ss)
unfolding quote_rest
length-quote_rest [] = omega arith
length-quote_rest (s ∷ ss) =
    omega (arith, length-quote_rest ss, length-append (quote s) (quote_rest ss))

parse_array_cons :
    (s : Bytes) (ss : List Bytes) (rest : Bytes)
    → parse_array (b'[' ∷ (quote s ++ (quote_rest ss ++ (b']' ∷ rest)))) ≡ done (s ∷ ss, rest)
unfolding parse_array expect skip_ws at quote
parse_array_cons s ss rest =
    let full = quote s ++ (quote_rest ss ++ (b']' ∷ rest)) in
    let enough : length ss < suc (length full) = omega (
      arith,
      length-quote_rest ss,
      length-append (quote_rest ss) (b']' ∷ rest),
      length-append (quote s) (quote_rest ss ++ (b']' ∷ rest)),
    ) in
    array_loop-quote s ss (suc (length full)) [] rest enough

-- An array of strings is read whole.
parse_array-quote_list :
    (ss : List Bytes) (rest : Bytes)
    → parse_array (b'[' ∷ ((quote_list ss ++ b']' ∷ []) ++ rest)) ≡ done (ss, rest)
unfolding quote_list
parse_array-quote_list [] rest = unfold parse_array expect skip_ws at in refl
parse_array-quote_list (s ∷ ss) rest = simp append_assoc (parse_array_cons s ss rest)

parse_value_numeric :
    (k : Bytes) (m : Maps) (c : ℕ) (s : Bytes)
    → is_numeric c ≡ true
    → parse_value k m (skip_ws (c ∷ s)) ≡ done (parse_number k m (c ∷ s))
unfolding parse_value skip_ws
parse_value_numeric k m c s h = ground arith

parse_number-to_string :
    (k : Bytes) (m : Maps) (n : ℤ) (rest : Bytes)
    → IsInt64 n
    → Stops rest
    → parse_number k m (to_string n ++ rest) ≡ (put_int k n m, rest)
unfolding parse_number
parse_number-to_string k m n rest h stop =
    let (e, e') = number_text-append (to_string n) rest (to_string-numeric n) stop in
    let (c, cs, t, d) = to_string_cons n in
    let filled : is_empty (to_string n) ≡ false = rw t in rw (e, e', strtoll-to_string n h, filled)

parse_value_brace :
    (k : Bytes) (m : Maps) (s : Bytes)
    → parse_value k m (b'{' ∷ s)
      ≡ then_run
          (skip_nested_object (suc (length (b'{' ∷ s))) 0 (b'{' ∷ s))
          (λ rest. done (put_string k (taken (b'{' ∷ s) rest) m, rest))
unfolding parse_value
parse_value_brace k m s = refl

parse_value_nested :
    (k : Bytes) (m : Maps) (raw rest : Bytes)
    → IsObjectText raw
    → parse_value k m (skip_ws (raw ++ rest)) ≡ done (put_string k raw m, rest)
unfolding skip_ws
parse_value_nested k m raw rest h =
    let behind = h.inner ++ (b'}' ∷ rest) in
    let e : raw ++ rest ≡ b'{' ∷ behind =
      ap (λ r. r ++ rest) h.braced ∙ ap (◌∷◌ b'{') (append_assoc h.inner (b'}' ∷ []) rest) in
    let whole = ap (λ t. taken t rest) (sym e) ∙ taken-append raw rest in
    ap (λ t. parse_value k m (skip_ws t)) e
    ∙ parse_value_brace k m behind
    ∙ ap (λ r. then_run r (λ t. done (put_string k (taken (b'{' ∷ behind) t) m, t)))
        (skip_nested_object-Balanced rest h.balanced)
    ∙ ap (λ t. done (put_string k t m, rest)) whole

-- The value of a member is read back and filed under its key, with what follows it left over.
pub parse_value-value_text :
    (m : Maps) (k : Bytes) (fld : Field) (rest : Bytes)
    → IsGoodField fld
    → Stops rest
    → parse_value k m (skip_ws (value_text fld ++ rest)) ≡ done (store m (k, fld), rest)
unfolding value_text store
parse_value-value_text m k (text v) rest h stop =
    unfold parse_value skip_ws quote in
    ap (λ (r : Bytes × Bytes). done (put_string k r.0 m, r.1)) (parse_string_val-quote v rest)
parse_value-value_text m k (int n) rest h stop =
    let (c, cs, t, d) = to_string_cons n in
    let number = parse_number-to_string k m n rest h stop in
    rw t (parse_value_numeric k m c (cs ++ rest) d ∙ ap done (rw t at number))
parse_value-value_text m k (flag true) rest h stop = unfold parse_value skip_ws in refl
parse_value-value_text m k (flag false) rest h stop = unfold parse_value skip_ws in refl
parse_value-value_text m k (array ss) rest h stop =
    unfold parse_value skip_ws in rw parse_array-quote_list
parse_value-value_text m k (nested raw) rest h stop = parse_value_nested k m raw rest h
