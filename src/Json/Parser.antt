-- ===== src/Json/Parser.antt =====
-- src_common/json.h, class JsonParser. The position `pos_` in `str_` is the text that is left,
-- `str_.substr(pos_)`, so a helper returns what it leaves of its argument.
use tool_debug.Common.{
  ◌≡◌, refl, ℕ, zero, suc, ◌+◌, ◌-◌, Bytes, codes, List, [], ◌∷◌, ◌++◌, Bool, true, false, ◌&&◌,
  ◌||◌, not, Option, none, some, ℤ, pos, if◌then◌else◌, ◌==◌, eqb_ℤ, equal, is_empty, is_space,
  is_digit, length, take, drop,
}
pub use tool_debug.Common.Run.{Run, done, out_of_fuel, then_run}
use tool_debug.Common.Decimal.{to_string, strtoll}

-- std::map: one pair for each key.
abbrev pub Dict : Type 0 → Type 0
Dict V = List (Bytes × V)

module _ {V : Type 0} where
  unfoldable pub find : Bytes → Dict V → Option V
  unfolding equal
  find k [] = none
  find k ((j, v) ∷ m) = if equal j k then some v else find k m

  -- operator[] on the left of an assignment.
  unfoldable pub assign : Bytes → V → Dict V → Dict V
  unfolding equal
  assign k v [] = (k, v) ∷ []
  assign k v ((j, w) ∷ m) = if equal j k then (j, v) ∷ m else (j, w) ∷ assign k v m

pub record Maps : Type 0 where
  pub strings : Dict Bytes
  pub ints : Dict ℤ
  pub arrays : Dict (List Bytes)

abbrev pub no_maps : Maps
no_maps = record { strings = []; ints = []; arrays = [] }

abbrev pub put_string : Bytes → Bytes → Maps → Maps
put_string k v m = record m { strings = assign k v m.strings }

abbrev pub put_int : Bytes → ℤ → Maps → Maps
put_int k v m = record m { ints = assign k v m.ints }

abbrev pub put_array : Bytes → List Bytes → Maps → Maps
put_array k v m = record m { arrays = assign k v m.arrays }

unfoldable pub skip_ws : Bytes → Bytes
skip_ws [] = []
skip_ws (c ∷ cs) = if is_space c then skip_ws cs else c ∷ cs

-- `pos_ < str_.size() && str_[pos_] == c`
unfoldable pub at : ℕ → Bytes → Bool
at c [] = false
at c (d ∷ s) = d == c

-- pos_++
abbrev pub advance : Bytes → Bytes
advance [] = []
advance (_ ∷ s) = s

unfoldable pub expect : ℕ → Bytes → Bool × Bytes
unfolding skip_ws at
expect c s = let s' = skip_ws s in if at c s' then (true, advance s') else (false, s')

unfoldable pub unescape : ℕ → ℕ
unescape c = if c == b'n' then b'\n' else if c == b't' then b'\t' else c

abbrev pub cons_text : ℕ → Bytes × Bytes → Bytes × Bytes
cons_text c r = (c ∷ r.0, r.1)

-- The loop of `parse_string_val`, and the step over the closing quote: the text read and the rest.
unfoldable pub string_body : Bytes → Bytes × Bytes
unfolding unescape
string_body [] = ([], [])
string_body (c ∷ []) = if c == b'"' then ([], []) else (c ∷ [], [])
string_body (c ∷ d ∷ s) = elim (c == b'"') [
  | true ↦ ([], d ∷ s)
  | false ↦ elim (c == b'\\') [
    | true ↦ cons_text (unescape d) (string_body s)
    | false ↦ cons_text c (string_body (d ∷ s))
  ]
]

unfoldable pub parse_string_val : Bytes → Bytes × Bytes
unfolding skip_ws at string_body
parse_string_val s = let s' = skip_ws s in if at b'"' s' then string_body (advance s') else ([], s')

-- The loop of `parse_array`, with the elements read so far.
unfoldable pub array_loop : ℕ → List Bytes → Bytes → Run (List Bytes × Bytes)
unfolding parse_string_val
array_loop zero result s = out_of_fuel
array_loop (suc f) result s =
    let (v, s₁) = parse_string_val s in
    let s₂ = skip_ws s₁ in
    let result' = result ++ v ∷ [] in
    let next = array_loop f result' (advance s₂) in
    if at b',' s₂
    then next
    else if at b']' s₂
    then done (result', advance s₂)
    else done (result', s₂)

unfoldable pub parse_array : Bytes → Run (List Bytes × Bytes)
unfolding expect array_loop
parse_array s =
    let s₁ = skip_ws (expect b'[' s).1 in
    if at b']' s₁ then done ([], advance s₁) else array_loop (suc (length s₁)) [] s₁

-- `skip_nested_object`: the text that is left. It starts at a brace, so `depth` is positive
-- wherever it is decremented.
unfoldable pub skip_nested_object : ℕ → ℕ → Bytes → Run Bytes
unfolding string_body parse_string_val
skip_nested_object zero depth s = out_of_fuel
skip_nested_object (suc f) depth [] = done []
skip_nested_object (suc f) depth (c ∷ s) =
    let opened = skip_nested_object f (depth + 1) s in
    let closed = skip_nested_object f (depth - 1) s in
    let quoted = skip_nested_object f depth (parse_string_val (c ∷ s)).1 in
    let plain = skip_nested_object f depth s in
    if c == b'{'
    then opened
    else if c == b'}'
    then (if depth - 1 == 0 then done s else closed)
    else if c == b'"'
    then quoted
    else plain

-- `str_.substr(start, pos_ - start)`, for `start` at `s` and `pos_` at `rest`.
abbrev pub taken : Bytes → Bytes → Bytes
taken s rest = take (length s - length rest) s

unfoldable pub starts_with : Bytes → Bytes → Bool
starts_with [] s = true
starts_with (c ∷ p) [] = false
starts_with (c ∷ p) (d ∷ s) = d == c && starts_with p s

-- The characters that the number loop accepts, and what is behind them.
unfoldable pub number_text : Bytes → Bytes
number_text [] = []
number_text (c ∷ s) = if is_digit c || c == b'-' || c == b'+' then c ∷ number_text s else []

unfoldable pub after_number : Bytes → Bytes
after_number [] = []
after_number (c ∷ s) = if is_digit c || c == b'-' || c == b'+' then after_number s else c ∷ s

unfoldable pub parse_number : Bytes → Maps → Bytes → Maps × Bytes
unfolding number_text after_number
parse_number key m s =
    let numstr = number_text s in
    (if is_empty numstr then m else put_int key (strtoll numstr) m, after_number s)

-- The value of one key, by its first character.
unfoldable pub parse_value : Bytes → Maps → Bytes → Run (Maps × Bytes)
unfolding at parse_string_val parse_array skip_nested_object starts_with parse_number
parse_value key m s =
    if at b'"' s
    then done (put_string key (parse_string_val s).0 m, (parse_string_val s).1)
    else if at b'[' s
    then then_run (parse_array s) (λ r. done (put_array key r.0 m, r.1))
    else if at b'{' s
    then then_run (skip_nested_object (suc (length s)) 0 s)
        (λ rest. done (put_string key (taken s rest) m, rest))
    else if starts_with (codes "true") s
    then done (put_string key (codes "true") m, drop 4 s)
    else if starts_with (codes "false") s
    then done (put_string key (codes "false") m, drop 5 s)
    else done (parse_number key m s)

-- The loop of `parse_object`: whether it accepts, and the maps as they stand then.
unfoldable pub object_loop : ℕ → Maps → Bytes → Run (Bool × Maps)
unfolding expect
object_loop zero m s = out_of_fuel
object_loop (suc f) m s =
    let (key, s₁) = parse_string_val s in
    let (colon, s₂) = expect b':' s₁ in
    let body = then_run (parse_value key m (skip_ws s₂)) λ (m', s₃).
      let s₄ = skip_ws s₃ in
      let next = object_loop f m' (advance s₄) in
      if at b',' s₄ then next else done (at b'}' s₄, m') in
    if is_empty key then done (false, m) else if not colon then done (false, m) else body

unfoldable pub parse_object : Bytes → Run (Bool × Maps)
unfolding expect
parse_object s =
    let (brace, s₁) = expect b'{' s in
    if not brace
    then done (false, no_maps)
    else if at b'}' (skip_ws s₁)
    then done (true, no_maps)
    else object_loop (suc (length s)) no_maps (skip_ws s₁)

-- `parse` clears the maps first, so its outcome is a function of the text.
unfoldable pub parse : Bytes → Run (Bool × Maps)
parse json = parse_object json

pub parse_lem : (json : Bytes) → parse json ≡ parse_object json
unfolding parse
parse_lem json = refl

-- The outcome of `parse`. The fuel never runs out (Json/Fuel.antt), so the last case is not met.
unfoldable pub parsed : Bytes → Bool × Maps
parsed json = elim (parse json) [ done r ↦ r | out_of_fuel ↦ (false, no_maps) ]

pub parsed-eq : (json : Bytes) (r : Bool × Maps) → parse json ≡ done r → parsed json ≡ r
unfolding parsed
parsed-eq json r h = rw (h, parsed)

-- std::map::count.
abbrev pub contains : {V : Type 0} → Bytes → Dict V → Bool
contains key m = elim (find key m) [ none ↦ false | some _ ↦ true ]

unfoldable pub has : Maps → Bytes → Bool
unfolding find
has m key = contains key m.strings || contains key m.ints || contains key m.arrays

unfoldable pub get_string : Maps → Bytes → Bytes → Bytes
unfolding find
get_string m key def = elim (find key m.strings) [
  | some v ↦ v
  | none ↦ elim (find key m.ints) [ some n ↦ to_string n | none ↦ def ]
]

unfoldable pub get_int : Maps → Bytes → ℤ → ℤ
unfolding find
get_int m key def = elim (find key m.ints) [
  | some n ↦ n
  | none ↦ elim (find key m.strings) [ some v ↦ strtoll v | none ↦ def ]
]

unfoldable pub get_bool : Maps → Bytes → Bool → Bool
unfolding find
get_bool m key def = elim (find key m.strings) [
  | some v ↦ equal v (codes "true")
  | none ↦ elim (find key m.ints) [ some n ↦ not (eqb_ℤ n (pos 0)) | none ↦ def ]
]

unfoldable pub get_array : Maps → Bytes → List Bytes
unfolding find
get_array m key = elim (find key m.arrays) [ some v ↦ v | none ↦ [] ]
