-- ===== src/Ffr/Dimensions.antt =====
-- The name of an array with its dimensions, as ranges_in and parse_range of
-- src_vwave/backend/ffr_backend.h take it apart.
use tool_debug.Common.{
  if◌then◌else◌, ℕ, suc, Bytes, List, [], ◌∷◌, ◌++◌, map, reverse, append_assoc, append-nil, ◌≡◌,
  refl, ap, sym, ◌∙◌, ◌==◌, false, true, not, none, some, All, arith, ℤ, pos, negsuc, is_empty,
  IsInt32, IsInt32-IsInt64,
}
use tool_debug.Common.Decimal.{
  to_string, decimal, decimal_cons, decimal-AllDigits, AllDigits, strtoll-to_string,
}
use mathlib.Core.List.{reverse-append, reverse-reverse}
use tool_debug.Ffr.Brackets.{
  has_number, stoi, in_int, find_byte, between_brackets, without_last, range_inside, parse_range,
  ranges_loop, ranges_in,
}

in_int-IsInt32 : (i : ℤ) → IsInt32 i → in_int i ≡ some i
in_int-IsInt32 (pos n) h = ground arith
in_int-IsInt32 (negsuc n) h = ground arith

has_number-to_string : (i : ℤ) → has_number (to_string i) ≡ true
unfolding has_number to_string
has_number-to_string (pos n) = let (c, cs, e, d) = decimal_cons n in rw e (ground arith)
has_number-to_string (negsuc n) = let (c, cs, e, d) = decimal_cons (suc n) in rw e d

stoi-to_string : (i : ℤ) → IsInt32 i → stoi (to_string i) ≡ some i
unfolding stoi
stoi-to_string i h =
    rw (has_number-to_string i, strtoll-to_string i (IsInt32-IsInt64 i h)) (in_int-IsInt32 i h)

-- The bytes of a number are not these.
abbrev Plain : ℕ → Type 0
Plain c = ((c == b':') ≡ false) × ((c == b']') ≡ false)

digits-Plain : (ds : Bytes) → AllDigits ds → All Plain ds
digits-Plain [] h = tt
digits-Plain (d ∷ ds) h = (let digit = h.0 in (ground arith, ground arith), digits-Plain ds h.1)

to_string-Plain : (i : ℤ) → All Plain (to_string i)
unfolding to_string
to_string-Plain (pos n) = digits-Plain (decimal n) (decimal-AllDigits n)
to_string-Plain (negsuc n) =
    ((refl, refl), digits-Plain (decimal (suc n)) (decimal-AllDigits (suc n)))

find_byte-first :
    (front rest : Bytes)
    → All Plain front
    → find_byte b':' (front ++ b':' ∷ rest) ≡ some (front, rest)
unfolding find_byte
find_byte-first [] rest h = refl
find_byte-first (c ∷ front) rest h = rw (h.0.0, find_byte-first front rest h.1) refl

find_byte-none : (text : Bytes) → All Plain text → find_byte b':' text ≡ none
unfolding find_byte
find_byte-none [] h = refl
find_byte-none (c ∷ text) h = rw (h.0.0, find_byte-none text h.1) refl

-- A dimension of an array: one index, or two ends.
pub data Dimension : Type 0 where
  index : ℤ → Dimension
  range : ℤ → ℤ → Dimension

abbrev pub AreInts : Dimension → Type 0
AreInts (index i) = IsInt32 i
AreInts (range left right) = IsInt32 left × IsInt32 right

abbrev pub ends : Dimension → ℤ × ℤ
ends (index i) = (i, i)
ends (range left right) = (left, right)

abbrev pub inner : Dimension → Bytes
inner (index i) = to_string i
inner (range left right) = to_string left ++ b':' ∷ to_string right

abbrev pub bracket : Dimension → Bytes
bracket d = b'[' ∷ (inner d ++ b']' ∷ [])

abbrev pub brackets : List Dimension → Bytes
brackets [] = []
brackets (d ∷ ds) = bracket d ++ brackets ds

range_inside-inner : (d : Dimension) → AreInts d → range_inside (some (inner d)) ≡ some (ends d)
range_inside-inner (index i) h =
    rw (find_byte-none (to_string i) (to_string-Plain i), stoi-to_string i h) refl
range_inside-inner (range left right) h =
    rw
      (
        find_byte-first (to_string left) (to_string right) (to_string-Plain left),
        stoi-to_string left h.0,
        stoi-to_string right h.1,
      )
      refl

filled : (i : ℤ) (rest : Bytes) → is_empty (to_string i ++ rest) ≡ false
unfolding to_string
filled (pos n) rest = let (c, cs, e, d) = decimal_cons n in ap (λ t. is_empty (t ++ rest)) e
filled (negsuc n) rest = refl

inner-filled : (d : Dimension) → is_empty (inner d) ≡ false
inner-filled (index i) = ap is_empty (sym (append-nil (to_string i))) ∙ filled i []
inner-filled (range left right) = filled left (b':' ∷ to_string right)

reverse-filled : (text : Bytes) → is_empty text ≡ false → is_empty (reverse text) ≡ false
reverse-filled text h = go (reverse text) refl
  where
    go : (t : Bytes) → reverse text ≡ t → is_empty t ≡ false
    go (c ∷ t) e = refl
    go [] e = absurd (
        let nothing : text ≡ [] = sym (reverse-reverse text) ∙ ap reverse e in
        let empty = sym h ∙ ap is_empty nothing in cc)

between_brackets-bracket : (d : Dimension) → between_brackets (bracket d) ≡ some (inner d)
between_brackets-bracket d =
    ap without_last (reverse-append (inner d) (b']' ∷ []))
    ∙ ap (λ b. if not b then some (reverse (reverse (inner d))) else none)
        (reverse-filled (inner d) (inner-filled d))
    ∙ ap some (reverse-reverse (inner d))

parse_range-bracket : (d : Dimension) → AreInts d → parse_range (bracket d) ≡ some (ends d)
unfolding parse_range
parse_range-bracket d h = ap range_inside (between_brackets-bracket d) ∙ range_inside-inner d h

-- No bracket closes inside.
abbrev IsOpen : Bytes → Type 0
IsOpen = All (λ c. (c == b']') ≡ false)

Plain-IsOpen : (text : Bytes) → All Plain text → IsOpen text
Plain-IsOpen [] h = tt
Plain-IsOpen (c ∷ text) h = (h.0.1, Plain-IsOpen text h.1)

IsOpen-append : (a b : Bytes) → IsOpen a → IsOpen b → IsOpen (a ++ b)
IsOpen-append [] b h k = k
IsOpen-append (c ∷ a) b h k = (h.0, IsOpen-append a b h.1 k)

inner-IsOpen : (d : Dimension) → IsOpen (inner d)
inner-IsOpen (index i) = Plain-IsOpen (to_string i) (to_string-Plain i)
inner-IsOpen (range left right) =
    IsOpen-append (to_string left) (b':' ∷ to_string right)
      (Plain-IsOpen (to_string left) (to_string-Plain left))
      (refl, Plain-IsOpen (to_string right) (to_string-Plain right))

ranges_loop-closed :
    (read text rest : Bytes)
    → IsOpen text
    → ranges_loop (some read) (text ++ b']' ∷ rest)
      ≡ (read ++ (text ++ b']' ∷ [])) ∷ ranges_loop none rest
unfolding ranges_loop
ranges_loop-closed read [] rest h = refl
ranges_loop-closed read (c ∷ text) rest h = rw h.0 (
    ranges_loop-closed (read ++ c ∷ []) text rest h.1
    ∙ ap (λ t. t ∷ ranges_loop none rest) (append_assoc read (c ∷ []) (text ++ b']' ∷ [])))

ranges_loop-brackets : (ds : List Dimension) → ranges_loop none (brackets ds) ≡ map bracket ds
unfolding ranges_loop
ranges_loop-brackets [] = refl
ranges_loop-brackets (d ∷ ds) =
    ap (ranges_loop (some (b'[' ∷ []))) (append_assoc (inner d) (b']' ∷ []) (brackets ds))
    ∙ ranges_loop-closed (b'[' ∷ []) (inner d) (brackets ds) (inner-IsOpen d)
    ∙ ap (λ rs. bracket d ∷ rs) (ranges_loop-brackets ds)

-- A name without a bracket.
abbrev pub IsBare : Bytes → Type 0
IsBare = All (λ c. (c == b'[') ≡ false)

ranges_loop-bare :
    (name text : Bytes) → IsBare name → ranges_loop none (name ++ text) ≡ ranges_loop none text
unfolding ranges_loop
ranges_loop-bare [] text h = refl
ranges_loop-bare (c ∷ name) text h = rw h.0 (ranges_loop-bare name text h.1)

parse_each :
    (ds : List Dimension)
    → All AreInts ds
    → map parse_range (map bracket ds) ≡ map (λ d. some (ends d)) ds
parse_each [] h = refl
parse_each (d ∷ ds) h = rw (parse_range-bracket d h.0, parse_each ds h.1) refl

-- ranges_in and parse_range give the dimensions of an array back from its name, in their order, an
-- index as a range of one, where the name in front has no opening bracket and the ends are ints.
pub parse_range-ranges_in :
    (name : Bytes) (ds : List Dimension)
    → IsBare name
    → All AreInts ds
    → map parse_range (ranges_in (name ++ brackets ds)) ≡ map (λ d. some (ends d)) ds
unfolding ranges_in
parse_range-ranges_in name ds bare ints =
    ap (map parse_range) (ranges_loop-bare name (brackets ds) bare ∙ ranges_loop-brackets ds)
    ∙ parse_each ds ints
