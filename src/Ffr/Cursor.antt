-- ===== src/Ffr/Cursor.antt =====
-- src_vwave/backend/ffr_backend.h: point, range, edge and count of a variable that has values of its
-- own, over what the reader's traverse handle gives.
use tool_debug.Common.{
  ℕ, suc, ◌-◌, ◌^◌, Bytes, codes, equal, List, [], ◌∷◌, ◌++◌, reverse, ℤ, pos, negsuc, ltb_ℤ, eqb_ℤ,
  Bool, true, false, not, ◌&&◌, ◌||◌, Option, none, some, if◌then◌else◌, ltb, leb, ◌==◌, length,
  take, drop, get_or,
}
use tool_debug.Backend.{Result, ok, error, backend_error, ◌>>=◌, Value, Range, Edge}
use tool_debug.Ffr.{convert}
use tool_debug.Ffr.Slice.{Var, vcd_kind, real_kind, string_kind, sv_kind, project_slice, up}

-- A value change: its tag, and the bytes of its value, or nothing where the reader gives none.
pub record Vc : Type 0 where
  pub tag : ℕ
  pub raw : Option Bytes

pub data Encoding : Type 0 where
  one_byte eight_bytes other_bytes : Encoding

-- What a traverse handle walks: the changes of a variable, one after another, the position that it
-- goes to for a tag, and the bytes per bit.
pub record Track : Type 0 where
  pub changes : List Vc
  pub seek : ℕ → Option ℕ
  pub encoding : Encoding

-- The reader's handles by idcode; `none` where the load or the creation of the handle fails. The
-- format of a real number is that of snprintf.
pub record Reader : Type 0 where
  pub track : ℕ → Option Track
  pub format_real : Bytes → Bytes
  pub max_time : ℤ

abbrev pub failed {ℓ} : {A : Type ℓ} → Bytes → Bytes → Result A
failed code message = error (backend_error code message)

abbrev pub unsupported {ℓ} : {A : Type ℓ} → Bytes → Result A
unsupported message = failed (codes "UNSUPPORTED_SIGNAL_TYPE") message

-- Whether the constructor of Cursor refuses the type.
abbrev pub refuses : Var → Bool
refuses var = elim var.kind [
  | vcd_kind ↦ not var.one_byte
  | real_kind ↦ false
  | string_kind ↦ false
  | sv_kind ↦ true
]

abbrev pub created : Bytes → Option Track → Result Track
created path none =
    failed (codes "FILE_READ_ERROR") (codes "Failed to create value cursor: " ++ path)
created path (some track) = ok track

unfoldable pub open_cursor : Reader → Var → Bytes → Result Track
open_cursor reader var path =
    if refuses var
    then unsupported
        (codes "FFR currently supports four-state digital values, real and string events: " ++ path)
    else if var.id == 0
    then unsupported (codes "FFR composite value is not yet supported: " ++ path)
    else created path (reader.track var.id)

-- `static_cast<int64_t>` of a tag, and the tag of an int64_t.
abbrev pub time_of : ℕ → ℤ
time_of w = if ltb w (2 ^ 63) then pos w else negsuc (2 ^ 64 - w - 1)

abbrev pub tag_of : ℤ → ℕ
tag_of (pos n) = n
tag_of (negsuc n) = 2 ^ 64 - 1 - n

-- The loop over the bits of a value, `"01xz"[raw[i]]`.
unfoldable pub logic_text : Bytes → Result Bytes
logic_text [] = ok []
logic_text (b ∷ raw) =
    let rest = logic_text raw in
    if leb 4 b
    then unsupported (codes "Unsupported logic value encoding")
    else rest >>= (λ bin. ok (get_or (codes "01xz") b 0 ∷ bin))

abbrev pub sliced_text : Var → Bytes → Result Bytes
sliced_text var bin = if var.sliced then project_slice var bin else ok bin

abbrev pub current_text : Reader → Track → Var → Bytes → Bytes → Result Bytes
current_text reader track var radix raw = elim var.kind [
  | real_kind ↦ elim track.encoding [
    | eight_bytes ↦ ok (reader.format_real raw)
    | _ ↦ unsupported (codes "Unsupported real encoding")
  ]
  | string_kind ↦ unsupported (codes "FFR string value formatting is not yet supported")
  | _ ↦ elim track.encoding [
    | one_byte ↦
        logic_text raw >>= (λ bin. sliced_text var bin >>= (λ text. ok (convert text radix)))
    | _ ↦ unsupported (codes "Unsupported value encoding")
  ]
]

abbrev pub raw_of : Option Bytes → Result Bytes
raw_of none = failed (codes "FILE_READ_ERROR") (codes "Cannot read current value")
raw_of (some raw) = ok raw

unfoldable pub current : Reader → Track → Var → Bytes → Vc → Result Value
unfolding logic_text project_slice convert
current reader track var radix vc = raw_of vc.raw >>= (λ raw.
    current_text reader track var radix raw
    >>= (λ text. ok (record { time = time_of vc.tag; value = text })))

-- The changes from the position of a tag on; none where the reader does not find one.
abbrev pub changes_at : Track → Option ℕ → List Vc
changes_at track none = []
changes_at track (some position) = drop position track.changes

abbrev pub min_ℤ : ℤ → ℤ → ℤ
min_ℤ a b = if ltb_ℤ b a then b else a

abbrev pub seek_from : Reader → Track → ℤ → List Vc
seek_from reader track time = changes_at track (track.seek (tag_of (min_ℤ time reader.max_time)))

abbrev pub no_changes : Range
no_changes = record { changes = []; total = pos 0 }

-- `if (changes.size() < limit) changes.push_back(v)`, with the total.
abbrev pub add_change : ℕ → Value → Range → Range
add_change limit v r = record {
  changes = if ltb (length r.changes) limit then r.changes ++ v ∷ [] else r.changes;
  total = up r.total;
}

-- The loop of `range`, with the last value that was taken.
unfoldable pub range_loop :
    Reader → Track → Var → Bytes → ℤ → ℕ → Bytes → Range → List Vc → Result Range
unfolding current
range_loop reader track var radix end limit last r [] = ok r
range_loop reader track var radix end limit last r (vc ∷ vcs) =
    current reader track var radix vc >>= (λ v.
      let same = range_loop reader track var radix end limit last r vcs in
      let more = range_loop reader track var radix end limit v.value (add_change limit v r) vcs in
      if ltb_ℤ end v.time then ok r else if var.sliced && equal v.value last then same else more)

abbrev pub range_first : Reader → Track → Var → Bytes → ℤ → ℤ → ℕ → List Vc → Value → Result Range
range_first reader track var radix begin end limit vcs v =
    let first : Value = record v { time = begin } in
    if ltb_ℤ begin v.time || ltb_ℤ end v.time
    then ok no_changes
    else range_loop reader track var radix end limit v.value (add_change limit first no_changes) vcs

abbrev pub range_from : Reader → Track → Var → Bytes → ℤ → ℤ → ℕ → List Vc → Result Range
range_from reader track var radix begin end limit [] = ok no_changes
range_from reader track var radix begin end limit (vc ∷ vcs) =
    current reader track var radix vc >>= range_first reader track var radix begin end limit vcs

-- `range` from where the cursor is created.
unfoldable pub cursor_range : Reader → Var → Bytes → ℤ → ℤ → Bytes → ℕ → Result Range
unfolding open_cursor range_loop current
cursor_range reader var path begin end radix limit =
    open_cursor reader var path
    >>= (λ track. range_from reader track var radix begin end limit (seek_from reader track begin))

-- The loop of `count`, with the count and the last value of a slice.
unfoldable pub count_loop : Reader → Track → Var → ℤ → ℤ → ℕ → Bytes → List Vc → Result ℤ
unfolding current
count_loop reader track var begin end n last [] = ok (pos n)
count_loop reader track var begin end n last (vc ∷ vcs) =
    let v = time_of vc.tag in
    let same = count_loop reader track var begin end n last vcs in
    let more = count_loop reader track var begin end (suc n) last vcs in
    let projected = current reader track var (codes "bin") vc >>= (λ value.
      if not (n == 0) && equal value.value last
      then same
      else count_loop reader track var begin end (suc n) value.value vcs) in
    if ltb_ℤ end v
    then ok (pos n)
    else if ltb_ℤ v begin
    then same
    else if var.sliced
    then projected
    else more

-- `count` from where the cursor is created.
unfoldable pub cursor_count : Reader → Var → Bytes → ℤ → ℤ → Result ℤ
unfolding open_cursor count_loop
cursor_count reader var path begin end = open_cursor reader var path >>= (λ track.
    count_loop reader track var begin end 0 [] (changes_at track (track.seek (tag_of begin))))

abbrev pub point_from : Reader → Track → Var → Bytes → ℤ → List Vc → Result Value
point_from reader track var radix t [] = failed (codes "FILE_READ_ERROR") (codes "read failed")
point_from reader track var radix t (vc ∷ vcs) =
    current reader track var radix vc >>= (λ v. ok (record v { time = t }))

-- `point` from where the cursor is created.
unfoldable pub cursor_point : Reader → Var → Bytes → ℤ → Bytes → Result Value
unfolding open_cursor current
cursor_point reader var path t radix =
    open_cursor reader var path
    >>= (λ track. point_from reader track var radix t (seek_from reader track t))

abbrev pub no_edge : Edge
no_edge = record { found = false; value = record { time = pos 0; value = [] } }

abbrev pub edge_found : ℤ → Bytes → Edge
edge_found time value = record { found = true; value = record { time = time; value = value } }

-- The first change that fits, by its time and its value.
unfoldable pub edge_search : Reader → Track → Var → (ℤ → Bool) → Bytes → List Vc → Result Edge
unfolding current
edge_search reader track var fits target [] = ok no_edge
edge_search reader track var fits target (vc ∷ vcs) =
    current reader track var (codes "bin") vc >>= (λ v.
      let later = edge_search reader track var fits target vcs in
      if fits v.time && equal v.value target then ok (edge_found v.time target) else later)

abbrev pub any_edge : Reader → Track → Var → List Vc → Result Edge
any_edge reader track var [] = ok no_edge
any_edge reader track var (vc ∷ vcs) =
    current reader track var (codes "bin") vc >>= (λ v. ok (record { found = true; value = v }))

-- What follows the search for a position: the changes before it from the last to the first, the one
-- there, and those behind it.
abbrev pub edge_at : Reader → Track → Var → ℤ → Bytes → Bool → Option ℕ → Result Edge
edge_at reader track var t kind backward none = ok no_edge
edge_at reader track var t kind backward (some position) =
    let before = reverse (take position track.changes) in
    let here_on_back = reverse (take (suc position) track.changes) in
    let after = drop (suc position) track.changes in
    let target = if equal kind (codes "rising") then codes "1" else codes "0" in
    if equal kind (codes "any")
    then any_edge reader track var (if backward then before else after)
    else if backward
    then edge_search reader track var (λ time. ltb_ℤ time t) target here_on_back
    else if eqb_ℤ t (pos (2 ^ 63 - 1))
    then ok no_edge
    else edge_search reader track var (λ time. ltb_ℤ (up t) time) target after

-- `edge` from where the cursor is created.
unfoldable pub cursor_edge : Reader → Var → Bytes → ℤ → Bytes → Bool → Result Edge
unfolding open_cursor edge_search current
cursor_edge reader var path t kind backward = open_cursor reader var path >>= (λ track.
    edge_at reader track var t kind backward (track.seek (tag_of (min_ℤ t reader.max_time))))
