-- ===== src/Tests/Cursor.antt =====
-- The FFR backend on a variable with three changes.
use tool_debug.Common.{
  equal, ℕ, Bytes, codes, List, [], ◌∷◌, ◌≡◌, refl, pos, true, false, some, none, arith, ltb,
  if◌then◌else◌, get_or, map,
}
use tool_debug.Backend.{ok, SignalInfo}
use tool_debug.Ffr.{convert}
use tool_debug.Ffr.Slice.{Var, vcd_kind, project_slice, select_loop}
use tool_debug.Ffr.Cursor.{
  Vc, Track, one_byte, Reader, open_cursor, current, logic_text, cursor_range, cursor_count,
  count_loop,
}
use tool_debug.Ffr.Listing.{Lands, between, kept, listing, cursor_range-between}

abbrev nibble : SignalInfo
nibble = record {
  name = codes "n";
  full_name = codes "top.n";
  direction = codes "none";
  left = pos 3;
  right = pos 0;
}

abbrev nibble_var : Var
nibble_var = record {
  info = nibble;
  id = 7;
  kind = vcd_kind;
  one_byte = true;
  source = [];
  sliced = false;
  base_left = pos 3;
  base_right = pos 0;
  slice_left = pos 3;
  slice_right = pos 0;
}

abbrev change : ℕ → Bytes → Vc
change tag raw = record { tag = tag; raw = some raw }

abbrev three : List Vc
three =
    change 0 (2 ∷ 2 ∷ 2 ∷ 2 ∷ [])
    ∷ change 10 (0 ∷ 0 ∷ 1 ∷ 1 ∷ [])
    ∷ change 20 (0 ∷ 1 ∷ 1 ∷ 1 ∷ [])
    ∷ []

abbrev nibble_track : Track
nibble_track = record {
  changes = three;
  seek = λ tag. if ltb tag 10 then some 0 else if ltb tag 20 then some 1 else some 2;
  encoding = one_byte;
}

abbrev nibble_reader : Reader
nibble_reader = record {
  track = λ id. some nibble_track;
  format_real = λ raw. [];
  max_time = pos 30;
}

abbrev shown : Vc → Bytes
shown vc = elim vc.raw [ none ↦ [] | some raw ↦ map (λ b. get_or (codes "01xz") b 0) raw ]

opens_nibble : open_cursor nibble_reader nibble_var (codes "top.n") ≡ ok nibble_track
unfolding open_cursor
opens_nibble = refl

abbrev lands_at_15 : Lands nibble_reader nibble_track 15
lands_at_15 = record {
  front = change 0 (2 ∷ 2 ∷ 2 ∷ 2 ∷ []) ∷ [];
  vc = change 10 (0 ∷ 0 ∷ 1 ∷ 1 ∷ []);
  after = change 20 (0 ∷ 1 ∷ 1 ∷ 1 ∷ []) ∷ [];
  parts = refl;
  position = refl;
  before = (omega arith, tt);
  at = omega arith;
  behind = (omega arith, tt);
}

cursor_range-between_example :
    cursor_range nibble_reader nibble_var (codes "top.n") (pos 15) (pos 25) (codes "bin") 9
    ≡ ok (
        listing 9 (
          record { time = pos 15; value = codes "0011" }
          ∷ kept false (codes "0011") (between 15 25 shown three)))
unfolding current logic_text convert equal
cursor_range-between_example =
    cursor_range-between nibble_reader nibble_track nibble_var (codes "top.n") (codes "bin") shown
      15 25 9 opens_nibble ((omega arith, (omega arith, tt)), ((omega arith, tt), (tt, tt)))
      (refl, (refl, (refl, tt))) lands_at_15 (omega arith)

counted : cursor_count nibble_reader nibble_var (codes "top.n") (pos 5) (pos 25) ≡ ok (pos 2)
unfolding cursor_count open_cursor count_loop
counted = refl

middle_bits :
    project_slice
      (record nibble_var { sliced = true; slice_left = pos 2; slice_right = pos 1 })
      (codes "0110")
    ≡ ok (codes "11")
unfolding project_slice select_loop
middle_bits = refl
