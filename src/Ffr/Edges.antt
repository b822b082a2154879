-- ===== src/Ffr/Edges.antt =====
-- src_vwave/backend/ffr_backend.h: edge of a string and of a part select, and what chooses between
-- them.
use tool_debug.Common.{
  ℕ, suc, Bytes, codes, equal, List, [], ◌∷◌, reverse, ℤ, ltb_ℤ, Bool, true, false, not, ◌&&◌,
  Option, none, some, if◌then◌else◌, take, drop, map,
}
use tool_debug.Backend.{Result, ok, ◌>>=◌, Value, Edge}
use tool_debug.Ffr.Slice.{Var, VarKind, string_kind, project_slice}
use tool_debug.Ffr.Cursor.{
  Vc, Track, Reader, open_cursor, current, time_of, tag_of, min_ℤ, no_edge, edge_found, cursor_edge,
}

abbrev pub tag_edge : List Vc → Edge
tag_edge [] = no_edge
tag_edge (vc ∷ vcs) = edge_found (time_of vc.tag) []

abbrev pub string_edge_at : Track → Bool → Option ℕ → Edge
string_edge_at track backward none = no_edge
string_edge_at track backward (some position) =
    tag_edge (
      if backward then reverse (take position track.changes) else drop (suc position) track.changes)

-- The branch of `edge` for a string: the time of a neighbour, with no value.
unfoldable pub string_edge : Reader → Var → Bytes → ℤ → Bytes → Bool → Result Edge
unfolding open_cursor
string_edge reader var path t kind backward =
    let found = open_cursor reader var path >>= (λ track.
      ok (string_edge_at track backward (track.seek (tag_of (min_ℤ t reader.max_time))))) in
    if not (equal kind (codes "any")) then ok no_edge else found

-- The changes up to the target, with the bits of the part select.
unfoldable pub slice_events : Reader → Track → Var → Var → ℤ → List Vc → Result (List Value)
unfolding current project_slice
slice_events reader track source slice target [] = ok []
slice_events reader track source slice target (vc ∷ vcs) =
    current reader track source (codes "bin") vc >>= (λ v.
      let rest = slice_events reader track source slice target vcs in
      let more =
        project_slice slice v.value
        >>= (λ text. rest >>= (λ vs. ok (record { time = v.time; value = text } ∷ vs))) in
      if ltb_ℤ target v.time then ok [] else more)

-- `std::string(n, 'x')`
abbrev pub unknown_bits : Bytes → Bytes
unknown_bits value = map (λ bit. b'x') value

-- The loop over the events from the last but one on, newest first.
unfoldable pub effective_event : List Value → Edge
effective_event [] = no_edge
effective_event (e ∷ []) = record { found = true; value = e }
effective_event (e ∷ (f ∷ events)) =
    let earlier = effective_event (f ∷ events) in
    if equal e.value f.value then earlier else record { found = true; value = e }

-- What is found among the events, newest first.
unfoldable pub last_event : List Value → Edge
unfolding effective_event
last_event [] = no_edge
last_event (e ∷ []) = edge_found e.time (unknown_bits e.value)
last_event (e ∷ (f ∷ events)) =
    let changed = effective_event (f ∷ events) in
    if equal e.value f.value then edge_found f.time (unknown_bits e.value) else changed

-- `source` is the variable that the part select is of.
unfoldable pub partial_backward_any_edge : Reader → Var → Var → ℤ → Result Edge
unfolding open_cursor slice_events last_event
partial_backward_any_edge reader source slice target =
    open_cursor reader source slice.source >>= (λ track.
      slice_events reader track source slice target track.changes
      >>= (λ events. ok (last_event (reverse events))))

abbrev pub is_string : VarKind → Bool
is_string string_kind = true
is_string _ = false

-- `edge` of a variable with an id of its own.
unfoldable pub simple_edge : Reader → Var → Var → Bytes → ℤ → Bytes → Bool → Result Edge
unfolding string_edge partial_backward_any_edge cursor_edge
simple_edge reader source var path t kind backward =
    if is_string var.kind
    then string_edge reader var path t kind backward
    else if var.sliced && (backward && equal kind (codes "any"))
    then partial_backward_any_edge reader source var t
    else cursor_edge reader var path t kind backward
