-- ===== src/Wave/Handlers.antt =====
-- The handlers of src_vwave/server/handlers.h that ask for signals and values.
use tool_debug.Common.{
  Bytes, codes, equal, List, [], ◌∷◌, ◌++◌, map, ℤ, pos, negsuc, ltb_ℤ, eqb_ℤ, Bool, true, false,
  not, ◌||◌, Option, none, some, if◌then◌else◌, is_empty,
}
use tool_debug.Common.Decimal.{to_string}
use tool_debug.Json.Builder.{JsonObject, set, set_int, set_raw, set_array, dump}
use tool_debug.Json.Parser.{Maps, get_string, get_int, get_bool, get_array}
use tool_debug.Backend.{
  backend_error, exception, Result, ok, error, ◌>>=◌, SignalInfo, Value, WaveBackend, leaf_name,
}
use tool_debug.Backend.Walks.{scope_not_found}
use tool_debug.Wave.{
  ServerState, invalid_params, invalid_time, int_size, require_signal, describe_signal, clamp,
  set_truncated,
}

-- The loops that write `[`, the elements with a comma before each but the first, and `]`.
unfoldable pub join_rest : List JsonObject → Bytes
join_rest [] = []
join_rest (j ∷ js) = b',' ∷ (dump j ++ join_rest js)

unfoldable pub join_objects : List JsonObject → Bytes
unfolding join_rest
join_objects [] = codes "[]"
join_objects (j ∷ js) = b'[' ∷ (dump j ++ (join_rest js ++ b']' ∷ []))

abbrev pub direction_mark : Bytes → Bytes
direction_mark direction =
    if equal direction (codes "input")
    then codes " i"
    else if equal direction (codes "output")
    then codes " o"
    else if equal direction (codes "inout")
    then codes " io"
    else []

unfoldable pub compact_entry : SignalInfo → Bytes
compact_entry s =
    let range =
      codes "[" ++ (to_string s.left ++ (codes ":" ++ (to_string s.right ++ codes "]"))) in
    let ranged = not (eqb_ℤ s.left (pos 0)) || not (eqb_ℤ s.right (pos 0)) in
    leaf_name s.full_name ++ ((if ranged then range else []) ++ direction_mark s.direction)

unfoldable pub list_signals : Bytes → Bool → List SignalInfo → JsonObject
unfolding compact_entry join_objects
list_signals path compact signals =
    let data₀ = set [] (codes "path") path in
    let result = map compact_entry signals in
    let short =
      set_int (set_array data₀ (codes "signals") result) (codes "count") (int_size result) in
    if compact
    then short
    else set_raw data₀ (codes "signals") (join_objects (map describe_signal signals))

unfoldable pub handle_list_signals : ServerState → Maps → Result JsonObject
unfolding list_signals
handle_list_signals g params =
    let path = get_string params (codes "path") [] in
    let compact = get_bool params (codes "compact") false in
    let listed = g.backend.signals path >>= (λ signals. ok (list_signals path compact signals)) in
    if is_empty path
    then invalid_params (codes "Missing 'path' parameter")
    else if not (g.backend.has_scope path)
    then scope_not_found path
    else listed

unfoldable pub handle_signal_info : ServerState → Maps → Result JsonObject
handle_signal_info g params =
    let path = get_string params (codes "signal") [] in
    if is_empty path
    then invalid_params (codes "Missing 'signal' parameter")
    else require_signal g.backend path >>= (λ s. ok (describe_signal s))

-- The fields of one signal: `try { point } catch (const BackendError&)`.
abbrev pub value_fields : JsonObject → ℤ → Result Value → Result JsonObject
value_fields j time (ok v) =
    ok (set_int (set j (codes "value") v.value) (codes "actual_time") v.time)
value_fields j time (error (backend_error code message)) =
    let j₁ = set j (codes "value") (codes "x") in
    let j₂ = set j₁ (codes "error") message in
    let j₃ = set j₂ (codes "error_code") code in ok (set_int j₃ (codes "actual_time") time)
value_fields j time (error (exception message)) = error (exception message)

abbrev pub value_found : WaveBackend → ℤ → Bytes → Bytes → Option SignalInfo → Result JsonObject
value_found b time radix path none =
    ok (set (set [] (codes "signal") path) (codes "error") (codes "not found"))
value_found b time radix path (some s) =
    value_fields (set [] (codes "signal") path) time (b.point path time radix)

unfoldable pub value_of : WaveBackend → ℤ → Bytes → Bytes → Result JsonObject
value_of b time radix path = b.signal path >>= value_found b time radix path

unfoldable pub values_of : WaveBackend → ℤ → Bytes → List Bytes → Result (List JsonObject)
unfolding value_of
values_of b time radix [] = ok []
values_of b time radix (path ∷ paths) = do
  j ← value_of b time radix path
  js ← values_of b time radix paths
  ok (j ∷ js)

-- `signals`, or `signal` if there are none.
abbrev pub requested : List Bytes → Bytes → List Bytes
requested [] [] = []
requested [] (c ∷ s) = (c ∷ s) ∷ []
requested (s ∷ signals) _ = s ∷ signals

abbrev pub no_signals : List Bytes → Bool
no_signals [] = true
no_signals (s ∷ signals) = false

unfoldable pub handle_get_value_at : ServerState → Maps → Result JsonObject
unfolding values_of join_objects
handle_get_value_at g params =
    let time = get_int params (codes "time") (negsuc 0) in
    let signals =
      requested (get_array params (codes "signals")) (get_string params (codes "signal") []) in
    let radix = get_string params (codes "radix") (codes "bin") in
    let answer = values_of g.backend time radix signals >>= (λ js.
      ok (set_raw (set_int [] (codes "time") time) (codes "values") (join_objects js))) in
    if ltb_ℤ time (pos 0)
    then invalid_time (codes "Missing or invalid 'time'")
    else if no_signals signals
    then invalid_params (codes "No signals specified")
    else answer

unfoldable pub change_fields : Value → JsonObject
change_fields v = set (set_int [] (codes "time") v.time) (codes "value") v.value

unfoldable pub handle_get_value_between : ServerState → Maps → Result JsonObject
unfolding join_objects change_fields
handle_get_value_between g params =
    let signal = get_string params (codes "signal") [] in
    let begin = get_int params (codes "begin") (negsuc 0) in
    let end = get_int params (codes "end") (negsuc 0) in
    let limit = pos (clamp 100000 (get_int params (codes "limit") (pos 1000))) in
    let radix = get_string params (codes "radix") (codes "bin") in
    let answer = require_signal g.backend signal >>= (λ s.
      g.backend.range signal begin end radix limit >>= (λ r.
        let data₁ = set [] (codes "signal") signal in
        let data₂ = set_int data₁ (codes "begin") begin in
        let data₃ = set_int data₂ (codes "end") end in
        let data₄ = set_int data₃ (codes "total_changes") r.total in
        let data₅ = set_raw data₄ (codes "changes") (join_objects (map change_fields r.changes)) in
        ok (set_truncated (ltb_ℤ limit r.total) data₅))) in
    if is_empty signal
    then invalid_params (codes "Missing 'signal'")
    else if ltb_ℤ begin (pos 0) || ltb_ℤ end begin
    then invalid_time (codes "Invalid time range")
    else answer
