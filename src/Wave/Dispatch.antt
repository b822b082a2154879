-- ===== src/Wave/Dispatch.antt =====
-- The other handlers of src_vwave/server/handlers.h, and dispatch_request and run_stdio_loop of
-- src_vwave/server/server_core.h.
use tool_debug.Common.{
  Bytes, codes, equal, List, [], ◌∷◌, ◌++◌, ℤ, pos, negsuc, ltb_ℤ, to_int, Bool, true, false, not,
  ◌||◌, if◌then◌else◌, leb, is_empty, length,
}
use tool_debug.Json.Builder.{JsonObject, set, set_int, set_array, dump}
use tool_debug.Json.Parser.{Maps, parsed, get_string, get_int}
use tool_debug.Protocol.{make_ok_response, make_error_response}
use tool_debug.Backend.{backend_error, exception, Result, ok, error, ◌>>=◌, WaveBackend}
use tool_debug.Backend.Walks.{find_all}
use tool_debug.Wave.{
  ServerState, invalid_params, invalid_time, int_size, require_signal, set_truncated, handle_status,
  handle_file_info, handle_list_scopes,
}
use tool_debug.Wave.Handlers.{
  handle_list_signals, handle_signal_info, handle_get_value_at, handle_get_value_between,
}

unfoldable pub found_fields : Bytes → Bytes → List Bytes → JsonObject
found_fields pattern scope result =
    let data₁ = set [] (codes "pattern") pattern in
    let data₂ = if is_empty scope then data₁ else set data₁ (codes "scope") scope in
    let data₃ = set_array data₂ (codes "signals") result in
    set_int data₃ (codes "count") (int_size result)

unfoldable pub handle_find_signals : ServerState → Maps → Result JsonObject
unfolding found_fields
handle_find_signals g params =
    let pattern = get_string params (codes "pattern") [] in
    let scope = get_string params (codes "scope") [] in
    let answer = find_all g.backend scope pattern >>= (λ result.
      ok (set_truncated (leb 200 (length result)) (found_fields pattern scope result))) in
    if is_empty pattern then invalid_params (codes "Missing 'pattern'") else answer

unfoldable pub handle_next_edge : ServerState → Maps → Result JsonObject
handle_next_edge g params =
    let signal = get_string params (codes "signal") [] in
    let time = get_int params (codes "time") (negsuc 0) in
    let kind = get_string params (codes "edge") (codes "any") in
    let dir = get_string params (codes "dir") (codes "forward") in
    let answer = require_signal g.backend signal >>= (λ s.
      g.backend.edge signal time kind (equal dir (codes "backward")) >>= (λ e.
        let data₁ = set [] (codes "signal") signal in
        let data₂ = set_int data₁ (codes "from_time") time in
        let data₃ = set (set data₂ (codes "edge") kind) (codes "dir") dir in
        let data₄ =
          set_int data₃ (codes "found_time") (if e.found then e.value.time else negsuc 0) in
        ok (if e.found then set data₄ (codes "value") e.value.value else data₄))) in
    if is_empty signal
    then invalid_params (codes "Missing 'signal'")
    else if ltb_ℤ time (pos 0)
    then invalid_time (codes "Missing 'time'")
    else answer

-- `if (end < 0) end = info().max_time`
abbrev pub last_time : WaveBackend → ℤ → Result ℤ
last_time b (pos n) = ok (pos n)
last_time b (negsuc n) = b.info >>= (λ i. ok i.max_time)

unfoldable pub handle_vc_count : ServerState → Maps → Result JsonObject
handle_vc_count g params =
    let signal = get_string params (codes "signal") [] in
    let begin = get_int params (codes "begin") (pos 0) in
    let answer = last_time g.backend (get_int params (codes "end") (negsuc 0)) >>= (λ end.
      require_signal g.backend signal >>= (λ s. g.backend.count signal begin end >>= (λ count.
        let data₁ = set_int (set [] (codes "signal") signal) (codes "begin") begin in
        ok (set_int (set_int data₁ (codes "end") end) (codes "count") count)))) in
    if is_empty signal then invalid_params (codes "Missing 'signal'") else answer

-- The commands, other than those that stop the server.
pub data Command : Type 0 where
  status file_info list_scopes list_signals signal_info get_value_at : Command
  get_value_between find_signals next_edge vc_count shutdown unknown : Command

unfoldable pub command_of : Bytes → Command
command_of cmd =
    if equal cmd (codes "status")
    then status
    else if equal cmd (codes "shutdown") || equal cmd (codes "stdio.quit")
    then shutdown
    else if equal cmd (codes "file_info")
    then file_info
    else if equal cmd (codes "list_scopes")
    then list_scopes
    else if equal cmd (codes "list_signals")
    then list_signals
    else if equal cmd (codes "signal_info")
    then signal_info
    else if equal cmd (codes "get_value_at")
    then get_value_at
    else if equal cmd (codes "get_value_between")
    then get_value_between
    else if equal cmd (codes "find_signals")
    then find_signals
    else if equal cmd (codes "next_edge")
    then next_edge
    else if equal cmd (codes "vc_count")
    then vc_count
    else unknown

unfoldable pub run_command : ServerState → Bytes → Command → Maps → Result JsonObject
run_command g cmd status params = handle_status g
run_command g cmd file_info params = handle_file_info g
run_command g cmd list_scopes params = handle_list_scopes g params
run_command g cmd list_signals params = handle_list_signals g params
run_command g cmd signal_info params = handle_signal_info g params
run_command g cmd get_value_at params = handle_get_value_at g params
run_command g cmd get_value_between params = handle_get_value_between g params
run_command g cmd find_signals params = handle_find_signals g params
run_command g cmd next_edge params = handle_next_edge g params
run_command g cmd vc_count params = handle_vc_count g params
run_command g cmd shutdown params = ok (set [] (codes "message") (codes "shutting down"))
run_command g cmd unknown params = invalid_params (codes "Unknown command: " ++ cmd)

-- The response to a result: `catch (const BackendError&)` and `catch (const std::exception&)`.
unfoldable pub respond : ℤ → Result JsonObject → Bytes
respond id (ok data_fields) = make_ok_response id (dump data_fields)
respond id (error (backend_error code message)) = make_error_response id code message
respond id (error (exception message)) = make_error_response id (codes "INTERNAL_ERROR") message

-- `params`: the nested object, or the request itself.
abbrev pub params_of : Maps → Bytes → Maps
params_of req [] = req
params_of req (c ∷ text) = (parsed (c ∷ text)).1

abbrev pub is_shutdown : Command → Bool
is_shutdown shutdown = true
is_shutdown _ = false

abbrev pub request_id : Maps → ℤ
request_id req = to_int (get_int req (codes "id") (pos 0))

unfoldable pub answer_request : ServerState → Maps → Bytes × Bool
unfolding respond run_command command_of
answer_request g req =
    let cmd_str = get_string req (codes "cmd") [] in
    let command = command_of cmd_str in
    let params = params_of req (get_string req (codes "params") []) in
    (respond (request_id req) (run_command g cmd_str command params), not (is_shutdown command))

abbrev pub dispatch_parsed : ServerState → Bool × Maps → Bytes × Bool
dispatch_parsed g (false, req) =
    (make_error_response (pos 0) (codes "INVALID_PARAMS") (codes "Invalid JSON"), true)
dispatch_parsed g (true, req) = answer_request g req

-- The response, and whether the server goes on.
unfoldable pub dispatch_request : ServerState → Bytes → Bytes × Bool
dispatch_request g request_json = dispatch_parsed g (parsed request_json)

-- The lines that `run_stdio_loop` writes behind the ready line, for the lines that it reads.
unfoldable pub stdio_loop : ServerState → List Bytes → List Bytes
unfolding dispatch_request
stdio_loop g [] = []
stdio_loop g (request ∷ requests) =
    let rest = stdio_loop g requests in
    let (response, running) = dispatch_request g request in
    if is_empty request then rest else response ∷ (if running then rest else [])

unfoldable pub run_stdio_loop : ServerState → List Bytes → List Bytes
unfolding stdio_loop
run_stdio_loop g requests =
    let ready₁ = set [] (codes "type") (codes "ready") in
    let ready₂ = set ready₁ (codes "protocol") (codes "vwave-stdio-loop") in
    let ready₃ = set_int ready₂ (codes "version") (pos 1) in
    let ready₄ = set_int ready₃ (codes "pid") g.pid in
    dump (set ready₄ (codes "backend") g.session.backend) ∷ stdio_loop g requests
