-- ===== src/Vsignal/Dispatch.antt =====
-- dispatch_request and run_stdio_loop of src_vsignal/server/server_core.h.
use tool_debug.Common.{
  Bytes, codes, equal, List, [], ◌∷◌, ◌++◌, ℤ, pos, Bool, true, false, not, if◌then◌else◌, is_empty,
}
use tool_debug.Json.Builder.{set, set_int, dump}
use tool_debug.Json.Parser.{Maps, parsed, get_string}
use tool_debug.Protocol.{make_ok_response, make_error_response}
use tool_debug.Wave.Dispatch.{params_of, request_id}
use tool_debug.Vsignal.{DesignServer}
use tool_debug.Vsignal.Handlers.{
  missing_parameter, handle_design_status, handle_design_info, handle_trace_driver,
  handle_trace_load, handle_fanin_reg, handle_fanout_reg, handle_trace_path, handle_inst_conn,
}

unfoldable pub run_design_command : DesignServer → ℤ → Bytes → Maps → Bytes
run_design_command g id cmd_str params =
    if equal cmd_str (codes "status")
    then handle_design_status g id
    else if equal cmd_str (codes "shutdown")
    then make_ok_response id (codes "{\"message\":\"shutting down\"}")
    else if equal cmd_str (codes "info")
    then handle_design_info g id
    else if equal cmd_str (codes "trace_driver")
    then handle_trace_driver g id params
    else if equal cmd_str (codes "trace_load")
    then handle_trace_load g id params
    else if equal cmd_str (codes "fanin_reg")
    then handle_fanin_reg g id params
    else if equal cmd_str (codes "fanout_reg")
    then handle_fanout_reg g id params
    else if equal cmd_str (codes "trace_path")
    then handle_trace_path g id params
    else if equal cmd_str (codes "inst_conn")
    then handle_inst_conn g id params
    else missing_parameter id (codes "Unknown command: " ++ cmd_str)

unfoldable pub answer_parsed : DesignServer → Bool × Maps → Bytes × Bool
unfolding run_design_command
answer_parsed g (false, req) =
    (make_error_response (pos 0) (codes "INVALID_PARAMS") (codes "Invalid JSON"), true)
answer_parsed g (true, req) =
    let cmd_str = get_string req (codes "cmd") [] in
    let params = params_of req (get_string req (codes "params") []) in
    (run_design_command g (request_id req) cmd_str params, not (equal cmd_str (codes "shutdown")))

-- The response, and whether the server goes on.
unfoldable pub dispatch_design_request : DesignServer → Bytes → Bytes × Bool
unfolding answer_parsed
dispatch_design_request g request_json = answer_parsed g (parsed request_json)

-- The lines that `run_stdio_loop` writes behind the ready line, for the lines that it reads.
unfoldable pub design_stdio_loop : DesignServer → List Bytes → List Bytes
unfolding dispatch_design_request
design_stdio_loop g [] = []
design_stdio_loop g (request ∷ requests) =
    let rest = design_stdio_loop g requests in
    let (response, running) = dispatch_design_request g request in
    if is_empty request then rest else response ∷ (if running then rest else [])

unfoldable pub run_design_stdio_loop : DesignServer → List Bytes → List Bytes
unfolding design_stdio_loop
run_design_stdio_loop g requests =
    let ready₁ = set [] (codes "type") (codes "ready") in
    let ready₂ = set ready₁ (codes "protocol") (codes "vsignal-stdio-loop") in
    let ready₃ = set_int ready₂ (codes "version") (pos 1) in
    let ready₄ = set_int ready₃ (codes "pid") g.pid in
    dump (set ready₄ (codes "backend") (codes "npi")) ∷ design_stdio_loop g requests
