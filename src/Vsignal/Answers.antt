-- ===== src/Vsignal/Answers.antt =====
-- The vsignal dispatcher answers every request.
use tool_debug.Common.{
  subst, Bytes, codes, equal, [], List, ◌≡◌, refl, inl, inr, ℤ, pos, ltb_ℤ, Bool, true, false,
  Option, if◌then◌else◌, is_empty, ◌||◌,
}
use tool_debug.Common.Run.{split}
use tool_debug.Json.Builder.{set, JsonObject, dump}
use tool_debug.Json.Parser.{Maps, parsed, get_string, get_bool}
use tool_debug.Json.Setters.{IsSolid, set-IsSolid, set_int-IsSolid, dump-IsObject, dump-IsLine}
use tool_debug.Protocol.{make_ok_response}
use tool_debug.Wave.Dispatch.{params_of, request_id}
use tool_debug.Wave.Answers.{IsAnswer, answered_id}
use tool_debug.Vsignal.{NlObject, Hdl, DesignServer}
use tool_debug.Vsignal.Handlers.{
  missing_parameter, handle_design_status, handle_design_info, list_response, int_param,
  handle_trace_driver, handle_trace_load, scope_arg, handle_fanin_reg, handle_fanout_reg,
  path_response, handle_trace_path, conn_response, connections, handle_inst_conn,
}
use tool_debug.Vsignal.Dispatch.{run_design_command, answer_parsed, dispatch_design_request}
use tool_debug.Vsignal.Replies.{
  HasPlainNames, PlainConnections, conn_fields-IsSolid, listed_fields-IsSolid, path_fields-IsSolid,
}

make_ok_response-IsAnswer :
    (id : ℤ) (o : JsonObject) → IsSolid o → IsAnswer id (make_ok_response id (dump o))
make_ok_response-IsAnswer id o h = inl (dump o, dump-IsObject o h, dump-IsLine o h, refl)

list_response-IsAnswer :
    (id : ℤ) (sig key failure : Bytes) (params : Maps) (r : ℤ × List (Option NlObject))
    → IsAnswer id (list_response id sig key failure params r)
list_response-IsAnswer id sig key failure params (ret, hdls) =
    split (IsAnswer id) (ltb_ℤ ret (pos 0)) (λ _. inr (_, _, refl))
      (λ _. make_ok_response-IsAnswer id _ (listed_fields-IsSolid sig key hdls _ _))

list_command-IsAnswer :
    (id : ℤ) (params : Maps) (key failure : Bytes) (r : ℤ × List (Option NlObject))
    → IsAnswer id (
        if is_empty (get_string params (codes "signal") [])
        then missing_parameter id (codes "Missing 'signal' parameter")
        else list_response id (get_string params (codes "signal") []) key failure params r)
list_command-IsAnswer id params key failure r =
    let sig = get_string params (codes "signal") [] in
    split (IsAnswer id) (is_empty sig) (λ _. inr (_, _, refl))
      (λ _. list_response-IsAnswer id sig key failure params r)

conn_response-IsAnswer :
    (id : ℤ) (inst level : Bytes) (r : ℤ × List (Hdl × List Hdl))
    → HasPlainNames r
    → IsAnswer id (conn_response id inst level r)
conn_response-IsAnswer id inst level (ret, pairs) h =
    split (IsAnswer id) (ltb_ℤ ret (pos 0)) (λ _. inr (_, _, refl))
      (λ _. make_ok_response-IsAnswer id _ (conn_fields-IsSolid inst level pairs h))

path_response-IsAnswer :
    (id : ℤ) (from_sig to_sig : Bytes) (r : ℤ × List (Option NlObject))
    → IsAnswer id (path_response id from_sig to_sig r)
path_response-IsAnswer id from_sig to_sig (ret, hdls) =
    split (IsAnswer id) (ltb_ℤ ret (pos 0)) (λ _. inr (_, _, refl))
      (λ _. make_ok_response-IsAnswer id _ (path_fields-IsSolid from_sig to_sig hdls))

handle_design_status-IsAnswer :
    (g : DesignServer) (id : ℤ) → IsAnswer id (handle_design_status g id)
unfolding handle_design_status
handle_design_status-IsAnswer g id =
    make_ok_response-IsAnswer id _
      (set_int-IsSolid _ _ _ (set_int-IsSolid _ _ _ (set-IsSolid [] _ _ tt)))

handle_design_info-IsAnswer : (g : DesignServer) (id : ℤ) → IsAnswer id (handle_design_info g id)
unfolding handle_design_info
handle_design_info-IsAnswer g id =
    make_ok_response-IsAnswer id _ (set_int-IsSolid _ _ _ (set-IsSolid [] _ _ tt))

handle_trace_driver-IsAnswer :
    (g : DesignServer) (id : ℤ) (params : Maps) → IsAnswer id (handle_trace_driver g id params)
unfolding handle_trace_driver
handle_trace_driver-IsAnswer g id params =
    list_command-IsAnswer id params (codes "drivers") (codes "Failed to trace drivers for: ") (
      g.netlist.trace_driver (get_string params (codes "signal") [])
        (int_param params (codes "assign_cell")) (int_param params (codes "pass_mod")))

handle_trace_load-IsAnswer :
    (g : DesignServer) (id : ℤ) (params : Maps) → IsAnswer id (handle_trace_load g id params)
unfolding handle_trace_load
handle_trace_load-IsAnswer g id params =
    list_command-IsAnswer id params (codes "loads") (codes "Failed to trace loads for: ") (
      g.netlist.trace_load (get_string params (codes "signal") [])
        (int_param params (codes "assign_cell")) (int_param params (codes "pass_mod")))

handle_fanin_reg-IsAnswer :
    (g : DesignServer) (id : ℤ) (params : Maps) → IsAnswer id (handle_fanin_reg g id params)
unfolding handle_fanin_reg
handle_fanin_reg-IsAnswer g id params =
    list_command-IsAnswer id params (codes "fanin") (codes "Failed to trace fanin for: ") (
      g.netlist.fan_in_reg (get_string params (codes "signal") [])
        (get_bool params (codes "stop_at_pin") false)
        (get_bool params (codes "report_primary_port") false)
        (scope_arg (get_string params (codes "scope") [])))

handle_fanout_reg-IsAnswer :
    (g : DesignServer) (id : ℤ) (params : Maps) → IsAnswer id (handle_fanout_reg g id params)
unfolding handle_fanout_reg
handle_fanout_reg-IsAnswer g id params =
    list_command-IsAnswer id params (codes "fanout") (codes "Failed to trace fanout for: ") (
      g.netlist.fan_out_reg (get_string params (codes "signal") [])
        (get_bool params (codes "stop_at_pin") false)
        (get_bool params (codes "report_primary_port") false)
        (scope_arg (get_string params (codes "scope") [])))

handle_trace_path-IsAnswer :
    (g : DesignServer) (id : ℤ) (params : Maps) → IsAnswer id (handle_trace_path g id params)
unfolding handle_trace_path
handle_trace_path-IsAnswer g id params =
    let from_sig = get_string params (codes "from") [] in
    let to_sig = get_string params (codes "to") [] in
    split (IsAnswer id) (is_empty from_sig || is_empty to_sig) (λ _. inr (_, _, refl))
      (λ _.
        path_response-IsAnswer id from_sig to_sig
          (g.netlist.sig_2_sig from_sig to_sig (int_param params (codes "assign_cell"))))

handle_inst_conn-IsAnswer :
    (g : DesignServer)
    → PlainConnections g.netlist
    → (id : ℤ) (params : Maps) → IsAnswer id (handle_inst_conn g id params)
unfolding handle_inst_conn
handle_inst_conn-IsAnswer g plain_names id params =
    let inst = get_string params (codes "instance") [] in
    let level = get_string params (codes "level") (codes "high") in
    split (IsAnswer id) (is_empty inst) (λ _. inr (_, _, refl))
      (λ _. conn_response-IsAnswer id inst level (connections g.netlist level inst) (
        split HasPlainNames (equal level (codes "low")) (λ _. plain_names.low inst)
          (λ _. plain_names.high inst)))

abbrev shutting_down : JsonObject
shutting_down = set [] (codes "message") (codes "shutting down")

dump-shutting_down : dump shutting_down ≡ codes "{\"message\":\"shutting down\"}"
unfolding dump set
dump-shutting_down = refl

shutting_down-IsAnswer :
    (id : ℤ) → IsAnswer id (make_ok_response id (codes "{\"message\":\"shutting down\"}"))
shutting_down-IsAnswer id =
    subst (λ text. IsAnswer id (make_ok_response id text)) dump-shutting_down
      (make_ok_response-IsAnswer id shutting_down (set-IsSolid [] _ _ tt))

run_design_command-IsAnswer :
    (g : DesignServer)
    → PlainConnections g.netlist
    → (id : ℤ) (cmd_str : Bytes) (params : Maps)
    → IsAnswer id (run_design_command g id cmd_str params)
unfolding run_design_command
run_design_command-IsAnswer g plain_names id cmd_str params =
    split (IsAnswer id) (equal cmd_str (codes "status")) (λ _. handle_design_status-IsAnswer g id)
      (λ _.
        split (IsAnswer id) (equal cmd_str (codes "shutdown")) (λ _. shutting_down-IsAnswer id)
          (λ _.
            split (IsAnswer id) (equal cmd_str (codes "info"))
              (λ _. handle_design_info-IsAnswer g id)
              (λ _.
                split (IsAnswer id) (equal cmd_str (codes "trace_driver"))
                  (λ _. handle_trace_driver-IsAnswer g id params)
                  (λ _.
                    split (IsAnswer id) (equal cmd_str (codes "trace_load"))
                      (λ _. handle_trace_load-IsAnswer g id params)
                      (λ _.
                        split (IsAnswer id) (equal cmd_str (codes "fanin_reg"))
                          (λ _. handle_fanin_reg-IsAnswer g id params)
                          (λ _.
                            split (IsAnswer id) (equal cmd_str (codes "fanout_reg"))
                              (λ _. handle_fanout_reg-IsAnswer g id params)
                              (λ _.
                                split (IsAnswer id) (equal cmd_str (codes "trace_path"))
                                  (λ _. handle_trace_path-IsAnswer g id params)
                                  (λ _.
                                    split (IsAnswer id) (equal cmd_str (codes "inst_conn"))
                                      (λ _. handle_inst_conn-IsAnswer g plain_names id params)
                                      (λ _. inr (_, _, refl))))))))))

answer_parsed-IsAnswer :
    (g : DesignServer)
    → PlainConnections g.netlist
    → (r : Bool × Maps) → IsAnswer (answered_id r) (answer_parsed g r).0
unfolding answer_parsed
answer_parsed-IsAnswer g plain_names (false, req) = inr (_, _, refl)
answer_parsed-IsAnswer g plain_names (true, req) =
    let cmd_str = get_string req (codes "cmd") [] in
    run_design_command-IsAnswer g plain_names (request_id req) cmd_str
      (params_of req (get_string req (codes "params") []))

-- The vsignal server answers every request under the request's own id, as an int, with the text of
-- an object on one line or with a code and a message, and under 0 if the request does not parse,
-- where no name of a connected signal needs an escape.
pub dispatch_design_request-IsAnswer :
    (g : DesignServer)
    → PlainConnections g.netlist
    → (request : Bytes)
    → IsAnswer (answered_id (parsed request)) (dispatch_design_request g request).0
unfolding dispatch_design_request
dispatch_design_request-IsAnswer g plain_names request =
    answer_parsed-IsAnswer g plain_names (parsed request)
