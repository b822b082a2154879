-- ===== src/Vsignal/Handlers.antt =====
-- src_vsignal/server/handlers.h and dispatch_request of src_vsignal/server/server_core.h.
use tool_debug.Common.{
  Bytes, codes, equal, List, [], ◌∷◌, ◌++◌, map, ℤ, pos, ltb_ℤ, to_int, Bool, false, ◌||◌, Option,
  none, some, if◌then◌else◌, length, is_empty,
}
use tool_debug.Json.Builder.{JsonObject, set, set_int, set_raw, dump}
use tool_debug.Json.Parser.{Maps, get_string, get_int, get_bool}
use tool_debug.Protocol.{make_ok_response, make_error_response}
use tool_debug.Vsignal.{
  NlObject, Hdl, Netlist, DesignServer, or_empty, join_array, shown_count, nl_hdl_vec_to_json,
}

unfoldable pub handle_design_status : DesignServer → ℤ → Bytes
handle_design_status g id =
    let data₁ = set [] (codes "design_source") g.design_source in
    let data₂ = set_int data₁ (codes "uptime_seconds") g.uptime in
    make_ok_response id (dump (set_int data₂ (codes "pid") g.pid))

unfoldable pub handle_design_info : DesignServer → ℤ → Bytes
handle_design_info g id =
    let data₁ = set [] (codes "design_source") g.design_source in
    make_ok_response id (dump (set_int data₁ (codes "pid") g.pid))

abbrev pub missing_parameter : ℤ → Bytes → Bytes
missing_parameter id message = make_error_response id (codes "INVALID_PARAMS") message

-- The end of the four handlers that list handles, from `JsonObject data;`.
unfoldable pub listed_fields : Bytes → Bytes → List (Option NlObject) → Bool → ℤ → JsonObject
listed_fields sig key hdls compact limit =
    let data₁ = set [] (codes "signal") sig in
    let data₂ = set_int data₁ (codes "total") (pos (length hdls)) in
    let data₃ = set_int data₂ (codes "returned") (pos (shown_count limit (length hdls))) in
    set_raw data₃ key (nl_hdl_vec_to_json hdls compact limit)

-- What they answer to a call of the library: `failure` is the message without the signal.
abbrev pub list_response : ℤ → Bytes → Bytes → Bytes → Maps → ℤ × List (Option NlObject) → Bytes
list_response id sig key failure params (ret, hdls) =
    let compact = get_bool params (codes "compact") false in
    let limit = get_int params (codes "limit") (pos 0) in
    if ltb_ℤ ret (pos 0)
    then make_error_response id (codes "SIGNAL_NOT_FOUND") (failure ++ sig)
    else make_ok_response id (dump (listed_fields sig key hdls compact limit))

abbrev pub int_param : Maps → Bytes → ℤ
int_param params key = to_int (get_int params key (pos 0))

unfoldable pub handle_trace_driver : DesignServer → ℤ → Maps → Bytes
unfolding listed_fields
handle_trace_driver g id params =
    let sig = get_string params (codes "signal") [] in
    let assign_cell = int_param params (codes "assign_cell") in
    let pass_mod = int_param params (codes "pass_mod") in
    if is_empty sig
    then missing_parameter id (codes "Missing 'signal' parameter")
    else list_response id sig (codes "drivers") (codes "Failed to trace drivers for: ") params
        (g.netlist.trace_driver sig assign_cell pass_mod)

unfoldable pub handle_trace_load : DesignServer → ℤ → Maps → Bytes
unfolding listed_fields
handle_trace_load g id params =
    let sig = get_string params (codes "signal") [] in
    let assign_cell = int_param params (codes "assign_cell") in
    let pass_mod = int_param params (codes "pass_mod") in
    if is_empty sig
    then missing_parameter id (codes "Missing 'signal' parameter")
    else list_response id sig (codes "loads") (codes "Failed to trace loads for: ") params
        (g.netlist.trace_load sig assign_cell pass_mod)

-- `scope.empty() ? nullptr : scope.c_str()`
abbrev pub scope_arg : Bytes → Option Bytes
scope_arg [] = none
scope_arg (c ∷ scope) = some (c ∷ scope)

unfoldable pub handle_fanin_reg : DesignServer → ℤ → Maps → Bytes
unfolding listed_fields
handle_fanin_reg g id params =
    let sig = get_string params (codes "signal") [] in
    let stop_at_pin = get_bool params (codes "stop_at_pin") false in
    let report_port = get_bool params (codes "report_primary_port") false in
    let scope = scope_arg (get_string params (codes "scope") []) in
    if is_empty sig
    then missing_parameter id (codes "Missing 'signal' parameter")
    else list_response id sig (codes "fanin") (codes "Failed to trace fanin for: ") params
        (g.netlist.fan_in_reg sig stop_at_pin report_port scope)

unfoldable pub handle_fanout_reg : DesignServer → ℤ → Maps → Bytes
unfolding listed_fields
handle_fanout_reg g id params =
    let sig = get_string params (codes "signal") [] in
    let stop_at_pin = get_bool params (codes "stop_at_pin") false in
    let report_port = get_bool params (codes "report_primary_port") false in
    let scope = scope_arg (get_string params (codes "scope") []) in
    if is_empty sig
    then missing_parameter id (codes "Missing 'signal' parameter")
    else list_response id sig (codes "fanout") (codes "Failed to trace fanout for: ") params
        (g.netlist.fan_out_reg sig stop_at_pin report_port scope)

unfoldable pub path_fields : Bytes → Bytes → List (Option NlObject) → JsonObject
path_fields from_sig to_sig hdls =
    let data₁ = set (set [] (codes "from") from_sig) (codes "to") to_sig in
    let data₂ = set_int data₁ (codes "count") (pos (length hdls)) in
    set_raw data₂ (codes "path") (nl_hdl_vec_to_json hdls false (pos 0))

abbrev pub path_response : ℤ → Bytes → Bytes → ℤ × List (Option NlObject) → Bytes
path_response id from_sig to_sig (ret, hdls) =
    if ltb_ℤ ret (pos 0)
    then make_error_response id (codes "NO_PATH")
        (codes "No path found from " ++ (from_sig ++ (codes " to " ++ to_sig)))
    else make_ok_response id (dump (path_fields from_sig to_sig hdls))

unfoldable pub handle_trace_path : DesignServer → ℤ → Maps → Bytes
unfolding path_fields
handle_trace_path g id params =
    let from_sig = get_string params (codes "from") [] in
    let to_sig = get_string params (codes "to") [] in
    if is_empty from_sig || is_empty to_sig
    then missing_parameter id (codes "Missing 'from' and/or 'to' parameters")
    else path_response id from_sig to_sig
        (g.netlist.sig_2_sig from_sig to_sig (int_param params (codes "assign_cell")))

-- `if (!port_name || !port_name[0]) port_name = npi_get_str(npiName, port_hdl)`
abbrev pub port_name : Option Bytes → Option Bytes → Bytes
port_name none name = or_empty name
port_name (some []) name = or_empty name
port_name (some (c ∷ full_name)) name = c ∷ full_name

-- `"\"" << (sig_name ? sig_name : "") << "\""`: the name is not escaped.
abbrev pub quoted_name : Hdl → Bytes
quoted_name sig = b'"' ∷ (or_empty sig.hdl_full_name ++ b'"' ∷ [])

unfoldable pub pair_object : Hdl × List Hdl → JsonObject
pair_object (port_hdl, sigs) =
    let pair₁ = set [] (codes "port") (port_name port_hdl.hdl_full_name port_hdl.hdl_name) in
    set_raw pair₁ (codes "signals") (join_array (map quoted_name sigs))

abbrev pub pair_json : Hdl × List Hdl → Bytes
unfolding pair_object
pair_json pair = dump (pair_object pair)

unfoldable pub conn_fields : Bytes → Bytes → List (Hdl × List Hdl) → JsonObject
unfolding pair_object
conn_fields inst level pairs =
    let data₁ = set (set [] (codes "instance") inst) (codes "level") level in
    let data₂ = set_int data₁ (codes "count") (pos (length pairs)) in
    set_raw data₂ (codes "connections") (join_array (map pair_json pairs))

abbrev pub conn_response : ℤ → Bytes → Bytes → ℤ × List (Hdl × List Hdl) → Bytes
conn_response id inst level (ret, pairs) =
    if ltb_ℤ ret (pos 0)
    then make_error_response id (codes "INSTANCE_NOT_FOUND")
        (codes "Failed to get connections for: " ++ inst)
    else make_ok_response id (dump (conn_fields inst level pairs))

-- The call that the level asks for.
abbrev pub connections : Netlist → Bytes → Bytes → ℤ × List (Hdl × List Hdl)
connections netlist level inst =
    if equal level (codes "low") then netlist.low_conn inst else netlist.high_conn inst

unfoldable pub handle_inst_conn : DesignServer → ℤ → Maps → Bytes
unfolding conn_fields
handle_inst_conn g id params =
    let inst = get_string params (codes "instance") [] in
    let level = get_string params (codes "level") (codes "high") in
    if is_empty inst
    then missing_parameter id (codes "Missing 'instance' parameter")
    else conn_response id inst level (connections g.netlist level inst)
