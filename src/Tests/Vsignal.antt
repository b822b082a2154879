-- ===== src/Tests/Vsignal.antt =====
-- The vsignal dispatcher on concrete requests.
use tool_debug.Common.{
  List, true, false, Bytes, codes, [], ◌∷◌, ◌≡◌, refl, ℤ, pos, negsuc, Option, none, some, length,
}
use tool_debug.Json.Builder.{dump, set, quote_body, quote_byte}
use tool_debug.Json.Parser.{Maps, parsed, get_string, get_bool, get_int}
use tool_debug.Wave.Answers.{IsAnswer, answered_id}
use tool_debug.Vsignal.{
  NlObject, nl_inst, nl_input, nl_none, nl_port, Hdl, Netlist, DesignServer, nl_hdl_vec_to_json,
}
use tool_debug.Vsignal.Handlers.{quoted_name}
use tool_debug.Vsignal.Dispatch.{dispatch_design_request}
use tool_debug.Vsignal.Replies.{PlainConnections}
use tool_debug.Vsignal.Answers.{dispatch_design_request-IsAnswer}
use tool_debug.Vsignal.Limits.{
  drivers, list_handler, list_key, list_call, signal_of, shown_response, cut, list_handler-shown,
}

abbrev port_a : NlObject
port_a = record {
  nl_type = nl_port;
  name = some (codes "a");
  full_name = some (codes "top.u.a");
  def_name = none;
  cell_type = pos 0;
  direction = nl_input;
  size = pos 8;
  file = some (codes "top.v");
  line_begin = pos 3;
  line_end = pos 3;
}

abbrev cell_u : NlObject
cell_u = record {
  nl_type = nl_inst;
  name = some (codes "u");
  full_name = some (codes "top.u");
  def_name = some (codes "alu");
  cell_type = negsuc 0;
  direction = nl_none;
  size = pos 0;
  file = none;
  line_begin = pos 0;
  line_end = pos 0;
}

abbrev wire : Bytes → Hdl
wire name = record { hdl_full_name = some name; hdl_name = none }

abbrev two_handles : ℤ × List (Option NlObject)
two_handles = (pos 0, some port_a ∷ some cell_u ∷ [])

abbrev connected : Bytes → ℤ × List (Hdl × List Hdl)
connected name = (pos 0, (wire (codes "top.u.a"), wire name ∷ []) ∷ [])

abbrev alu_netlist : Netlist
alu_netlist = record {
  trace_driver = λ sig assign_cell pass_mod. two_handles;
  trace_load = λ sig assign_cell pass_mod. (negsuc 0, []);
  fan_in_reg = λ sig stop_at_pin report_port scope. two_handles;
  fan_out_reg = λ sig stop_at_pin report_port scope. two_handles;
  sig_2_sig = λ from_sig to_sig assign_cell. two_handles;
  low_conn = λ inst. connected (codes "top.u.b");
  high_conn = λ inst. connected (codes "top.x");
}

abbrev pub alu_server : DesignServer
alu_server = record {
  netlist = alu_netlist;
  design_source = codes "/tmp/kdb";
  pid = pos 17;
  uptime = pos 5;
}

alu_netlist-PlainConnections : PlainConnections alu_netlist
unfolding quote_body quote_byte
alu_netlist-PlainConnections = record {
  low = λ inst. ((refl, tt), tt);
  high = λ inst. ((refl, tt), tt);
}

abbrev ask_connections : Bytes
ask_connections = codes "{\"id\":4,\"cmd\":\"inst_conn\",\"params\":{\"instance\":\"top.u\"}}"

dispatch_design_request-IsAnswer_example :
    IsAnswer
      (answered_id (parsed ask_connections))
      (dispatch_design_request alu_server ask_connections).0
dispatch_design_request-IsAnswer_example =
    dispatch_design_request-IsAnswer alu_server alu_netlist-PlainConnections ask_connections

abbrev one_of_two : Maps
one_of_two = record {
  strings = (codes "signal", codes "top.x") ∷ [];
  ints = (codes "limit", pos 1) ∷ [];
  arrays = [];
}

list_handler-shown_example :
    list_handler drivers alu_server (pos 7) one_of_two
    ≡ shown_response
        (pos 7)
        (signal_of one_of_two)
        (list_key drivers)
        (get_bool one_of_two (codes "compact") false)
        (length (list_call drivers alu_server one_of_two).1)
        (cut
          (get_int one_of_two (codes "limit") (pos 0))
          (list_call drivers alu_server one_of_two).1)
unfolding get_string
list_handler-shown_example = list_handler-shown drivers alu_server (pos 7) one_of_two refl refl

compact_names : nl_hdl_vec_to_json two_handles.1 true (pos 1) ≡ codes "[{\"name\":\"a\"}]"
unfolding nl_hdl_vec_to_json dump set
compact_names = refl

-- A name with a quote is written as it is, so that the array is not the JSON of the name.
unescaped_name : quoted_name (wire (codes "a\"b")) ≡ codes "\"a\"b\""
unescaped_name = refl
