-- ===== src/Tests/Wave.antt =====
-- The vwave dispatcher on concrete requests.
use tool_debug.Common.{
  not, ◌&&◌, arith, refl, List, false, leb, length, take, Bytes, codes, [], ◌∷◌, ◌++◌, ◌≡◌, ◌⊎◌,
  pos, ◌≤◌, ◌+◌, equal,
}
use tool_debug.Json.Parser.{parse, parse_object, Maps, get_string, get_int, get_bool, parsed}
use tool_debug.Json.Fields.{IsObjectText}
use tool_debug.Client.{print_response, stdout, stderr}
use tool_debug.Session.{Session}
use tool_debug.Server.{send_line, max_line, received, recv_interrupted, read, read_line, sent}
use tool_debug.Common.Decimal.{to_string}
use tool_debug.Json.Builder.{dump, set}
use tool_debug.Protocol.{make_ok_response, make_error_response}
use tool_debug.Wave.Stopping.{stops, dispatch_request-stops}
use tool_debug.Wave.Framing.{read_line-dispatch_request}
use tool_debug.Wave.{
  set_truncated, clamp, scope_fields, shown_scopes, handle_list_scopes, ServerState,
}
use tool_debug.Wave.Dispatch.{found_fields, handle_find_signals, dispatch_request}
use tool_debug.Wave.Answers.{
  IsAnswer, answered_id, dispatch_request-IsAnswer, print_response-dispatch_request,
}
use tool_debug.Tests.Backend.{design, tops, wires, tops-eq, tops-known, wires-eq, tops_named}
use tool_debug.Backend.{ok}
use tool_debug.Backend.Walks.{flat_map}
use tool_debug.Backend.Walks.Found.{all_matches, starts}
use tool_debug.Backend.Walks.Listed.{subtree}
use tool_debug.Wave.Truncation.{handle_find_signals-all_matches, handle_list_scopes-subtree}

abbrev pub ffr : Session
ffr = record {
  backend = codes "ffr";
  sdk_home = codes "/opt/verdi";
  adapter = codes "vwave-backend-v1";
  file = codes "/tmp/a.fsdb";
  file_identity = codes "1:2";
  reader = codes "libnffr.so";
  support = codes "libnsys.so";
  reader_hash = [];
  support_hash = [];
}

abbrev pub server : ServerState
server = record {
  backend = design;
  session = ffr;
  fsdb_path = codes "/tmp/a.fsdb";
  pid = pos 17;
  uptime = pos 5;
}

abbrev pub search : Bytes
search = codes "{\"id\":3,\"cmd\":\"find_signals\",\"params\":{\"pattern\":\"c*\"}}"

dispatch_request-IsAnswer_example :
    IsAnswer (answered_id (parsed search)) (dispatch_request server search).0
dispatch_request-IsAnswer_example = dispatch_request-IsAnswer server search

print_response-dispatch_request_example :
    ((payload : Bytes) × IsObjectText payload
      × ((dispatch_request server search).0
          ≡ make_ok_response (answered_id (parsed search)) payload)
      × (print_response (dispatch_request server search).0 false ≡ stdout (payload ++ b'\n' ∷ [])))
    ⊎ ((code : Bytes) × (message : Bytes) × ((dispatch_request server search).0
          ≡ make_error_response (answered_id (parsed search)) code message)
        × (print_response (dispatch_request server search).0 false
            ≡ stderr (codes "Error [" ++ (code ++ (codes "]: " ++ (message ++ b'\n' ∷ []))))))
print_response-dispatch_request_example = print_response-dispatch_request server search

abbrev asked : Maps
asked = record {
  strings = (codes "pattern", codes "c*") ∷ (codes "path", codes "t") ∷ [];
  ints = (codes "depth", pos 2) ∷ [];
  arrays = [];
}

handle_find_signals-all_matches_example :
    (all : List Bytes) × (all
      ≡ flat_map
          (all_matches tops wires (get_string asked (codes "pattern") []) 21)
          (starts tops (get_string asked (codes "scope") [])))
    × (handle_find_signals server asked
        ≡ ok (
            set_truncated (leb 200 (length all)) (
              found_fields
                (get_string asked (codes "pattern") [])
                (get_string asked (codes "scope") [])
                (take 200 all))))
unfolding get_string
handle_find_signals-all_matches_example =
    handle_find_signals-all_matches server tops tops-eq tops-known asked wires wires-eq refl refl

handle_list_scopes-subtree_example :
    (found : List Bytes) × (rest : List Bytes) × (handle_list_scopes server asked
      ≡ ok (
          set_truncated (leb 500 (length found)) (
            scope_fields (get_string asked (codes "path") []) (
              shown_scopes
                (get_string asked (codes "path") [])
                (get_bool asked (codes "compact") false)
                found))))
    × (found ++ rest
        ≡ subtree tops
            (clamp 10 (get_int asked (codes "depth") (pos 1)))
            (get_string asked (codes "path") []))
    × ((rest ≡ []) ⊎ (500 ≤ length found))
    × (length found ≤ 499 + clamp 10 (get_int asked (codes "depth") (pos 1)))
unfolding get_string
handle_list_scopes-subtree_example =
    handle_list_scopes-subtree server tops tops-eq tops-known asked tops_named refl
      (unfold equal in refl)

abbrev invalid : Bytes
invalid = codes "hello"

abbrev refusal : Bytes
refusal =
    codes
      "{\"id\":0,\"status\":\"error\",\"error\":{\"code\":\"INVALID_PARAMS\",\"message\":\"Invalid JSON\"}}"

refused_hello : (dispatch_request server invalid).0 ≡ refusal
unfolding dispatch_request parsed parse parse_object make_error_response to_string dump set
refused_hello = refl

read_line-dispatch_request_example :
    read_line max_line (received refusal ∷ recv_interrupted ∷ received (codes "\n") ∷ [])
    ≡ read (dispatch_request server invalid).0
unfolding dispatch_request parsed parse parse_object make_error_response to_string dump set
    send_line
read_line-dispatch_request_example =
    read_line-dispatch_request server invalid max_line [] (sent 1000 ∷ [])
      (received refusal ∷ recv_interrupted ∷ received (codes "\n") ∷ []) (omega arith) refl tt refl

dispatch_request-stops_example :
    (dispatch_request server search).1
    ≡ not ((parsed search).0 && stops (get_string (parsed search).1 (codes "cmd") []))
dispatch_request-stops_example = dispatch_request-stops server search
