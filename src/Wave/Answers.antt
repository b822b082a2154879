-- ===== src/Wave/Answers.antt =====
-- What the vwave dispatcher answers, and what the client shows of it.
use tool_debug.Common.{
  IsLine, arith, Bytes, codes, [], ◌∷◌, ◌++◌, ◌≡◌, refl, ap, ◌∙◌, ◌⊎◌, inl, inr, ℤ, pos, negsuc,
  ltb_ℤ, IsInt32, IsInt32-IsInt64, to_int-IsInt32, Bool, true, false, if◌then◌else◌, equal,
  is_empty,
}
use tool_debug.Common.Run.{split}
use tool_debug.Json.Builder.{JsonObject, dump}
use tool_debug.Json.Parser.{Maps, parsed, get_string, get_int}
use tool_debug.Json.Fields.{IsObjectText}
use tool_debug.Json.Setters.{
  dump-IsObject, dump-IsLine, IsSolid, set-IsSolid, set_int-IsSolid, set_array-IsSolid,
}
use tool_debug.Protocol.{make_ok_response, make_error_response}
use tool_debug.Client.{print_response, stdout, stderr}
use tool_debug.Client.Printing.{print_response-make_ok_response, print_response-make_error_response}
use tool_debug.Backend.{Result, ok, error, backend_error, exception}
use tool_debug.Backend.Walks.{find_all}
use tool_debug.Wave.{ServerState, require_signal}
use tool_debug.Wave.Dispatch.{
  dispatch_parsed, Command, status, file_info, list_scopes, list_signals, signal_info, get_value_at,
  get_value_between, find_signals, next_edge, vc_count, shutdown, unknown, handle_find_signals,
  handle_next_edge, handle_vc_count, last_time, run_command, command_of, respond, params_of,
  request_id, answer_request, dispatch_request,
}
use tool_debug.Wave.Envelopes.{
  IsSolidResult, after, set_truncated-IsSolid, handle_status-IsSolid, handle_file_info-IsSolid,
  handle_list_scopes-IsSolid, handle_list_signals-IsSolid, handle_signal_info-IsSolid,
  handle_get_value_at-IsSolid, handle_get_value_between-IsSolid,
}

handle_find_signals-IsSolid :
    (g : ServerState) (params : Maps) → IsSolidResult (handle_find_signals g params)
unfolding handle_find_signals
handle_find_signals-IsSolid g params =
    let pattern = get_string params (codes "pattern") [] in
    let scope = get_string params (codes "scope") [] in
    let first = set-IsSolid [] (codes "pattern") pattern tt in
    split IsSolidResult (is_empty pattern) (λ _. tt)
      (λ _. after (find_all g.backend scope pattern) _ (λ result. set_truncated-IsSolid _ _ (
        set_int-IsSolid _ _ _ (
          set_array-IsSolid _ _ _
            (split IsSolid (is_empty scope) (λ _. first) (λ _. set-IsSolid _ _ _ first))))))

handle_next_edge-IsSolid :
    (g : ServerState) (params : Maps) → IsSolidResult (handle_next_edge g params)
unfolding handle_next_edge
handle_next_edge-IsSolid g params =
    let signal = get_string params (codes "signal") [] in
    let time = get_int params (codes "time") (negsuc 0) in
    let kind = get_string params (codes "edge") (codes "any") in
    let dir = get_string params (codes "dir") (codes "forward") in
    split IsSolidResult (is_empty signal) (λ _. tt)
      (λ _.
        split IsSolidResult (ltb_ℤ time (pos 0)) (λ _. tt)
          (λ _. after (require_signal g.backend signal) _ (λ s.
            after (g.backend.edge signal time kind (equal dir (codes "backward"))) _ (λ e.
              let common =
                set_int-IsSolid _ (codes "found_time") (if e.found then e.value.time else negsuc 0)
                  (set-IsSolid _ (codes "dir") dir (
                    set-IsSolid _ (codes "edge") kind (
                      set_int-IsSolid _ (codes "from_time") time
                        (set-IsSolid [] (codes "signal") signal tt)))) in
              split IsSolid e.found (λ _. set-IsSolid _ _ _ common) (λ _. common)))))

handle_vc_count-IsSolid :
    (g : ServerState) (params : Maps) → IsSolidResult (handle_vc_count g params)
unfolding handle_vc_count
handle_vc_count-IsSolid g params =
    let signal = get_string params (codes "signal") [] in
    let begin = get_int params (codes "begin") (pos 0) in
    split IsSolidResult (is_empty signal) (λ _. tt)
      (λ _. after (last_time g.backend (get_int params (codes "end") (negsuc 0))) _ (λ end.
        after (require_signal g.backend signal) _ (λ s.
          after (g.backend.count signal begin end) _ (λ count.
            set_int-IsSolid _ _ _
              (set_int-IsSolid _ _ _ (set_int-IsSolid _ _ _ (set-IsSolid [] _ _ tt)))))))

run_command-IsSolid :
    (g : ServerState) (cmd : Bytes) (c : Command) (params : Maps)
    → IsSolidResult (run_command g cmd c params)
unfolding run_command
run_command-IsSolid g cmd status params = handle_status-IsSolid g
run_command-IsSolid g cmd file_info params = handle_file_info-IsSolid g
run_command-IsSolid g cmd list_scopes params = handle_list_scopes-IsSolid g params
run_command-IsSolid g cmd list_signals params = handle_list_signals-IsSolid g params
run_command-IsSolid g cmd signal_info params = handle_signal_info-IsSolid g params
run_command-IsSolid g cmd get_value_at params = handle_get_value_at-IsSolid g params
run_command-IsSolid g cmd get_value_between params = handle_get_value_between-IsSolid g params
run_command-IsSolid g cmd find_signals params = handle_find_signals-IsSolid g params
run_command-IsSolid g cmd next_edge params = handle_next_edge-IsSolid g params
run_command-IsSolid g cmd vc_count params = handle_vc_count-IsSolid g params
run_command-IsSolid g cmd shutdown params = set-IsSolid [] _ _ tt
run_command-IsSolid g cmd unknown params = tt

-- A success with the text of an object on one line, or a failure with a code and a message.
abbrev pub IsAnswer : ℤ → Bytes → Type 0
IsAnswer id response =
    ((payload : Bytes) × IsObjectText payload
      × IsLine payload
      × (response ≡ make_ok_response id payload))
    ⊎ ((code : Bytes) × (message : Bytes) × (response ≡ make_error_response id code message))

respond-IsAnswer : (id : ℤ) (r : Result JsonObject) → IsSolidResult r → IsAnswer id (respond id r)
unfolding respond
respond-IsAnswer id (ok o) h = inl (dump o, dump-IsObject o h, dump-IsLine o h, refl)
respond-IsAnswer id (error (backend_error code message)) h = inr (code, message, refl)
respond-IsAnswer id (error (exception message)) h = inr (codes "INTERNAL_ERROR", message, refl)

-- The id that is answered: an int, and 0 for a request that does not parse.
abbrev pub answered_id : Bool × Maps → ℤ
answered_id (false, req) = pos 0
answered_id (true, req) = request_id req

dispatch_parsed-IsAnswer :
    (g : ServerState) (r : Bool × Maps) → IsAnswer (answered_id r) (dispatch_parsed g r).0
unfolding answer_request
dispatch_parsed-IsAnswer g (false, req) = inr (codes "INVALID_PARAMS", codes "Invalid JSON", refl)
dispatch_parsed-IsAnswer g (true, req) =
    let cmd_str = get_string req (codes "cmd") [] in
    let params = params_of req (get_string req (codes "params") []) in
    let result = run_command g cmd_str (command_of cmd_str) params in
    respond-IsAnswer (request_id req) result
      (run_command-IsSolid g cmd_str (command_of cmd_str) params)

-- Every request is answered: under the request's own id, as an int, with the text of an object on
-- one line or with a code and a message, and under 0 if the request does not parse.
pub dispatch_request-IsAnswer :
    (g : ServerState) (request : Bytes)
    → IsAnswer (answered_id (parsed request)) (dispatch_request g request).0
unfolding dispatch_request
dispatch_request-IsAnswer g request = dispatch_parsed-IsAnswer g (parsed request)

pub answered_id-IsInt32 : (r : Bool × Maps) → IsInt32 (answered_id r)
answered_id-IsInt32 (false, req) = omega arith
answered_id-IsInt32 (true, req) = to_int-IsInt32 (get_int req (codes "id") (pos 0))

-- Of a success response the client prints the payload on stdout, and of a failure response its code
-- and its message on stderr, whatever the request: the response is one of the two, and what stands
-- around the payload, the code or the message is not printed.
pub print_response-dispatch_request :
    (g : ServerState) (request : Bytes)
    → ((payload : Bytes) × IsObjectText payload
        × ((dispatch_request g request).0 ≡ make_ok_response (answered_id (parsed request)) payload)
        × (print_response (dispatch_request g request).0 false ≡ stdout (payload ++ b'\n' ∷ [])))
      ⊎ ((code : Bytes) × (message : Bytes) × ((dispatch_request g request).0
            ≡ make_error_response (answered_id (parsed request)) code message)
          × (print_response (dispatch_request g request).0 false
              ≡ stderr (codes "Error [" ++ (code ++ (codes "]: " ++ (message ++ b'\n' ∷ []))))))
print_response-dispatch_request g request =
    let id = answered_id (parsed request) in
    let in_range = IsInt32-IsInt64 id (answered_id-IsInt32 (parsed request)) in
    let shown = λ (response : Bytes). print_response response false in
    elim (dispatch_request-IsAnswer g request) [
      | inl (payload, object, line, e) ↦ inl (
        payload,
        object,
        e,
        ap shown e ∙ print_response-make_ok_response id payload in_range object,
      )
      | inr (code, message, e) ↦ inr (
        code,
        message,
        e,
        ap shown e ∙ print_response-make_error_response id code message in_range,
      )
    ]
