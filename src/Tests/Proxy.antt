-- ===== src/Tests/Proxy.antt =====
-- The proxies on concrete arguments and lines.
use tool_debug.Common.{ap, sym, subst, ◌≤◌, equal, to_int-eq_self}
use tool_debug.Server.{sent}
use tool_debug.Wave.Dispatch.{answer_request, run_command, command_of, respond}
use tool_debug.Json.Parser.{get_int}
use tool_debug.Proxy.Pipe.{remote_request, write_loop}
use tool_debug.Proxy.Exchange.{remote_request-dispatch_request}
use tool_debug.Common.{
  Bytes, codes, List, [], ◌∷◌, ◌++◌, ◌≡◌, refl, pos, Bool, true, false, ◌&&◌, some, none, All,
  arith, leb→le, ltb, length, leb, map,
}
use tool_debug.Common.Outcome.{ok, ◌>>=◌}
use tool_debug.Json.Builder.{dump, set, set_int}
use tool_debug.Common.Decimal.{to_string, strtoll}
use tool_debug.Json.Fields.{build, set_field}
use tool_debug.Json.Parser.{
  parsed, parse, parse_object, object_loop, parse_string_val, parse_value, assign, get_string, find,
}
use tool_debug.Transport.RoundTrip.{IsByte}
use tool_debug.Session.{json}
use tool_debug.Wave.Dispatch.{dispatch_request, run_stdio_loop}
use tool_debug.Vsignal.Dispatch.{dispatch_design_request}
use tool_debug.RunDir.Tools.{vwave_from_dir}
use tool_debug.Proxy.{
  execl, LsfOptions, Environment, vwave_proxy_args, started, vwave_entry, submission, worker_args,
  vwave_worker_session,
}
use tool_debug.Proxy.Pipe.{
  Poll, byte, interrupted, max_response, Remote, proxy_dispatch, proxy_dispatch_vsignal, wait_ready,
  handle_diag,
}
use tool_debug.Proxy.Arguments.{has_no_nul, vwave_config, start_with, vwave_entry-vwave_proxy_args}
use tool_debug.Proxy.Transparent.{asks_status, proxy_dispatch-transparent}
use tool_debug.Protocol.{make_ok_response}
use tool_debug.Lsf.{status_fields}
use tool_debug.Wave.Dispatch.{request_id}
use tool_debug.Proxy.Status.{
  wave_status, design_status, proxy_dispatch-status, proxy_dispatch_vsignal-status,
}
use tool_debug.Proxy.Ready.{arriving, lines, ready_line, job_after_lines, wait_ready-run_stdio_loop}
use tool_debug.Tests.Wave.{ffr, server, search}
use tool_debug.Tests.Vsignal.{alu_server}
use tool_debug.Tests.RunDir.{desk, bare, wave_dir}

all_bytes : Bytes → Bool
all_bytes [] = true
all_bytes (c ∷ s) = ltb c 256 && all_bytes s

all_bytes-IsByte : (s : Bytes) → all_bytes s ≡ true → All IsByte s
unfolding all_bytes
all_bytes-IsByte [] h = tt
all_bytes-IsByte (c ∷ s) h = (ground arith, all_bytes-IsByte s (ground arith))

abbrev farm : LsfOptions
farm = record {
  lsf_bsub = [];
  lsf_bkill = [];
  lsf_queue = codes "short";
  lsf_resource = [];
  lsf_job_name = codes "wave";
  open_timeout_sec = pos 0;
}

abbrev empty_environment : Environment
empty_environment = λ name. none

abbrev worker : Bytes
worker = codes "/opt/vwave-ffr-worker"

ffr_bytes : all_bytes (json ffr) ≡ true
unfolding json all_bytes dump set set_int to_string
ffr_bytes = refl

no_nul : has_no_nul (vwave_proxy_args empty_environment worker ffr wave_dir farm) ≡ true
unfolding vwave_proxy_args json dump set set_int to_string
no_nul = refl

vwave_entry-vwave_proxy_args_example :
    (vwave_entry desk bare (execl (vwave_proxy_args empty_environment worker ffr wave_dir farm))
      ≡ started (
          vwave_from_dir desk bare (codes "/a/.vtool/wave_run")
          >>= (λ rd. ok (start_with ffr (vwave_config empty_environment farm) worker rd))))
    × ((args : List Bytes) × (worker_args (vwave_config empty_environment farm) worker (json ffr)
          ≡ submission (vwave_config empty_environment farm) ++ worker ∷ args)
        × (vwave_worker_session (codes "ffr") args ≡ some (ok ffr)))
vwave_entry-vwave_proxy_args_example =
    vwave_entry-vwave_proxy_args desk bare empty_environment worker ffr wave_dir farm (omega arith)
      (all_bytes-IsByte (json ffr) ffr_bytes) no_nul

abbrev fresh : Remote
fresh = record { job_id = []; remote_pid = pos 0 }

not_status : asks_status search ≡ false
unfolding parsed parse parse_object get_string find object_loop parse_string_val parse_value assign
not_status = refl

proxy_dispatch-transparent_example :
    (proxy_dispatch fresh (pos 9) (codes "wave") search (ok (dispatch_request server search).0)
      ≡ ok (dispatch_request server search))
    × (proxy_dispatch_vsignal fresh
          (pos 9)
          (codes "wave")
          search
          (ok (dispatch_design_request alu_server search).0)
        ≡ ok (dispatch_design_request alu_server search))
proxy_dispatch-transparent_example =
    proxy_dispatch-transparent server alu_server fresh (pos 9) (codes "wave") search not_status

abbrev status_request : Bytes
status_request = codes "{\"id\":3,\"cmd\":\"status\"}"

asks : asks_status status_request ≡ true
unfolding parsed parse parse_object get_string find object_loop parse_string_val parse_value assign
asks = refl

abbrev running_job : Remote
running_job = record { job_id = codes "42"; remote_pid = pos 17 }

proxy_dispatch-status_example :
    proxy_dispatch running_job
      (pos 9)
      (codes "wave")
      status_request
      (ok (dispatch_request server status_request).0)
    ≡ ok (
      make_ok_response
          (request_id (parsed status_request).1)
          (dump (status_fields (codes "42") (codes "wave") ++ wave_status server (pos 9))),
      true,
    )
proxy_dispatch-status_example =
    proxy_dispatch-status server running_job 17 (pos 9) (codes "wave") status_request refl asks

proxy_dispatch_vsignal-status_example :
    proxy_dispatch_vsignal running_job
      (pos 9)
      []
      status_request
      (ok (dispatch_design_request alu_server status_request).0)
    ≡ ok (
      make_ok_response
          (request_id (parsed status_request).1)
          (dump (status_fields (codes "42") [] ++ design_status alu_server (pos 9))),
      true,
    )
proxy_dispatch_vsignal-status_example =
    proxy_dispatch_vsignal-status alu_server running_job 17 (pos 9) [] status_request refl asks

abbrev submitted : Bytes
submitted = codes "Job <42> is submitted"

abbrev ready_text : Bytes
ready_text =
    codes
      "{\"type\":\"ready\",\"protocol\":\"vwave-stdio-loop\",\"version\":1,\"pid\":17,\"backend\":\"ffr\"}\n"

abbrev pipe : List Poll
pipe = interrupted ∷ map byte (submitted ++ (b'\n' ∷ ready_text))

not_json : (parsed submitted).0 ≡ false
unfolding parsed parse parse_object
not_json = refl

piped : arriving pipe ≡ lines (submitted ∷ run_stdio_loop server [])
unfolding run_stdio_loop dump set set_int to_string
piped = refl

short_line : leb (length (ready_line server)) max_response ≡ true
unfolding ready_line build set_field dump set set_int to_string
short_line = refl

wait_ready-run_stdio_loop_example :
    wait_ready (true ∷ true ∷ []) pipe fresh
    ≡ ok (record { job_id = job_after_lines [] (submitted ∷ []); remote_pid = pos 17 })
wait_ready-run_stdio_loop_example =
    wait_ready-run_stdio_loop server [] (submitted ∷ []) (true ∷ true ∷ []) pipe fresh tt piped
      (
        (
          refl,
          (
            refl,
            (
              refl,
              (
                refl,
                (
                  refl,
                  (
                    refl,
                    (
                      refl,
                      (
                        refl,
                        (
                          refl,
                          (
                            refl,
                            (
                              refl,
                              (
                                refl,
                                (
                                  refl,
                                  (
                                    refl,
                                    (
                                      refl,
                                      (refl, (refl, (refl, (refl, (refl, (refl, (refl, tt))))))),
                                    ),
                                  ),
                                ),
                              ),
                            ),
                          ),
                        ),
                      ),
                    ),
                  ),
                ),
              ),
            ),
          ),
          not_json,
          omega arith,
        ),
        tt,
      )
      (omega arith) (leb→le _ _ short_line) (omega arith, (refl, (refl, tt)))

submitted_job : handle_diag [] submitted ≡ codes "42"
unfolding handle_diag
submitted_job = refl

abbrev goodbye : Bytes
goodbye = codes "{\"id\":3,\"cmd\":\"shutdown\"}"

abbrev farewell : Bytes
farewell = codes "{\"id\":3,\"status\":\"ok\",\"data\":{\"message\":\"shutting down\"}}"

answered : (dispatch_request server goodbye).0 ≡ farewell
unfolding dispatch_request answer_request run_command command_of respond make_ok_response dump set
    parsed parse parse_object get_string get_int find object_loop parse_string_val parse_value
    assign to_string equal strtoll
answered =
    ap (λ id. make_ok_response id (codes "{\"message\":\"shutting down\"}"))
      (to_int-eq_self (pos 3) (omega arith))

abbrev farewell_bytes : List Poll
farewell_bytes = interrupted ∷ map byte (farewell ++ b'\n' ∷ [])

remote_request-dispatch_request_example :
    remote_request true goodbye (sent 20 ∷ sent 100 ∷ []) (true ∷ []) farewell_bytes
    ≡ some (ok (dispatch_request server goodbye).0)
remote_request-dispatch_request_example =
    remote_request-dispatch_request server goodbye [] (sent 20 ∷ sent 100 ∷ []) [] farewell_bytes
      (unfold write_loop in refl) tt (ap (λ t. t ++ b'\n' ∷ []) (sym answered))
      (subst (λ t. length t ≤ max_response) (sym answered)
        (leb→le (length farewell) max_response refl))
