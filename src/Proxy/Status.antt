-- ===== src/Proxy/Status.antt =====
-- The response to a status request behind the proxies.
use tool_debug.Common.{
  ℕ, Bytes, codes, equal, equal_iff, subst, not, List, [], ◌++◌, ◌≡◌, refl, ap, sym, ◌∙◌, ◌&&◌,
  Bool, false, true, ℤ, pos,
}
use tool_debug.Common.Outcome.{ok}
use tool_debug.Json.Parser.{Maps, parsed, get_string}
use tool_debug.Json.Builder.{Entry, set, set_int, push_entry, dump}
use tool_debug.Protocol.{make_ok_response}
use tool_debug.Lsf.{status_fields, add_status_fields, replace_pid}
use tool_debug.Lsf.Rewrites.{add_status_fields-make_ok_response}
use tool_debug.Lsf.StatusText.{wave, design, Source, status_entries, replace_pid-status_entries}
use tool_debug.Wave.{ServerState, handle_status, add_source}
use tool_debug.Wave.Dispatch.{
  request_id, respond, run_command, command_of, answer_request, dispatch_parsed, dispatch_request,
}
use tool_debug.Vsignal.{DesignServer}
use tool_debug.Vsignal.Handlers.{handle_design_status}
use tool_debug.Vsignal.Dispatch.{run_design_command, answer_parsed, dispatch_design_request}
use tool_debug.Proxy.Pipe.{Remote, proxy_dispatch, proxy_dispatch_vsignal}
use tool_debug.Proxy.Transparent.{asks_status}

-- What the servers say of themselves, under a process id.
abbrev pub wave_status : ServerState → ℤ → List Entry
wave_status g pid = status_entries wave g.fsdb_path g.uptime pid (add_source g.session [])

abbrev pub design_status : DesignServer → ℤ → List Entry
design_status h pid = status_entries design h.design_source h.uptime pid []

dispatch_parsed-status :
    (g : ServerState) (r : Bool × Maps)
    → (r.0 && equal (get_string r.1 (codes "cmd") []) (codes "status")) ≡ true
    → (dispatch_parsed g r).0 ≡ make_ok_response (request_id r.1) (dump (wave_status g g.pid))
unfolding answer_request command_of run_command respond handle_status add_source set set_int
    push_entry
dispatch_parsed-status g (false, req) h = absurd cc
dispatch_parsed-status g (true, req) h = rw h refl

answer_parsed-status :
    (g : DesignServer) (r : Bool × Maps)
    → (r.0 && equal (get_string r.1 (codes "cmd") []) (codes "status")) ≡ true
    → (answer_parsed g r).0 ≡ make_ok_response (request_id r.1) (dump (design_status g g.pid))
unfolding answer_parsed run_design_command handle_design_status set set_int push_entry
answer_parsed-status g (false, req) h = absurd cc
answer_parsed-status g (true, req) h = rw h refl

status_goes_on :
    (accepted : Bool) (cmd : Bytes)
    → (accepted && equal cmd (codes "status")) ≡ true
    → not (accepted && equal cmd (codes "shutdown")) ≡ true
status_goes_on false cmd h = refl
status_goes_on true cmd h =
    subst (λ c. not (equal c (codes "shutdown")) ≡ true)
      (sym ((equal_iff cmd (codes "status")).0 h)) (unfold equal in refl)

-- What a proxy makes of a status response.
rewritten :
    (response : Bytes) (id : ℤ) (source : Source) (path : Bytes) (uptime served : ℤ) (p : ℕ)
    (pid : ℤ) (more : List Entry) (job_id job_name : Bytes)
    → response ≡ make_ok_response id (dump (status_entries source path uptime served more))
    → served ≡ pos p
    → add_status_fields (replace_pid response pid) job_id job_name
      ≡ make_ok_response id
          (dump (status_fields job_id job_name ++ status_entries source path uptime pid more))
rewritten response id source path uptime served p pid more job_id job_name answered running =
    let old =
      answered
      ∙ ap (λ i. make_ok_response id (dump (status_entries source path uptime i more))) running in
    ap (λ t. add_status_fields t job_id job_name)
      (ap (λ t. replace_pid t pid) old
        ∙ replace_pid-status_entries id source path uptime p pid more)
    ∙ add_status_fields-make_ok_response id _ _ job_id job_name

-- To a status request vwave's proxy answers what the server would if its process id were the
-- proxy's, with the run mode, the job and its name in front of the data, and it goes on, where the
-- worker's process id is not negative.
pub proxy_dispatch-status :
    (g : ServerState) (r : Remote) (p : ℕ) (pid : ℤ) (job_name request : Bytes)
    → g.pid ≡ pos p
    → asks_status request ≡ true
    → proxy_dispatch r pid job_name request (ok (dispatch_request g request).0)
      ≡ ok (
        make_ok_response
            (request_id (parsed request).1)
            (dump (status_fields r.job_id job_name ++ wave_status g pid)),
        true,
      )
unfolding proxy_dispatch dispatch_request
proxy_dispatch-status g r p pid job_name request running asks = rw asks (
    ap (λ t. ok (t, true))
      (rewritten _ (request_id (parsed request).1) wave g.fsdb_path g.uptime g.pid p pid
        (add_source g.session []) r.job_id job_name (dispatch_parsed-status g (parsed request) asks)
        running))

-- To a status request vsignal's proxy answers what the server would if its process id were the
-- proxy's, with the run mode, the job and its name in front of the data, and it goes on, where the
-- worker's process id is not negative.
pub proxy_dispatch_vsignal-status :
    (h : DesignServer) (r : Remote) (p : ℕ) (pid : ℤ) (job_name request : Bytes)
    → h.pid ≡ pos p
    → asks_status request ≡ true
    → proxy_dispatch_vsignal r pid job_name request (ok (dispatch_design_request h request).0)
      ≡ ok (
        make_ok_response
            (request_id (parsed request).1)
            (dump (status_fields r.job_id job_name ++ design_status h pid)),
        true,
      )
unfolding proxy_dispatch_vsignal dispatch_design_request
proxy_dispatch_vsignal-status h r p pid job_name request running asks =
    let answered = answer_parsed-status h (parsed request) asks in
    let same =
      rewritten _ (request_id (parsed request).1) design h.design_source h.uptime h.pid p pid []
        r.job_id job_name answered running in
    rw
      (
        asks,
        status_goes_on (parsed request).0 (get_string (parsed request).1 (codes "cmd") []) asks,
      )
      (ap (λ t. ok (t, true)) same)
