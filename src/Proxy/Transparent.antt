-- ===== src/Proxy/Transparent.antt =====
-- The proxies in front of their workers.
use tool_debug.Common.{Bytes, codes, equal, [], ◌≡◌, refl, sym, ap, ℤ, Bool, true, false, not, ◌&&◌}
use tool_debug.Common.Outcome.{ok}
use tool_debug.Json.Parser.{Maps, parsed, get_string}
use tool_debug.Wave.{ServerState}
use tool_debug.Wave.Dispatch.{dispatch_request}
use tool_debug.Wave.Stopping.{dispatch_request-stops}
use tool_debug.Vsignal.{DesignServer}
use tool_debug.Vsignal.Dispatch.{dispatch_design_request, answer_parsed}
use tool_debug.Proxy.Pipe.{Remote, proxy_dispatch, proxy_dispatch_vsignal}

-- Whether a request parses and asks for the status.
abbrev pub asks_status : Bytes → Bool
asks_status request =
    (parsed request).0 && equal (get_string (parsed request).1 (codes "cmd") []) (codes "status")

dispatch_design_request-stops :
    (g : DesignServer) (request : Bytes)
    → (dispatch_design_request g request).1
      ≡ not (
          (parsed request).0
          && equal (get_string (parsed request).1 (codes "cmd") []) (codes "shutdown"))
unfolding dispatch_design_request
dispatch_design_request-stops g request = go (parsed request)
  where
    go :
        (r : Bool × Maps)
        → (answer_parsed g r).1
          ≡ not (r.0 && equal (get_string r.1 (codes "cmd") []) (codes "shutdown"))
    go (false, req) = unfold answer_parsed in refl
    go (true, req) = unfold answer_parsed in refl

-- To a request other than status, either proxy answers what the worker answers, and it goes on just
-- when the worker does.
pub proxy_dispatch-transparent :
    (g : ServerState) (h : DesignServer) (r : Remote) (pid : ℤ) (job_name request : Bytes)
    → asks_status request ≡ false
    → (proxy_dispatch r pid job_name request (ok (dispatch_request g request).0)
        ≡ ok (dispatch_request g request))
      × (proxy_dispatch_vsignal r pid job_name request (ok (dispatch_design_request h request).0)
          ≡ ok (dispatch_design_request h request))
unfolding proxy_dispatch proxy_dispatch_vsignal
proxy_dispatch-transparent g h r pid job_name request other = (
  rw other (
      ap (λ running. ok ((dispatch_request g request).0, running))
        (sym (dispatch_request-stops g request))),
  rw other (
      ap (λ running. ok ((dispatch_design_request h request).0, running))
        (sym (dispatch_design_request-stops h request))),
)
