-- ===== src/Daemon/Launch.antt =====
-- A server that answers the readiness probe is taken for loaded.
use tool_debug.Common.{
  ℕ, zero, suc, ◌<◌, ◌*◌, Bytes, codes, equal, List, [], ◌∷◌, ◌++◌, ◌≡◌, refl, ap, ◌∙◌, ℤ, Bool,
  true, false, ◌&&◌, Option, some, none, length, All, behind, Bool-cases, inl, inr, arith,
}
use tool_debug.Common.Decimal.{to_string}
use tool_debug.Json.Parser.{Maps, parsed, get_string}
use tool_debug.Protocol.{make_ok_response}
use tool_debug.Lsf.{find, here_or}
use tool_debug.Lsf.Find.{behind-append}
use tool_debug.RunDir.{RunDir}
use tool_debug.Wave.{ServerState, handle_status}
use tool_debug.Wave.Dispatch.{
  dispatch_request, dispatch_parsed, answer_request, run_command, command_of, respond, request_id,
  params_of,
}
use tool_debug.Daemon.{
  loaded, is_found, LaunchConfig, Observed, contains_text, answers_ok, ready, poll_loop,
  after_polls, wait_for_server,
}

found-later :
    (c : ℕ) (here : Option Bytes) (later : Option (Bytes × Bytes))
    → is_found later ≡ true
    → is_found (here_or c here later) ≡ true
found-later c (some after) later h = refl
found-later c none none h = h
found-later c none (some parts) h = refl

-- A key that begins a text is found, and so is one that stands behind another text.
contains_text-append :
    (k : ℕ) (key rest : Bytes) → contains_text (k ∷ key) ((k ∷ key) ++ rest) ≡ true
unfolding find
contains_text-append k key rest =
    ap (λ here. is_found (here_or k here (find (k ∷ key) (key ++ rest))))
      (behind-append (k ∷ key) rest)

contains_text-behind :
    (key front text : Bytes)
    → contains_text key text ≡ true
    → contains_text key (front ++ text) ≡ true
unfolding find
contains_text-behind key [] text h = h
contains_text-behind key (c ∷ front) text h =
    found-later c (behind key (c ∷ (front ++ text))) (find key (front ++ text))
      (contains_text-behind key front text h)

answers_ok-make_ok_response :
    (id : ℤ) (payload : Bytes) → answers_ok (make_ok_response id payload) ≡ true
unfolding answers_ok make_ok_response
answers_ok-make_ok_response id payload =
    let key = codes "\"ok\"" in
    let text₁ : Bytes = key ++ (codes ",\"data\":" ++ (payload ++ codes "}")) in
    let text₂ : Bytes = codes ",\"status\":" ++ text₁ in
    let text₃ : Bytes = to_string id ++ text₂ in
    contains_text-behind key (codes "{\"id\":") text₃ (
      contains_text-behind key (to_string id) text₂ (
        contains_text-behind key (codes ",\"status\":") text₁ (
          contains_text-append b'"' (codes "ok\"") (codes ",\"data\":" ++ (payload ++ codes "}")))))

loaded-code : (rd : RunDir) (pid : ℤ) (cfg : LaunchConfig) → (loaded rd pid cfg).code ≡ 0
loaded-code rd pid cfg = elim (Bool-cases cfg.json_mode) [
  | inl json ↦ rw json refl
  | inr text ↦ rw text refl
]

-- A round in which the child runs and has not answered the probe with success.
abbrev pub IsEarly : Observed → Type 0
IsEarly seen = (seen.ended ≡ false) × ((seen.has_socket && answers_ok seen.reply) ≡ false)

poll_loop-ready :
    (n : ℕ) (early : List Observed) (seen : Observed) (later : List Observed)
    → All IsEarly early
    → length early < n
    → seen.ended ≡ false
    → (seen.has_socket && answers_ok seen.reply) ≡ true
    → poll_loop n (early ++ seen ∷ later) ≡ ready
unfolding poll_loop
poll_loop-ready zero early seen later h enough runs answers = absurd (omega arith)
poll_loop-ready (suc n) [] seen later h enough runs answers = rw runs (rw answers refl)
poll_loop-ready (suc n) (e ∷ early) seen later h enough runs answers =
    rw (h.0.0) (rw (h.0.1) (poll_loop-ready n early seen later h.1 (omega arith) runs answers))

-- The answer to a request for the status is a success.
answer_request-status :
    (g : ServerState) (req : Maps)
    → get_string req (codes "cmd") [] ≡ codes "status"
    → answers_ok (answer_request g req).0 ≡ true
unfolding answer_request run_command command_of equal respond handle_status
answer_request-status g req asks =
    ap
      (λ cmd. answers_ok (
        respond (request_id req) (
          run_command g cmd (command_of cmd) (params_of req (get_string req (codes "params") [])))))
      asks
    ∙ answers_ok-make_ok_response (request_id req) _

dispatch_parsed-status :
    (g : ServerState) (r : Bool × Maps)
    → r.0 ≡ true
    → get_string r.1 (codes "cmd") [] ≡ codes "status"
    → answers_ok (dispatch_parsed g r).0 ≡ true
dispatch_parsed-status g (false, req) accepted asks = absurd (ground arith)
dispatch_parsed-status g (true, req) accepted asks = answer_request-status g req asks

-- The parent reports a server as loaded, with exit code 0, once vwave's server answers the request
-- for the status, where until then the child ran and had not answered with success, and that takes
-- no more rounds than ten for each second of the timeout.
pub wait_for_server-dispatch_request :
    (g : ServerState) (request : Bytes) (rd : RunDir) (pid : ℤ) (cfg : LaunchConfig)
    (early later : List Observed) (log : List Bytes) (running : Bool)
    → (parsed request).0 ≡ true
    → get_string (parsed request).1 (codes "cmd") [] ≡ codes "status"
    → All IsEarly early
    → length early < cfg.timeout_sec * 10
    → (wait_for_server rd pid cfg
        (early
          ++ record { ended = false; has_socket = true; reply = (dispatch_request g request).0 }
            ∷ later)
        log
        running).code
      ≡ 0
unfolding wait_for_server dispatch_request
wait_for_server-dispatch_request g request rd pid cfg early later log running accepted asks h
      enough =
    let seen : Observed = record {
      ended = false;
      has_socket = true;
      reply = (dispatch_request g request).0;
    } in
    ap (λ polled. (after_polls rd pid cfg log running polled).code)
      (poll_loop-ready (cfg.timeout_sec * 10) early seen later h enough refl
        (dispatch_parsed-status g (parsed request) accepted asks))
    ∙ loaded-code rd pid cfg
