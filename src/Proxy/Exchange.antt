-- ===== src/Proxy/Exchange.antt =====
-- A request that the vwave proxy sends to its worker, and the response that it takes.
use tool_debug.Common.{
  subst, ℕ, ◌≤◌, Bytes, codes, List, [], ◌∷◌, ◌++◌, append-nil, ◌≡◌, refl, sym, ap, ◌∙◌, inl, inr,
  Bool, true, some, length, ℤ, IsInt64, IsInt32-IsInt64, arith, if◌then◌else◌,
}
use tool_debug.Common.Outcome.{◌>>=◌, throw, Outcome, ok}
use tool_debug.Json.Parser.{parse, parsed, parsed-eq}
use tool_debug.Protocol.{make_ok_response, make_error_response}
use tool_debug.Protocol.Envelope.{parse-make_ok_response, parse-make_error_response}
use tool_debug.Server.{Send, returned}
use tool_debug.Wave.{ServerState}
use tool_debug.Wave.Dispatch.{dispatch_request}
use tool_debug.Wave.Answers.{IsAnswer, answered_id, answered_id-IsInt32, dispatch_request-IsAnswer}
use tool_debug.Wave.Framing.{IsAnswer-IsLine}
use tool_debug.Proxy.Pipe.{
  Poll, max_response, accepted_or, response_wait, write_loop, remote_request,
}
use tool_debug.Proxy.Ready.{arriving, Flows, read_from-line}

-- What the proxy waits for: a line that is not empty and that parses.
abbrev IsTaken : Bytes → Type 0
IsTaken response = (c : ℕ) × (rest : Bytes) × (response ≡ c ∷ rest) × ((parsed response).0 ≡ true)

make_ok_response-IsTaken :
    (id : ℤ) (payload : Bytes)
    → (parsed (make_ok_response id payload)).0 ≡ true
    → IsTaken (make_ok_response id payload)
unfolding make_ok_response
make_ok_response-IsTaken id payload parses = (_, _, refl, parses)

make_error_response-IsTaken :
    (id : ℤ) (code message : Bytes)
    → (parsed (make_error_response id code message)).0 ≡ true
    → IsTaken (make_error_response id code message)
unfolding make_error_response
make_error_response-IsTaken id code message parses = (_, _, refl, parses)

IsAnswer-IsTaken :
    (id : ℤ) (response : Bytes) → IsInt64 id → IsAnswer id response → IsTaken response
IsAnswer-IsTaken id response h (inl (payload, object, line, e)) =
    let parses = parsed-eq (make_ok_response id payload) _ (
      ap parse (sym (append-nil (make_ok_response id payload)))
      ∙ parse-make_ok_response id payload [] h object) in
    subst IsTaken (sym e) (make_ok_response-IsTaken id payload (ap (λ r. r.0) parses))
IsAnswer-IsTaken id response h (inr (code, message, e)) =
    let parses = parsed-eq (make_error_response id code message) _ (
      ap parse (sym (append-nil (make_error_response id code message)))
      ∙ parse-make_error_response id code message [] h) in
    subst IsTaken (sym e) (make_error_response-IsTaken id code message (ap (λ r. r.0) parses))

accepted_or-IsTaken :
    (complaint response : Bytes) (later : Outcome Bytes)
    → IsTaken response
    → accepted_or complaint response later ≡ ok response
accepted_or-IsTaken complaint response later (c, rest, e, parses) =
    let shown : (parsed (c ∷ rest)).0 ≡ true = ap (λ t. (parsed t).0) (sym e) ∙ parses in
    ap (λ t. accepted_or complaint t later) e
    ∙ ap (λ b. if b then ok (c ∷ rest) else throw complaint) shown
    ∙ ap ok (sym e)

-- A request that vwave's proxy wrote whole is answered with what the worker's dispatcher answers,
-- where that comes through the pipe as a line within the limit and there is time for a round.
pub remote_request-dispatch_request :
    (g : ServerState) (request rest : Bytes) (writes : List Send) (clock : List Bool)
    (polls : List Poll)
    → write_loop (request ++ b'\n' ∷ []) writes ≡ returned true
    → Flows polls
    → arriving polls ≡ (dispatch_request g request).0 ++ (b'\n' ∷ rest)
    → length (dispatch_request g request).0 ≤ max_response
    → remote_request true request writes (true ∷ clock) polls
      ≡ some (ok (dispatch_request g request).0)
unfolding remote_request response_wait
remote_request-dispatch_request g request rest writes clock polls written flows comes fits =
    let response = (dispatch_request g request).0 in
    let id = answered_id (parsed request) in
    let answer = dispatch_request-IsAnswer g request in
    let taken =
      IsAnswer-IsTaken id response (IsInt32-IsInt64 id (answered_id-IsInt32 (parsed request)))
        answer in
    let (left, got, behind, more) =
      read_from-line [] response rest polls flows comes (IsAnswer-IsLine id response answer)
        (omega (arith, fits)) in
    rw written (
      ap some (
        ap
          (λ o. o >>= (λ got.
            accepted_or (codes "LSF worker emitted invalid JSON after ready") got.0
              (response_wait clock got.1)))
          got
        ∙ accepted_or-IsTaken (codes "LSF worker emitted invalid JSON after ready") response
            (response_wait clock left) taken))
