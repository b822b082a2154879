-- ===== src/Wave/Stopping.antt =====
-- What stops the vwave server.
use tool_debug.Common.{
  [], Bytes, codes, ◌≡◌, refl, ap, sym, subst, inl, inr, Bool, true, false, not, ◌&&◌, ◌||◌, equal,
  equal_iff, Bool-cases, arith,
}
use tool_debug.Json.Parser.{Maps, parsed, get_string}
use tool_debug.Wave.{ServerState}
use tool_debug.Wave.Dispatch.{
  command_of, is_shutdown, answer_request, dispatch_parsed, dispatch_request,
}

abbrev pub stops : Bytes → Bool
stops cmd = equal cmd (codes "shutdown") || equal cmd (codes "stdio.quit")

is_shutdown-command_of : (cmd : Bytes) → is_shutdown (command_of cmd) ≡ stops cmd
unfolding command_of
is_shutdown-command_of cmd = elim (Bool-cases (equal cmd (codes "status"))) [
  | inl same ↦
      subst (λ c. is_shutdown (command_of c) ≡ stops c)
        (sym ((equal_iff cmd (codes "status")).0 same)) (unfold equal in refl)
  | inr other ↦ rw other (elim (Bool-cases (stops cmd)) [
    | inl ends ↦ rw ends refl
    | inr goes ↦ rw goes (ground arith)
  ])
]

dispatch_parsed-stops :
    (g : ServerState) (r : Bool × Maps)
    → (dispatch_parsed g r).1 ≡ not (r.0 && stops (get_string r.1 (codes "cmd") []))
unfolding answer_request
dispatch_parsed-stops g (false, req) = refl
dispatch_parsed-stops g (true, req) =
    ap not (is_shutdown-command_of (get_string req (codes "cmd") []))

-- The server goes on after every request but one that parses and whose command is `shutdown` or
-- `stdio.quit`.
pub dispatch_request-stops :
    (g : ServerState) (request : Bytes)
    → (dispatch_request g request).1
      ≡ not ((parsed request).0 && stops (get_string (parsed request).1 (codes "cmd") []))
unfolding dispatch_request
dispatch_request-stops g request = dispatch_parsed-stops g (parsed request)
