-- ===== src/Tests/Exchange.antt =====
-- One request and its response over a socket.
use tool_debug.Common.{Bytes, codes, List, [], ◌∷◌, ◌++◌, true, ◌≡◌, refl, arith}
use tool_debug.Server.{
  Recv, received, recv_interrupted, read, read_line, Send, sent, send_interrupted, send_line,
  send_loop, max_line,
}
use tool_debug.Client.Request.{send_request, send_request-read_line}

abbrev nl : Bytes
nl = b'\n' ∷ []

abbrev sends : List Send
sends = sent 2 ∷ send_interrupted ∷ sent 3 ∷ []

abbrev up : List Recv
up = received (codes "pi") ∷ received (codes "ng" ++ nl) ∷ []

abbrev down : List Recv
down = recv_interrupted ∷ received (codes "pong" ++ nl) ∷ []

send_request-read_line_example :
    (read_line max_line up ≡ read (codes "ping"))
    × (send_request true true (codes "/tmp/s.sock") (codes "ping") sends down ≡ read (codes "pong"))
unfolding send_line send_loop
send_request-read_line_example =
    send_request-read_line (codes "/tmp/s.sock") (codes "ping") (codes "pong") [] [] sends up sends
      down (omega arith) (refl, (refl, (refl, (refl, tt)))) (refl, (refl, (refl, (refl, tt))))
      (omega arith) (omega arith) refl refl tt tt refl refl
