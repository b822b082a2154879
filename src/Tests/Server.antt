-- ===== src/Tests/Server.antt =====
-- The line I/O and the accept loop on concrete schedules.
use tool_debug.Common.{
  ℕ, ◌+◌, ◌*◌, Bytes, codes, equal, Bool, true, false, not, List, [], ◌∷◌, ◌++◌, ◌≡◌, refl, ◌↔◌,
  arith,
}
use tool_debug.Server.{
  Recv, received, recv_interrupted, read, read_line, Send, sent, send_interrupted, send_failed,
  send_line, returned, ServerConfig, Round, nobody, client, Loop, stopped, idle, run_loop,
  nanoseconds, max_line, send_loop,
}
use tool_debug.Server.Transfer.{read_line-send_line, send_line-prefix}
use tool_debug.Server.Idle.{run_loop_idles}

abbrev nl : Bytes
nl = b'\n' ∷ []

pieces :
    read_line 8
      (received (codes "pi") ∷ recv_interrupted ∷ received (codes "ng" ++ (nl ++ codes "x")) ∷ [])
    ≡ read (codes "ping")
unfolding read_line
pieces = refl

abbrev in_two : List Send
in_two = sent 1 ∷ send_interrupted ∷ sent 4 ∷ []

abbrev in_bytes : List Recv
in_bytes = received (codes "p") ∷ received (codes "o") ∷ received (codes "ng" ++ nl) ∷ []

read_line-send_line_example : read_line max_line in_bytes ≡ read (codes "pong")
unfolding send_line send_loop
read_line-send_line_example =
    read_line-send_line max_line (codes "pong") [] in_two in_bytes
      (refl, (refl, (refl, (refl, tt)))) (omega arith) refl tt refl

send_line-prefix_example :
    (left : Bytes) × ((send_line (codes "pong") (sent 2 ∷ send_failed ∷ [])).0 ++ left
      ≡ codes "pong" ++ nl)
    × ((send_line (codes "pong") (sent 2 ∷ send_failed ∷ [])).1 ≡ returned true ↔ left ≡ [])
send_line-prefix_example = send_line-prefix (codes "pong") (sent 2 ∷ send_failed ∷ [])

-- A server that counts its requests, answers each by itself and stops on `shutdown`.
abbrev echo : ℕ → Bytes → ℕ × Bytes × Bool
echo count request = (count + 1, request, not (equal request (codes "shutdown")))

abbrev hour : ServerConfig
hour = record { log_tag = codes "echo"; idle_timeout_sec = 3600 }

abbrev fresh : Loop ℕ
fresh = record { running = true; last_activity = 0; server = 0 }

abbrev calm : ℕ → Round
calm seconds = record {
  signalled = false;
  now = seconds * nanoseconds;
  after_read = seconds * nanoseconds;
  arrival = nobody;
}

abbrev call : ℕ → Bytes → Round
call seconds request = record {
  signalled = false;
  now = seconds * nanoseconds;
  after_read = seconds * nanoseconds;
  arrival = client (received (request ++ nl) ∷ []) (sent 100 ∷ []);
}

abbrev day : List Round
day = calm 1 ∷ call 2 (codes "ping") ∷ call 3 (codes "shutdown") ∷ calm 4 ∷ []

shutdown_stops : (run_loop echo hour day fresh).1 ≡ stopped
unfolding run_loop read_line send_line equal
shutdown_stops = refl

two_answers : (run_loop echo hour day fresh).2 ≡ codes "ping\n" ∷ codes "shutdown\n" ∷ []
unfolding run_loop read_line send_line equal
two_answers = refl

run_loop_idles_example :
    run_loop echo hour (calm 1 ∷ calm 2 ∷ calm 3600 ∷ call 3601 (codes "ping") ∷ []) fresh
    ≡ (fresh, idle, [])
run_loop_idles_example =
    run_loop_idles echo hour (calm 1 ∷ calm 2 ∷ []) (call 3601 (codes "ping") ∷ []) (calm 3600)
      fresh ((refl, tt), ((refl, tt), tt)) refl refl (omega arith) (omega arith)

quiet_hour : run_loop echo hour (calm 1 ∷ calm 3600 ∷ []) fresh ≡ (fresh, idle, [])
unfolding run_loop
quiet_hour = refl
