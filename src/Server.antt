-- ===== src/Server.antt =====
-- src_common/server_loop.h: reading and sending a line over a socket, and the accept loop. What the
-- system calls answer is a list, taken from the front; a loop that comes to its end is waiting.
pub mod Lines
pub mod Transfer
pub mod Asked
pub mod Events
pub mod Idle
use tool_debug.Common.{
  ◌||◌, ℕ, zero, suc, ◌+◌, ◌-◌, ◌*◌, ◌/◌, Bytes, codes, List, [], ◌∷◌, ◌++◌, Bool, true, false,
  ◌&&◌, not, if◌then◌else◌, ◌==◌, ltb, leb, is_empty, length, drop, take, Option, none, some,
}

-- recv: bytes, the end of the stream, EINTR, or another error.
pub data Recv : Type 0 where
  received : Bytes → Recv
  recv_end recv_interrupted recv_failed : Recv

-- The line so far, whole if a newline was met.
pub data Scan : Type 0 where
  complete partial : Bytes → Scan

-- `for (i = 0; i < n; ++i)` over the bytes of one recv.
unfoldable pub scan : Bytes → Bytes → Scan
scan line [] = partial line
scan line (c ∷ buf) = if c == b'\n' then complete line else scan (line ++ c ∷ []) buf

-- The line, or the line so far of a loop that waits in recv.
pub data ReadEnd : Type 0 where
  read waiting : Bytes → ReadEnd

unfoldable pub read_loop : ℕ → Bytes → List Recv → ReadEnd
unfolding scan
read_loop max_len line [] = if ltb (length line) max_len then waiting line else read line
read_loop max_len line (recv_end ∷ rest) = read line
read_loop max_len line (recv_failed ∷ rest) = read line
read_loop max_len line (recv_interrupted ∷ rest) =
    let again = read_loop max_len line rest in
    if ltb (length line) max_len then again else read line
read_loop max_len line (received buf ∷ rest) =
    let next : Bytes → ReadEnd = λ line'. read_loop max_len line' rest in
    if ltb (length line) max_len
    then elim (scan line buf) [ complete whole ↦ read whole | partial line' ↦ next line' ]
    else read line

unfoldable pub read_line : ℕ → List Recv → ReadEnd
unfolding read_loop
read_line max_len events = read_loop max_len [] events

-- send: so many bytes taken, EINTR, or another error.
pub data Send : Type 0 where
  sent : ℕ → Send
  send_interrupted send_failed : Send

pub data SendEnd : Type 0 where
  returned : Bool → SendEnd
  blocked : SendEnd

-- The loop of `send_line` on what is left to send, with the bytes that went out.
unfoldable pub send_loop : Bytes → List Send → Bytes × SendEnd
send_loop [] events = ([], returned true)
send_loop (c ∷ bytes) [] = ([], blocked)
send_loop (c ∷ bytes) (send_failed ∷ rest) = ([], returned false)
send_loop (c ∷ bytes) (send_interrupted ∷ rest) = send_loop (c ∷ bytes) rest
send_loop (c ∷ bytes) (sent n ∷ rest) =
    let (out, end) = send_loop (drop n (c ∷ bytes)) rest in (take n (c ∷ bytes) ++ out, end)

unfoldable pub send_line : Bytes → List Send → Bytes × SendEnd
unfolding send_loop
send_line msg events = send_loop (msg ++ b'\n' ∷ []) events

-- `idle_timeout_sec`, 0 for none; the time per client is the system's to keep.
pub record ServerConfig : Type 0 where
  pub log_tag : Bytes
  pub idle_timeout_sec : ℕ

-- What one round of the loop meets: select or accept fail, time passes, or a client comes.
pub data Arrival : Type 0 where
  select_interrupted select_failed nobody accept_failed : Arrival
  client : List Recv → List Send → Arrival

-- A round: whether a signal came before it, the clock at its start and after the read, in
-- nanoseconds.
pub record Round : Type 0 where
  pub signalled : Bool
  pub now : ℕ
  pub after_read : ℕ
  pub arrival : Arrival

-- `g_running`, `last_activity` and the state of the dispatcher.
pub record Loop (S : Type 0) : Type 0 where
  pub running : Bool
  pub last_activity : ℕ
  pub server : S

-- Why the loop was left, or that it goes on.
pub data Status : Type 0 where
  going stopped idle broken stuck : Status

abbrev pub max_line : ℕ
max_line = 4 * 1024 * 1024

abbrev pub nanoseconds : ℕ
nanoseconds = 1000000000

-- Whatever send_line returned, the loop goes on.
abbrev pub after_send : SendEnd → Status
after_send (returned b) = going
after_send blocked = stuck

-- What some rounds of the loop come to: its state, whether it goes on, and the bytes that went out to
-- each client that was answered.
abbrev pub Passed : Type 0 → Type 0
Passed S = Loop S × Status × List Bytes

-- `continue` or the end of the loop.
abbrev pub resume : {S : Type 0} → Passed S → Passed S → Passed S
resume (s, going, outs) rest = (rest.0, rest.1, outs ++ rest.2)
resume (s, stopped, outs) rest = (s, stopped, outs)
resume (s, idle, outs) rest = (s, idle, outs)
resume (s, broken, outs) rest = (s, broken, outs)
resume (s, stuck, outs) rest = (s, stuck, outs)

-- How socket, bind and listen went.
pub record Setup : Type 0 where
  pub created : Bool
  pub bound : Bool
  pub listening : Bool

-- sizeof(addr.sun_path)
abbrev pub sun_path_size : ℕ
sun_path_size = 108

abbrev pub exit_code : Status → Option ℕ
exit_code going = none
exit_code stuck = none
exit_code stopped = some 0
exit_code idle = some 0
exit_code broken = some 0

module _ {S : Type 0} (dispatch : S → Bytes → S × Bytes × Bool) (cfg : ServerConfig) where
  -- An empty line is not dispatched. `g_running` may be cleared by the dispatcher.
  unfoldable pub serve : ℕ → List Send → ReadEnd → Loop S → Passed S
  serve at sends (waiting line) s = (s, stuck, [])
  serve at sends (read []) s = (s, going, [])
  serve at sends (read (c ∷ request)) s =
      let (server, response, running) = dispatch s.server (c ∷ request) in
      let (out, end) = send_line response sends in
      let s' : Loop S = record { running = running; last_activity = at; server = server } in
      (s', after_send end, out ∷ [])

  unfoldable pub arrive : ℕ → Arrival → Loop S → Passed S
  unfolding serve
  arrive at select_interrupted s = (s, going, [])
  arrive at select_failed s = (s, broken, [])
  arrive at nobody s = (s, going, [])
  arrive at accept_failed s = (s, going, [])
  arrive at (client recvs sends) s = serve at sends (read_line max_line recvs) s

  -- The idle time is a whole number of seconds.
  unfoldable pub is_idle : ℕ → Loop S → Bool
  is_idle now s =
      let idle_sec = (now - s.last_activity) / nanoseconds in
      ltb 0 cfg.idle_timeout_sec && leb cfg.idle_timeout_sec idle_sec

  unfoldable pub step : Round → Loop S → Passed S
  unfolding arrive is_idle
  step r s =
      if r.signalled || not s.running
      then (
        record { running = false; last_activity = s.last_activity; server = s.server },
        stopped,
        [],
      )
      else if is_idle r.now s
      then (s, idle, [])
      else arrive r.after_read r.arrival s

  unfoldable pub run_loop : List Round → Loop S → Passed S
  unfolding step
  run_loop [] s = (s, going, [])
  run_loop (r ∷ rounds) s =
      let passed = step r s in let rest = run_loop rounds passed.0 in resume passed rest

  -- `return 1` before the loop, `return 0` behind it, nothing while it goes on.
  unfoldable pub create_and_run_loop :
      Bytes → Setup → List Round → Loop S → Loop S × Option ℕ × List Bytes
  unfolding run_loop
  create_and_run_loop socket_path setup rounds s =
      let (s', status, outs) = run_loop rounds s in
      if not setup.created || leb sun_path_size (length socket_path)
      then (s, some 1, [])
      else if not setup.bound || not setup.listening
      then (s, some 1, [])
      else (s', exit_code status, outs)
