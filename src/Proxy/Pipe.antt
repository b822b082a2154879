-- ===== src/Proxy/Pipe.antt =====
-- RemoteProcess of both lsf_proxy.h: what the proxy reads from the worker's pipes. The clock is the
-- list of what `now < deadline` gives, one round after another; the polls are what poll and read
-- give.
use tool_debug.Common.{
  ℕ, zero, suc, drop, ◌*◌, Bytes, codes, equal, List, [], ◌∷◌, ◌++◌, ℤ, pos, to_int, Bool, true,
  false, not, ◌&&◌, ◌||◌, Option, none, some, if◌then◌else◌, is_empty, length, ◌==◌, leb, ltb,
}
use tool_debug.Common.Outcome.{Outcome, ok, throw, ◌>>=◌}
use tool_debug.Json.Parser.{Maps, parsed, get_string, get_int}
use tool_debug.Lsf.{find, add_status_fields, replace_pid}
use tool_debug.Server.{Send, sent, send_failed, send_interrupted, SendEnd, returned, blocked}

-- One round of `read_line`: poll was interrupted, it gave a byte, or nothing came (a timeout, an
-- error or the end of the pipe).
pub data Poll : Type 0 where
  interrupted nothing : Poll
  byte : ℕ → Poll

abbrev pub max_response : ℕ
max_response = 4 * 1024 * 1024

-- `read_line` of vwave, onto what was read: the line, and the polls that are left.
unfoldable pub read_from : Bytes → List Poll → Outcome (Bytes × List Poll)
read_from result [] = ok (result, [])
read_from result (nothing ∷ polls) = ok (result, polls)
read_from result (interrupted ∷ polls) = read_from result polls
read_from result (byte c ∷ polls) =
    let rest = read_from (result ++ c ∷ []) polls in
    if c == b'\n'
    then ok (result, polls)
    else if leb max_response (length result)
    then throw (codes "LSF response exceeds 4 MiB")
    else rest

-- That of vsignal has no limit.
unfoldable pub read_unlimited : Bytes → List Poll → Bytes × List Poll
read_unlimited result [] = (result, [])
read_unlimited result (nothing ∷ polls) = (result, polls)
read_unlimited result (interrupted ∷ polls) = read_unlimited result polls
read_unlimited result (byte c ∷ polls) =
    let rest = read_unlimited (result ++ c ∷ []) polls in
    if c == b'\n' then (result, polls) else rest

abbrev pub job_of : Bytes → Option (Bytes × Bytes) → Bytes
job_of job_id none = job_id
job_of job_id (some (job, rest)) = job

abbrev pub job_after : Bytes → Option (Bytes × Bytes) → Bytes
job_after job_id none = job_id
job_after job_id (some (before, after)) = job_of job_id (find (codes ">") after)

-- The job id after a line of diagnostics.
unfoldable pub handle_diag : Bytes → Bytes → Bytes
unfolding find
handle_diag job_id line = job_after job_id (find (codes "Job <") line)

-- The thread that reads the worker's stderr.
unfoldable pub diag_loop : Bytes → Bytes → Bytes → Bytes
unfolding handle_diag
diag_loop job_id line [] = if is_empty line then job_id else handle_diag job_id line
diag_loop job_id line (c ∷ text) =
    let next = diag_loop (handle_diag job_id line) [] text in
    let same = diag_loop job_id line text in
    let longer = diag_loop job_id (line ++ c ∷ []) text in
    if c == b'\n' then next else if ltb (length line) 65536 then longer else same

-- What the proxy knows of the worker.
pub record Remote : Type 0 where
  pub job_id : Bytes
  pub remote_pid : ℤ

abbrev pub is_ready : Bytes → Maps → Bool
is_ready protocol j =
    equal (get_string j (codes "type") []) (codes "ready")
    && equal (get_string j (codes "protocol") []) protocol

-- A line before the worker is ready: whether it says so, and what is known then.
abbrev pub take_line : Bytes → Remote → Bytes → Bool × Maps → Bool × Remote
take_line protocol r line (false, j) = (false, record r { job_id = handle_diag r.job_id line })
take_line protocol r line (true, j) =
    if is_ready protocol j
    then (true, record r { remote_pid = to_int (get_int j (codes "pid") (pos 0)) })
    else (false, r)

abbrev pub after_line : Bytes → Remote → Bytes → Bool × Remote
after_line protocol r [] = (false, r)
after_line protocol r (c ∷ line) = take_line protocol r (c ∷ line) (parsed (c ∷ line))

abbrev pub go_on : Bool × Remote → (Remote → Outcome Remote) → Outcome Remote
go_on (true, r) next = ok r
go_on (false, r) next = next r

unfoldable pub wait_ready : List Bool → List Poll → Remote → Outcome Remote
unfolding read_from handle_diag
wait_ready [] polls r = throw (codes "Timed out waiting for LSF vwave worker ready")
wait_ready (false ∷ clock) polls r = throw (codes "Timed out waiting for LSF vwave worker ready")
wait_ready (true ∷ clock) polls r = read_from [] polls >>= (λ got.
    go_on (after_line (codes "vwave-stdio-loop") r got.0) (λ r₁. wait_ready clock got.1 r₁))

unfoldable pub wait_ready_vsignal : List Bool → List Poll → Remote → Outcome Remote
unfolding read_unlimited handle_diag
wait_ready_vsignal [] polls r = throw (codes "Timed out waiting for LSF vsignal worker ready")
wait_ready_vsignal (false ∷ clock) polls r =
    throw (codes "Timed out waiting for LSF vsignal worker ready")
wait_ready_vsignal (true ∷ clock) polls r =
    let (line, rest) = read_unlimited [] polls in
    go_on (after_line (codes "vsignal-stdio-loop") r line) (λ r₁. wait_ready_vsignal clock rest r₁)

-- `if (!parser.parse(response)) throw ...; return response`
abbrev pub accept : Bytes → Bytes → Outcome Bytes
accept complaint response = if (parsed response).0 then ok response else throw complaint

abbrev pub accepted_or : Bytes → Bytes → Outcome Bytes → Outcome Bytes
accepted_or complaint [] later = later
accepted_or complaint (c ∷ response) later = accept complaint (c ∷ response)

-- The loop of `request` that waits for the response.
unfoldable pub response_wait : List Bool → List Poll → Outcome Bytes
unfolding read_from
response_wait [] polls = throw (codes "Timed out waiting for LSF vwave response")
response_wait (false ∷ clock) polls = throw (codes "Timed out waiting for LSF vwave response")
response_wait (true ∷ clock) polls = read_from [] polls >>= (λ got.
    accepted_or (codes "LSF worker emitted invalid JSON after ready") got.0
      (response_wait clock got.1))

unfoldable pub response_wait_vsignal : List Bool → List Poll → Outcome Bytes
unfolding read_unlimited
response_wait_vsignal [] polls = throw (codes "Timed out waiting for LSF vsignal response")
response_wait_vsignal (false ∷ clock) polls =
    throw (codes "Timed out waiting for LSF vsignal response")
response_wait_vsignal (true ∷ clock) polls =
    let (response, rest) = read_unlimited [] polls in
    accepted_or (codes "LSF worker emitted invalid JSON") response
      (response_wait_vsignal clock rest)

-- The loop of write on what is left; `blocked` where the pipe takes no more.
unfoldable pub write_loop : Bytes → List Send → SendEnd
write_loop [] events = returned true
write_loop (c ∷ bytes) [] = blocked
write_loop (c ∷ bytes) (send_failed ∷ rest) = returned false
write_loop (c ∷ bytes) (send_interrupted ∷ rest) = write_loop (c ∷ bytes) rest
write_loop (c ∷ bytes) (sent zero ∷ rest) = returned false
write_loop (c ∷ bytes) (sent (suc n) ∷ rest) = write_loop (drop (suc n) (c ∷ bytes)) rest

abbrev pub after_write : SendEnd → Outcome Bytes → Option (Outcome Bytes)
after_write blocked answer = none
after_write (returned true) answer = some answer
after_write (returned false) answer = some (throw (codes "write to LSF worker failed"))

-- `request` of vwave: whether the pipes are open, what write gives, the clock and the polls.
unfoldable pub remote_request :
    Bool → Bytes → List Send → List Bool → List Poll → Option (Outcome Bytes)
unfolding response_wait write_loop
remote_request open_pipes request writes clock polls =
    if open_pipes
    then after_write (write_loop (request ++ b'\n' ∷ []) writes) (response_wait clock polls)
    else some (throw (codes "LSF worker pipe is closed"))

unfoldable pub remote_request_vsignal :
    Bytes → List Send → List Bool → List Poll → Option (Outcome Bytes)
unfolding response_wait_vsignal write_loop
remote_request_vsignal request writes clock polls =
    after_write (write_loop (request ++ b'\n' ∷ []) writes) (response_wait_vsignal clock polls)

-- What the loop of the proxy dispatches to, on what the worker answered; the flag says whether the
-- proxy goes on.
unfoldable pub proxy_dispatch : Remote → ℤ → Bytes → Bytes → Outcome Bytes → Outcome (Bytes × Bool)
unfolding add_status_fields replace_pid
proxy_dispatch r pid job_name request (throw message) = throw message
proxy_dispatch r pid job_name request (ok response) =
    let j = parsed request in
    let cmd = get_string j.1 (codes "cmd") [] in
    let status = j.0 && equal cmd (codes "status") in
    let stopped = j.0 && (equal cmd (codes "shutdown") || equal cmd (codes "stdio.quit")) in
    if status
    then ok (add_status_fields (replace_pid response pid) r.job_id job_name, true)
    else ok (response, not stopped)

unfoldable pub proxy_dispatch_vsignal :
    Remote → ℤ → Bytes → Bytes → Outcome Bytes → Outcome (Bytes × Bool)
unfolding add_status_fields replace_pid
proxy_dispatch_vsignal r pid job_name request (throw message) = throw message
proxy_dispatch_vsignal r pid job_name request (ok response) =
    let j = parsed request in
    let cmd = get_string j.1 (codes "cmd") [] in
    let changed = add_status_fields (replace_pid response pid) r.job_id job_name in
    ok (
      (if j.0 && equal cmd (codes "status") then changed else response),
      not (j.0 && equal cmd (codes "shutdown")),
    )
