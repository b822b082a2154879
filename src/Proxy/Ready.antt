-- ===== src/Proxy/Ready.antt =====
-- The handshake of the vwave proxy and its worker.
use tool_debug.Common.{
  ℕ, ◌≤◌, ◌<◌, ◌+◌, Bytes, codes, equal, List, [], ◌∷◌, ◌++◌, append-nil, append_assoc, ◌≡◌, refl,
  sym, ap, ◌∙◌, subst, ℤ, pos, IsInt32, IsInt32-IsInt64, to_int-eq_self, Bool, true, false, ◌==◌,
  ==_iff, leb, length, get_or, drop, length-append, IsLine, All, arith, is_empty, cons-ne-nil,
}
use tool_debug.Common.Outcome.{ok}
use tool_debug.Json.Builder.{dump}
use tool_debug.Json.Parser.{
  Maps, parse, parsed, parsed-eq, no_maps, find, assign, get_string, get_int,
}
use tool_debug.Json.Fields.{Member, text, int, build, set_field, store_all, IsGood}
use tool_debug.Json.RoundTrip.{parse-dump}
use tool_debug.Json.Setters.{set-IsSolid, set_int-IsSolid, dump-IsLine}
use tool_debug.Wave.{ServerState}
use tool_debug.Wave.Dispatch.{stdio_loop, run_stdio_loop}
use tool_debug.Proxy.Pipe.{
  Poll, interrupted, nothing, byte, max_response, read_from, Remote, take_line, after_line,
  wait_ready, handle_diag,
}

-- The bytes that come, where poll and read give a byte or are interrupted.
abbrev pub arriving : List Poll → Bytes
arriving [] = []
arriving (interrupted ∷ polls) = arriving polls
arriving (nothing ∷ polls) = []
arriving (byte c ∷ polls) = c ∷ arriving polls

abbrev pub Flows : List Poll → Type 0
Flows [] = Unit
Flows (interrupted ∷ polls) = Flows polls
Flows (nothing ∷ polls) = ⊥
Flows (byte c ∷ polls) = Flows polls

abbrev pub lines : List Bytes → Bytes
lines [] = []
lines (line ∷ rest) = line ++ (b'\n' ∷ lines rest)

-- The line is read, and what is left brings what is behind it.
abbrev pub Reads : Bytes → Bytes → Bytes → List Poll → Type 0
Reads result line rest polls =
    (left : List Poll) × (read_from result polls ≡ ok (result ++ line, left))
    × (arriving left ≡ rest)
    × Flows left

head-eq : {c d : ℕ} {s t : Bytes} → c ∷ s ≡ d ∷ t → c ≡ d
head-eq e = ap (λ l. get_or l 0 0) e

pub read_from-line :
    (result line rest : Bytes) (polls : List Poll)
    → Flows polls
    → arriving polls ≡ line ++ (b'\n' ∷ rest)
    → IsLine line
    → length result + length line ≤ max_response
    → Reads result line rest polls
unfolding read_from
read_from-line result [] rest [] flows e h fits = absurd (cons-ne-nil _ _ (sym e))
read_from-line result (d ∷ line) rest [] flows e h fits = absurd (cons-ne-nil _ _ (sym e))
read_from-line result line rest (interrupted ∷ polls) flows e h fits =
    read_from-line result line rest polls flows e h fits
read_from-line result line rest (nothing ∷ polls) flows e h fits = absurd flows
read_from-line result [] rest (byte c ∷ polls) flows e h fits =
    let newline : (c == b'\n') ≡ true = (==_iff c b'\n').1 (head-eq e) in
    (polls, rw newline (ap (λ s. ok (s, polls)) (sym (append-nil result))), ap (drop 1) e, flows)
read_from-line result (d ∷ line) rest (byte c ∷ polls) flows e h fits =
    let same : c ≡ d = head-eq e in
    let no_newline : (c == b'\n') ≡ false = subst (λ x. (x == b'\n') ≡ false) (sym same) h.0 in
    let below : leb max_response (length result) ≡ false = ground arith in
    let (left, got, behind, more) =
      read_from-line (result ++ c ∷ []) line rest polls flows (ap (drop 1) e) h.1
        (omega (arith, length-append result (c ∷ []), fits)) in
    (
      left,
      rw no_newline (
          rw below (
            got
            ∙ ap (λ s. ok (s, left))
                (append_assoc result (c ∷ []) line ∙ ap (λ x. result ++ x ∷ line) same))),
      behind,
      more,
    )

abbrev pub ready_members : ServerState → List Member
ready_members g =
    (codes "type", text (codes "ready"))
    ∷ (codes "protocol", text (codes "vwave-stdio-loop"))
    ∷ (codes "version", int (pos 1))
    ∷ (codes "pid", int g.pid)
    ∷ (codes "backend", text g.session.backend)
    ∷ []

-- The first line of the worker.
unfoldable pub ready_line : ServerState → Bytes
unfolding build set_field
ready_line g = dump (build [] (ready_members g))

run_stdio_loop-cons :
    (g : ServerState) (requests : List Bytes)
    → run_stdio_loop g requests ≡ ready_line g ∷ stdio_loop g requests
unfolding run_stdio_loop ready_line build set_field
run_stdio_loop-cons g requests = refl

ready_members-IsGood : (g : ServerState) → IsInt32 g.pid → All IsGood (ready_members g)
ready_members-IsGood g h = (
  (cons-ne-nil _ _, tt),
  (
    (cons-ne-nil _ _, tt),
    (
      (cons-ne-nil _ _, omega arith),
      ((cons-ne-nil _ _, IsInt32-IsInt64 g.pid h), ((cons-ne-nil _ _, tt), tt)),
    ),
  ),
)

parsed-ready_line :
    (g : ServerState)
    → IsInt32 g.pid
    → parsed (ready_line g) ≡ (true, store_all no_maps (ready_members g))
unfolding ready_line
parsed-ready_line g h =
    parsed-eq _ _
      (ap parse (sym (append-nil _)) ∙ parse-dump (ready_members g) [] (ready_members-IsGood g h))

-- What the proxy makes of it.
take_line-ready :
    (g : ServerState) (r : Remote) (line : Bytes)
    → IsInt32 g.pid
    → take_line (codes "vwave-stdio-loop") r line (true, store_all no_maps (ready_members g))
      ≡ (true, record r { remote_pid = g.pid })
unfolding store_all find assign equal get_string get_int
take_line-ready g r line h =
    ap (λ (n : ℤ). (true, record r { remote_pid = n })) (to_int-eq_self g.pid h)

after_line-filled :
    (r : Remote) (line : Bytes)
    → is_empty line ≡ false
    → after_line (codes "vwave-stdio-loop") r line
      ≡ take_line (codes "vwave-stdio-loop") r line (parsed line)
after_line-filled r [] h = absurd (ground arith)
after_line-filled r (c ∷ line) h = refl

ready_line-filled : (g : ServerState) → is_empty (ready_line g) ≡ false
unfolding ready_line dump
ready_line-filled g = refl

after_line-ready_line :
    (g : ServerState) (r : Remote)
    → IsInt32 g.pid
    → after_line (codes "vwave-stdio-loop") r (ready_line g)
      ≡ (true, record r { remote_pid = g.pid })
after_line-ready_line g r h =
    after_line-filled r (ready_line g) (ready_line-filled g)
    ∙ ap (take_line (codes "vwave-stdio-loop") r (ready_line g)) (parsed-ready_line g h)
    ∙ take_line-ready g r (ready_line g) h

ready_line-IsLine : (g : ServerState) → IsLine (ready_line g)
unfolding ready_line build set_field
ready_line-IsLine g = dump-IsLine _ (
    set-IsSolid _ _ _ (
      set_int-IsSolid _ _ _ (
        set_int-IsSolid _ _ _
          (set-IsSolid _ _ _ (set-IsSolid [] (codes "type") (codes "ready") tt)))))

-- A line of diagnostics: not empty, not JSON and not too long.
abbrev pub IsDiag : Bytes → Type 0
IsDiag line =
    (is_empty line ≡ false) × IsLine line × ((parsed line).0 ≡ false) × (length line ≤ max_response)

-- The job id after lines of diagnostics.
abbrev pub job_after_lines : Bytes → List Bytes → Bytes
unfolding handle_diag
job_after_lines job_id [] = job_id
job_after_lines job_id (line ∷ rest) = job_after_lines (handle_diag job_id line) rest

after_line-diag :
    (r : Remote) (line : Bytes)
    → IsDiag line
    → after_line (codes "vwave-stdio-loop") r line
      ≡ (false, record r { job_id = handle_diag r.job_id line })
after_line-diag r line h = after_line-filled r line h.0 ∙ go (parsed line) h.2
  where
    go :
        (j : Bool × Maps)
        → j.0 ≡ false
        → take_line (codes "vwave-stdio-loop") r line j
          ≡ (false, record r { job_id = handle_diag r.job_id line })
    go (false, j) e = refl
    go (true, j) e = absurd (ground arith)

-- The clock gives that there is time, more often than there are lines before the worker is ready.
abbrev pub InTime : List Bytes → List Bool → Type 0
InTime lines clock = (length lines < length clock) × All (λ b. b ≡ true) clock

-- The proxy takes the worker for ready, with the worker's process id and the job id of the lines
-- before, where what comes through the pipe is lines of diagnostics and then the lines of the
-- worker's loop, the ready line is not too long, the id is an int and there is time enough.
pub wait_ready-run_stdio_loop :
    (g : ServerState) (requests diags : List Bytes) (clock : List Bool) (polls : List Poll)
    (r : Remote)
    → Flows polls
    → arriving polls ≡ lines (diags ++ run_stdio_loop g requests)
    → All IsDiag diags
    → IsInt32 g.pid
    → length (ready_line g) ≤ max_response
    → InTime diags clock
    → wait_ready clock polls r
      ≡ ok (record { job_id = job_after_lines r.job_id diags; remote_pid = g.pid })
unfolding wait_ready
wait_ready-run_stdio_loop g requests diags [] polls r flows e diag pid fits time =
    absurd (omega (arith, time.0))
wait_ready-run_stdio_loop g requests diags (false ∷ clock) polls r flows e diag pid fits time =
    absurd (ground (arith, time.1.0))
wait_ready-run_stdio_loop g requests [] (true ∷ clock) polls r flows e diag pid fits time =
    let (left, got, behind, more) =
      read_from-line [] (ready_line g) (lines (stdio_loop g requests)) polls flows
        (e ∙ ap lines (run_stdio_loop-cons g requests)) (ready_line-IsLine g)
        (omega (arith, fits)) in
    rw got (rw (after_line-ready_line g r pid) refl)
wait_ready-run_stdio_loop g requests (line ∷ diags) (true ∷ clock) polls r flows e diag pid fits
      time =
    let (left, got, behind, more) =
      read_from-line [] line (lines (diags ++ run_stdio_loop g requests)) polls flows e diag.0.1
        (omega (arith, diag.0.3)) in
    let r₁ : Remote = record r { job_id = handle_diag r.job_id line } in
    rw got (
      rw (after_line-diag r line diag.0) (
        wait_ready-run_stdio_loop g requests diags clock left r₁ more behind diag.1 pid fits
          (omega (arith, time.0), time.1.1)))
