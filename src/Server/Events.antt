-- ===== src/Server/Events.antt =====
-- The accept loop: which requests it answers, with what, and when it ends.
use tool_debug.Common.{
  ◌+◌, ◌*◌, ◌≤◌, ◌<◌, Bytes, List, [], ◌∷◌, ◌++◌, ◌≡◌, ◌⊎◌, Bool, true, not, ◌||◌,
}
use tool_debug.Server.{
  Recv, read, read_line, Send, send_line, blocked, ServerConfig, Arrival, select_failed, client,
  Round, Loop, Status, going, stopped, idle, broken, stuck, Passed, max_line, nanoseconds,
}
use tool_debug.Server.Asked.{Asked, asked_at, asked_in, Waits}

module _ {S : Type 0} (dispatch : S → Bytes → S × Bytes × Bool) (cfg : ServerConfig) where
  -- The state after these requests, one after another, and what went out for each.
  abbrev pub answer_all : Loop S → List Asked → Loop S × List Bytes
  answer_all s [] = (s, [])
  answer_all s ((at, request, sends) ∷ rest) =
      let (server, response, running) = dispatch s.server request in
      let later =
        answer_all (record { running = running; last_activity = at; server = server }) rest in
      (later.0, (send_line response sends).0 ∷ later.1)

  -- The response to a client could not be sent to its end yet.
  abbrev pub Blocks : Loop S → Arrival → Type 0
  Blocks s a =
      (recvs : List Recv) × (sends : List Send) × (request : Bytes) × (a ≡ client recvs sends)
      × (read_line max_line recvs ≡ read request)
      × ((send_line (dispatch s.server request).1 sends).1 ≡ blocked)

  -- Why the loop in this state does not go on with these rounds: there are none; or in the next one
  -- it was told to stop, the timeout is over, select fails, or the read waits. Or else the last
  -- response is not out yet.
  abbrev pub Ends : Loop S → List Round → Loop S → Status → List Round → Type 0
  Ends s met t going left = left ≡ []
  Ends s met t stopped [] = ⊥
  Ends s met t stopped (r ∷ left) = (r.signalled || not t.running) ≡ true
  Ends s met t idle [] = ⊥
  Ends s met t idle (r ∷ left) =
      (0 < cfg.idle_timeout_sec) × (t.last_activity + cfg.idle_timeout_sec * nanoseconds ≤ r.now)
  Ends s met t broken [] = ⊥
  Ends s met t broken (r ∷ left) = r.arrival ≡ select_failed
  Ends s met t stuck left =
      ((r : Round) × (later : List Round) × (left ≡ r ∷ later) × Waits r.arrival)
      ⊎ ((before : List Round) × (r : Round) × (met ≡ before ++ r ∷ [])
          × Blocks (answer_all s (asked_in before)).0 r.arrival)

  -- What a round comes to.
  abbrev Steps : Round → Loop S → Passed S → Type 0
  Steps r s (s', going, outs) = answer_all s (asked_at r.after_read r.arrival) ≡ (s', outs)
  Steps r s (s', stopped, outs) =
      ((r.signalled || not s.running) ≡ true) × (s'.server ≡ s.server) × (outs ≡ [])
  Steps r s (s', idle, outs) =
      ((0 < cfg.idle_timeout_sec) × (s.last_activity + cfg.idle_timeout_sec * nanoseconds ≤ r.now))
      × (s'.server ≡ s.server)
      × (outs ≡ [])
  Steps r s (s', broken, outs) = (r.arrival ≡ select_failed) × (s'.server ≡ s.server) × (outs ≡ [])
  Steps r s (s', stuck, outs) =
      (Waits r.arrival × (s'.server ≡ s.server) × (outs ≡ []))
      ⊎ (Blocks s r.arrival × (answer_all s (asked_at r.after_read r.arrival) ≡ (s', outs)))

  -- The rounds that were met before the loop ended, and those that are left.
  abbrev pub Answers : List Round → Loop S → Passed S → Type 0
  Answers rounds s (s', status, outs) =
      (met : List Round) × (left : List Round) × (rounds ≡ met ++ left)
      × (outs ≡ (answer_all s (asked_in met)).1)
      × (s'.server ≡ (answer_all s (asked_in met)).0.server)
      × Ends s met (answer_all s (asked_in met)).0 status left
