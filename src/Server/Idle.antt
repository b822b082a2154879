-- ===== src/Server/Idle.antt =====
-- The automatic shutdown of the accept loop.
use tool_debug.Common.{
  ℕ, ◌+◌, ◌*◌, ◌≤◌, ◌<◌, Bytes, List, [], ◌∷◌, ◌++◌, ◌≡◌, refl, ◌⊎◌, inl, inr, Bool, true, false,
  not, ◌||◌, All, Bool-cases, arith,
}
use tool_debug.Server.{
  read, read_line, ServerConfig, Arrival, select_interrupted, select_failed, nobody, accept_failed,
  client, Round, Loop, going, idle, max_line, nanoseconds, serve, arrive, is_idle, step, run_loop,
}

-- Nothing comes that is dispatched.
abbrev pub Quiet : Arrival → Type 0
Quiet select_interrupted = Unit
Quiet select_failed = ⊥
Quiet nobody = Unit
Quiet accept_failed = Unit
Quiet (client recvs sends) = read_line max_line recvs ≡ read []

abbrev pub IsQuiet : Round → Type 0
IsQuiet r = (r.signalled ≡ false) × Quiet r.arrival

module _ {S : Type 0} (dispatch : S → Bytes → S × Bytes × Bool) (cfg : ServerConfig) where
  arrive-Quiet :
      (at : ℕ) (a : Arrival) (s : Loop S) → Quiet a → arrive dispatch cfg at a s ≡ (s, going, [])
  unfolding arrive serve
  arrive-Quiet at select_interrupted s h = refl
  arrive-Quiet at select_failed s h = absurd h
  arrive-Quiet at nobody s h = refl
  arrive-Quiet at accept_failed s h = refl
  arrive-Quiet at (client recvs sends) s h = rw h refl

  is_idle-late :
      (now : ℕ) (s : Loop S)
      → 0 < cfg.idle_timeout_sec
      → s.last_activity + cfg.idle_timeout_sec * nanoseconds ≤ now
      → is_idle dispatch cfg now s ≡ true
  unfolding is_idle
  is_idle-late now s h k = ground arith

  pub late-is_idle :
      (now : ℕ) (s : Loop S)
      → is_idle dispatch cfg now s ≡ true
      → (0 < cfg.idle_timeout_sec) × (s.last_activity + cfg.idle_timeout_sec * nanoseconds ≤ now)
  unfolding is_idle
  late-is_idle now s h = ground arith

  -- A quiet round of a running loop changes nothing, and ends it if it is late.
  step-IsQuiet :
      (r : Round) (s : Loop S)
      → IsQuiet r
      → s.running ≡ true
      → (step dispatch cfg r s ≡ (s, going, [])) ⊎ (step dispatch cfg r s ≡ (s, idle, []))
  unfolding step
  step-IsQuiet r s (unsignalled, quiet) runs =
      let goes_on : (r.signalled || not s.running) ≡ false = ground arith in
      elim (Bool-cases (is_idle dispatch cfg r.now s)) [
        | inl late ↦ inr (rw (goes_on, late) refl)
        | inr early ↦ inl (rw (goes_on, early) (arrive-Quiet r.after_read r.arrival s quiet))
      ]

  step-late :
      (r : Round) (s : Loop S)
      → r.signalled ≡ false
      → s.running ≡ true
      → is_idle dispatch cfg r.now s ≡ true
      → step dispatch cfg r s ≡ (s, idle, [])
  unfolding step
  step-late r s unsignalled runs late =
      let goes_on : (r.signalled || not s.running) ≡ false = ground arith in rw (goes_on, late) refl

  -- The server shuts itself down, its state as it was, in a round that starts the timeout or more
  -- after the last request, or before, where no round until then brings a signal or a request.
  pub run_loop_idles :
      (quiet later : List Round) (r : Round) (s : Loop S)
      → All IsQuiet quiet
      → r.signalled ≡ false
      → s.running ≡ true
      → 0 < cfg.idle_timeout_sec
      → s.last_activity + cfg.idle_timeout_sec * nanoseconds ≤ r.now
      → run_loop dispatch cfg (quiet ++ r ∷ later) s ≡ (s, idle, [])
  unfolding run_loop
  run_loop_idles [] later r s all unsignalled runs on late =
      rw (step-late r s unsignalled runs (is_idle-late r.now s on late)) refl
  run_loop_idles (q ∷ quiet) later r s all unsignalled runs on late =
      elim (step-IsQuiet q s all.0 runs) [
        | inl goes ↦ rw goes (run_loop_idles quiet later r s all.1 unsignalled runs on late)
        | inr ends ↦ rw ends refl
      ]
