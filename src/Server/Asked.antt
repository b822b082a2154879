-- ===== src/Server/Asked.antt =====
-- The requests that the clients of the accept loop send.
use tool_debug.Common.{ℕ, Bytes, List, [], ◌∷◌, ◌++◌, ◌≡◌}
use tool_debug.Server.{
  Recv, read, waiting, ReadEnd, read_line, Send, Arrival, select_interrupted, select_failed, nobody,
  accept_failed, client, Round, max_line,
}

-- A request that was read, with the clock then and what send gives for its response.
abbrev pub Asked : Type 0
Asked = ℕ × Bytes × List Send

-- The line that a client sent, unless it is empty.
abbrev pub asked_on : ℕ → List Send → ReadEnd → List Asked
asked_on at sends (waiting line) = []
asked_on at sends (read []) = []
asked_on at sends (read (c ∷ request)) = (at, c ∷ request, sends) ∷ []

abbrev pub asked_at : ℕ → Arrival → List Asked
asked_at at select_interrupted = []
asked_at at select_failed = []
asked_at at nobody = []
asked_at at accept_failed = []
asked_at at (client recvs sends) = asked_on at sends (read_line max_line recvs)

-- All the requests of some rounds.
abbrev pub asked_in : List Round → List Asked
asked_in [] = []
asked_in (r ∷ rounds) = asked_at r.after_read r.arrival ++ asked_in rounds

-- In the next round the read waits for more of the line.
abbrev pub Waits : Arrival → Type 0
Waits a =
    (recvs : List Recv) × (sends : List Send) × (line : Bytes) × (a ≡ client recvs sends)
    × (read_line max_line recvs ≡ waiting line)
