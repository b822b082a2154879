-- ===== src/Client/Request.antt =====
-- send_request of src_common/client.h, over what the system calls answer.
use tool_debug.Common.{
  ◌+◌, ◌≤◌, Bytes, List, [], ◌∷◌, ◌++◌, append_assoc, append-nil, length-append, Bool, true, false,
  not, ◌||◌, ◌≡◌, refl, ap, sym, ◌∙◌, if◌then◌else◌, ltb, ltb→lt, leb, length, arith, Bool-cases,
  inl, inr, IsLine,
}
use tool_debug.Server.{
  Recv, received, recv_end, recv_interrupted, recv_failed, Scan, complete, partial, scan, ReadEnd,
  read, waiting, Send, SendEnd, returned, blocked, send_line, max_line, sun_path_size, read_line,
}
use tool_debug.Server.Lines.{Delivers, arrived, scan-complete, scan-partial}
use tool_debug.Server.Transfer.{read_line-send_line, send_line-prefix}

-- What follows one recv: the whole line is returned, and the loop stops beyond the limit.
abbrev pub after_scan : Scan → (Bytes → ReadEnd) → ReadEnd
after_scan (complete whole) next = read whole
after_scan (partial response) next =
    if ltb max_line (length response) then read response else next response

-- The loop that reads the response.
unfoldable pub response_loop : Bytes → List Recv → ReadEnd
response_loop response [] = waiting response
response_loop response (recv_end ∷ rest) = read response
response_loop response (recv_failed ∷ rest) = read response
response_loop response (recv_interrupted ∷ rest) = response_loop response rest
response_loop response (received buf ∷ rest) =
    after_scan (scan response buf) (λ response'. response_loop response' rest)

-- What follows the send loop: a failure gives the empty text.
abbrev pub after_request : SendEnd → List Recv → ReadEnd
after_request (returned true) recvs = response_loop [] recvs
after_request (returned false) recvs = read []
after_request blocked recvs = waiting []

unfoldable pub send_request : Bool → Bool → Bytes → Bytes → List Send → List Recv → ReadEnd
unfolding response_loop
send_request created connected socket_path request sends recvs =
    if not created || leb sun_path_size (length socket_path)
    then read []
    else if not connected
    then read []
    else after_request (send_line request sends).1 recvs

response_loop-line :
    (response rest later : Bytes) (events : List Recv)
    → IsLine rest
    → Delivers events
    → arrived events ≡ rest ++ b'\n' ∷ later
    → length response + length rest ≤ max_line
    → response_loop response events ≡ read (response ++ rest)
unfolding response_loop
response_loop-line response [] later [] plain d e h = absurd cc
response_loop-line response (c ∷ rest) later [] plain d e h = absurd cc
response_loop-line response rest later (recv_interrupted ∷ events) plain d e h =
    response_loop-line response rest later events plain d e h
response_loop-line response rest later (recv_end ∷ events) plain d e h = absurd d
response_loop-line response rest later (recv_failed ∷ events) plain d e h = absurd d
response_loop-line response rest later (received buf ∷ events) plain d e h =
    elim (Bool-cases (ltb (length rest) (length buf))) [
      | inl ends ↦
          rw (scan-complete response buf rest later plain (ltb→lt _ _ ends) (arrived events) e) refl
      | inr goes ↦
          let (left, split_at, plain', scanned, e') =
            scan-partial response buf rest later plain (ground arith) (arrived events) e in
          let total = length-append buf left in
          let grown = length-append response buf in
          let same = ap length split_at in
          let room : ltb max_line (length (response ++ buf)) ≡ false = ground arith in
          rw (scanned, room)
            (response_loop-line (response ++ buf) left later events plain' d e' (omega arith)
              ∙ ap read (append_assoc response buf left ∙ ap (◌++◌ response) (sym split_at)))
    ]

-- A request of one line that was sent with success is the line that the server reads, and the line
-- that the server sent back with success is what `send_request` returns, however the bytes are
-- split and whatever else follows, where neither is longer than the limit of its reader.
pub send_request-read_line :
    (socket_path request response later later' : Bytes)
    → (up : List Send) (up_recvs : List Recv) (down : List Send) (down_recvs : List Recv)
    → length socket_path ≤ 107
    → IsLine request
    → IsLine response
    → length request ≤ max_line
    → length response ≤ max_line
    → (send_line request up).1 ≡ returned true
    → (send_line response down).1 ≡ returned true
    → Delivers up_recvs
    → Delivers down_recvs
    → arrived up_recvs ≡ (send_line request up).0 ++ later
    → arrived down_recvs ≡ (send_line response down).0 ++ later'
    → (read_line max_line up_recvs ≡ read request)
      × (send_request true true socket_path request up down_recvs ≡ read response)
unfolding send_request
send_request-read_line socket_path request response later later' up up_recvs down down_recvs fits
      line line' short short' sent_up sent_down delivers delivers' e e' =
    let (left, front, whole) = send_line-prefix response down in
    let out =
      sym (append-nil (send_line response down).0)
      ∙ ap (◌++◌ (send_line response down).0) (sym (whole.0 sent_down))
      ∙ front in
    let framed = e' ∙ ap (λ x. x ++ later') out ∙ append_assoc response (b'\n' ∷ []) later' in
    let roomy : leb sun_path_size (length socket_path) ≡ false = ground arith in
    (
      read_line-send_line max_line request later up up_recvs line short sent_up delivers e,
      rw (roomy, sent_up)
          (response_loop-line [] response later' down_recvs line' delivers' framed (omega arith)),
    )
