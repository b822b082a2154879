-- ===== src/Server/Transfer.antt =====
-- send_line against read_line: a line that was sent whole is read whole.
use tool_debug.Common.{
  IsLine, ℕ, zero, suc, ◌≤◌, Bytes, List, [], ◌∷◌, ◌++◌, append_assoc, append-nil, ◌≡◌, refl, ap,
  sym, ◌∙◌, ◌↔◌, true, length, drop, take,
}
use tool_debug.Server.{
  Recv, read, read_line, Send, sent, send_interrupted, send_failed, returned, send_loop, send_line,
}
use tool_debug.Server.Lines.{Delivers, arrived, read_line-line}

take-drop : (n : ℕ) (xs : Bytes) → take n xs ++ drop n xs ≡ xs
take-drop zero xs = refl
take-drop (suc n) [] = refl
take-drop (suc n) (x ∷ xs) = ap (◌∷◌ x) (take-drop n xs)

send_loop-prefix :
    (bytes : Bytes) (events : List Send)
    → (left : Bytes) × ((send_loop bytes events).0 ++ left ≡ bytes)
      × ((send_loop bytes events).1 ≡ returned true ↔ left ≡ [])
unfolding send_loop
send_loop-prefix [] events = ([], refl, (λ h. refl, λ h. refl))
send_loop-prefix (c ∷ bytes) [] = (c ∷ bytes, refl, (λ h. absurd cc, λ h. absurd cc))
send_loop-prefix (c ∷ bytes) (send_failed ∷ rest) =
    (c ∷ bytes, refl, (λ h. absurd cc, λ h. absurd cc))
send_loop-prefix (c ∷ bytes) (send_interrupted ∷ rest) = send_loop-prefix (c ∷ bytes) rest
send_loop-prefix (c ∷ bytes) (sent n ∷ rest) =
    let (left, e, whole) = send_loop-prefix (drop n (c ∷ bytes)) rest in
    (
      left,
      append_assoc (take n (c ∷ bytes)) (send_loop (drop n (c ∷ bytes)) rest).0 left
          ∙ ap (◌++◌ (take n (c ∷ bytes))) e
          ∙ take-drop n (c ∷ bytes),
      whole,
    )

-- What `send_line` puts on the wire is a front of the message and its newline, and it returns true
-- just when that is all of it, whatever send takes at a time.
pub send_line-prefix :
    (msg : Bytes) (events : List Send)
    → (left : Bytes) × ((send_line msg events).0 ++ left ≡ msg ++ b'\n' ∷ [])
      × ((send_line msg events).1 ≡ returned true ↔ left ≡ [])
unfolding send_line
send_line-prefix msg events = send_loop-prefix (msg ++ b'\n' ∷ []) events

-- A message of one line that `send_line` sent with success is what `read_line` gives at the other
-- end, however the bytes are split on both sides, where it is no longer than the limit.
pub read_line-send_line :
    (max_len : ℕ) (msg later : Bytes) (sends : List Send) (recvs : List Recv)
    → IsLine msg
    → length msg ≤ max_len
    → (send_line msg sends).1 ≡ returned true
    → Delivers recvs
    → arrived recvs ≡ (send_line msg sends).0 ++ later
    → read_line max_len recvs ≡ read msg
read_line-send_line max_len msg later sends recvs plain short success delivers e =
    let (left, front, whole) = send_line-prefix msg sends in
    let all = ap (◌++◌ (send_line msg sends).0) (sym (whole.0 success)) in
    let out = sym (append-nil (send_line msg sends).0) ∙ all ∙ front in
    read_line-line max_len msg later recvs plain delivers
      (e ∙ ap (λ x. x ++ later) out ∙ append_assoc msg (b'\n' ∷ []) later) short
