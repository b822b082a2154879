-- ===== src/Server/Lines.antt =====
-- read_line and send_line: what arrives, in whatever pieces, is the line that was sent.
use tool_debug.Common.{
  IsLine, ltb→lt, ℕ, ◌+◌, ◌≤◌, ◌<◌, Bytes, List, [], ◌∷◌, ◌++◌, append_assoc, append-nil,
  length-append, false, ◌≡◌, refl, ap, sym, ◌∙◌, inl, inr, ◌==◌, ==_iff, ltb, length, arith,
  Bool-cases,
}
use tool_debug.Server.{
  Recv, received, recv_end, recv_interrupted, recv_failed, complete, partial, scan, read, read_loop,
  read_line,
}

-- Deliveries and interruptions only.
abbrev pub Delivers : List Recv → Type 0
Delivers [] = Unit
Delivers (received buf ∷ rest) = Delivers rest
Delivers (recv_interrupted ∷ rest) = Delivers rest
Delivers (recv_end ∷ rest) = ⊥
Delivers (recv_failed ∷ rest) = ⊥

-- All the bytes that arrive.
abbrev pub arrived : List Recv → Bytes
arrived [] = []
arrived (received buf ∷ rest) = buf ++ arrived rest
arrived (recv_interrupted ∷ rest) = arrived rest
arrived (recv_end ∷ rest) = arrived rest
arrived (recv_failed ∷ rest) = arrived rest

-- A buffer that holds the rest of the line and more, or a part of it.
pub scan-complete :
    (line buf rest later : Bytes)
    → IsLine rest
    → length rest < length buf
    → (more : Bytes) → buf ++ more ≡ rest ++ b'\n' ∷ later
    → scan line buf ≡ complete (line ++ rest)
unfolding scan
scan-complete line [] rest later plain h more e = absurd (omega arith)
scan-complete line (c ∷ buf) [] later plain h more e =
    let same : c ≡ b'\n' = cc in rw ((==_iff c b'\n').1 same) (ap complete (sym (append-nil line)))
scan-complete line (c ∷ buf) (d ∷ rest) later plain h more e =
    let same : c ≡ d = cc in
    let other = ap (λ k. k == b'\n') same ∙ plain.0 in
    rw other (
      scan-complete (line ++ c ∷ []) buf rest later plain.1 (omega arith) more (cc)
      ∙ ap complete (append_assoc line (c ∷ []) rest ∙ ap (λ k. line ++ k ∷ rest) same))

pub scan-partial :
    (line buf rest later : Bytes)
    → IsLine rest
    → length buf ≤ length rest
    → (more : Bytes) → buf ++ more ≡ rest ++ b'\n' ∷ later
    → (left : Bytes) × (rest ≡ buf ++ left)
      × IsLine left
      × (scan line buf ≡ partial (line ++ buf))
      × (more ≡ left ++ b'\n' ∷ later)
unfolding scan
scan-partial line [] rest later plain h more e =
    (rest, refl, plain, ap partial (sym (append-nil line)), e)
scan-partial line (c ∷ buf) [] later plain h more e = absurd (omega arith)
scan-partial line (c ∷ buf) (d ∷ rest) later plain h more e =
    let same : c ≡ d = cc in
    let other = ap (λ k. k == b'\n') same ∙ plain.0 in
    let (left, e1, p1, s1, m1) =
      scan-partial (line ++ c ∷ []) buf rest later plain.1 (omega arith) more cc in
    (left, cc, p1, rw other (s1 ∙ ap partial (append_assoc line (c ∷ []) buf)), m1)

-- A line at the limit is read.
at_limit :
    (max : ℕ) (line rest : Bytes)
    → ltb (length line) max ≡ false
    → length line + length rest ≤ max
    → line ≡ line ++ rest
at_limit max line [] full h = sym (append-nil line)
at_limit max line (c ∷ rest) full h = absurd (ground arith)

-- Where the loop stands before it has met the newline.
read_loop-line :
    (max : ℕ) (line rest later : Bytes) (events : List Recv)
    → IsLine rest
    → Delivers events
    → arrived events ≡ rest ++ b'\n' ∷ later
    → length line + length rest ≤ max
    → read_loop max line events ≡ read (line ++ rest)
unfolding read_loop
read_loop-line max line rest later [] plain d e h = absurd (nonempty rest later e)
  where
    nonempty : (rest later : Bytes) → [] ≡ rest ++ b'\n' ∷ later → ⊥
    nonempty [] later e = cc
    nonempty (c ∷ rest) later e = cc
read_loop-line max line rest later (recv_interrupted ∷ events) plain d e h =
    elim (Bool-cases (ltb (length line) max)) [
      | inl room ↦ rw room (read_loop-line max line rest later events plain d e h)
      | inr full ↦ rw full (ap read (at_limit max line rest full h))
    ]
read_loop-line max line rest later (received buf ∷ events) plain d e h =
    elim (Bool-cases (ltb (length line) max)) [
      | inr full ↦ rw full (ap read (at_limit max line rest full h))
      | inl room ↦ elim (Bool-cases (ltb (length rest) (length buf))) [
        | inl ends ↦
            rw (room, scan-complete line buf rest later plain (ltb→lt _ _ ends) (arrived events) e)
              refl
        | inr goes ↦
            let (left, split_at, plain', scanned, e') =
              scan-partial line buf rest later plain (ground arith) (arrived events) e in
            let total = length-append buf left in
            let grown = length-append line buf in
            let same = ap length split_at in
            rw (room, scanned)
              (read_loop-line max (line ++ buf) left later events plain' d e' (omega arith)
                ∙ ap read (append_assoc line buf left ∙ ap (◌++◌ line) (sym split_at)))
      ]
    ]
read_loop-line max line rest later (recv_end ∷ events) plain d e h = absurd d
read_loop-line max line rest later (recv_failed ∷ events) plain d e h = absurd d

-- `read_line` gives the line before the first newline, in whatever pieces it arrives and however
-- often recv is interrupted, where the line is no longer than the limit.
pub read_line-line :
    (max_len : ℕ) (line later : Bytes) (events : List Recv)
    → IsLine line
    → Delivers events
    → arrived events ≡ line ++ b'\n' ∷ later
    → length line ≤ max_len
    → read_line max_len events ≡ read line
unfolding read_line
read_line-line max_len line later events plain d e h =
    read_loop-line max_len [] line later events plain d e (omega arith)
