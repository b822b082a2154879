-- ===== src/Wave/Framing.antt =====
-- The vwave dispatcher behind the line protocol.
use tool_debug.Common.{
  Bool, not, ◌&&◌, ◌==◌, arith, List, ℕ, Bytes, codes, [], ◌∷◌, ◌++◌, ◌≡◌, refl, sym, subst, ◌≤◌,
  inl, inr, ℤ, true, length, IsLine, IsLine-append,
}
use tool_debug.Common.Decimal.{to_string}
use tool_debug.Json.Setters.{dump-IsLine, set-IsSolid, to_string-IsLine}
use tool_debug.Protocol.{make_ok_response, make_error_response, error_object}
use tool_debug.Server.{Recv, read, read_line, Send, send_line, returned}
use tool_debug.Server.Lines.{Delivers, arrived}
use tool_debug.Server.Transfer.{read_line-send_line}
use tool_debug.Wave.{ServerState}
use tool_debug.Wave.Dispatch.{dispatch_request}
use tool_debug.Wave.Answers.{IsAnswer, dispatch_request-IsAnswer}

has_no_newline : Bytes → Bool
has_no_newline [] = true
has_no_newline (c ∷ s) = not (c == b'\n') && has_no_newline s

checked : (s : Bytes) → has_no_newline s ≡ true → IsLine s
unfolding has_no_newline
checked [] h = tt
checked (c ∷ s) h = (ground arith, checked s (ground arith))

make_ok_response-IsLine :
    (id : ℤ) (payload : Bytes) → IsLine payload → IsLine (make_ok_response id payload)
unfolding make_ok_response has_no_newline
make_ok_response-IsLine id payload h =
    IsLine-append (codes "{\"id\":") _ (checked (codes "{\"id\":") refl) (
      IsLine-append (to_string id) _ (to_string-IsLine id) (
        IsLine-append (codes ",\"status\":\"ok\",\"data\":") _
          (checked (codes ",\"status\":\"ok\",\"data\":") refl)
          (IsLine-append payload _ h (refl, tt))))

error_object-IsLine : (code message : Bytes) → IsLine (error_object code message)
unfolding error_object
error_object-IsLine code message =
    dump-IsLine _ (set-IsSolid _ (codes "message") message (set-IsSolid [] (codes "code") code tt))

make_error_response-IsLine :
    (id : ℤ) (code message : Bytes) → IsLine (make_error_response id code message)
unfolding make_error_response has_no_newline
make_error_response-IsLine id code message =
    IsLine-append (codes "{\"id\":") _ (checked (codes "{\"id\":") refl) (
      IsLine-append (to_string id) _ (to_string-IsLine id) (
        IsLine-append (codes ",\"status\":\"error\",\"error\":") _
          (checked (codes ",\"status\":\"error\",\"error\":") refl)
          (IsLine-append (error_object code message) _ (error_object-IsLine code message)
            (refl, tt))))

pub IsAnswer-IsLine : (id : ℤ) (response : Bytes) → IsAnswer id response → IsLine response
IsAnswer-IsLine id response (inl (payload, object, line, e)) =
    subst IsLine (sym e) (make_ok_response-IsLine id payload line)
IsAnswer-IsLine id response (inr (code, message, e)) =
    subst IsLine (sym e) (make_error_response-IsLine id code message)

-- The response to any request, sent with success by the server in whatever portions, is the line
-- that read_line gives at the other end, however the bytes arrive, where it is no longer than the
-- limit.
pub read_line-dispatch_request :
    (g : ServerState) (request : Bytes) (max_len : ℕ) (later : Bytes) (sends : List Send)
    (recvs : List Recv)
    → length (dispatch_request g request).0 ≤ max_len
    → (send_line (dispatch_request g request).0 sends).1 ≡ returned true
    → Delivers recvs
    → arrived recvs ≡ (send_line (dispatch_request g request).0 sends).0 ++ later
    → read_line max_len recvs ≡ read (dispatch_request g request).0
read_line-dispatch_request g request max_len later sends recvs =
    read_line-send_line max_len (dispatch_request g request).0 later sends recvs
      (IsAnswer-IsLine _ _ (dispatch_request-IsAnswer g request))
