-- ===== src/Client/Printing.antt =====
-- What the user sees of the servers' envelopes.
use tool_debug.Common.{
  ◌∙◌, true, is_empty, append-nil, false, IsInt64, Bytes, codes, [], ◌∷◌, ◌++◌, ◌≡◌, refl, equal,
}
use tool_debug.Json.Fields.{IsObjectText, store_all}
use tool_debug.Json.Parser.{parsed, parsed-eq, no_maps, find, assign, get_string}
use tool_debug.Protocol.{make_ok_response, make_error_response, error_object}
use tool_debug.Protocol.Envelope.{
  failure_members, ok_members, parse-make_ok_response, parse-make_error_response,
  parse-error_object,
}
use tool_debug.Client.{print_parsed, Maps, stdout, ℤ, print_response, stderr, print_error}

print_error-error_object :
    (code message : Bytes)
    → print_error (error_object code message)
      ≡ stderr (codes "Error [" ++ (code ++ (codes "]: " ++ (message ++ b'\n' ∷ []))))
unfolding print_error
print_error-error_object code message =
    rw (parsed-eq _ _ (parse-error_object code message))
      (unfold store_all get_string find assign equal in refl)

print_response-print_parsed :
    (response : Bytes) (m : Maps)
    → is_empty response ≡ false
    → parsed response ≡ (true, m)
    → print_response response false ≡ print_parsed response m
unfolding print_response
print_response-print_parsed response m filled read = rw (filled, read)

print_parsed_failure :
    (response : Bytes) (id : ℤ) (code message : Bytes)
    → print_parsed response (store_all no_maps (failure_members id code message))
      ≡ print_error (error_object code message)
unfolding print_parsed store_all get_string find assign equal
print_parsed_failure response id code message = refl

print_parsed_success :
    (response : Bytes) (id : ℤ) (payload : Bytes)
    → IsObjectText payload
    → print_parsed response (store_all no_maps (ok_members id payload))
      ≡ stdout (payload ++ b'\n' ∷ [])
unfolding print_parsed store_all get_string find assign equal
print_parsed_success response id payload g = rw g.braced

-- In text mode the client prints a failure's code and message on stderr, whatever bytes they
-- hold: what the server escaped reaches the user as it was.
pub print_response-make_error_response :
    (id : ℤ) (code message : Bytes)
    → IsInt64 id
    → print_response (make_error_response id code message) false
      ≡ stderr (codes "Error [" ++ (code ++ (codes "]: " ++ (message ++ b'\n' ∷ []))))
print_response-make_error_response id code message h =
    let read = rw append-nil at (parse-make_error_response id code message [] h) in
    let filled : is_empty (make_error_response id code message) ≡ false =
      unfold make_error_response in refl in
    print_response-print_parsed (make_error_response id code message) _ filled (parsed-eq _ _ read)
    ∙ print_parsed_failure (make_error_response id code message) id code message
    ∙ print_error-error_object code message

-- In text mode the client prints a success's payload on stdout, byte for byte.
pub print_response-make_ok_response :
    (id : ℤ) (payload : Bytes)
    → IsInt64 id
    → IsObjectText payload
    → print_response (make_ok_response id payload) false ≡ stdout (payload ++ b'\n' ∷ [])
print_response-make_ok_response id payload h g =
    let read = rw append-nil at (parse-make_ok_response id payload [] h g) in
    let filled : is_empty (make_ok_response id payload) ≡ false = unfold make_ok_response in refl in
    print_response-print_parsed (make_ok_response id payload) _ filled (parsed-eq _ _ read)
    ∙ print_parsed_success (make_ok_response id payload) id payload g
