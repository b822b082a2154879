-- ===== src/Protocol/Envelope.antt =====
-- The envelopes are dumps of objects, and parse back to their parts.
use tool_debug.Common.{
  cons-ne-nil, All, Bytes, codes, [], ◌∷◌, ◌++◌, ℤ, ◌≡◌, refl, ap, sym, ◌∙◌, append_assoc,
  append-nil, IsInt64, true, List,
}
use tool_debug.Json.Builder.{quote_body, dump}
use tool_debug.Json.Fields.{
  Member, text, int, nested, build, value_text, build-map, IsGood, IsObjectText, store_all,
}
use tool_debug.Json.Parser.{parse, done, no_maps}
use tool_debug.Json.RoundTrip.{parse-dump}
use tool_debug.Json.Objects.{build-IsObjectText}
use tool_debug.Protocol.{make_ok_response, error_object, make_error_response, build_request}

abbrev pub ok_members : ℤ → Bytes → List Member
ok_members id payload =
    (codes "id", int id) ∷ (codes "status", text (codes "ok")) ∷ (codes "data", nested payload) ∷ []

abbrev pub error_members : Bytes → Bytes → List Member
error_members code message = (codes "code", text code) ∷ (codes "message", text message) ∷ []

make_ok_response-dump :
    (id : ℤ) (payload : Bytes)
    → make_ok_response id payload ≡ dump (build [] (ok_members id payload))
unfolding make_ok_response
make_ok_response-dump id payload = rw build-map (unfold dump value_text in simp append_assoc)

error_object-build :
    (code message : Bytes)
    → error_object code message ≡ dump (build [] (error_members code message))
unfolding error_object build
error_object-build code message = refl

error_members-IsGood : (code message : Bytes) → All IsGood (error_members code message)
error_members-IsGood code message = ((cons-ne-nil _ _, tt), ((cons-ne-nil _ _, tt), tt))

error_object-IsObjectText : (code message : Bytes) → IsObjectText (error_object code message)
error_object-IsObjectText code message =
    rw error_object-build
      (build-IsObjectText (error_members code message) (error_members-IsGood code message))

abbrev pub failure_members : ℤ → Bytes → Bytes → List Member
failure_members id code message =
    (codes "id", int id)
    ∷ (codes "status", text (codes "error"))
    ∷ (codes "error", nested (error_object code message))
    ∷ []

make_error_response-dump :
    (id : ℤ) (code message : Bytes)
    → make_error_response id code message ≡ dump (build [] (failure_members id code message))
unfolding make_error_response
make_error_response-dump id code message =
    rw build-map (unfold dump value_text in simp append_assoc)

-- The text of a request names the command without escaping it.
abbrev pub request_members : ℤ → Bytes → Bytes → List Member
request_members id cmd params =
    (codes "id", int id) ∷ (codes "cmd", text cmd) ∷ (codes "params", nested params) ∷ []

build_request-dump :
    (id : ℤ) (cmd params : Bytes)
    → quote_body cmd ≡ cmd
    → build_request id cmd params ≡ dump (build [] (request_members id cmd params))
unfolding build_request
build_request-dump id cmd params h = rw build-map (unfold dump value_text in simp (append_assoc, h))

-- A success response parses to its id, the status "ok" and the text of its payload.
pub parse-make_ok_response :
    (id : ℤ) (payload rest : Bytes)
    → IsInt64 id
    → IsObjectText payload
    → parse (make_ok_response id payload ++ rest)
      ≡ done (true, store_all no_maps (ok_members id payload))
parse-make_ok_response id payload rest h g =
    ap (λ t. parse (t ++ rest)) (make_ok_response-dump id payload)
    ∙ parse-dump (ok_members id payload) rest
        ((cons-ne-nil _ _, h), ((cons-ne-nil _ _, tt), ((cons-ne-nil _ _, g), tt)))

-- A failure response parses to its id, the status "error" and the text of the error object.
pub parse-make_error_response :
    (id : ℤ) (code message rest : Bytes)
    → IsInt64 id
    → parse (make_error_response id code message ++ rest)
      ≡ done (true, store_all no_maps (failure_members id code message))
parse-make_error_response id code message rest h =
    ap (λ t. parse (t ++ rest)) (make_error_response-dump id code message)
    ∙ parse-dump (failure_members id code message) rest (
      (cons-ne-nil _ _, h),
      ((cons-ne-nil _ _, tt), ((cons-ne-nil _ _, error_object-IsObjectText code message), tt)),
    )

-- The error object parses to the code and the message, whatever bytes they hold.
pub parse-error_object :
    (code message : Bytes)
    → parse (error_object code message)
      ≡ done (true, store_all no_maps (error_members code message))
parse-error_object code message =
    ap parse (error_object-build code message ∙ sym (append-nil _))
    ∙ parse-dump (error_members code message) [] (error_members-IsGood code message)

-- A request parses to its id, its command and the text of its parameters, where the command
-- needs no escape and the parameters are an object's text.
pub parse-build_request :
    (id : ℤ) (cmd params rest : Bytes)
    → IsInt64 id
    → quote_body cmd ≡ cmd
    → IsObjectText params
    → parse (build_request id cmd params ++ rest)
      ≡ done (true, store_all no_maps (request_members id cmd params))
parse-build_request id cmd params rest h plain g =
    ap (λ t. parse (t ++ rest)) (build_request-dump id cmd params plain)
    ∙ parse-dump (request_members id cmd params) rest
        ((cons-ne-nil _ _, h), ((cons-ne-nil _ _, tt), ((cons-ne-nil _ _, g), tt)))
