-- ===== src/Protocol.antt =====
-- src_common/protocol.h: the response envelopes of both servers, and the request envelope of
-- src_common/client.h, which are written as text and not through the builder.
pub mod Envelope
use tool_debug.Common.{Bytes, codes, [], ◌∷◌, ◌++◌, ℤ}
use tool_debug.Common.Decimal.{to_string}
use tool_debug.Json.Builder.{set, dump}

unfoldable pub make_ok_response : ℤ → Bytes → Bytes
make_ok_response id data_json =
    codes "{\"id\":"
    ++ (to_string id
        ++ (codes ",\"status\":\"ok\"" ++ (codes ",\"data\":" ++ (data_json ++ codes "}"))))

-- The object of a failure.
unfoldable pub error_object : Bytes → Bytes → Bytes
error_object code message = dump (set (set [] (codes "code") code) (codes "message") message)

unfoldable pub make_error_response : ℤ → Bytes → Bytes → Bytes
unfolding error_object
make_error_response id code message =
    codes "{\"id\":"
    ++ (to_string id
        ++ (codes ",\"status\":\"error\""
            ++ (codes ",\"error\":" ++ (error_object code message ++ codes "}"))))

unfoldable pub build_request : ℤ → Bytes → Bytes → Bytes
build_request id cmd params_json =
    codes "{\"id\":"
    ++ (to_string id
        ++ (codes ",\"cmd\":\""
            ++ (cmd ++ (codes "\"" ++ (codes ",\"params\":" ++ (params_json ++ codes "}"))))))
