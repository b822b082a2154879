-- ===== src/Tests/Envelopes.antt =====
-- src_common/protocol.h, src_common/client.h and src_common/transport.h on concrete texts.
use tool_debug.Common.{Bytes, codes, [], ◌∷◌, ◌++◌, ◌≡◌, refl, pos, true, false, arith}
use tool_debug.Common.Decimal.{to_string}
use tool_debug.Common.Outcome.{ok}
use tool_debug.Json.Builder.{dump, quote, set}
use tool_debug.Json.Fields.{IsObjectText, store_all}
use tool_debug.Json.Nested.{nil, plain}
use tool_debug.Json.Parser.{done, parse, no_maps}
use tool_debug.Protocol.{make_ok_response, make_error_response, build_request}
use tool_debug.Protocol.Envelope.{request_members, parse-build_request}
use tool_debug.Client.{stdout, stderr, print_response, read_signal_file}
use tool_debug.Client.Printing.{print_response-make_ok_response, print_response-make_error_response}
use tool_debug.Transport.{hex_encode, hex_decode, invalid}
use tool_debug.Transport.RoundTrip.{hex_decode-hex_encode}

abbrev empty_object : Bytes
empty_object = codes "{1}"

empty_object-IsObjectText : IsObjectText empty_object
empty_object-IsObjectText = record { inner = codes "1"; braced = refl; balanced = plain refl nil }

error_text :
    make_error_response (pos 7) (codes "E") (codes "a\"b")
    ≡ codes "{\"id\":7,\"status\":\"error\",\"error\":{\"code\":\"E\",\"message\":\"a\\\"b\"}}"
unfolding make_error_response dump set to_string
error_text = refl

parse-build_request_example :
    parse (build_request (pos 1) (codes "status") empty_object ++ [])
    ≡ done (true, store_all no_maps (request_members (pos 1) (codes "status") empty_object))
parse-build_request_example =
    parse-build_request (pos 1) (codes "status") empty_object [] (omega arith)
      (unfold quote in refl) empty_object-IsObjectText

print_response-make_ok_response_example :
    print_response (make_ok_response (pos 1) empty_object) false ≡ stdout (codes "{1}\n")
print_response-make_ok_response_example =
    print_response-make_ok_response (pos 1) empty_object (omega arith) empty_object-IsObjectText

print_response-make_error_response_example :
    print_response (make_error_response (pos 7) (codes "E") (codes "a\"b")) false
    ≡ stderr (codes "Error [E]: a\"b\n")
print_response-make_error_response_example =
    print_response-make_error_response (pos 7) (codes "E") (codes "a\"b") (omega arith)

signal_list :
    read_signal_file (codes "  top.clk \r" ∷ codes "# no" ∷ [] ∷ codes "top.rst" ∷ [])
    ≡ codes "top.clk" ∷ codes "top.rst" ∷ []
unfolding read_signal_file
signal_list = refl

hex_text : hex_encode (codes "Az\n") ≡ codes "hex:417a0a"
unfolding hex_encode
hex_text = refl

hex_refused : hex_decode (codes "hex:4") ≡ invalid
unfolding hex_decode
hex_refused = refl

hex_decode-hex_encode_example : hex_decode (hex_encode (codes "{\"a\"}")) ≡ ok (codes "{\"a\"}")
hex_decode-hex_encode_example = hex_decode-hex_encode (codes "{\"a\"}") (omega arith)
