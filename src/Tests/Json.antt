-- ===== src/Tests/Json.antt =====
-- src_common/json.h on concrete texts.
use tool_debug.Common.{
  Bytes, codes, List, [], ◌∷◌, ◌++◌, ◌≡◌, refl, Bool, true, false, pos, negsuc, arith, cons-ne-nil,
}
use tool_debug.Common.Decimal.{to_string, strtoll, strtoll-to_string}
use tool_debug.Json.Builder.{dump, set, set_int, set_bool, set_raw, set_array}
use tool_debug.Json.Fields.{Member, text, int, flag, array, nested, build, set_field, store_all}
use tool_debug.Json.Fuel.{parse_total}
use tool_debug.Json.Nested.{nil, plain, braces}
use tool_debug.Json.Parser.{
  done, Maps, no_maps, parse, parse_object, object_loop, parse_value, parse_string_val, find,
  assign, has, get_string, get_int, get_bool, get_array,
}
use tool_debug.Json.RoundTrip.{parse-dump}

abbrev sample : List Member
sample =
    (codes "a", text (codes "x\n\"y\\"))
    ∷ (codes "n", int (negsuc 4))
    ∷ (codes "t", flag true)
    ∷ (codes "l", array (codes "p" ∷ codes "]" ∷ []))
    ∷ (codes "o", nested (codes "{{}1}"))
    ∷ (codes "a", text (codes "again"))
    ∷ []

abbrev sample_text : Bytes
sample_text =
    codes
      "{\"a\":\"x\\n\\\"y\\\\\",\"n\":-5,\"t\":true,\"l\":[\"p\",\"]\"],\"o\":{{}1},\"a\":\"again\"}"

dump-sample : dump (build [] sample) ≡ sample_text
unfolding dump build set_field set set_int set_bool set_raw set_array to_string
dump-sample = refl

abbrev sample_maps : Maps
sample_maps = store_all no_maps sample

parse-sample : parse sample_text ≡ done (true, sample_maps)
unfolding parse parse_object object_loop parse_value parse_string_val store_all assign strtoll
parse-sample = refl

parse-dump_example : parse (dump (build [] sample) ++ codes " tail") ≡ done (true, sample_maps)
parse-dump_example = parse-dump sample (codes " tail") (
  (cons-ne-nil _ _, tt),
  (
    (cons-ne-nil _ _, omega arith),
    (
      (cons-ne-nil _ _, tt),
      (
        (cons-ne-nil _ _, tt),
        (
          (
            cons-ne-nil _ _,
            record { inner = codes "{}1"; braced = refl; balanced = braces nil (plain refl nil) },
          ),
          ((cons-ne-nil _ _, tt), tt),
        ),
      ),
    ),
  ),
)

getters :
    (get_string sample_maps (codes "a") [] ≡ codes "again")
    × (get_int sample_maps (codes "n") (pos 0) ≡ negsuc 4)
    × (get_bool sample_maps (codes "t") false ≡ true)
    × (get_array sample_maps (codes "l") ≡ codes "p" ∷ codes "]" ∷ [])
    × (has sample_maps (codes "zz") ≡ false)
unfolding store_all get_string get_int get_bool get_array has find assign
getters = (refl, refl, refl, refl, refl)

-- A text that breaks off is refused with the maps as they stand.
parse_partial :
    parse (codes "{\"a\":\"x\",\"b\"")
    ≡ done (false, record no_maps { strings = (codes "a", codes "x") ∷ [] })
unfolding parse parse_object object_loop parse_value parse_string_val assign
parse_partial = refl

parse_total_example : (r : Bool × Maps) × (parse (codes "{\"a\":[1,2]") ≡ done r)
parse_total_example = parse_total (codes "{\"a\":[1,2]")

strtoll-to_string_example :
    strtoll (to_string (negsuc 9223372036854775807)) ≡ negsuc 9223372036854775807
strtoll-to_string_example = strtoll-to_string (negsuc 9223372036854775807) (omega arith)
