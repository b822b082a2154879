-- ===== src/Json/Objects.antt =====
-- A dumped object is the text of an object, so that it can be a nested value of another one.
use tool_debug.Common.{suc, Bytes, List, [], ◌∷◌, refl, true, false, All, ℤ, pos, negsuc, map}
use tool_debug.Common.Decimal.{decimal, decimal-AllDigits, to_string}
use tool_debug.Json.Builder.{
  Entry, JsonObject, quote_rest, quote_list, dump_entry, dump_rest, dump_list, dump,
}
use tool_debug.Json.Nested.{
  Balanced, nil, plain, quoted, braces, Balanced-append, quote-Balanced, digits-Balanced,
}
use tool_debug.Json.Fields.{
  Field, text, int, flag, array, nested, Member, entry, build, build-map, value_text, IsGood,
  IsGoodField, IsObjectText,
}

abbrev pub HasBalanced : Entry → Type 0
HasBalanced e = Balanced e.value

dump_entry-Balanced : (e : Entry) → HasBalanced e → Balanced (dump_entry e)
unfolding dump_entry
dump_entry-Balanced e h = quoted e.key (plain refl h)

dump_rest-Balanced : (es : List Entry) → All HasBalanced es → Balanced (dump_rest es)
unfolding dump_rest
dump_rest-Balanced [] h = nil
dump_rest-Balanced (e ∷ es) h =
    plain refl (Balanced-append _ (dump_entry-Balanced e h.0) (dump_rest-Balanced es h.1))

dump_list-Balanced : (es : List Entry) → All HasBalanced es → Balanced (dump_list es)
unfolding dump_list
dump_list-Balanced [] h = nil
dump_list-Balanced (e ∷ es) h =
    Balanced-append _ (dump_entry-Balanced e h.0) (dump_rest-Balanced es h.1)

pub dump-IsObjectText : (o : JsonObject) → All HasBalanced o → IsObjectText (dump o)
unfolding dump
dump-IsObjectText o h = record {
  inner = dump_list o;
  braced = refl;
  balanced = dump_list-Balanced o h;
}

pub to_string-Balanced : (n : ℤ) → Balanced (to_string n)
unfolding to_string
to_string-Balanced (pos n) = digits-Balanced (decimal n) (decimal-AllDigits n)
to_string-Balanced (negsuc n) =
    plain refl (digits-Balanced (decimal (suc n)) (decimal-AllDigits (suc n)))

quote_rest-Balanced : (ss : List Bytes) → Balanced (quote_rest ss)
unfolding quote_rest
quote_rest-Balanced [] = nil
quote_rest-Balanced (s ∷ ss) = plain refl (quoted s (quote_rest-Balanced ss))

pub quote_list-Balanced : (ss : List Bytes) → Balanced (quote_list ss)
unfolding quote_list
quote_list-Balanced [] = nil
quote_list-Balanced (s ∷ ss) = quoted s (quote_rest-Balanced ss)

IsObjectText-Balanced : (raw : Bytes) → IsObjectText raw → Balanced raw
IsObjectText-Balanced raw h = rw h.braced (braces h.balanced nil)

value_text-Balanced : (fld : Field) → IsGoodField fld → Balanced (value_text fld)
unfolding value_text
value_text-Balanced (text v) h = quote-Balanced v
value_text-Balanced (int n) h = to_string-Balanced n
value_text-Balanced (flag true) h = plain refl (plain refl (plain refl (plain refl nil)))
value_text-Balanced (flag false) h =
    plain refl (plain refl (plain refl (plain refl (plain refl nil))))
value_text-Balanced (array ss) h =
    plain refl (Balanced-append _ (quote_list-Balanced ss) (plain refl nil))
value_text-Balanced (nested raw) h = IsObjectText-Balanced raw h

entries-HasBalanced : (ps : List Member) → All IsGood ps → All HasBalanced (map entry ps)
entries-HasBalanced [] h = tt
entries-HasBalanced (p ∷ ps) h = (value_text-Balanced p.1 h.0.1, entries-HasBalanced ps h.1)

pub build-IsObjectText : (ps : List Member) → All IsGood ps → IsObjectText (dump (build [] ps))
build-IsObjectText ps h = rw build-map (dump-IsObjectText (map entry ps) (entries-HasBalanced ps h))
