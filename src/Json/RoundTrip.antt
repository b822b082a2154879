-- ===== src/Json/RoundTrip.antt =====
-- What JsonObject dumps, JsonParser reads back.
use tool_debug.Common.{
  All, ℕ, zero, suc, ◌<◌, ◌≤◌, Bytes, List, [], ◌∷◌, ◌++◌, ◌≡◌, ◌≢◌, refl, ap, ◌∙◌, true, false,
  arith, length, length-append, append_assoc, if◌then◌else◌, map, is_empty,
}
use tool_debug.Json.Builder.{quote, dump_entry, dump_rest, dump_list, dump}
use tool_debug.Json.Parser.{
  parse_lem, done, Maps, no_maps, advance, at, skip_ws, object_loop, parse_object, parse,
}
use tool_debug.Json.Strings.{parse_string_val-quote}
use tool_debug.Json.Fields.{
  Field, Member, entry, build, build-map, store, store_all, value_text, IsGood, IsGoodField,
}
use tool_debug.Json.Values.{Stops, parse_value-value_text}

ne-nil→filled : (k : Bytes) → k ≢ [] → is_empty k ≡ false
ne-nil→filled [] h = absurd (h refl)
ne-nil→filled (c ∷ k) h = refl

-- One round of the loop, over a member and what stands behind it.
object_loop_member :
    (f : ℕ) (m : Maps) (k : Bytes) (fld : Field) (tail : Bytes)
    → k ≢ []
    → IsGoodField fld
    → Stops tail
    → object_loop (suc f) m (quote k ++ (b':' ∷ (value_text fld ++ tail))) ≡ (
        let s = skip_ws tail in
        if at b',' s
        then object_loop f (store m (k, fld)) (advance s)
        else done (at b'}' s, store m (k, fld)))
unfolding object_loop
object_loop_member f m k fld tail h g stop =
    let named = ne-nil→filled k h in
    let value = parse_value-value_text m k fld tail g stop in
    rw (parse_string_val-quote, named) (unfold skip_ws at in rw value)

regroup :
    (p : Member) (tail : Bytes)
    → dump_entry (entry p) ++ tail ≡ quote p.0 ++ (b':' ∷ (value_text p.1 ++ tail))
unfolding dump_entry
regroup p tail = append_assoc (quote p.0) (b':' ∷ value_text p.1) tail

object_loop-members :
    (p : Member) (ps : List Member) (f : ℕ) (m : Maps) (rest : Bytes)
    → All IsGood (p ∷ ps)
    → length ps < f
    → object_loop f m (dump_entry (entry p) ++ (dump_rest (map entry ps) ++ (b'}' ∷ rest)))
      ≡ done (true, store_all m (p ∷ ps))
unfolding dump_rest store_all skip_ws at
object_loop-members p ps zero m rest g h = absurd (omega arith)
object_loop-members p [] (suc f) m rest g h =
    ap (object_loop (suc f) m) (regroup p (b'}' ∷ rest))
    ∙ object_loop_member f m p.0 p.1 (b'}' ∷ rest) g.0.0 g.0.1 refl
object_loop-members p (q ∷ ps) (suc f) m rest g h =
    let tail = dump_entry (entry q) ++ (dump_rest (map entry ps) ++ (b'}' ∷ rest)) in
    ap (object_loop (suc f) m) (
      ap (λ t. dump_entry (entry p) ++ (b',' ∷ t))
        (append_assoc (dump_entry (entry q)) (dump_rest (map entry ps)) (b'}' ∷ rest))
      ∙ regroup p (b',' ∷ tail))
    ∙ object_loop_member f m p.0 p.1 (b',' ∷ tail) g.0.0 g.0.1 refl
    ∙ object_loop-members q ps f (store m p) rest g.1 (omega arith)

length-dump_rest : (ps : List Member) → length ps ≤ length (dump_rest (map entry ps))
unfolding dump_rest
length-dump_rest [] = omega arith
length-dump_rest (p ∷ ps) =
    omega
      (arith, length-dump_rest ps, length-append (dump_entry (entry p)) (dump_rest (map entry ps)))

parse_object_cons :
    (p : Member) (ps : List Member) (rest : Bytes)
    → All IsGood (p ∷ ps)
    → parse_object (b'{' ∷ (dump_entry (entry p) ++ (dump_rest (map entry ps) ++ (b'}' ∷ rest))))
      ≡ done (true, store_all no_maps (p ∷ ps))
unfolding parse_object
parse_object_cons p ps rest g =
    let body = dump_entry (entry p) ++ (dump_rest (map entry ps) ++ (b'}' ∷ rest)) in
    let enough : length ps < suc (length (b'{' ∷ body)) = omega (
      arith,
      length-dump_rest ps,
      length-append (dump_rest (map entry ps)) (b'}' ∷ rest),
      length-append (dump_entry (entry p)) (dump_rest (map entry ps) ++ (b'}' ∷ rest)),
    ) in
    let run = object_loop-members p ps (suc (length (b'{' ∷ body))) no_maps rest g enough in
    unfold skip_ws at dump_entry quote in run

dump_cons :
    (p : Member) (ps : List Member) (rest : Bytes)
    → dump (map entry (p ∷ ps)) ++ rest
      ≡ b'{' ∷ (dump_entry (entry p) ++ (dump_rest (map entry ps) ++ (b'}' ∷ rest)))
unfolding dump dump_list
dump_cons p ps rest =
    let first = dump_entry (entry p) in
    let others = dump_rest (map entry ps) in
    ap (◌∷◌ b'{')
      (append_assoc (first ++ others) (b'}' ∷ []) rest ∙ append_assoc first others (b'}' ∷ rest))

-- Whatever members are set on an object, in whatever order, parsing its dump accepts it and
-- remembers each member under its key, a later one in place of an earlier one of its kind; what
-- stands behind the dump makes no difference. The keys are not empty, the integers fit int64_t,
-- and a nested value is the text of an object.
pub parse-dump :
    (ps : List Member) (rest : Bytes)
    → All IsGood ps
    → parse (dump (build [] ps) ++ rest) ≡ done (true, store_all no_maps ps)
parse-dump [] rest g =
    rw (parse_lem, build-map) (unfold dump dump_list parse_object skip_ws at store_all in refl)
parse-dump (p ∷ ps) rest g =
    parse_lem _
    ∙ ap (λ o. parse_object (dump o ++ rest)) (build-map (p ∷ ps))
    ∙ ap parse_object (dump_cons p ps rest)
    ∙ parse_object_cons p ps rest g
