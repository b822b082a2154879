-- ===== src/Json/Setters.antt =====
-- Each setter of JsonObject keeps an object whose values are balanced and have no raw newline, so
-- that its dump is a nested value of one line.
use tool_debug.Common.{
  ℕ, Bytes, List, [], ◌∷◌, refl, All, ℤ, pos, negsuc, suc, IsLine, IsLine-append, arith,
}
use tool_debug.Common.Decimal.{to_string, decimal, decimal-AllDigits, AllDigits}
use tool_debug.Json.Builder.{
  Entry, JsonObject, push_entry, set, set_int, set_raw, set_array, dump, quote, quote_byte,
  quote_body, quote_list, quote_rest, dump_list, dump_rest, dump_entry,
}
use tool_debug.Json.Nested.{Balanced, nil, plain, braces, Balanced-append, quote-Balanced}
use tool_debug.Json.Fields.{IsObjectText}
use tool_debug.Json.Objects.{
  HasBalanced, dump-IsObjectText, to_string-Balanced, quote_list-Balanced,
}

abbrev pub IsSolidText : Bytes → Type 0
IsSolidText v = Balanced v × IsLine v

abbrev pub IsSolid : JsonObject → Type 0
IsSolid o = All (λ e. IsSolidText e.value) o

quote_byte-IsLine : (c : ℕ) → IsLine (quote_byte c)
unfolding quote_byte
quote_byte-IsLine c = ground arith

quote_body-IsLine : (s : Bytes) → IsLine (quote_body s)
unfolding quote_body
quote_body-IsLine [] = tt
quote_body-IsLine (c ∷ s) =
    IsLine-append (quote_byte c) _ (quote_byte-IsLine c) (quote_body-IsLine s)

pub quote-IsLine : (s : Bytes) → IsLine (quote s)
unfolding quote
quote-IsLine s = (refl, IsLine-append (quote_body s) _ (quote_body-IsLine s) (refl, tt))

digits-IsLine : (ds : Bytes) → AllDigits ds → IsLine ds
digits-IsLine [] h = tt
digits-IsLine (d ∷ ds) h = (let digit = h.0 in ground arith, digits-IsLine ds h.1)

pub to_string-IsLine : (n : ℤ) → IsLine (to_string n)
unfolding to_string
to_string-IsLine (pos n) = digits-IsLine (decimal n) (decimal-AllDigits n)
to_string-IsLine (negsuc n) = (refl, digits-IsLine (decimal (suc n)) (decimal-AllDigits (suc n)))

quote_rest-IsLine : (ss : List Bytes) → IsLine (quote_rest ss)
unfolding quote_rest
quote_rest-IsLine [] = tt
quote_rest-IsLine (s ∷ ss) =
    (refl, IsLine-append (quote s) _ (quote-IsLine s) (quote_rest-IsLine ss))

quote_list-IsLine : (ss : List Bytes) → IsLine (quote_list ss)
unfolding quote_list
quote_list-IsLine [] = tt
quote_list-IsLine (s ∷ ss) = IsLine-append (quote s) _ (quote-IsLine s) (quote_rest-IsLine ss)

push_entry-IsSolid :
    (o : JsonObject) (k v : Bytes) → IsSolid o → IsSolidText v → IsSolid (push_entry o k v)
unfolding push_entry
push_entry-IsSolid [] k v h b = (b, tt)
push_entry-IsSolid (e ∷ o) k v h b = (h.0, push_entry-IsSolid o k v h.1 b)

pub set-IsSolid : (o : JsonObject) (k v : Bytes) → IsSolid o → IsSolid (set o k v)
unfolding set
set-IsSolid o k v h = push_entry-IsSolid o k _ h (quote-Balanced v, quote-IsLine v)

pub set_int-IsSolid : (o : JsonObject) (k : Bytes) (n : ℤ) → IsSolid o → IsSolid (set_int o k n)
unfolding set_int
set_int-IsSolid o k n h = push_entry-IsSolid o k _ h (to_string-Balanced n, to_string-IsLine n)

pub set_raw-IsSolid :
    (o : JsonObject) (k raw : Bytes) → IsSolid o → IsSolidText raw → IsSolid (set_raw o k raw)
unfolding set_raw
set_raw-IsSolid o k raw h b = push_entry-IsSolid o k raw h b

pub set_array-IsSolid :
    (o : JsonObject) (k : Bytes) (ss : List Bytes) → IsSolid o → IsSolid (set_array o k ss)
unfolding set_array
set_array-IsSolid o k ss h = push_entry-IsSolid o k _ h (
  plain refl (Balanced-append _ (quote_list-Balanced ss) (plain refl nil)),
  (refl, IsLine-append (quote_list ss) _ (quote_list-IsLine ss) (refl, tt)),
)

IsSolid-HasBalanced : (o : JsonObject) → IsSolid o → All HasBalanced o
IsSolid-HasBalanced [] h = tt
IsSolid-HasBalanced (e ∷ o) h = (h.0.0, IsSolid-HasBalanced o h.1)

dump_entry-IsLine : (e : Entry) → IsSolidText e.value → IsLine (dump_entry e)
unfolding dump_entry
dump_entry-IsLine e h = IsLine-append (quote e.key) _ (quote-IsLine e.key) (refl, h.1)

dump_rest-IsLine : (es : List Entry) → IsSolid es → IsLine (dump_rest es)
unfolding dump_rest
dump_rest-IsLine [] h = tt
dump_rest-IsLine (e ∷ es) h =
    (refl, IsLine-append (dump_entry e) _ (dump_entry-IsLine e h.0) (dump_rest-IsLine es h.1))

dump_list-IsLine : (es : List Entry) → IsSolid es → IsLine (dump_list es)
unfolding dump_list
dump_list-IsLine [] h = tt
dump_list-IsLine (e ∷ es) h =
    IsLine-append (dump_entry e) _ (dump_entry-IsLine e h.0) (dump_rest-IsLine es h.1)

pub dump-IsLine : (o : JsonObject) → IsSolid o → IsLine (dump o)
unfolding dump
dump-IsLine o h = (refl, IsLine-append (dump_list o) _ (dump_list-IsLine o h) (refl, tt))

pub dump-IsObject : (o : JsonObject) → IsSolid o → IsObjectText (dump o)
dump-IsObject o h = dump-IsObjectText o (IsSolid-HasBalanced o h)

pub dump-IsSolidText : (o : JsonObject) → IsSolid o → IsSolidText (dump o)
dump-IsSolidText o h =
    let whole = dump-IsObject o h in
    ((rw whole.braced (braces whole.balanced nil)), dump-IsLine o h)
