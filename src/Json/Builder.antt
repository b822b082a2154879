-- ===== src/Json/Builder.antt =====
-- src_common/json.h, class JsonObject: a list of keys with values that are already serialised.
use tool_debug.Common.{ℕ, Bytes, codes, List, [], ◌∷◌, ◌++◌, Bool, ℤ, if◌then◌else◌, ◌==◌}
use tool_debug.Common.Decimal.{to_string}

pub record Entry : Type 0 where
  pub key : Bytes
  pub value : Bytes

abbrev pub JsonObject : Type 0
JsonObject = List Entry

-- The body of the loop of `quote`, for one character.
unfoldable pub quote_byte : ℕ → Bytes
quote_byte c =
    if c == b'"'
    then b'\\' ∷ b'"' ∷ []
    else if c == b'\\'
    then b'\\' ∷ b'\\' ∷ []
    else if c == b'\n'
    then b'\\' ∷ b'n' ∷ []
    else if c == b'\t'
    then b'\\' ∷ b't' ∷ []
    else c ∷ []

unfoldable pub quote_body : Bytes → Bytes
quote_body [] = []
quote_body (c ∷ cs) = quote_byte c ++ quote_body cs

unfoldable pub quote : Bytes → Bytes
unfolding quote_byte quote_body
quote s = b'"' ∷ (quote_body s ++ b'"' ∷ [])

unfoldable pub push_entry : JsonObject → Bytes → Bytes → JsonObject
push_entry o k v = o ++ record { key = k; value = v } ∷ []

unfoldable pub set : JsonObject → Bytes → Bytes → JsonObject
unfolding push_entry
set o k val = push_entry o k (quote val)

unfoldable pub set_int : JsonObject → Bytes → ℤ → JsonObject
unfolding push_entry
set_int o k val = push_entry o k (to_string val)

unfoldable pub set_bool : JsonObject → Bytes → Bool → JsonObject
unfolding push_entry
set_bool o k val = push_entry o k (if val then codes "true" else codes "false")

unfoldable pub set_raw : JsonObject → Bytes → Bytes → JsonObject
unfolding push_entry
set_raw o k raw_json = push_entry o k raw_json

-- The elements behind the first, each with the comma before it.
unfoldable pub quote_rest : List Bytes → Bytes
quote_rest [] = []
quote_rest (s ∷ ss) = b',' ∷ (quote s ++ quote_rest ss)

unfoldable pub quote_list : List Bytes → Bytes
quote_list [] = []
quote_list (s ∷ ss) = quote s ++ quote_rest ss

unfoldable pub set_array : JsonObject → Bytes → List Bytes → JsonObject
unfolding push_entry quote quote_list quote_rest
set_array o k arr = push_entry o k (b'[' ∷ (quote_list arr ++ b']' ∷ []))

unfoldable pub dump_entry : Entry → Bytes
dump_entry e = quote e.key ++ (b':' ∷ e.value)

unfoldable pub dump_rest : List Entry → Bytes
dump_rest [] = []
dump_rest (e ∷ es) = b',' ∷ (dump_entry e ++ dump_rest es)

unfoldable pub dump_list : List Entry → Bytes
dump_list [] = []
dump_list (e ∷ es) = dump_entry e ++ dump_rest es

unfoldable pub dump : JsonObject → Bytes
unfolding quote dump_entry dump_rest dump_list
dump entries = b'{' ∷ (dump_list entries ++ b'}' ∷ [])
