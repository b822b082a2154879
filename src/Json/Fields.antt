-- ===== src/Json/Fields.antt =====
-- Objects as the callers see them: a list of keys with typed values, the calls of the builder
-- that write it, and what the parser is to remember of it.
use tool_debug.Common.{
  Bytes, List, [], ◌∷◌, ◌++◌, ◌≡◌, ◌≢◌, refl, ap, ◌∙◌, Bool, ℤ, IsInt64, codes, append_assoc,
  append-nil, sym, if◌then◌else◌, map,
}
use tool_debug.Common.Decimal.{to_string}
use tool_debug.Json.Builder.{
  Entry, JsonObject, quote, quote_list, set, set_int, set_bool, set_raw, set_array,
}
use tool_debug.Json.Parser.{Maps, put_string, put_int, put_array}
use tool_debug.Json.Nested.{Balanced}

-- `nested` is the text of an object, which the callers make by a `dump`.
pub data Field : Type 0 where
  text : Bytes → Field
  int : ℤ → Field
  flag : Bool → Field
  array : List Bytes → Field
  nested : Bytes → Field

abbrev pub Member : Type 0
Member = Bytes × Field

-- The builder call for one member.
unfoldable pub set_field : JsonObject → Member → JsonObject
set_field o (k, text v) = set o k v
set_field o (k, int n) = set_int o k n
set_field o (k, flag b) = set_bool o k b
set_field o (k, array ss) = set_array o k ss
set_field o (k, nested raw) = set_raw o k raw

unfoldable pub build : JsonObject → List Member → JsonObject
unfolding set_field
build o [] = o
build o (p ∷ ps) = build (set_field o p) ps

-- What the parser files under the member's key.
unfoldable pub store : Maps → Member → Maps
store m (k, text v) = put_string k v m
store m (k, int n) = put_int k n m
store m (k, flag b) = put_string k (if b then codes "true" else codes "false") m
store m (k, array ss) = put_array k ss m
store m (k, nested raw) = put_string k raw m

unfoldable pub store_all : Maps → List Member → Maps
unfolding store
store_all m [] = m
store_all m (p ∷ ps) = store_all (store m p) ps

pub record IsObjectText (raw : Bytes) : Type 0 where
  pub inner : Bytes
  pub braced : raw ≡ b'{' ∷ (inner ++ b'}' ∷ [])
  pub balanced : Balanced inner

abbrev pub IsGoodField : Field → Type 0
IsGoodField (int n) = IsInt64 n
IsGoodField (nested raw) = IsObjectText raw
IsGoodField _ = Unit

-- The parser refuses an empty key, and saturates an integer beyond int64_t.
abbrev pub IsGood : Member → Type 0
IsGood p = (p.0 ≢ []) × IsGoodField p.1

unfoldable pub value_text : Field → Bytes
value_text (text v) = quote v
value_text (int n) = to_string n
value_text (flag b) = if b then codes "true" else codes "false"
value_text (array ss) = b'[' ∷ (quote_list ss ++ b']' ∷ [])
value_text (nested raw) = raw

abbrev pub entry : Member → Entry
entry p = record { key = p.0; value = value_text p.1 }

set_field-concat : (o : JsonObject) (p : Member) → set_field o p ≡ o ++ entry p ∷ []
unfolding set_field value_text set set_int set_bool set_raw set_array
set_field-concat o (k, text v) = refl
set_field-concat o (k, int n) = refl
set_field-concat o (k, flag b) = refl
set_field-concat o (k, array ss) = refl
set_field-concat o (k, nested raw) = refl

build-append : (o : JsonObject) (ps : List Member) → build o ps ≡ o ++ map entry ps
unfolding build
build-append o [] = sym (append-nil o)
build-append o (p ∷ ps) =
    build-append (set_field o p) ps
    ∙ ap (λ q. q ++ map entry ps) (set_field-concat o p)
    ∙ append_assoc o (entry p ∷ []) (map entry ps)

pub build-map : (ps : List Member) → build [] ps ≡ map entry ps
build-map ps = build-append [] ps
