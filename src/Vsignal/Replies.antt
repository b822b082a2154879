-- ===== src/Vsignal/Replies.antt =====
-- What the vsignal server writes as JSON is balanced and has no raw newline.
use tool_debug.Common.{
  take, Bytes, codes, List, [], ◌∷◌, ◌++◌, map, ◌≡◌, refl, subst, ℤ, pos, ltb_ℤ, Bool, false,
  Option, none, some, All, IsLine-append, length,
}
use tool_debug.Common.Run.{split}
use tool_debug.Json.Builder.{JsonObject, quote, quote_body}
use tool_debug.Json.Nested.{nil, plain, braces, Balanced-append, quote-Balanced}
use tool_debug.Json.Setters.{
  IsSolid, IsSolidText, set-IsSolid, set_int-IsSolid, set_raw-IsSolid, dump-IsSolidText,
  quote-IsLine,
}
use tool_debug.Vsignal.{
  NlObject, Hdl, Netlist, or_empty, set_positive, set_def_name, set_file, is_port, is_net, is_inst,
  nl_obj_type_str, nl_direction_str, handle_fields, nl_handle_to_json, join_behind, join_array,
  nl_hdl_vec_to_json, shown_count,
}
use tool_debug.Vsignal.Handlers.{
  listed_fields, path_fields, quoted_name, pair_object, pair_json, conn_fields,
}

-- The name is written as the builder would: nothing in it needs an escape.
abbrev pub IsPlain : Hdl → Type 0
IsPlain sig = quote_body (or_empty sig.hdl_full_name) ≡ or_empty sig.hdl_full_name

abbrev pub HasPlainNames : ℤ × List (Hdl × List Hdl) → Type 0
HasPlainNames (ret, pairs) = All (λ pair. All IsPlain pair.1) pairs

-- No signal that is connected to a port has a name with a quote, a backslash, a newline or a tab.
pub record PlainConnections (n : Netlist) : Type 0 where
  pub low : (inst : Bytes) → HasPlainNames (n.low_conn inst)
  pub high : (inst : Bytes) → HasPlainNames (n.high_conn inst)

set_positive-IsSolid :
    (obj : JsonObject) (key : Bytes) (n : ℤ) → IsSolid obj → IsSolid (set_positive obj key n)
set_positive-IsSolid obj key n h =
    split IsSolid (ltb_ℤ (pos 0) n) (λ _. set_int-IsSolid obj key n h) (λ _. h)

set_def_name-IsSolid :
    (obj : JsonObject) (o : Option Bytes) → IsSolid obj → IsSolid (set_def_name obj o)
set_def_name-IsSolid obj none h = h
set_def_name-IsSolid obj (some def_name) h = set-IsSolid obj _ def_name h

set_file-IsSolid : (obj : JsonObject) (o : Option Bytes) → IsSolid obj → IsSolid (set_file obj o)
set_file-IsSolid obj none h = h
set_file-IsSolid obj (some []) h = h
set_file-IsSolid obj (some (c ∷ file)) h = set-IsSolid obj _ (c ∷ file) h

handle_fields-IsSolid : (hdl : NlObject) (compact : Bool) → IsSolid (handle_fields hdl compact)
unfolding handle_fields
handle_fields-IsSolid hdl compact =
    let h₃ = set-IsSolid _ (codes "full_name") (or_empty hdl.full_name) (
      set-IsSolid _ (codes "name") (or_empty hdl.name)
        (set-IsSolid [] (codes "type") (nl_obj_type_str hdl.nl_type) tt)) in
    let inst =
      set_positive-IsSolid _ (codes "cell_type") hdl.cell_type
        (set_def_name-IsSolid _ hdl.def_name h₃) in
    let h₄ = split IsSolid (is_inst hdl.nl_type) (λ _. inst) (λ _. h₃) in
    let port =
      set_positive-IsSolid _ (codes "size") hdl.size
        (set-IsSolid _ (codes "direction") (nl_direction_str hdl.direction) h₄) in
    let h₅ = split IsSolid (is_port hdl.nl_type) (λ _. port) (λ _. h₄) in
    let net = set_positive-IsSolid _ (codes "size") hdl.size h₅ in
    let h₆ = split IsSolid (is_net hdl.nl_type) (λ _. net) (λ _. h₅) in
    let h₇ =
      set_positive-IsSolid _ (codes "line_begin") hdl.line_begin (set_file-IsSolid _ hdl.file h₆) in
    split IsSolid compact (λ _. set-IsSolid [] _ _ tt)
      (λ _. set_positive-IsSolid _ (codes "line_end") hdl.line_end h₇)

nl_handle_to_json-IsSolidText :
    (compact : Bool) (o : Option NlObject) → IsSolidText (nl_handle_to_json compact o)
unfolding nl_handle_to_json
nl_handle_to_json-IsSolidText compact none = (braces nil nil, (refl, (refl, tt)))
nl_handle_to_json-IsSolidText compact (some hdl) =
    dump-IsSolidText (handle_fields hdl compact) (handle_fields-IsSolid hdl compact)

join_behind-IsSolidText : (ss : List Bytes) → All IsSolidText ss → IsSolidText (join_behind ss)
unfolding join_behind
join_behind-IsSolidText [] h = (nil, tt)
join_behind-IsSolidText (s ∷ ss) h =
    let others = join_behind-IsSolidText ss h.1 in
    (plain refl (Balanced-append _ h.0.0 others.0), (refl, IsLine-append s _ h.0.1 others.1))

join_array-IsSolidText : (ss : List Bytes) → All IsSolidText ss → IsSolidText (join_array ss)
unfolding join_array
join_array-IsSolidText [] h = (plain refl (plain refl nil), (refl, (refl, tt)))
join_array-IsSolidText (s ∷ ss) h =
    let others = join_behind-IsSolidText ss h.1 in
    (
      plain refl (Balanced-append _ h.0.0 (Balanced-append _ others.0 (plain refl nil))),
      (refl, IsLine-append s _ h.0.1 (IsLine-append (join_behind ss) _ others.1 (refl, tt))),
    )

map-IsSolidText {ℓ κ} :
    {A : Type ℓ} (P : A → Type κ) (f : A → Bytes)
    → ((a : A) → P a → IsSolidText (f a))
    → (xs : List A) → All P xs
    → All IsSolidText (map f xs)
map-IsSolidText P f h [] all = tt
map-IsSolidText P f h (x ∷ xs) all = (h x all.0, map-IsSolidText P f h xs all.1)

quoted_name-IsSolidText : (sig : Hdl) → IsPlain sig → IsSolidText (quoted_name sig)
unfolding quote
quoted_name-IsSolidText sig h =
    let name = or_empty sig.hdl_full_name in
    subst (λ s. IsSolidText (b'"' ∷ (s ++ b'"' ∷ []))) h (quote-Balanced name, quote-IsLine name)

pair_json-IsSolidText : (pair : Hdl × List Hdl) → All IsPlain pair.1 → IsSolidText (pair_json pair)
unfolding pair_object
pair_json-IsSolidText (port_hdl, sigs) h = dump-IsSolidText (pair_object (port_hdl, sigs)) (
    set_raw-IsSolid _ _ _ (set-IsSolid [] _ _ tt) (
      join_array-IsSolidText _
        (map-IsSolidText IsPlain quoted_name quoted_name-IsSolidText sigs h)))

pub conn_fields-IsSolid :
    (inst level : Bytes) (pairs : List (Hdl × List Hdl))
    → All (λ pair. All IsPlain pair.1) pairs
    → IsSolid (conn_fields inst level pairs)
unfolding conn_fields
conn_fields-IsSolid inst level pairs h =
    set_raw-IsSolid _ _ _ (set_int-IsSolid _ _ _ (set-IsSolid _ _ _ (set-IsSolid [] _ _ tt))) (
      join_array-IsSolidText _
        (map-IsSolidText (λ pair. All IsPlain pair.1) pair_json pair_json-IsSolidText pairs h))

nl_hdl_vec_to_json-IsSolidText :
    (hdls : List (Option NlObject)) (compact : Bool) (limit : ℤ)
    → IsSolidText (nl_hdl_vec_to_json hdls compact limit)
unfolding nl_hdl_vec_to_json
nl_hdl_vec_to_json-IsSolidText hdls compact limit =
    join_array-IsSolidText _ (all_handles (take (shown_count limit (length hdls)) hdls))
  where
    all_handles :
        (shown : List (Option NlObject)) → All IsSolidText (map (nl_handle_to_json compact) shown)
    all_handles [] = tt
    all_handles (o ∷ shown) = (nl_handle_to_json-IsSolidText compact o, all_handles shown)

pub listed_fields-IsSolid :
    (sig key : Bytes) (hdls : List (Option NlObject)) (compact : Bool) (limit : ℤ)
    → IsSolid (listed_fields sig key hdls compact limit)
unfolding listed_fields
listed_fields-IsSolid sig key hdls compact limit =
    set_raw-IsSolid _ _ _ (set_int-IsSolid _ _ _ (set_int-IsSolid _ _ _ (set-IsSolid [] _ _ tt)))
      (nl_hdl_vec_to_json-IsSolidText hdls compact limit)

pub path_fields-IsSolid :
    (from_sig to_sig : Bytes) (hdls : List (Option NlObject))
    → IsSolid (path_fields from_sig to_sig hdls)
unfolding path_fields
path_fields-IsSolid from_sig to_sig hdls =
    set_raw-IsSolid _ _ _ (set_int-IsSolid _ _ _ (set-IsSolid _ _ _ (set-IsSolid [] _ _ tt)))
      (nl_hdl_vec_to_json-IsSolidText hdls false (pos 0))
