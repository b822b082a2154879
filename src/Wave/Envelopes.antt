-- ===== src/Wave/Envelopes.antt =====
-- Every response of the vwave dispatcher is an envelope that the client can print.
use tool_debug.Common.{
  IsLine-append, Bytes, codes, List, [], ◌∷◌, map, refl, ℤ, pos, negsuc, ltb_ℤ, not, ◌||◌, Bool,
  true, false, Option, none, some, All, is_empty,
}
use tool_debug.Common.Run.{split}
use tool_debug.Json.Builder.{dump, JsonObject}
use tool_debug.Json.Parser.{Maps, get_int, get_bool, get_array, get_string}
use tool_debug.Json.Nested.{nil, plain, Balanced-append}
use tool_debug.Json.Setters.{
  IsSolid, set-IsSolid, set_int-IsSolid, set_raw-IsSolid, set_array-IsSolid, dump-IsSolidText,
  IsSolidText,
}
use tool_debug.Session.{Session}
use tool_debug.Backend.{
  Result, ok, error, backend_error, exception, ◌>>=◌, Value, SignalInfo, WaveBackend,
}
use tool_debug.Backend.Walks.{scopes}
use tool_debug.Wave.{
  clamp, ServerState, set_truncated, add_source, describe_signal, require_signal, handle_status,
  handle_file_info, handle_list_scopes,
}
use tool_debug.Wave.Handlers.{
  value_found, requested, no_signals, join_rest, join_objects, list_signals, value_fields, value_of,
  values_of, change_fields, handle_list_signals, handle_signal_info, handle_get_value_at,
  handle_get_value_between,
}

abbrev pub Gives {ℓ κ} : {A : Type ℓ} → (A → Type κ) → Result A → Type κ
Gives P (ok a) = P a
Gives P (error e) = Unit

-- What an answer is made from is solid.
abbrev pub IsSolidResult : Result JsonObject → Type 0
IsSolidResult = Gives IsSolid

bind-Gives {ℓ κ μ ν} :
    {A : Type ℓ} {B : Type κ} (P : A → Type μ) (Q : B → Type ν) (m : Result A) (f : A → Result B)
    → Gives P m
    → ((a : A) → P a → Gives Q (f a))
    → Gives Q (m >>= f)
bind-Gives P Q (ok a) f h k = k a h
bind-Gives P Q (error e) f h k = tt

pub after {ℓ} :
    {A : Type ℓ} (m : Result A) (f : A → Result JsonObject)
    → ((a : A) → IsSolidResult (f a))
    → IsSolidResult (m >>= f)
after (ok a) f k = k a
after (error e) f k = tt

pub set_truncated-IsSolid : (b : Bool) (o : JsonObject) → IsSolid o → IsSolid (set_truncated b o)
set_truncated-IsSolid true o h = set_int-IsSolid o _ _ h
set_truncated-IsSolid false o h = h

add_source-IsSolid : (s : Session) (o : JsonObject) → IsSolid o → IsSolid (add_source s o)
unfolding add_source
add_source-IsSolid s o h = set-IsSolid _ _ _ (
    set-IsSolid _ _ _ (
      set-IsSolid _ _ _
        (set-IsSolid _ _ _ (set-IsSolid _ _ _ (set-IsSolid _ _ _ (set-IsSolid o _ _ h))))))

describe_signal-IsSolid : (s : SignalInfo) → IsSolid (describe_signal s)
unfolding describe_signal
describe_signal-IsSolid s =
    set-IsSolid _ _ _
      (set_int-IsSolid _ _ _ (set_int-IsSolid _ _ _ (set-IsSolid _ _ _ (set-IsSolid [] _ _ tt))))

join_rest-IsSolidText : (js : List JsonObject) → All IsSolid js → IsSolidText (join_rest js)
unfolding join_rest
join_rest-IsSolidText [] h = (nil, tt)
join_rest-IsSolidText (j ∷ js) h =
    let first = dump-IsSolidText j h.0 in
    let others = join_rest-IsSolidText js h.1 in
    (
      plain refl (Balanced-append _ first.0 others.0),
      (refl, IsLine-append (dump j) _ first.1 others.1),
    )

join_objects-IsSolidText : (js : List JsonObject) → All IsSolid js → IsSolidText (join_objects js)
unfolding join_objects
join_objects-IsSolidText [] h = (plain refl (plain refl nil), (refl, (refl, tt)))
join_objects-IsSolidText (j ∷ js) h =
    let first = dump-IsSolidText j h.0 in
    let others = join_rest-IsSolidText js h.1 in
    (
      plain refl (Balanced-append _ first.0 (Balanced-append _ others.0 (plain refl nil))),
      (refl, IsLine-append (dump j) _ first.1 (IsLine-append (join_rest js) _ others.1 (refl, tt))),
    )

All-map {ℓ} :
    {A : Type ℓ} (f : A → JsonObject)
    → ((a : A) → IsSolid (f a))
    → (xs : List A) → All IsSolid (map f xs)
All-map f h [] = tt
All-map f h (x ∷ xs) = (h x, All-map f h xs)

pub handle_status-IsSolid : (g : ServerState) → IsSolidResult (handle_status g)
unfolding handle_status
handle_status-IsSolid g =
    add_source-IsSolid g.session _
      (set_int-IsSolid _ _ _ (set_int-IsSolid _ _ _ (set-IsSolid [] _ _ tt)))

pub handle_file_info-IsSolid : (g : ServerState) → IsSolidResult (handle_file_info g)
unfolding handle_file_info
handle_file_info-IsSolid g = after g.backend.info _ (λ i. add_source-IsSolid g.session _ (
    set_int-IsSolid _ _ _ (
      set-IsSolid _ _ _ (
        set-IsSolid _ _ _
          (set_int-IsSolid _ _ _ (set_int-IsSolid _ _ _ (set-IsSolid [] _ _ tt)))))))

pub handle_list_scopes-IsSolid :
    (g : ServerState) (params : Maps) → IsSolidResult (handle_list_scopes g params)
unfolding handle_list_scopes
handle_list_scopes-IsSolid g params =
    let path = get_string params (codes "path") [] in
    let depth = clamp 10 (get_int params (codes "depth") (pos 1)) in
    after (scopes g.backend path depth) _ (λ found.
      set_truncated-IsSolid _ _
        (set_int-IsSolid _ _ _ (set_array-IsSolid _ _ _ (set-IsSolid [] _ _ tt))))

list_signals-IsSolid :
    (path : Bytes) (compact : Bool) (signals : List SignalInfo)
    → IsSolid (list_signals path compact signals)
unfolding list_signals
list_signals-IsSolid path true signals =
    set_int-IsSolid _ _ _ (set_array-IsSolid _ _ _ (set-IsSolid [] _ _ tt))
list_signals-IsSolid path false signals =
    set_raw-IsSolid _ _ _ (set-IsSolid [] _ _ tt)
      (join_objects-IsSolidText _ (All-map describe_signal describe_signal-IsSolid signals))

pub handle_list_signals-IsSolid :
    (g : ServerState) (params : Maps) → IsSolidResult (handle_list_signals g params)
unfolding handle_list_signals
handle_list_signals-IsSolid g params =
    let path = get_string params (codes "path") [] in
    let compact = get_bool params (codes "compact") false in
    split IsSolidResult (is_empty path) (λ _. tt)
      (λ _.
        split IsSolidResult (not (g.backend.has_scope path)) (λ _. tt)
          (λ _.
            after (g.backend.signals path) _
              (λ signals. list_signals-IsSolid path compact signals)))

pub handle_signal_info-IsSolid :
    (g : ServerState) (params : Maps) → IsSolidResult (handle_signal_info g params)
unfolding handle_signal_info
handle_signal_info-IsSolid g params =
    let path = get_string params (codes "signal") [] in
    split IsSolidResult (is_empty path) (λ _. tt)
      (λ _. after (require_signal g.backend path) _ (λ s. describe_signal-IsSolid s))

value_fields-IsSolid :
    (j : JsonObject) (time : ℤ) (r : Result Value)
    → IsSolid j
    → IsSolidResult (value_fields j time r)
value_fields-IsSolid j time (ok v) h = set_int-IsSolid _ _ _ (set-IsSolid j _ _ h)
value_fields-IsSolid j time (error (backend_error code message)) h =
    set_int-IsSolid _ _ _ (set-IsSolid _ _ _ (set-IsSolid _ _ _ (set-IsSolid j _ _ h)))
value_fields-IsSolid j time (error (exception message)) h = tt

value_of-IsSolid :
    (b : WaveBackend) (time : ℤ) (radix path : Bytes) → IsSolidResult (value_of b time radix path)
unfolding value_of
value_of-IsSolid b time radix path = after (b.signal path) _ (λ found. one found)
  where
    one : (found : Option SignalInfo) → IsSolidResult (value_found b time radix path found)
    one none = set-IsSolid _ _ _ (set-IsSolid [] _ _ tt)
    one (some s) = value_fields-IsSolid _ time (b.point path time radix) (set-IsSolid [] _ _ tt)

values_of-IsSolid :
    (b : WaveBackend) (time : ℤ) (radix : Bytes) (paths : List Bytes)
    → Gives (All IsSolid) (values_of b time radix paths)
unfolding values_of
values_of-IsSolid b time radix [] = tt
values_of-IsSolid b time radix (path ∷ paths) =
    bind-Gives IsSolid (All IsSolid) (value_of b time radix path) _
      (value_of-IsSolid b time radix path)
      (λ j h.
        bind-Gives (All IsSolid) (All IsSolid) (values_of b time radix paths) _
          (values_of-IsSolid b time radix paths) (λ js k. (h, k)))

pub handle_get_value_at-IsSolid :
    (g : ServerState) (params : Maps) → IsSolidResult (handle_get_value_at g params)
unfolding handle_get_value_at
handle_get_value_at-IsSolid g params =
    let time = get_int params (codes "time") (negsuc 0) in
    let signals =
      requested (get_array params (codes "signals")) (get_string params (codes "signal") []) in
    let radix = get_string params (codes "radix") (codes "bin") in
    split IsSolidResult (ltb_ℤ time (pos 0)) (λ _. tt)
      (λ _.
        split IsSolidResult (no_signals signals) (λ _. tt)
          (λ _.
            bind-Gives (All IsSolid) IsSolid (values_of g.backend time radix signals) _
              (values_of-IsSolid g.backend time radix signals)
              (λ js h.
                set_raw-IsSolid _ _ _ (set_int-IsSolid [] _ _ tt) (join_objects-IsSolidText js h))))

change_fields-IsSolid : (v : Value) → IsSolid (change_fields v)
unfolding change_fields
change_fields-IsSolid v = set-IsSolid _ _ _ (set_int-IsSolid [] _ _ tt)

pub handle_get_value_between-IsSolid :
    (g : ServerState) (params : Maps) → IsSolidResult (handle_get_value_between g params)
unfolding handle_get_value_between
handle_get_value_between-IsSolid g params =
    let signal = get_string params (codes "signal") [] in
    let begin = get_int params (codes "begin") (negsuc 0) in
    let end = get_int params (codes "end") (negsuc 0) in
    let limit = pos (clamp 100000 (get_int params (codes "limit") (pos 1000))) in
    let radix = get_string params (codes "radix") (codes "bin") in
    split IsSolidResult (is_empty signal) (λ _. tt)
      (λ _.
        split IsSolidResult (ltb_ℤ begin (pos 0) || ltb_ℤ end begin) (λ _. tt)
          (λ _. after (require_signal g.backend signal) _ (λ s.
            after (g.backend.range signal begin end radix limit) _ (λ r. set_truncated-IsSolid _ _ (
              set_raw-IsSolid _ _ _
                (set_int-IsSolid _ _ _
                  (set_int-IsSolid _ _ _ (set_int-IsSolid _ _ _ (set-IsSolid [] _ _ tt))))
                (join_objects-IsSolidText _
                  (All-map change_fields change_fields-IsSolid r.changes)))))))
