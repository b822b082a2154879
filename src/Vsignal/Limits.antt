-- ===== src/Vsignal/Limits.antt =====
-- What the four handlers that list handles show of what the netlist library gives.
use tool_debug.Common.{
  ℕ, zero, suc, ◌≤◌, ◌<◌, Bytes, codes, List, [], ◌∷◌, map, ◌≡◌, refl, sym, ap, ◌∙◌, inl, inr, ℤ,
  pos, negsuc, ltb_ℤ, Bool, false, Option, length, take, is_empty, length-take, arith, true,
  Bool-cases,
}
use tool_debug.Json.Builder.{set, set_int, set_raw, dump}
use tool_debug.Json.Parser.{Maps, get_string, get_int, get_bool}
use tool_debug.Protocol.{make_ok_response}
use tool_debug.Vsignal.{
  NlObject, DesignServer, nl_handle_to_json, join_array, nl_hdl_vec_to_json, shown_count,
}
use tool_debug.Vsignal.Handlers.{
  listed_fields, list_response, int_param, scope_arg, handle_trace_driver, handle_trace_load,
  handle_fanin_reg, handle_fanout_reg,
}

-- The commands that list handles.
pub data ListCommand : Type 0 where
  drivers loads fanin fanout : ListCommand

abbrev pub list_handler : ListCommand → DesignServer → ℤ → Maps → Bytes
list_handler drivers = handle_trace_driver
list_handler loads = handle_trace_load
list_handler fanin = handle_fanin_reg
list_handler fanout = handle_fanout_reg

abbrev pub list_key : ListCommand → Bytes
list_key drivers = codes "drivers"
list_key loads = codes "loads"
list_key fanin = codes "fanin"
list_key fanout = codes "fanout"

abbrev pub signal_of : Maps → Bytes
signal_of params = get_string params (codes "signal") []

-- The call of the library that the command stands for.
abbrev pub list_call : ListCommand → DesignServer → Maps → ℤ × List (Option NlObject)
list_call drivers g params =
    g.netlist.trace_driver (signal_of params) (int_param params (codes "assign_cell"))
      (int_param params (codes "pass_mod"))
list_call loads g params =
    g.netlist.trace_load (signal_of params) (int_param params (codes "assign_cell"))
      (int_param params (codes "pass_mod"))
list_call fanin g params =
    g.netlist.fan_in_reg (signal_of params) (get_bool params (codes "stop_at_pin") false)
      (get_bool params (codes "report_primary_port") false)
      (scope_arg (get_string params (codes "scope") []))
list_call fanout g params =
    g.netlist.fan_out_reg (signal_of params) (get_bool params (codes "stop_at_pin") false)
      (get_bool params (codes "report_primary_port") false)
      (scope_arg (get_string params (codes "scope") []))

-- The response that lists `shown` of `total` handles.
abbrev pub shown_response : ℤ → Bytes → Bytes → Bool → ℕ → List (Option NlObject) → Bytes
shown_response id sig key compact total shown =
    let data₁ = set_int (set [] (codes "signal") sig) (codes "total") (pos total) in
    let data₂ = set_int data₁ (codes "returned") (pos (length shown)) in
    make_ok_response id
      (dump (set_raw data₂ key (join_array (map (nl_handle_to_json compact) shown))))

-- The first handles up to a positive limit; all of them if the limit is not positive.
abbrev pub cut : ℤ → List (Option NlObject) → List (Option NlObject)
cut (negsuc n) hdls = hdls
cut (pos zero) hdls = hdls
cut (pos (suc n)) hdls = take (suc n) hdls

take-length {ℓ} : {A : Type ℓ} (xs : List A) → take (length xs) xs ≡ xs
take-length [] = refl
take-length (x ∷ xs) = ap (◌∷◌ x) (take-length xs)

take-short {ℓ} : {A : Type ℓ} (n : ℕ) (xs : List A) → length xs ≤ n → take n xs ≡ xs
take-short zero [] h = refl
take-short zero (x ∷ xs) h = absurd (omega arith)
take-short (suc n) [] h = refl
take-short (suc n) (x ∷ xs) h = ap (◌∷◌ x) (take-short n xs (omega arith))

-- What the code takes is this front, and its count is the number of what it takes.
take-shown_count :
    (limit : ℤ) (hdls : List (Option NlObject))
    → (take (shown_count limit (length hdls)) hdls ≡ cut limit hdls)
      × (shown_count limit (length hdls) ≡ length (cut limit hdls))
take-shown_count (negsuc n) hdls = (take-length hdls, refl)
take-shown_count (pos zero) hdls = (take-length hdls, refl)
take-shown_count (pos (suc n)) hdls = elim (Bool-cases (ltb_ℤ (pos (suc n)) (pos (length hdls)))) [
  | inl below ↦ rw below (refl, sym (full below))
  | inr within ↦
      let all : take (suc n) hdls ≡ hdls = take-short (suc n) hdls (ground arith) in
      rw within (take-length hdls ∙ sym all, sym (ap length all))
]
  where
    full : ltb_ℤ (pos (suc n)) (pos (length hdls)) ≡ true → length (take (suc n) hdls) ≡ suc n
    full below =
        let less : suc n < length hdls = ground arith in omega (arith, length-take (suc n) hdls)

list_response-shown :
    (id : ℤ) (sig key failure : Bytes) (params : Maps) (r : ℤ × List (Option NlObject))
    → ltb_ℤ r.0 (pos 0) ≡ false
    → list_response id sig key failure params r
      ≡ shown_response id sig key
          (get_bool params (codes "compact") false)
          (length r.1)
          (cut (get_int params (codes "limit") (pos 0)) r.1)
unfolding listed_fields nl_hdl_vec_to_json
list_response-shown id sig key failure params (ret, hdls) ok =
    let limit = get_int params (codes "limit") (pos 0) in
    let (front, count) = take-shown_count limit hdls in rw ok (rw (front, count) refl)

-- Each of the four handlers that list handles lists the first of what the netlist library gives for
-- the request up to a positive limit of the request, and all of it if the limit is not positive,
-- with the number of those listed and the number of all, where the request names a signal and the
-- call succeeds.
pub list_handler-shown :
    (c : ListCommand) (g : DesignServer) (id : ℤ) (params : Maps)
    → is_empty (signal_of params) ≡ false
    → ltb_ℤ (list_call c g params).0 (pos 0) ≡ false
    → list_handler c g id params
      ≡ shown_response id
          (signal_of params)
          (list_key c)
          (get_bool params (codes "compact") false)
          (length (list_call c g params).1)
          (cut (get_int params (codes "limit") (pos 0)) (list_call c g params).1)
unfolding handle_trace_driver handle_trace_load handle_fanin_reg handle_fanout_reg
list_handler-shown drivers g id params named ok = rw named (
    list_response-shown id _ _ (codes "Failed to trace drivers for: ") params
      (list_call drivers g params) ok)
list_handler-shown loads g id params named ok = rw named (
    list_response-shown id _ _ (codes "Failed to trace loads for: ") params
      (list_call loads g params) ok)
list_handler-shown fanin g id params named ok = rw named (
    list_response-shown id _ _ (codes "Failed to trace fanin for: ") params
      (list_call fanin g params) ok)
list_handler-shown fanout g id params named ok = rw named (
    list_response-shown id _ _ (codes "Failed to trace fanout for: ") params
      (list_call fanout g params) ok)
