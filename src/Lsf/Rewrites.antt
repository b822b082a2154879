-- ===== src/Lsf/Rewrites.antt =====
-- What the proxy changes in the responses of the worker.
use tool_debug.Common.{
  behind, suc, ℕ, Bytes, codes, List, [], ◌∷◌, ◌++◌, append_assoc, true, false, none, some, ◌≡◌,
  refl, ap, sym, ◌∙◌, inl, inr, ◌==◌, is_digit, ℤ, pos, negsuc, All, arith, Bool-cases,
  Option-cases,
}
use tool_debug.Common.Decimal.{to_string, decimal, decimal_cons, decimal-AllDigits, AllDigits}
use tool_debug.Lsf.{
  insert_fields, find, skip_digits, begins_with_digit, pid_key, replace_pid, data_key, set_filled,
  status_fields, drop_brace, erase_first, add_status_fields,
}
use tool_debug.Lsf.Find.{find-again, find-split, find-skip}
use tool_debug.Json.Builder.{Entry, set, push_entry, quote, dump, dump_entry, dump_rest, dump_list}
use tool_debug.Protocol.{make_ok_response}

pub skip_digits-append :
    (ds text : Bytes) → AllDigits ds → skip_digits (ds ++ text) ≡ skip_digits text
unfolding skip_digits
skip_digits-append [] text h = refl
skip_digits-append (d ∷ ds) text h = rw h.0 (skip_digits-append ds text h.1)

skip_digits-skip_digits : (text : Bytes) → skip_digits (skip_digits text) ≡ skip_digits text
unfolding skip_digits
skip_digits-skip_digits [] = refl
skip_digits-skip_digits (c ∷ text) = elim (Bool-cases (is_digit c)) [
  | inl digit ↦ rw digit (skip_digits-skip_digits text)
  | inr other ↦ rw (other, other) refl
]

pub decimal-begins : (n : ℕ) (text : Bytes) → begins_with_digit (decimal n ++ text) ≡ true
decimal-begins n text =
    let (c, cs, e, d) = decimal_cons n in ap (λ t. begins_with_digit (t ++ text)) e ∙ d

replace_pid-none :
    (response : Bytes) (pid : ℤ)
    → find pid_key response ≡ none
    → replace_pid response pid ≡ response
unfolding replace_pid
replace_pid-none response pid e = rw e refl

pub replace_pid-some :
    (response : Bytes) (pid : ℤ) (before after : Bytes)
    → find pid_key response ≡ some (before, after)
    → begins_with_digit after ≡ true
    → replace_pid response pid ≡ before ++ (pid_key ++ (to_string pid ++ skip_digits after))
unfolding replace_pid
replace_pid-some response pid before after e d = rw (e, d) refl

replace_pid_bare :
    (response : Bytes) (pid : ℤ) (before after : Bytes)
    → find pid_key response ≡ some (before, after)
    → begins_with_digit after ≡ false
    → replace_pid response pid ≡ response
unfolding replace_pid
replace_pid_bare response pid before after e d = rw (e, d) refl

pub to_string-pos : (n : ℕ) → to_string (pos n) ≡ decimal n
unfolding to_string
to_string-pos n = refl

-- A second replacement of the process id undoes the first, where the first id is not negative.
replace_pid_twice :
    (response : Bytes) (p : ℕ) (q : ℤ)
    → replace_pid (replace_pid response (pos p)) q ≡ replace_pid response q
replace_pid_twice response p q = elim (Option-cases (find pid_key response)) [
  | inl missing ↦ ap (λ r. replace_pid r q) (replace_pid-none response (pos p) missing)
  | inr ((before, after), found) ↦ elim (Bool-cases (begins_with_digit after)) [
    | inr other ↦
        ap (λ r. replace_pid r q) (replace_pid_bare response (pos p) before after found other)
    | inl digit ↦
        let ending = decimal p ++ skip_digits after in
        let whole = find-split b'"' (codes "pid\":") response before after found in
        let again =
          find-again b'"' (codes "pid\":") before after ending
            (ap (find pid_key) (sym whole) ∙ found) in
        let kept =
          skip_digits-append (decimal p) (skip_digits after) (decimal-AllDigits p)
          ∙ skip_digits-skip_digits after in
        ap (λ r. replace_pid r q)
          (replace_pid-some response (pos p) before after found digit
            ∙ ap (λ d. before ++ (pid_key ++ (d ++ skip_digits after))) (to_string-pos p))
        ∙ replace_pid-some (before ++ (pid_key ++ ending)) q before ending again
            (decimal-begins p (skip_digits after))
        ∙ ap (λ t. before ++ (pid_key ++ (to_string q ++ t))) kept
        ∙ sym (replace_pid-some response q before after found digit)
  ]
]

not_quoted : (ds : Bytes) → AllDigits ds → All (λ c. (b'"' == c) ≡ false) ds
not_quoted [] h = tt
not_quoted (d ∷ ds) h = (let digit = h.0 in ground arith, not_quoted ds h.1)

pub to_string-not_quoted : (i : ℤ) → All (λ c. (b'"' == c) ≡ false) (to_string i)
unfolding to_string
to_string-not_quoted (pos n) = not_quoted (decimal n) (decimal-AllDigits n)
to_string-not_quoted (negsuc n) = (refl, not_quoted (decimal (suc n)) (decimal-AllDigits (suc n)))

drop_brace-append : (text : Bytes) → drop_brace (text ++ b'}' ∷ []) ≡ text
unfolding drop_brace
drop_brace-append [] = refl
drop_brace-append (c ∷ []) = refl
drop_brace-append (c ∷ (d ∷ text)) = ap (◌∷◌ c) (drop_brace-append (d ∷ text))

dump_rest-append : (es fs : List Entry) → dump_rest (es ++ fs) ≡ dump_rest es ++ dump_rest fs
unfolding dump_rest
dump_rest-append [] fs = refl
dump_rest-append (e ∷ es) fs =
    ap (λ t. b',' ∷ (dump_entry e ++ t)) (dump_rest-append es fs)
    ∙ ap (◌∷◌ b',') (sym (append_assoc (dump_entry e) (dump_rest es) (dump_rest fs)))

-- The run mode is always there.
abbrev run_mode : Entry
run_mode = record { key = codes "run_mode"; value = quote (codes "lsf") }

status_fields-cons :
    (job_id job_name : Bytes)
    → (more : List Entry) × (status_fields job_id job_name ≡ run_mode ∷ more)
unfolding status_fields set_filled set push_entry
status_fields-cons [] [] = ([], refl)
status_fields-cons [] (c ∷ job_name) = (_, refl)
status_fields-cons (c ∷ job_id) [] = (_, refl)
status_fields-cons (c ∷ job_id) (d ∷ job_name) = (_, refl)

find-make_ok_response :
    (id : ℤ) (list : Bytes)
    → find data_key (make_ok_response id (b'{' ∷ list))
      ≡ some (codes "{\"id\":" ++ (to_string id ++ codes ",\"status\":\"ok\","), list ++ b'}' ∷ [])
unfolding find behind make_ok_response
find-make_ok_response id list =
    let tail =
      find-skip b'"' (codes "data\":{") (to_string id)
        (codes ",\"status\":\"ok\"" ++ (codes ",\"data\":" ++ ((b'{' ∷ list) ++ b'}' ∷ [])))
        (codes ",\"status\":\"ok\",") (list ++ b'}' ∷ []) (to_string-not_quoted id) refl in
    rw tail refl

dump_list-join :
    (e : Entry) (es : List Entry) (f : Entry) (fs : List Entry)
    → dump_list (e ∷ (es ++ f ∷ fs)) ≡ dump_list (e ∷ es) ++ b',' ∷ dump_list (f ∷ fs)
unfolding dump_list dump_rest
dump_list-join e es f fs =
    ap (◌++◌ (dump_entry e)) (dump_rest-append es (f ∷ fs))
    ∙ sym (append_assoc (dump_entry e) (dump_rest es) (b',' ∷ (dump_entry f ++ dump_rest fs)))

prefix-dump_list : (es : List Entry) → drop_brace (erase_first (dump es)) ≡ dump_list es
unfolding dump
prefix-dump_list es = drop_brace-append (dump_list es)

-- Fields in front of others, in the text of a response.
insert-dump :
    (id : ℤ) (front : Entry) (more : List Entry) (e : Entry) (data_fields : List Entry)
    → insert_fields
        (make_ok_response id (dump (e ∷ data_fields)))
        (dump_list (front ∷ more))
        (find data_key (make_ok_response id (dump (e ∷ data_fields))))
      ≡ make_ok_response id (dump (front ∷ (more ++ e ∷ data_fields)))
unfolding dump make_ok_response
insert-dump id front more e data_fields =
    let close = b'}' ∷ [] in
    let first = dump_list (front ∷ more) in
    let second = dump_list (e ∷ data_fields) in
    let response = make_ok_response id (dump (e ∷ data_fields)) in
    let joined =
      ap (λ l. (l ++ close) ++ close) (dump_list-join front more e data_fields)
      ∙ ap (λ l. l ++ close) (append_assoc first (b',' ∷ second) close)
      ∙ append_assoc first (b',' ∷ (second ++ close)) close in
    ap (insert_fields response first) (find-make_ok_response id (second ++ close))
    ∙ ap (◌++◌ (codes "{\"id\":")) (
        append_assoc (to_string id) (codes ",\"status\":\"ok\",")
          (data_key ++ (first ++ b',' ∷ ((second ++ close) ++ close)))
        ∙ ap (λ l. to_string id ++ (codes ",\"status\":\"ok\",\"data\":{" ++ l)) (sym joined))

-- The proxy puts its fields in front of the data of a success response: what it returns is the
-- response to the data with the fields added, where the data has a field of its own.
pub add_status_fields-make_ok_response :
    (id : ℤ) (e : Entry) (data_fields : List Entry) (job_id job_name : Bytes)
    → add_status_fields (make_ok_response id (dump (e ∷ data_fields))) job_id job_name
      ≡ make_ok_response id (dump (status_fields job_id job_name ++ e ∷ data_fields))
unfolding add_status_fields
add_status_fields-make_ok_response id e data_fields job_id job_name =
    let (more, shape) = status_fields-cons job_id job_name in
    let fields = status_fields job_id job_name in
    let response = make_ok_response id (dump (e ∷ data_fields)) in
    let prefix = prefix-dump_list fields ∙ ap dump_list shape in
    ap (λ p. insert_fields response p (find data_key response)) prefix
    ∙ insert-dump id run_mode more e data_fields
    ∙ ap (λ f. make_ok_response id (dump (f ++ e ∷ data_fields))) (sym shape)
