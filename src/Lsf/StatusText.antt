-- ===== src/Lsf/StatusText.antt =====
-- The response to a status request as replace_pid finds it.
use tool_debug.Common.{
  behind, ℕ, Bytes, codes, List, [], ◌∷◌, ◌++◌, append_assoc, ◌≡◌, refl, ap, sym, ◌∙◌, true, none,
  some, ℤ, pos,
}
use tool_debug.Common.Decimal.{to_string, decimal, decimal-AllDigits}
use tool_debug.Lsf.{find, pid_key, replace_pid, skip_digits, begins_with_digit}
use tool_debug.Lsf.Find.{find-skip, find-split}
use tool_debug.Lsf.Rewrites.{
  to_string-not_quoted, skip_digits-append, replace_pid-some, decimal-begins, to_string-pos,
}
use tool_debug.Json.Builder.{Entry, quote_body, quote, dump, dump_rest, dump_list}
use tool_debug.Protocol.{make_ok_response}
use tool_debug.Lsf.Quoted.{behind-quote_body, pid-IsLetters, find-quote_body}

-- The text of a status response, from its parts, to the field of the process id.
abbrev from_uptime : ℤ → Bytes → Bytes
from_uptime uptime end = codes "\",\"uptime_seconds\":" ++ (to_string uptime ++ end)

-- Which server answers.
pub data Source : Type 0 where
  wave design : Source

abbrev pub source_key : Source → Bytes
source_key wave = codes "fsdb_file"
source_key design = codes "design_source"

abbrev from_status : Source → Bytes → ℤ → Bytes → Bytes
from_status source path uptime end =
    codes ",\"status\":\"ok\",\"data\":{\""
    ++ (source_key source ++ (codes "\":\"" ++ (quote_body path ++ from_uptime uptime end)))

abbrev status_text : ℤ → Source → Bytes → ℤ → Bytes → Bytes
status_text id source path uptime end =
    codes "{\"id\":" ++ (to_string id ++ from_status source path uptime end)

abbrev pid_field : Bytes → Bytes
pid_field end = b',' ∷ (pid_key ++ end)

find-from_uptime :
    (uptime : ℤ) (after : Bytes)
    → find pid_key (from_uptime uptime (pid_field after))
      ≡ some (from_uptime uptime (b',' ∷ []), after)
unfolding find behind
find-from_uptime uptime after =
    let seconds =
      find-skip b'"' (codes "pid\":") (to_string uptime) (pid_field after) (b',' ∷ []) after
        (to_string-not_quoted uptime) refl in
    rw seconds refl

opened :
    (path : Bytes) (uptime : ℤ) (after : Bytes)
    → behind (codes "pid\":") (quote_body path ++ from_uptime uptime (pid_field after)) ≡ none
opened path uptime after =
    behind-quote_body (codes "pid") path
      (codes "\"uptime_seconds\":" ++ (to_string uptime ++ pid_field after)) pid-IsLetters

value :
    (path : Bytes) (uptime : ℤ) (after : Bytes)
    → find pid_key (quote_body path ++ from_uptime uptime (pid_field after))
      ≡ some (quote_body path ++ from_uptime uptime (b',' ∷ []), after)
value path uptime after =
    find-quote_body path (codes "\"uptime_seconds\":" ++ (to_string uptime ++ pid_field after))
      (from_uptime uptime (b',' ∷ [])) after (find-from_uptime uptime after)

find-from_status :
    (source : Source) (path : Bytes) (uptime : ℤ) (after : Bytes)
    → find pid_key (from_status source path uptime (pid_field after))
      ≡ some (from_status source path uptime (b',' ∷ []), after)
unfolding find behind
find-from_status wave path uptime after =
    rw (opened path uptime after, value path uptime after) refl
find-from_status design path uptime after =
    rw (opened path uptime after, value path uptime after) refl

find-status_text :
    (id : ℤ) (source : Source) (path : Bytes) (uptime : ℤ) (after : Bytes)
    → find pid_key (status_text id source path uptime (pid_field after))
      ≡ some (status_text id source path uptime (b',' ∷ []), after)
unfolding find behind
find-status_text id source path uptime after =
    let whole =
      find-skip b'"' (codes "pid\":") (to_string id)
        (from_status source path uptime (pid_field after))
        (from_status source path uptime (b',' ∷ [])) after (to_string-not_quoted id)
        (find-from_status source path uptime after) in
    rw whole refl

replace_pid-status_text :
    (id : ℤ) (source : Source) (path : Bytes) (uptime : ℤ) (p : ℕ) (q : ℤ) (rest : Bytes)
    → skip_digits rest ≡ rest
    → replace_pid (status_text id source path uptime (pid_field (to_string (pos p) ++ rest))) q
      ≡ status_text id source path uptime (pid_field (to_string q ++ rest))
replace_pid-status_text id source path uptime p q rest ends =
    let before = status_text id source path uptime (b',' ∷ []) in
    let old = to_string (pos p) ++ rest in
    let new = to_string q ++ rest in
    let digits : begins_with_digit old ≡ true =
      ap (λ d. begins_with_digit (d ++ rest)) (to_string-pos p) ∙ decimal-begins p rest in
    let skipped : skip_digits old ≡ rest =
      ap (λ d. skip_digits (d ++ rest)) (to_string-pos p)
      ∙ skip_digits-append (decimal p) rest (decimal-AllDigits p)
      ∙ ends in
    replace_pid-some (status_text id source path uptime (pid_field old)) q before old
      (find-status_text id source path uptime old) digits
    ∙ ap (λ t. before ++ (pid_key ++ (to_string q ++ t))) skipped
    ∙ sym (
        find-split b'"' (codes "pid\":") (status_text id source path uptime (pid_field new)) before
          new (find-status_text id source path uptime new))

-- The fields of a status response.
abbrev pub status_entries : Source → Bytes → ℤ → ℤ → List Entry → List Entry
status_entries source path uptime pid more =
    record { key = source_key source; value = quote path }
    ∷ (record { key = codes "uptime_seconds"; value = to_string uptime }
        ∷ (record { key = codes "pid"; value = to_string pid } ∷ more))

abbrev closing : List Entry → Bytes
closing more = dump_rest more ++ codes "}}"

skip_digits-closing : (more : List Entry) → skip_digits (closing more) ≡ closing more
unfolding skip_digits dump_rest
skip_digits-closing [] = refl
skip_digits-closing (e ∷ more) = refl

make_ok_response-status_entries :
    (id : ℤ) (source : Source) (path : Bytes) (uptime pid : ℤ) (more : List Entry)
    → make_ok_response id (dump (status_entries source path uptime pid more))
      ≡ status_text id source path uptime (pid_field (to_string pid ++ closing more))
unfolding make_ok_response dump quote dump_list
make_ok_response-status_entries id wave path uptime pid more = simp append_assoc
make_ok_response-status_entries id design path uptime pid more = simp append_assoc

-- A status response with another process id is that of a server with this id.
pub replace_pid-status_entries :
    (id : ℤ) (source : Source) (path : Bytes) (uptime : ℤ) (p : ℕ) (q : ℤ) (more : List Entry)
    → replace_pid (make_ok_response id (dump (status_entries source path uptime (pos p) more))) q
      ≡ make_ok_response id (dump (status_entries source path uptime q more))
replace_pid-status_entries id source path uptime p q more =
    ap (λ t. replace_pid t q) (make_ok_response-status_entries id source path uptime (pos p) more)
    ∙ replace_pid-status_text id source path uptime p q (closing more) (skip_digits-closing more)
    ∙ sym (make_ok_response-status_entries id source path uptime q more)
