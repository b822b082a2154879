-- ===== src/Lsf.antt =====
-- src_common/lsf.h: splitting a submission command, and what the proxy changes in a response.
pub mod Words
pub mod Find
pub mod Rewrites
pub mod Quoted
pub mod StatusText
use tool_debug.Common.{
  behind, ℕ, Bytes, codes, List, [], ◌∷◌, ◌++◌, Bool, true, false, ◌||◌, Option, none, some,
  if◌then◌else◌, ◌==◌, is_empty, is_space, is_digit, ℤ,
}
use tool_debug.Common.Decimal.{to_string}
use tool_debug.Json.Builder.{JsonObject, set, dump}

-- `if (!word.empty()) result.push_back(word)`
unfoldable pub flush : Bytes → List Bytes
flush [] = []
flush (c ∷ word) = (c ∷ word) ∷ []

-- The loop of `split_command`, with the open quote and the word so far.
unfoldable pub split_loop : Option ℕ → Bytes → Bytes → List Bytes
unfolding flush
split_loop quote word [] = flush word
split_loop (some quote) word (value ∷ text) =
    let closed = split_loop none word text in
    let inside = split_loop (some quote) (word ++ value ∷ []) text in
    if value == quote then closed else inside
split_loop none word (value ∷ text) =
    let opened = split_loop (some value) word text in
    let parted = flush word ++ split_loop none [] text in
    let longer = split_loop none (word ++ value ∷ []) text in
    if value == b'\'' || value == b'"' then opened else if is_space value then parted else longer

unfoldable pub split_command : Bytes → List Bytes
unfolding split_loop
split_command text = split_loop none [] text

-- An occurrence here, or else a later one.
abbrev pub here_or : ℕ → Option Bytes → Option (Bytes × Bytes) → Option (Bytes × Bytes)
here_or c (some after) later = some ([], after)
here_or c none none = none
here_or c none (some (before, after)) = some (c ∷ before, after)

-- std::string::find of a key that is not empty: the text before its first occurrence and the text
-- behind it.
unfoldable pub find : Bytes → Bytes → Option (Bytes × Bytes)
unfolding behind
find key [] = none
find key (c ∷ text) = here_or c (behind key (c ∷ text)) (find key text)

-- `while (end < response.size() && isdigit(response[end])) ++end`
unfoldable pub skip_digits : Bytes → Bytes
skip_digits [] = []
skip_digits (c ∷ text) = if is_digit c then skip_digits text else c ∷ text

abbrev pub begins_with_digit : Bytes → Bool
begins_with_digit [] = false
begins_with_digit (c ∷ text) = is_digit c

abbrev pub pid_key : Bytes
pid_key = codes "\"pid\":"

-- What follows the search: the text before the key and behind it.
abbrev pub replace_digits : Bytes → ℤ → Option (Bytes × Bytes) → Bytes
replace_digits response pid none = response
replace_digits response pid (some (before, after)) =
    if begins_with_digit after
    then before ++ (pid_key ++ (to_string pid ++ skip_digits after))
    else response

unfoldable pub replace_pid : Bytes → ℤ → Bytes
replace_pid response pid = replace_digits response pid (find pid_key response)

abbrev pub data_key : Bytes
data_key = codes "\"data\":{"

-- `if (!value.empty()) fields.set(key, value)`
unfoldable pub set_filled : JsonObject → Bytes → Bytes → JsonObject
set_filled fields key value = if is_empty value then fields else set fields key value

unfoldable pub status_fields : Bytes → Bytes → JsonObject
unfolding set_filled
status_fields job_id job_name =
    let run_mode = set [] (codes "run_mode") (codes "lsf") in
    set_filled (set_filled run_mode (codes "job_id") job_id) (codes "job_name") job_name

-- `prefix.erase(0, 1)`, and `prefix.pop_back()` for a brace.
unfoldable pub drop_brace : Bytes → Bytes
drop_brace [] = []
drop_brace (c ∷ []) = if c == b'}' then [] else c ∷ []
drop_brace (c ∷ (d ∷ text)) = c ∷ drop_brace (d ∷ text)

abbrev pub erase_first : Bytes → Bytes
erase_first [] = []
erase_first (c ∷ text) = text

-- `response.substr(0, marker + 8) + prefix + "," + response.substr(marker + 8)`
abbrev pub insert_fields : Bytes → Bytes → Option (Bytes × Bytes) → Bytes
insert_fields response prefix none = response
insert_fields response prefix (some (before, after)) =
    before ++ (data_key ++ (prefix ++ b',' ∷ after))

unfoldable pub add_status_fields : Bytes → Bytes → Bytes → Bytes
unfolding status_fields drop_brace
add_status_fields response job_id job_name =
    let prefix = drop_brace (erase_first (dump (status_fields job_id job_name))) in
    insert_fields response prefix (find data_key response)
