-- ===== src/Client.antt =====
-- src_common/client.h: reading a signal list, and what a response is printed as.
pub mod Printing
pub mod Request
use tool_debug.Common.{
  ℕ, Bytes, codes, List, [], ◌∷◌, ◌++◌, ℤ, Bool, true, false, if◌then◌else◌, ◌==◌, ◌||◌, not, equal,
  is_empty, map, reverse,
}
use tool_debug.Json.Parser.{parsed, get_string, Maps}

-- What `print_response` writes: one text to one of the two streams, or nothing.
pub data Output : Type 0 where
  silent : Output
  stdout stderr : Bytes → Output

abbrev endl : Bytes
endl = b'\n' ∷ []

-- `get_string` with its default argument.
abbrev pub string_at : Maps → Bytes → Bytes
string_at m key = get_string m key []

unfoldable pub print_error : Bytes → Output
print_error err_str =
    let (accepted, err_obj) = parsed err_str in
    let coded =
      codes "Error ["
      ++ (string_at err_obj (codes "code")
          ++ (codes "]: " ++ (string_at err_obj (codes "message") ++ endl))) in
    stderr (if accepted then coded else codes "Error: " ++ (err_str ++ endl))

unfoldable pub print_parsed : Bytes → Maps → Output
unfolding print_error
print_parsed response resp =
    let shown = string_at resp (codes "data") in
    if equal (string_at resp (codes "status")) (codes "error")
    then print_error (string_at resp (codes "error"))
    else stdout ((if is_empty shown then response else shown) ++ endl)

unfoldable pub print_response : Bytes → Bool → Output
print_response response json_mode =
    let (accepted, resp) = parsed response in
    if is_empty response
    then silent
    else if json_mode
    then stdout (response ++ endl)
    else if not accepted
    then stdout (response ++ endl)
    else print_parsed response resp

-- `find_first_not_of(" \t\r\n")` and the substring up to the last such character.
abbrev is_blank : ℕ → Bool
is_blank c = c == b' ' || c == b'\t' || c == b'\r' || c == b'\n'

unfoldable pub drop_blank : Bytes → Bytes
drop_blank [] = []
drop_blank (c ∷ s) = if is_blank c then drop_blank s else c ∷ s

-- The line without the blanks at both ends.
unfoldable pub trim : Bytes → Bytes
unfolding drop_blank
trim line = reverse (drop_blank (reverse (drop_blank line)))

-- A line of the list: empty lines and comments are skipped.
unfoldable pub signal_line : Bytes → List Bytes
unfolding trim
signal_line line = keep (trim line)
  where
    keep : Bytes → List Bytes
    keep [] = []
    keep (c ∷ s) = if c == b'#' then [] else (c ∷ s) ∷ []

-- The lines of an opened file, as std::getline hands them out.
unfoldable pub read_signal_file : List Bytes → List Bytes
unfolding signal_line
read_signal_file [] = []
read_signal_file (line ∷ lines) = signal_line line ++ read_signal_file lines
