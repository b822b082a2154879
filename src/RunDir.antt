-- ===== src/RunDir.antt =====
-- src_common/run_dir.h and its wrappers src_vwave/common/run_dir.h and src_vsignal/common/run_dir.h:
-- the directory in which a server leaves its process id, its socket and its source. The files are
-- a list of paths with contents.
pub mod Paths
pub mod Detect
pub mod Publish
pub mod Cleanup
pub mod Tools
pub mod Saved
use tool_debug.Common.{
  ℕ, zero, suc, ◌^◌, ◌-◌, Bytes, codes, equal, behind, List, [], ◌∷◌, ◌++◌, reverse, ℤ, pos, negsuc,
  ltb_ℤ, ltb, Bool, true, false, not, ◌&&◌, ◌||◌, Option, none, some, if◌then◌else◌, ◌==◌, is_empty,
  length,
}
use tool_debug.Common.Decimal.{to_string, strtoll}
use tool_debug.Common.Run.{Run, done, out_of_fuel}
use tool_debug.Json.Parser.{Dict, find, assign}

-- The files with their contents, and the directories.
pub record World : Type 0 where
  pub files : Dict Bytes
  pub dirs : List Bytes

-- What becomes of a text that goes into an open ofstream: all of it is in the file, or the insertion
-- or the close fails with this many bytes of it in the file.
pub data WriteEnd : Type 0 where
  written : WriteEnd
  write_failed close_failed : ℕ → WriteEnd

-- What the system answers: whether an ofstream opens and how a write that is looked after ends,
-- whether rename succeeds, and
-- whether mkdir makes a directory that does
-- not exist where these exist; getcwd and realpath; and whether a signal reaches the process.
pub record Host : Type 0 where
  pub can_write : Bytes → Bool
  pub write_end : Bytes → WriteEnd
  pub can_rename : Bytes → Bytes → Bool
  pub can_make : List Bytes → Bytes → Bool
  pub getcwd : Option Bytes
  pub realpath : Bytes → Option Bytes
  pub alive : ℤ → Bool

pub record RunDir : Type 0 where
  pub sub_dir_name : Bytes
  pub file_prefix : Bytes
  pub run_dir : Bytes
  pub source : Bytes

unfoldable pub unlink : Bytes → Dict Bytes → Dict Bytes
unlink path [] = []
unlink path ((p, content) ∷ files) =
    let rest = unlink path files in if equal p path then rest else (p, content) ∷ rest

unfoldable pub member : Bytes → List Bytes → Bool
member path [] = false
member path (p ∷ paths) = equal p path || member path paths

unfoldable pub socket_path : RunDir → Bytes
socket_path rd = rd.run_dir ++ (codes "/" ++ (rd.file_prefix ++ codes ".sock"))

unfoldable pub pid_path : RunDir → Bytes
pid_path rd = rd.run_dir ++ (codes "/" ++ (rd.file_prefix ++ codes ".pid"))

unfoldable pub log_path : RunDir → Bytes
log_path rd = rd.run_dir ++ (codes "/" ++ (rd.file_prefix ++ codes ".log"))

unfoldable pub source_info_path : RunDir → Bytes
source_info_path rd = rd.run_dir ++ codes "/source_info"

abbrev pub or_self : Bytes → Option Bytes → Bytes
or_self path none = path
or_self path (some resolved) = resolved

unfoldable pub resolve_path : Host → Bytes → Bytes
resolve_path host path = or_self path (host.realpath path)

-- The directory for tool data below the working directory.
abbrev pub default_dir : Option Bytes → Bytes → Bytes
default_dir none sub_dir_name = codes "./" ++ (codes ".vtool" ++ (codes "/" ++ sub_dir_name))
default_dir (some cwd) sub_dir_name =
    cwd ++ (codes "/" ++ (codes ".vtool" ++ (codes "/" ++ sub_dir_name)))

-- The constructor.
unfoldable pub make_run_dir : Host → Bytes → Bytes → Bytes → Bytes → RunDir
unfolding resolve_path
make_run_dir host sub_dir_name file_prefix source_path run_dir_override = record {
  sub_dir_name = sub_dir_name;
  file_prefix = file_prefix;
  run_dir =
      if is_empty run_dir_override then default_dir host.getcwd sub_dir_name else run_dir_override;
  source = resolve_path host source_path;
}

-- std::getline: up to the first newline.
unfoldable pub first_line : Bytes → Bytes
first_line [] = []
first_line (c ∷ s) = let rest = first_line s in if c == b'\n' then [] else c ∷ rest

abbrev pub is_trailing : ℕ → Bool
is_trailing c = c == b'\n' || c == b'\r' || c == b' '

unfoldable pub drop_blanks : Bytes → Bytes
drop_blanks [] = []
drop_blanks (c ∷ s) = if is_trailing c then drop_blanks s else c ∷ s

-- The loop that takes blanks from the back.
unfoldable pub trim_end : Bytes → Bytes
unfolding drop_blanks
trim_end s = reverse (drop_blanks (reverse s))

abbrev pub content_of : Option Bytes → Bytes
content_of none = []
content_of (some content) = content

unfoldable pub read_file_content : World → Bytes → Bytes
unfolding trim_end first_line find
read_file_content w path = trim_end (first_line (content_of (find path w.files)))

unfoldable pub from_dir : World → Bytes → Bytes → Bytes → RunDir
unfolding read_file_content source_info_path
from_dir w run_dir_path sub_dir_name file_prefix =
    let rd : RunDir = record {
      sub_dir_name = sub_dir_name;
      file_prefix = file_prefix;
      run_dir = run_dir_path;
      source = [];
    } in
    record rd { source = read_file_content w (source_info_path rd) }

-- Whether mkdir succeeds or finds the path in use, and the directories then.
unfoldable pub mkdir : Host → Bytes → World → Bool × World
unfolding member find
mkdir host path w =
    let used = member path w.dirs || elim (find path w.files) [ none ↦ false | some _ ↦ true ] in
    if used
    then (true, w)
    else if host.can_make w.dirs path
    then (true, record w { dirs = path ∷ w.dirs })
    else (false, w)

-- `substr(0, rfind('/'))`, read from the back.
unfoldable pub before_slash : Bytes → Option Bytes
before_slash [] = none
before_slash (c ∷ s) = let rest = before_slash s in if c == b'/' then some (reverse s) else rest

abbrev pub make_parent : Host → Option Bytes → World → World
unfolding mkdir
make_parent host none w = w
make_parent host (some parent) w = (mkdir host parent w).1

unfoldable pub ensure_dir : Host → RunDir → World → Bool × World
unfolding mkdir before_slash
ensure_dir host rd w =
    mkdir host rd.run_dir (make_parent host (before_slash (reverse rd.run_dir)) w)

-- An ofstream that is opened, written and closed, where only the opening is looked at: what is
-- inserted is taken to reach the file.
unfoldable pub write_file : Host → Bytes → Bytes → World → Bool × World
unfolding assign
write_file host path content w =
    if host.can_write path
    then (true, record w { files = assign path content w.files })
    else (false, w)

unfoldable pub write_pid : Host → RunDir → ℤ → World → Bool × World
unfolding write_file pid_path
write_pid host rd pid w = write_file host (pid_path rd) (to_string pid ++ b'\n' ∷ []) w

unfoldable pub write_source_info : Host → RunDir → World → Bool × World
unfolding write_file source_info_path
write_source_info host rd w = write_file host (source_info_path rd) (rd.source ++ b'\n' ∷ []) w

-- `stream >> n` for an int: at the end of its range where the number is beyond it.
abbrev pub clamp_int : ℤ → ℤ
clamp_int (pos n) = if ltb n (2 ^ 31) then pos n else pos (2 ^ 31 - 1)
clamp_int (negsuc n) = if ltb n (2 ^ 31) then negsuc n else negsuc (2 ^ 31 - 1)

unfoldable pub read_pid : RunDir → World → ℤ
unfolding find pid_path
read_pid rd w = clamp_int (strtoll (content_of (find (pid_path rd) w.files)))

unfoldable pub is_server_alive : Host → RunDir → World → Bool
unfolding read_pid
is_server_alive host rd w =
    let pid = read_pid rd w in if ltb_ℤ (pos 0) pid then host.alive pid else false
