-- ===== src/RunDir/Tools.antt =====
-- The wrappers src_vwave/common/run_dir.h and src_vsignal/common/run_dir.h, and absolute_path and
-- Session::write of src_vwave/common/session.h.
use tool_debug.Common.{
  Bytes, codes, [], ◌∷◌, ◌++◌, Bool, false, Option, some, none, if◌then◌else◌, ◌==◌, is_empty, take,
}
use tool_debug.Common.Outcome.{Outcome, ok, throw, ◌>>=◌}
use tool_debug.Common.Run.{Run}
use tool_debug.Json.Parser.{Dict, find, assign}
use tool_debug.Session.{Session, json}
use tool_debug.RunDir.{
  World, Host, WriteEnd, written, write_failed, close_failed, RunDir, make_run_dir, from_dir,
  unlink,
}
use tool_debug.RunDir.Detect.{auto_detect}

abbrev pub begins_at_root : Bytes → Bool
begins_at_root [] = false
begins_at_root (c ∷ path) = c == b'/'

abbrev pub from_cwd : Bytes → Option Bytes → Outcome Bytes
from_cwd path none = throw (codes "getcwd failed")
from_cwd path (some cwd) = ok (cwd ++ (codes "/" ++ path))

abbrev pub resolved_or : Outcome Bytes → Option Bytes → Outcome Bytes
resolved_or other none = other
resolved_or other (some resolved) = ok resolved

unfoldable pub absolute_path : Host → Bytes → Outcome Bytes
absolute_path host path =
    resolved_or (if begins_at_root path then ok path else from_cwd path host.getcwd)
      (host.realpath path)

-- The run directory of vwave for an FSDB file.
unfoldable pub vwave_run_dir : Host → Bytes → Bytes → Outcome RunDir
unfolding absolute_path make_run_dir
vwave_run_dir host fsdb_path run_dir_override = do
  override ← if is_empty run_dir_override then ok [] else absolute_path host run_dir_override
  ok (make_run_dir host (codes "wave_run") (codes "wave_server") fsdb_path override)

unfoldable pub vwave_from_dir : Host → World → Bytes → Outcome RunDir
unfolding absolute_path from_dir
vwave_from_dir host w run_dir_path = do
  dir ← absolute_path host run_dir_path
  ok (from_dir w dir (codes "wave_run") (codes "wave_server"))

unfoldable pub vwave_auto_detect : Host → World → Run (Option RunDir)
unfolding auto_detect
vwave_auto_detect host w = auto_detect host w (codes "wave_run") (codes "wave_server")

-- The run directory of vsignal for a design.
unfoldable pub vsignal_run_dir : Host → Bytes → Bytes → RunDir
unfolding make_run_dir
vsignal_run_dir host design_src run_dir_override =
    make_run_dir host (codes "vsignal_run") (codes "vsignal_server") design_src run_dir_override

unfoldable pub vsignal_from_dir : World → Bytes → RunDir
unfolding from_dir
vsignal_from_dir w run_dir_path =
    from_dir w run_dir_path (codes "vsignal_run") (codes "vsignal_server")

unfoldable pub vsignal_auto_detect : Host → World → Run (Option RunDir)
unfolding auto_detect
vsignal_auto_detect host w = auto_detect host w (codes "vsignal_run") (codes "vsignal_server")

-- rename of a file over another one.
abbrev pub move : Bytes → Bytes → Option Bytes → Dict Bytes → Dict Bytes
move source target none files = files
move source target (some content) files = unlink source (assign target content files)

-- The files with these bytes in one of them.
abbrev pub holding : Bytes → Bytes → World → World
holding path content w = record w { files = assign path content w.files }

-- What follows the opening of the temporary file, by how the write ends.
abbrev pub published : Host → Bytes → Bytes → Bytes → WriteEnd → World → Outcome {0} Unit × World
published host temp target content (write_failed n) w =
    (throw (codes "Cannot write session metadata"), holding temp (take n content) w)
published host temp target content (close_failed n) w =
    (throw (codes "Cannot publish session metadata"), holding temp (take n content) w)
published host temp target content written w =
    let w' = holding temp content w in
    if host.can_rename temp target
    then (ok tt, record w' { files = move temp target (find temp w'.files) w'.files })
    else (throw (codes "Cannot publish session metadata"), w')

-- Session::write: into a temporary file, which is renamed once it is whole.
unfoldable pub write_session : Host → Session → Bytes → World → Outcome {0} Unit × World
unfolding find assign unlink
write_session host s dir w =
    let temp = dir ++ codes "/session.json.tmp" in
    let target = dir ++ codes "/session.json" in
    if host.can_write temp
    then published host temp target (json s ++ b'\n' ∷ []) (host.write_end temp) w
    else (throw (codes "Cannot write session metadata"), w)
