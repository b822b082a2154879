-- ===== src/Tests/RunDir.antt =====
-- A run directory on a small file system.
use tool_debug.Common.{
  Option, codes, [], ◌∷◌, ◌≡◌, refl, pos, eqb_ℤ, true, some, none, inl, inr, arith,
}
use tool_debug.Common.Run.{done}
use tool_debug.RunDir.{
  written, write_failed, World, Host, RunDir, from_dir, read_pid, is_server_alive,
}
use tool_debug.RunDir.Paths.{dirname, absolute, drop_slashes, drop_name}
use tool_debug.RunDir.Detect.{auto_detect, Nearest, auto_detect-Nearest}
use tool_debug.RunDir.Publish.{publish, from_dir-publish}
use tool_debug.RunDir.Tools.{write_session}
use tool_debug.RunDir.Saved.{Saved, write_session-Saved}
use tool_debug.Tests.Wave.{ffr}

abbrev pub desk : Host
desk = record {
  can_write = λ path. true;
  write_end = λ path. written;
  can_rename = λ source target. true;
  can_make = λ dirs path. true;
  getcwd = some (absolute (codes "b" ∷ codes "a" ∷ []));
  realpath = λ path. none;
  alive = eqb_ℤ (pos 17);
}

abbrev pub wave_dir : RunDir
wave_dir = record {
  sub_dir_name = codes "wave_run";
  file_prefix = codes "wave_server";
  run_dir = codes "/a/.vtool/wave_run";
  source = codes "/tmp/a.fsdb ";
}

abbrev pub bare : World
bare = record { files = []; dirs = codes "/a/.vtool/wave_run" ∷ [] }

abbrev serving : World
serving = publish desk wave_dir (pos 17) bare

auto_detect-Nearest_example :
    (found : Option RunDir) × (auto_detect desk serving (codes "wave_run") (codes "wave_server")
      ≡ done found)
    × Nearest desk serving
        (codes "wave_run")
        (codes "wave_server")
        (codes "b" ∷ codes "a" ∷ [])
        found
auto_detect-Nearest_example =
    auto_detect-Nearest desk serving (codes "wave_run") (codes "wave_server")
      (codes "b" ∷ codes "a" ∷ []) ((refl, (refl, tt)), ((refl, (refl, tt)), tt)) refl

from_dir-publish_example :
    (from_dir
        (publish desk wave_dir (pos 17) bare)
        (codes "/a/.vtool/wave_run")
        (codes "wave_run")
        (codes "wave_server")
      ≡ record wave_dir { source = codes "/tmp/a.fsdb" })
    × (read_pid wave_dir (publish desk wave_dir (pos 17) bare) ≡ pos 17)
    × (is_server_alive desk wave_dir (publish desk wave_dir (pos 17) bare) ≡ desk.alive (pos 17))
from_dir-publish_example =
    from_dir-publish desk wave_dir 16 bare (codes "/tmp/a.fsdb") (codes " ") refl refl (inl refl)
      (omega arith) refl (inr (codes "/tmp/a.fsd", b'b', refl, refl)) (refl, tt)
      (
        refl,
        (refl, (refl, (refl, (refl, (refl, (refl, (refl, (refl, (refl, (refl, (refl, tt))))))))))),
      )

-- A disk that takes ten bytes.
abbrev full_disk : Host
full_disk = record desk { write_end = λ path. write_failed 10 }

write_session-Saved_example :
    Saved ffr
      (codes "/a/.vtool/wave_run")
      bare
      (write_session full_disk ffr (codes "/a/.vtool/wave_run") bare)
write_session-Saved_example = write_session-Saved full_disk ffr (codes "/a/.vtool/wave_run") bare

trailing_slashes : dirname (codes "/a/b//") ≡ codes "/a"
unfolding dirname drop_slashes drop_name
trailing_slashes = refl
