-- ===== src/RunDir/Cleanup.antt =====
-- What the cleanups remove.
use tool_debug.Common.{
  behind, Bytes, codes, equal, List, [], ◌∷◌, ◌++◌, ◌≡◌, refl, Bool, true, false, none, some,
  if◌then◌else◌, equal_iff, arith, ◌||◌, ◌∙◌,
}
use tool_debug.Json.Parser.{Dict, find}
use tool_debug.RunDir.{
  World, RunDir, unlink, member, socket_path, pid_path, log_path, source_info_path,
}

abbrev pub remove : Bytes → World → World
remove path w = record w { files = unlink path w.files }

unfoldable pub remove_pid : RunDir → World → World
remove_pid rd w = remove (pid_path rd) w

unfoldable pub remove_socket : RunDir → World → World
remove_socket rd w = remove (socket_path rd) w

unfoldable pub cleanup : RunDir → World → World
unfolding remove_pid remove_socket
cleanup rd w = remove (source_info_path rd) (remove_socket rd (remove_pid rd w))

-- Whether a path lies below a directory.
abbrev pub below : Bytes → Bytes → Bool
below dir path = elim (behind (dir ++ codes "/") path) [ none ↦ false | some _ ↦ true ]

unfoldable pub any_below : Bytes → Dict Bytes → Bool
any_below dir [] = false
any_below dir ((path, content) ∷ files) = below dir path || any_below dir files

unfoldable pub without : Bytes → List Bytes → List Bytes
without dir [] = []
without dir (d ∷ dirs) = let rest = without dir dirs in if equal d dir then rest else d ∷ rest

-- A directory with a file in it stays.
unfoldable pub rmdir : Bytes → World → World
unfolding any_below without
rmdir dir w = if any_below dir w.files then w else record w { dirs = without dir w.dirs }

unfoldable pub cleanup_all : RunDir → World → World
unfolding cleanup rmdir
cleanup_all rd w = rmdir rd.run_dir (remove (log_path rd) (cleanup rd w))

-- The cleanup of vwave, and that of vsignal.
unfoldable pub cleanup_vwave : RunDir → World → World
unfolding cleanup
cleanup_vwave rd w =
    let w₁ = remove (rd.run_dir ++ codes "/session.json") w in
    let w₂ = remove (rd.run_dir ++ codes "/session.json.tmp") w₁ in
    let w₃ = remove (rd.run_dir ++ codes "/run_mode") w₂ in
    let w₄ = remove (rd.run_dir ++ codes "/lsf_job_id") w₃ in
    cleanup rd (remove (rd.run_dir ++ codes "/lsf_job_name") w₄)

unfoldable pub cleanup_all_vwave : RunDir → World → World
unfolding cleanup_vwave cleanup_all
cleanup_all_vwave rd w = cleanup_all rd (cleanup_vwave rd w)

unfoldable pub cleanup_vsignal : RunDir → World → World
unfolding cleanup
cleanup_vsignal rd w = remove (rd.run_dir ++ codes "/run_mode") (cleanup rd w)

pub find-unlink :
    (path other : Bytes) (files : Dict Bytes)
    → find path (unlink other files) ≡ (if equal other path then none else find path files)
unfolding find unlink
find-unlink path other [] = ground arith
find-unlink path other ((p, content) ∷ files) =
    ground (
      arith,
      equal_iff p other,
      equal_iff p path,
      equal_iff other path,
      find-unlink path other files,
    )

remove_all : List Bytes → World → World
remove_all [] w = w
remove_all (path ∷ paths) w = remove_all paths (remove path w)

find-remove_all :
    (path : Bytes) (paths : List Bytes) (w : World)
    → find path (remove_all paths w).files ≡ (if member path paths then none else find path w.files)
unfolding member remove_all
find-remove_all path [] w = refl
find-remove_all path (p ∷ paths) w =
    find-remove_all path paths (remove p w)
    ∙ (rw (find-unlink path p w.files) (both (equal p path) (member path paths)))
  where
    both :
        (a b : Bool)
        → (if b then none else (if a then none else find path w.files))
          ≡ (if a || b then none else find path w.files)
    both true true = refl
    both true false = refl
    both false b = refl

-- The files that the cleanup of vwave removes.
abbrev pub vwave_files : RunDir → List Bytes
vwave_files rd =
    (rd.run_dir ++ codes "/session.json")
    ∷ (rd.run_dir ++ codes "/session.json.tmp")
    ∷ (rd.run_dir ++ codes "/run_mode")
    ∷ (rd.run_dir ++ codes "/lsf_job_id")
    ∷ (rd.run_dir ++ codes "/lsf_job_name")
    ∷ pid_path rd
    ∷ socket_path rd
    ∷ source_info_path rd
    ∷ []

-- The cleanup of vwave removes its eight files, and leaves every other file as it was.
find-cleanup_vwave :
    (rd : RunDir) (w : World) (path : Bytes)
    → find path (cleanup_vwave rd w).files
      ≡ (if member path (vwave_files rd) then none else find path w.files)
unfolding cleanup_vwave cleanup remove_pid remove_socket remove_all
find-cleanup_vwave rd w path = find-remove_all path (vwave_files rd) w
