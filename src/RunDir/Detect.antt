-- ===== src/RunDir/Detect.antt =====
-- RunDir::auto_detect of src_common/run_dir.h.
use tool_debug.Common.{
  ◌≢◌, ◌⊎◌, true, ℕ, zero, suc, ◌<◌, ◌≤◌, Bytes, codes, equal, equal_iff, List, [], ◌∷◌, ◌++◌, ◌≡◌,
  refl, ap, ◌∙◌, inl, inr, false, ◌||◌, Option, none, some, if◌then◌else◌, is_empty, length,
  length-append, All, arith, Bool-cases,
}
use tool_debug.Common.Run.{Run, done, out_of_fuel}
use tool_debug.RunDir.{World, Host, RunDir, member, from_dir, is_server_alive}
use tool_debug.RunDir.Paths.{
  dirname, path_of, absolute, IsName, dirname-path_of, absolute-shorter, path_of-filled,
}

-- The body of the loop for one directory: the run directory below it, if its server is alive.
unfoldable pub detect_at : Host → World → Bytes → Bytes → Bytes → Option RunDir
unfolding member from_dir is_server_alive
detect_at host w sub_dir_name file_prefix dir =
    let candidate = dir ++ (codes "/" ++ (codes ".vtool" ++ (codes "/" ++ sub_dir_name))) in
    let rd = from_dir w candidate sub_dir_name file_prefix in
    if member candidate w.dirs then if is_server_alive host rd w then some rd else none else none

abbrev pub or_next : Option RunDir → Run (Option RunDir) → Run (Option RunDir)
or_next none next = next
or_next (some rd) next = done (some rd)

unfoldable pub detect_loop : ℕ → Host → World → Bytes → Bytes → Bytes → Run (Option RunDir)
unfolding detect_at dirname
detect_loop zero host w sub_dir_name file_prefix dir = out_of_fuel
detect_loop (suc f) host w sub_dir_name file_prefix dir =
    let parent = dirname dir in
    let next = detect_loop f host w sub_dir_name file_prefix parent in
    if is_empty dir || equal dir (codes "/")
    then done none
    else or_next (detect_at host w sub_dir_name file_prefix dir)
        (if equal parent dir then done none else next)

-- From the working directory, with a round for each byte of its path.
abbrev pub detect_from : Host → World → Bytes → Bytes → Option Bytes → Run (Option RunDir)
detect_from host w sub_dir_name file_prefix none = done none
detect_from host w sub_dir_name file_prefix (some cwd) =
    detect_loop (suc (length cwd)) host w sub_dir_name file_prefix cwd

unfoldable pub auto_detect : Host → World → Bytes → Bytes → Run (Option RunDir)
unfolding detect_loop
auto_detect host w sub_dir_name file_prefix =
    detect_from host w sub_dir_name file_prefix host.getcwd

abbrev pub found_or : Option RunDir → Option RunDir → Option RunDir
found_or none next = next
found_or (some rd) next = some rd

-- The run directory with a live server in the directory of these names, or in the nearest one above
-- it, short of the root.
abbrev nearest : Host → World → Bytes → Bytes → List Bytes → Option RunDir
nearest host w sub_dir_name file_prefix [] = none
nearest host w sub_dir_name file_prefix (name ∷ names) =
    found_or (detect_at host w sub_dir_name file_prefix (path_of (name ∷ names)))
      (nearest host w sub_dir_name file_prefix names)

or_next-done : (o n : Option RunDir) → or_next o (done n) ≡ done (found_or o n)
or_next-done none n = refl
or_next-done (some rd) n = refl

not_equal : (a b : Bytes) → length a ≢ length b → equal a b ≡ false
not_equal a b h = elim (Bool-cases (equal a b)) [
  | inl same ↦ absurd (h (ap length ((equal_iff a b).0 same)))
  | inr other ↦ other
]

one_round :
    (dir parent : Bytes) (o : Option RunDir) (next : Run (Option RunDir)) {n : Option RunDir}
    → is_empty dir ≡ false
    → equal dir (codes "/") ≡ false
    → equal parent dir ≡ false
    → next ≡ done n
    → (if is_empty dir || equal dir (codes "/")
        then done none
        else or_next o (if equal parent dir then done none else next))
      ≡ done (found_or o n)
one_round dir parent o next filled not_root goes_up e =
    rw (filled, not_root, goes_up) (ap (or_next o) e ∙ or_next-done o _)

absolute-filled : (names : List Bytes) → 0 < length (absolute names)
absolute-filled [] = omega arith
absolute-filled (name ∷ names) = omega (arith, length-append (path_of names) (b'/' ∷ name))

detect_loop-nearest :
    (f : ℕ) (host : Host) (w : World) (sub_dir_name file_prefix : Bytes) (names : List Bytes)
    → All IsName names
    → length names < f
    → detect_loop f host w sub_dir_name file_prefix (absolute names)
      ≡ done (nearest host w sub_dir_name file_prefix names)
unfolding detect_loop
detect_loop-nearest zero host w sub_dir_name file_prefix names h enough = absurd (omega arith)
detect_loop-nearest (suc f) host w sub_dir_name file_prefix [] h enough = unfold equal in refl
detect_loop-nearest (suc f) host w sub_dir_name file_prefix (name ∷ names) h enough =
    let dir = path_of (name ∷ names) in
    let shorter = absolute-shorter name names h.0.0 in
    let rest = detect_loop-nearest f host w sub_dir_name file_prefix names h.1 (omega arith) in
    let below_root : length (codes "/") < length dir =
      omega (arith, shorter, absolute-filled names) in
    let up = dirname-path_of name names h in
    one_round dir (dirname dir) _ _ (path_of-filled name names)
      (not_equal dir (codes "/") (λ e. omega (arith, e, below_root)))
      (ap (λ parent. equal parent dir) up
        ∙ not_equal (absolute names) dir (λ e. omega (arith, e, shorter)))
      (ap (detect_loop f host w sub_dir_name file_prefix) up ∙ rest)

length-path_of : (names : List Bytes) → All IsName names → length names ≤ length (path_of names)
length-path_of [] h = omega arith
length-path_of (name ∷ names) h =
    omega (arith, length-append (path_of names) (b'/' ∷ name), length-path_of names h.1)

length-absolute : (names : List Bytes) → All IsName names → length names ≤ length (absolute names)
length-absolute [] h = omega arith
length-absolute (name ∷ names) h = length-path_of (name ∷ names) h

abbrev run_dir_below : World → Bytes → Bytes → Bytes → RunDir
run_dir_below w sub_dir_name file_prefix dir =
    from_dir w (dir ++ (codes "/.vtool/" ++ sub_dir_name)) sub_dir_name file_prefix

-- A directory has a run directory below it whose server is alive.
abbrev Serves : Host → World → Bytes → Bytes → Bytes → Type 0
Serves host w sub_dir_name file_prefix dir =
    (member (dir ++ (codes "/.vtool/" ++ sub_dir_name)) w.dirs ≡ true)
    × (is_server_alive host (run_dir_below w sub_dir_name file_prefix dir) w ≡ true)

-- What is nearest to a directory, from its names: the run directory below it, or what is nearest to
-- the one above it.
pub data Nearest (host : Host) (w : World) (sub_dir_name file_prefix : Bytes)
    : List Bytes → Option RunDir → Type 0 where
  at_root : Nearest host w sub_dir_name file_prefix [] none
  here :
      {name : Bytes} {names : List Bytes}
      → Serves host w sub_dir_name file_prefix (path_of (name ∷ names))
      → Nearest host w sub_dir_name file_prefix
          (name ∷ names)
          (some (run_dir_below w sub_dir_name file_prefix (path_of (name ∷ names))))
  above :
      {name : Bytes} {names : List Bytes} {found : Option RunDir}
      → ¬ Serves host w sub_dir_name file_prefix (path_of (name ∷ names))
      → Nearest host w sub_dir_name file_prefix names found
      → Nearest host w sub_dir_name file_prefix (name ∷ names) found

detect_at-cases :
    (host : Host) (w : World) (sub_dir_name file_prefix dir : Bytes)
    → (Serves host w sub_dir_name file_prefix dir
        × (detect_at host w sub_dir_name file_prefix dir
            ≡ some (run_dir_below w sub_dir_name file_prefix dir)))
      ⊎ ((¬ Serves host w sub_dir_name file_prefix dir)
          × (detect_at host w sub_dir_name file_prefix dir ≡ none))
unfolding detect_at
detect_at-cases host w sub_dir_name file_prefix dir =
    let rd = run_dir_below w sub_dir_name file_prefix dir in
    elim (Bool-cases (member (dir ++ (codes "/.vtool/" ++ sub_dir_name)) w.dirs)) [
      | inr missing ↦ inr (λ serves. let there = serves.0 in cc, rw missing refl)
      | inl there ↦ elim (Bool-cases (is_server_alive host rd w)) [
        | inl lives ↦ inl ((there, lives), rw (there, lives) refl)
        | inr dead ↦ inr (λ serves. let lives = serves.1 in cc, rw (there, dead) refl)
      ]
    ]

nearest-Nearest :
    (host : Host) (w : World) (sub_dir_name file_prefix : Bytes) (names : List Bytes)
    → Nearest host w sub_dir_name file_prefix names (nearest host w sub_dir_name file_prefix names)
nearest-Nearest host w sub_dir_name file_prefix [] = at_root
nearest-Nearest host w sub_dir_name file_prefix (name ∷ names) =
    elim (detect_at-cases host w sub_dir_name file_prefix (path_of (name ∷ names))) [
      | inl (serves, e) ↦ rw e (here serves)
      | inr (not_here, e) ↦
          rw e (above not_here (nearest-Nearest host w sub_dir_name file_prefix names))
    ]

-- auto_detect ends, and finds the run directory with a live server below the working directory or
-- the nearest directory above it, short of the root, and nothing if there is none, where the working
-- directory is an absolute path of names that are not empty and have no slash.
pub auto_detect-Nearest :
    (host : Host) (w : World) (sub_dir_name file_prefix : Bytes) (names : List Bytes)
    → All IsName names
    → host.getcwd ≡ some (absolute names)
    → (found : Option RunDir) × (auto_detect host w sub_dir_name file_prefix ≡ done found)
      × Nearest host w sub_dir_name file_prefix names found
unfolding auto_detect
auto_detect-Nearest host w sub_dir_name file_prefix names h cwd = (
  nearest host w sub_dir_name file_prefix names,
  ap (detect_from host w sub_dir_name file_prefix) cwd
      ∙ detect_loop-nearest (suc (length (absolute names))) host w sub_dir_name file_prefix names h
          (omega (arith, length-absolute names h)),
  nearest-Nearest host w sub_dir_name file_prefix names,
)
