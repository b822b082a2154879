-- ===== src/NpiEnv/Prepared.antt =====
-- What sync_verdi_home and ensure_npi_lib_path leave in the environment.
use tool_debug.Common.{
  behind, ℕ, Bytes, codes, equal, equal_iff, [], ◌∷◌, ◌++◌, ◌≡◌, refl, ap, sym, ◌∙◌, inl, inr, Bool,
  false, true, Option, none, some, arith, Bool-cases, Option-cases, is_empty, append_assoc,
  append-nil, List, All,
}
use tool_debug.Json.Parser.{find, assign}
use tool_debug.Json.Lookup.{find-assign}
use tool_debug.Lsf.{find as search, here_or}
use tool_debug.Lsf.Find.{behind-append}
use tool_debug.NpiEnv.{
  platform, new_path, is_found, Variables, getenv_or_empty, value_of_variable, dir_exists,
  sync_verdi_home, occurs, with_lib_path, ensure_npi_lib_path,
}

-- Both, as the worker of vsignal calls them.
abbrev pub prepare : (Bytes → Bool) → Bytes → Bool → Variables → Variables
prepare is_dir built quiet env = ensure_npi_lib_path (sync_verdi_home is_dir built quiet env).0

is_found-here_or :
    (c : ℕ) (o : Option Bytes) (later : Option (Bytes × Bytes))
    → is_found later ≡ true
    → is_found (here_or c o later) ≡ true
is_found-here_or c (some after) later h = refl
is_found-here_or c none (some parts) h = refl
is_found-here_or c none none h = h

found-behind :
    (k : ℕ) (key before after : Bytes)
    → is_found (search (k ∷ key) (before ++ (k ∷ (key ++ after)))) ≡ true
unfolding search
found-behind k key [] after = rw (behind-append (k ∷ key) after) refl
found-behind k key (c ∷ before) after =
    is_found-here_or c (behind (k ∷ key) (c ∷ (before ++ (k ∷ (key ++ after))))) _
      (found-behind k key before after)

-- A text that is not empty occurs where it was put.
occurs-append :
    (key before after : Bytes) → is_empty key ≡ false → occurs key (before ++ (key ++ after)) ≡ true
occurs-append [] before after h = absurd cc
occurs-append (k ∷ key) before after h = found-behind k key before after

value-some :
    (env : Variables) (name value : Bytes)
    → find name env ≡ some value
    → value_of_variable env name ≡ value
value-some env name value e = rw e refl

find-value :
    (env : Variables) (name value : Bytes)
    → is_empty value ≡ false
    → value_of_variable env name ≡ value
    → find name env ≡ some value
find-value env name value filled e = elim (Option-cases (find name env)) [
  | inl missing ↦
      let nothing : value ≡ [] = sym e ∙ (rw missing refl) in
      absurd (let no = ap is_empty nothing in cc)
  | inr (other, there) ↦ there ∙ ap some (sym (value-some env name other there) ∙ e)
]

verdi_home-sync :
    (is_dir : Bytes → Bool) (built : Bytes) (quiet : Bool) (env : Variables)
    → dir_exists is_dir built ≡ true
    → find (codes "VERDI_HOME") (sync_verdi_home is_dir built quiet env).0 ≡ some built
unfolding sync_verdi_home
verdi_home-sync is_dir built quiet env exists =
    let filled : is_empty built ≡ false = ground arith in
    elim (Bool-cases (equal (value_of_variable env (codes "VERDI_HOME")) built)) [
      | inr differs ↦
          rw (exists, differs)
            (find-assign (codes "VERDI_HOME") (codes "VERDI_HOME") built env
              ∙ (unfold equal in refl))
      | inl same ↦
          rw (exists, same)
            (find-value env (codes "VERDI_HOME") built filled
              ((equal_iff (value_of_variable env (codes "VERDI_HOME")) built).0 same))
    ]

-- With the home in place there is nothing to say and nothing to change.
sync_again :
    (is_dir : Bytes → Bool) (built : Bytes) (quiet : Bool) (env : Variables)
    → dir_exists is_dir built ≡ true
    → find (codes "VERDI_HOME") env ≡ some built
    → sync_verdi_home is_dir built quiet env ≡ (env, [])
unfolding sync_verdi_home
sync_again is_dir built quiet env exists home =
    let same : equal (value_of_variable env (codes "VERDI_HOME")) built ≡ true =
      (equal_iff (value_of_variable env (codes "VERDI_HOME")) built).1
        (value-some env (codes "VERDI_HOME") built home) in
    rw (exists, same)
      (elim (Bool-cases (is_empty (value_of_variable env (codes "VERDI_HOME")))) [
        | inl none_set ↦ rw none_set refl
        | inr is_set ↦ rw is_set refl
      ])

platform-filled : (home : Bytes) → is_empty (platform home) ≡ false
platform-filled [] = refl
platform-filled (c ∷ home) = refl

occurs-new_path : (home cur : Bytes) → occurs (platform home) (new_path home cur) ≡ true
occurs-new_path home cur =
    let npi_lib = home ++ codes "/share/NPI/lib/linux64" in
    let front = npi_lib ++ codes ":" in
    let split : npi_lib ++ (codes ":" ++ platform home) ≡ front ++ platform home =
      sym (append_assoc npi_lib (codes ":") (platform home)) in
    let put : (after : Bytes) → occurs (platform home) (front ++ (platform home ++ after)) ≡ true =
      λ after. occurs-append (platform home) front after (platform-filled home) in
    elim (Bool-cases (is_empty cur)) [
      | inl bare ↦ rw bare (
          ap (occurs (platform home)) (split ∙ ap (◌++◌ front) (sym (append-nil (platform home))))
          ∙ put [])
      | inr set ↦ rw set (
          ap (occurs (platform home)) (
            ap (λ t. t ++ (codes ":" ++ cur)) split
            ∙ append_assoc front (platform home) (codes ":" ++ cur))
          ∙ put (codes ":" ++ cur))
    ]

-- The text of a list of directories.
abbrev pub joined : List Bytes → Bytes
joined [] = []
joined (dir ∷ []) = dir
joined (dir ∷ (next ∷ dirs)) = dir ++ (codes ":" ++ joined (next ∷ dirs))

abbrev pub npi_lib : Bytes → Bytes
npi_lib home = home ++ codes "/share/NPI/lib/linux64"

joined-filled :
    (dir : Bytes) (dirs : List Bytes)
    → is_empty dir ≡ false
    → is_empty (joined (dir ∷ dirs)) ≡ false
joined-filled dir [] h = h
joined-filled [] (next ∷ dirs) h = absurd cc
joined-filled (c ∷ dir) (next ∷ dirs) h = refl

-- The new path is the list of the directories with two more in front.
new_path-joined :
    (home : Bytes) (dirs : List Bytes)
    → All (λ dir. is_empty dir ≡ false) dirs
    → new_path home (joined dirs) ≡ joined (npi_lib home ∷ (platform home ∷ dirs))
new_path-joined home [] h = refl
new_path-joined home (dir ∷ dirs) h =
    let rest = codes ":" ++ joined (dir ∷ dirs) in
    rw (joined-filled dir dirs h.0) (append_assoc (npi_lib home) (codes ":" ++ platform home) rest)

library_path-sync :
    (is_dir : Bytes → Bool) (built : Bytes) (quiet : Bool) (env : Variables)
    → dir_exists is_dir built ≡ true
    → find (codes "LD_LIBRARY_PATH") (sync_verdi_home is_dir built quiet env).0
      ≡ find (codes "LD_LIBRARY_PATH") env
unfolding sync_verdi_home
library_path-sync is_dir built quiet env exists =
    elim (Bool-cases (equal (value_of_variable env (codes "VERDI_HOME")) built)) [
      | inl same ↦ rw (exists, same) refl
      | inr differs ↦
          rw (exists, differs)
            (find-assign (codes "VERDI_HOME") (codes "LD_LIBRARY_PATH") built env
              ∙ (unfold equal in refl))
    ]

-- The variables after the library path was prepared for a home that it does not mention.
with_lib_path-new :
    (env : Variables) (home : Bytes)
    → find (codes "VERDI_HOME") env ≡ some home
    → occurs (platform home) (value_of_variable env (codes "LD_LIBRARY_PATH")) ≡ false
    → (find (codes "VERDI_HOME") (with_lib_path env (some home)) ≡ some home)
      × (value_of_variable (with_lib_path env (some home)) (codes "LD_LIBRARY_PATH")
          ≡ new_path home (value_of_variable env (codes "LD_LIBRARY_PATH")))
with_lib_path-new env home there absent =
    let cur = value_of_variable env (codes "LD_LIBRARY_PATH") in
    rw absent (
      find-assign (codes "LD_LIBRARY_PATH") (codes "VERDI_HOME") (new_path home cur) env
          ∙ (unfold equal in there),
      value-some (assign (codes "LD_LIBRARY_PATH") (new_path home cur) env)
          (codes "LD_LIBRARY_PATH") (new_path home cur)
          (find-assign (codes "LD_LIBRARY_PATH") (codes "LD_LIBRARY_PATH") (new_path home cur) env
            ∙ (unfold equal in refl)),
    )

-- Where the Verdi that the tool was built with is there, and LD_LIBRARY_PATH is a list of directories
-- whose text does not have the path of its binaries in it, the prepared environment has its home in
-- VERDI_HOME and the directories of its NPI library and of its binaries in front of the others on
-- LD_LIBRARY_PATH, and preparing it again says nothing and changes nothing.
pub prepare_twice :
    (is_dir : Bytes → Bool) (built : Bytes) (quiet later : Bool) (env : Variables)
    (dirs : List Bytes)
    → dir_exists is_dir built ≡ true
    → All (λ dir. is_empty dir ≡ false) dirs
    → value_of_variable env (codes "LD_LIBRARY_PATH") ≡ joined dirs
    → occurs (platform built) (joined dirs) ≡ false
    → (find (codes "VERDI_HOME") (prepare is_dir built quiet env) ≡ some built)
      × (value_of_variable (prepare is_dir built quiet env) (codes "LD_LIBRARY_PATH")
          ≡ joined (npi_lib built ∷ (platform built ∷ dirs)))
      × (sync_verdi_home is_dir built later (prepare is_dir built quiet env)
          ≡ (prepare is_dir built quiet env, []))
      × (ensure_npi_lib_path (prepare is_dir built quiet env) ≡ prepare is_dir built quiet env)
unfolding ensure_npi_lib_path
prepare_twice is_dir built quiet later env dirs exists filled listed absent =
    let synced = (sync_verdi_home is_dir built quiet env).0 in
    let prepared = prepare is_dir built quiet env in
    let home : find (codes "VERDI_HOME") synced ≡ some built =
      verdi_home-sync is_dir built quiet env exists in
    let path : prepared ≡ with_lib_path synced (some built) = ap (with_lib_path synced) home in
    let before : value_of_variable synced (codes "LD_LIBRARY_PATH") ≡ joined dirs =
      ap getenv_or_empty (library_path-sync is_dir built quiet env exists) ∙ listed in
    let (there, added) =
      with_lib_path-new synced built home (ap (occurs (platform built)) before ∙ absent) in
    let kept : find (codes "VERDI_HOME") prepared ≡ some built =
      ap (find (codes "VERDI_HOME")) path ∙ there in
    let value : value_of_variable prepared (codes "LD_LIBRARY_PATH")
        ≡ new_path built (joined dirs) =
      ap (λ e. value_of_variable e (codes "LD_LIBRARY_PATH")) path
      ∙ added
      ∙ ap (new_path built) before in
    let present : occurs (platform built) (value_of_variable prepared (codes "LD_LIBRARY_PATH"))
        ≡ true =
      ap (occurs (platform built)) value ∙ occurs-new_path built (joined dirs) in
    (
      kept,
      value ∙ new_path-joined built dirs filled,
      sync_again is_dir built later prepared exists kept,
      ap (with_lib_path prepared) kept ∙ rw present refl,
    )
