-- ===== src/NpiEnv.antt =====
-- src_common/npi_env.h: what the tools set in the environment before they start NPI.
pub mod Prepared
use tool_debug.Common.{
  Bytes, codes, equal, [], ◌++◌, Bool, true, false, not, ◌&&◌, Option, none, some, if◌then◌else◌,
  is_empty,
}
use tool_debug.Json.Parser.{Dict, find, assign}
use tool_debug.Lsf.{find as search}

-- The variables of the environment.
abbrev pub Variables : Type 0
Variables = Dict Bytes

abbrev pub getenv_or_empty : Option Bytes → Bytes
getenv_or_empty none = []
getenv_or_empty (some value) = value

abbrev pub value_of_variable : Variables → Bytes → Bytes
value_of_variable env name = getenv_or_empty (find name env)

-- `dir_exists`, by what stat says of a path that is not empty.
abbrev pub dir_exists : (Bytes → Bool) → Bytes → Bool
dir_exists is_dir p = not (is_empty p) && is_dir p

-- `sync_verdi_home`: the environment, and what goes to stderr. `built` is the home that the tool was
-- built for.
unfoldable pub sync_verdi_home : (Bytes → Bool) → Bytes → Bool → Variables → Variables × Bytes
unfolding find assign equal
sync_verdi_home is_dir built quiet env =
    let cur = value_of_variable env (codes "VERDI_HOME") in
    let differs = not (equal cur built) in
    let warning =
      codes "Warning: VERDI_HOME ("
      ++ (cur
          ++ (codes ") differs from build-time Verdi ("
              ++ (built ++ codes "); using build-time path.\n"))) in
    let hint =
      codes
        "Warning: VERDI_HOME not set. NPI libraries may not be found.\nHint: module load synopsys/verdi/<version>\n" in
    if dir_exists is_dir built
    then (
      (if differs then assign (codes "VERDI_HOME") built env else env),
      (if not (is_empty cur) && (differs && not quiet) then warning else []),
    )
    else (env, (if is_empty cur && not quiet then hint else []))

abbrev pub is_found : Option (Bytes × Bytes) → Bool
is_found none = false
is_found (some parts) = true

abbrev pub occurs : Bytes → Bytes → Bool
occurs key text = is_found (search key text)

abbrev pub platform : Bytes → Bytes
platform verdi_home = verdi_home ++ codes "/platform/linux64/bin"

abbrev pub new_path : Bytes → Bytes → Bytes
new_path verdi_home cur =
    let npi_lib = verdi_home ++ codes "/share/NPI/lib/linux64" in
    let front = npi_lib ++ (codes ":" ++ platform verdi_home) in
    if is_empty cur then front else front ++ (codes ":" ++ cur)

abbrev pub with_lib_path : Variables → Option Bytes → Variables
with_lib_path env none = env
with_lib_path env (some verdi_home) =
    let cur = value_of_variable env (codes "LD_LIBRARY_PATH") in
    if occurs (platform verdi_home) cur
    then env
    else assign (codes "LD_LIBRARY_PATH") (new_path verdi_home cur) env

unfoldable pub ensure_npi_lib_path : Variables → Variables
unfolding find assign search
ensure_npi_lib_path env = with_lib_path env (find (codes "VERDI_HOME") env)
