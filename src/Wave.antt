-- ===== src/Wave.antt =====
-- src_vwave/server: the request dispatcher and its handlers, over an abstract backend. A handler
-- gives the data of its response or the error that it throws; the process id, the uptime and the
-- backend are what the server was started with.
pub mod Handlers
pub mod Dispatch
pub mod Envelopes
pub mod Answers
pub mod Truncation
pub mod Framing
pub mod Stopping
use tool_debug.Common.{
  ℕ, ◌+◌, Bytes, codes, equal, behind, List, [], ◌∷◌, ◌++◌, map, ℤ, pos, negsuc, ltb_ℤ, Bool, true,
  false, not, ◌&&◌, ◌||◌, Option, none, some, if◌then◌else◌, ltb, leb, ◌==◌, is_empty, length,
}
use tool_debug.Common.Decimal.{to_string}
use tool_debug.Json.Builder.{JsonObject, set, set_int, set_raw, set_array, dump}
use tool_debug.Json.Parser.{Maps, get_string, get_int, get_bool, get_array}
use tool_debug.Session.{Session}
use tool_debug.Backend.{
  Error, backend_error, exception, Result, ok, error, ◌>>=◌, FileInfo, SignalInfo, Value, Range,
  Edge, WaveBackend, leaf_name,
}
use tool_debug.Backend.Walks.{scopes, find_all}

-- The globals of the server; the uptime is in seconds.
pub record ServerState : Type 0 where
  pub backend : WaveBackend
  pub session : Session
  pub fsdb_path : Bytes
  pub pid : ℤ
  pub uptime : ℤ

abbrev pub thrown {ℓ} : {A : Type ℓ} → Bytes → Bytes → Result A
thrown code message = error (backend_error code message)

abbrev pub invalid_params {ℓ} : {A : Type ℓ} → Bytes → Result A
invalid_params message = thrown (codes "INVALID_PARAMS") message

abbrev pub invalid_time {ℓ} : {A : Type ℓ} → Bytes → Result A
invalid_time message = thrown (codes "INVALID_TIME") message

abbrev pub int_size {ℓ} : {A : Type ℓ} → List A → ℤ
int_size xs = pos (length xs)

unfoldable pub add_source : Session → JsonObject → JsonObject
add_source s data₀ =
    let data₁ = set data₀ (codes "backend") s.backend in
    let data₂ = set data₁ (codes "sdk_home") s.sdk_home in
    let data₃ = set data₂ (codes "adapter") s.adapter in
    let data₄ = set data₃ (codes "reader_library") s.reader in
    let data₅ = set data₄ (codes "support_library") s.support in
    let data₆ = set data₅ (codes "reader_sha256") s.reader_hash in
    set data₆ (codes "support_sha256") s.support_hash

abbrev pub signal_not_found {ℓ} : {A : Type ℓ} → Bytes → Result A
signal_not_found path =
    thrown (codes "SIGNAL_NOT_FOUND") (codes "Signal '" ++ (path ++ codes "' not found"))

unfoldable pub require_signal : WaveBackend → Bytes → Result SignalInfo
require_signal b path =
    b.signal path >>= (λ found. elim found [ some s ↦ ok s | none ↦ signal_not_found path ])

unfoldable pub describe_signal : SignalInfo → JsonObject
describe_signal s =
    let j₁ = set [] (codes "name") s.name in
    let j₂ = set j₁ (codes "full_name") s.full_name in
    let j₃ = set_int j₂ (codes "left") s.left in
    let j₄ = set_int j₃ (codes "right") s.right in set j₄ (codes "direction") s.direction

unfoldable pub handle_status : ServerState → Result JsonObject
unfolding add_source
handle_status g =
    let data₁ = set [] (codes "fsdb_file") g.fsdb_path in
    let data₂ = set_int data₁ (codes "uptime_seconds") g.uptime in
    ok (add_source g.session (set_int data₂ (codes "pid") g.pid))

unfoldable pub handle_file_info : ServerState → Result JsonObject
unfolding add_source
handle_file_info g = do
  i ← g.backend.info
  let data₁ = set [] (codes "file") g.fsdb_path
  let data₂ = set_int data₁ (codes "min_time") i.min_time
  let data₃ = set_int data₂ (codes "max_time") i.max_time
  let data₄ = set data₃ (codes "scale_unit") i.scale
  let data₅ = set data₄ (codes "version") i.version
  let data₆ = set_int data₅ (codes "is_completed") (if i.completed then pos 1 else pos 0)
  ok (add_source g.session data₆)

-- `std::max<int64_t>(1, std::min<int64_t>(high, value))`
unfoldable pub clamp : ℕ → ℤ → ℕ
clamp high (negsuc n) = 1
clamp high (pos n) = let low = if ltb high n then high else n in if ltb low 1 then 1 else low

-- The name without a prefix that it begins with.
unfoldable pub without_prefix : Bytes → Bytes → Bytes
without_prefix prefix s = elim (behind prefix s) [ some rest ↦ rest | none ↦ s ]

-- `if (...) data.set("truncated", int64_t(1))`
abbrev pub set_truncated : Bool → JsonObject → JsonObject
set_truncated truncated data_fields =
    if truncated then set_int data_fields (codes "truncated") (pos 1) else data_fields

-- `if (compact && !path.empty())`: the names without the path.
unfoldable pub shown_scopes : Bytes → Bool → List Bytes → List Bytes
unfolding without_prefix
shown_scopes path compact found =
    if compact && not (is_empty path) then map (without_prefix (path ++ codes ".")) found else found

unfoldable pub scope_fields : Bytes → List Bytes → JsonObject
scope_fields path shown =
    let data₁ = set [] (codes "path") (if is_empty path then codes "/" else path) in
    let data₂ = set_array data₁ (codes "scopes") shown in
    set_int data₂ (codes "count") (int_size shown)

unfoldable pub handle_list_scopes : ServerState → Maps → Result JsonObject
unfolding clamp shown_scopes scope_fields
handle_list_scopes g params =
    let path = get_string params (codes "path") [] in
    let depth = clamp 10 (get_int params (codes "depth") (pos 1)) in
    let compact = get_bool params (codes "compact") false in
    scopes g.backend path depth >>= (λ found.
      let shown = shown_scopes path compact found in
      ok (set_truncated (leb 500 (length shown)) (scope_fields path shown)))
