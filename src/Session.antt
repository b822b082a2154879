-- ===== src/Session.antt =====
-- What a front end hands to a worker: src_vwave/common/session.h (struct Session) and
-- src_vsignal/common/session.h (struct DesignSession).
pub mod RoundTrip
use tool_debug.Common.{
  Bytes, codes, List, [], ◌∷◌, ℤ, pos, Bool, true, false, if◌then◌else◌, ◌||◌, not, eqb_ℤ, is_empty,
}
use tool_debug.Common.Outcome.{Outcome, ok, throw}
use tool_debug.Json.Builder.{set, set_int, set_array, dump}
use tool_debug.Json.Parser.{Maps, parsed, get_string, get_int, get_array}

pub record Session : Type 0 where
  pub backend : Bytes
  pub sdk_home : Bytes
  pub adapter : Bytes
  pub file : Bytes
  pub file_identity : Bytes
  pub reader : Bytes
  pub support : Bytes
  pub reader_hash : Bytes
  pub support_hash : Bytes

unfoldable pub json : Session → Bytes
json s =
    let j₁ = set_int [] (codes "schema_version") (pos 1) in
    let j₂ = set j₁ (codes "backend") s.backend in
    let j₃ = set j₂ (codes "sdk_home") s.sdk_home in
    let j₄ = set j₃ (codes "adapter") s.adapter in
    let j₅ = set j₄ (codes "file") s.file in
    let j₆ = set j₅ (codes "file_identity") s.file_identity in
    let j₇ = set j₆ (codes "reader_library") s.reader in
    let j₈ = set j₇ (codes "support_library") s.support in
    let j₉ = set j₈ (codes "reader_sha256") s.reader_hash in
    dump (set j₉ (codes "support_sha256") s.support_hash)

abbrev string_at : Maps → Bytes → Bytes
string_at j key = get_string j key []

unfoldable pub of_maps : Maps → Session
of_maps j = record {
  backend = string_at j (codes "backend");
  sdk_home = string_at j (codes "sdk_home");
  adapter = string_at j (codes "adapter");
  file = string_at j (codes "file");
  file_identity = string_at j (codes "file_identity");
  reader = string_at j (codes "reader_library");
  support = string_at j (codes "support_library");
  reader_hash = string_at j (codes "reader_sha256");
  support_hash = string_at j (codes "support_sha256");
}

-- `!parser.parse(text) || parser.get_int("schema_version", 0) != 1`
unfoldable pub is_refused : Bool × Maps → Bool
is_refused (accepted, j) =
    not accepted || not (eqb_ℤ (get_int j (codes "schema_version") (pos 0)) (pos 1))

unfoldable pub parse_session : Bytes → Outcome Session
unfolding is_refused
parse_session text =
    let j = parsed text in
    if is_refused j then throw (codes "Invalid session metadata") else ok (of_maps j.1)

pub record DesignSession : Type 0 where
  pub source : Bytes
  pub args : List Bytes

unfoldable pub design_json : DesignSession → Bytes
design_json s =
    let object₁ = set_int [] (codes "schema_version") (pos 1) in
    let object₂ = set object₁ (codes "source") s.source in
    dump (set_array object₂ (codes "args") s.args)

-- std::vector::empty.
abbrev pub has_none : List Bytes → Bool
has_none [] = true
has_none (_ ∷ _) = false

unfoldable pub parse_design_session : Bytes → Outcome DesignSession
unfolding is_refused
parse_design_session text =
    let parser = parsed text in
    let session : DesignSession = record {
      source = string_at parser.1 (codes "source");
      args = get_array parser.1 (codes "args");
    } in
    if is_refused parser
    then throw (codes "Invalid vsignal worker session")
    else if is_empty session.source || has_none session.args
    then throw (codes "Incomplete vsignal worker session")
    else ok session
