-- ===== src/Session/RoundTrip.antt =====
-- The metadata that is written is the metadata that is read.
use tool_debug.Common.{
  ℕ, Bytes, codes, List, [], ◌∷◌, ◌≡◌, refl, ap, ◌∙◌, sym, true, if◌then◌else◌, ◌||◌, pos, is_empty,
  append-nil, All, arith, cons-ne-nil, equal,
}
use tool_debug.Common.Outcome.{ok, throw}
use tool_debug.Json.Fields.{Member, text, int, array, build, set_field, store_all, IsGood}
use tool_debug.Json.Parser.{
  parse, parsed, parsed-eq, no_maps, find, assign, get_string, get_int, get_array,
}
use tool_debug.Json.Builder.{dump}
use tool_debug.Json.RoundTrip.{parse-dump}
use tool_debug.Session.{
  Session, json, parse_session, of_maps, DesignSession, design_json, parse_design_session, has_none,
}

abbrev pub members : Session → List Member
members s =
    (codes "schema_version", int (pos 1))
    ∷ (codes "backend", text s.backend)
    ∷ (codes "sdk_home", text s.sdk_home)
    ∷ (codes "adapter", text s.adapter)
    ∷ (codes "file", text s.file)
    ∷ (codes "file_identity", text s.file_identity)
    ∷ (codes "reader_library", text s.reader)
    ∷ (codes "support_library", text s.support)
    ∷ (codes "reader_sha256", text s.reader_hash)
    ∷ (codes "support_sha256", text s.support_hash)
    ∷ []

members-IsGood : (s : Session) → All IsGood (members s)
members-IsGood s =
    let c = λ (c : ℕ) (cs : Bytes). cons-ne-nil c cs in
    (
      (c _ _, omega arith),
      (
        (c _ _, tt),
        (
          (c _ _, tt),
          (
            (c _ _, tt),
            (
              (c _ _, tt),
              ((c _ _, tt), ((c _ _, tt), ((c _ _, tt), ((c _ _, tt), ((c _ _, tt), tt))))),
            ),
          ),
        ),
      ),
    )

json-build : (s : Session) → json s ≡ dump (build [] (members s))
unfolding json build set_field
json-build s = refl

parsed-json : (s : Session) → parsed (json s) ≡ (true, store_all no_maps (members s))
parsed-json s =
    parsed-eq _ _
      (ap parse (json-build s ∙ sym (append-nil _)) ∙ parse-dump (members s) [] (members-IsGood s))

-- A session that was written is read back whole, whatever bytes its fields hold.
pub parse_session-json : (s : Session) → parse_session (json s) ≡ ok s
unfolding parse_session of_maps
parse_session-json s =
    rw parsed-json (unfold store_all get_string get_int find assign equal in refl)

abbrev pub design_members : DesignSession → List Member
design_members s =
    (codes "schema_version", int (pos 1))
    ∷ (codes "source", text s.source)
    ∷ (codes "args", array s.args)
    ∷ []

design_json-build : (s : DesignSession) → design_json s ≡ dump (build [] (design_members s))
unfolding design_json build set_field
design_json-build s = refl

design_members-IsGood : (s : DesignSession) → All IsGood (design_members s)
design_members-IsGood s =
    ((cons-ne-nil _ _, omega arith), ((cons-ne-nil _ _, tt), ((cons-ne-nil _ _, tt), tt)))

parsed-design_json :
    (s : DesignSession) → parsed (design_json s) ≡ (true, store_all no_maps (design_members s))
parsed-design_json s = parsed-eq _ _ (
    ap parse (design_json-build s ∙ sym (append-nil _))
    ∙ parse-dump (design_members s) [] (design_members-IsGood s))

-- A design session that was written is read back whole if it has a source and an argument, and
-- is refused as incomplete if it does not.
pub parse_design_session-design_json :
    (s : DesignSession)
    → parse_design_session (design_json s) ≡ (
        if is_empty s.source || has_none s.args
        then throw (codes "Incomplete vsignal worker session")
        else ok s)
unfolding parse_design_session
parse_design_session-design_json s =
    rw parsed-design_json (unfold store_all get_string get_int get_array find assign equal in refl)
