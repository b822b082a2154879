-- ===== src/Tests/Sessions.antt =====
-- The session records on concrete texts.
use tool_debug.Common.{codes, [], ◌∷◌, ◌≡◌}
use tool_debug.Common.Outcome.{ok}
use tool_debug.Session.{
  Session, json, parse_session, DesignSession, design_json, parse_design_session,
}
use tool_debug.Session.RoundTrip.{parse_session-json, parse_design_session-design_json}

abbrev ffr_session : Session
ffr_session = record {
  backend = codes "ffr";
  sdk_home = codes "/opt/verdi";
  adapter = codes "vwave-backend-v1";
  file = codes "/tmp/a \"b\".fsdb";
  file_identity = codes "1:2";
  reader = codes "libnffr.so";
  support = codes "libnsys.so";
  reader_hash = [];
  support_hash = [];
}

parse_session-json_example : parse_session (json ffr_session) ≡ ok ffr_session
parse_session-json_example = parse_session-json ffr_session

abbrev design : DesignSession
design = record { source = codes "simv.daidir"; args = codes "-dbdir" ∷ codes "simv.daidir" ∷ [] }

parse_design_session-design_json_example : parse_design_session (design_json design) ≡ ok design
parse_design_session-design_json_example = parse_design_session-design_json design
