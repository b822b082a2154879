-- ===== src/Tests/Daemon.antt =====
-- The launch of a server, and the environment of NPI.
use tool_debug.Common.{equal, Bool, Bytes, codes, [], ◌∷◌, ◌≡◌, refl, pos, true, false, arith}
use tool_debug.Json.Parser.{
  parsed, parse, parse_object, object_loop, parse_string_val, parse_value, assign, get_string, find,
}
use tool_debug.Wave.Dispatch.{dispatch_request}
use tool_debug.Daemon.{LaunchConfig, Observed, wait_for_server, shown_lines}
use tool_debug.Daemon.Launch.{wait_for_server-dispatch_request}
use tool_debug.NpiEnv.{Variables, value_of_variable, platform, sync_verdi_home, ensure_npi_lib_path}
use tool_debug.NpiEnv.Prepared.{joined, npi_lib, prepare, prepare_twice}
use tool_debug.Common.{some}
use tool_debug.Lsf.{find as search}
use tool_debug.Tests.Wave.{server}
use tool_debug.Tests.RunDir.{wave_dir}

abbrev probe : Bytes
probe = codes "{\"id\":0,\"cmd\":\"status\"}"

probe_parses : (parsed probe).0 ≡ true
unfolding parsed parse parse_object object_loop parse_string_val parse_value
probe_parses = refl

probe_asks : get_string (parsed probe).1 (codes "cmd") [] ≡ codes "status"
unfolding parsed parse parse_object object_loop parse_string_val parse_value get_string find assign
probe_asks = refl

abbrev half_minute : LaunchConfig
half_minute = record { log_tag = codes "vwave"; timeout_sec = 30; json_mode = false }

abbrev starting : Observed
starting = record { ended = false; has_socket = false; reply = [] }

wait_for_server-dispatch_request_example :
    (wait_for_server wave_dir
      (pos 17)
      half_minute
      (starting
        ∷ record { ended = false; has_socket = true; reply = (dispatch_request server probe).0 }
        ∷ [])
      []
      true).code
    ≡ 0
wait_for_server-dispatch_request_example =
    wait_for_server-dispatch_request server probe wave_dir (pos 17) half_minute (starting ∷ []) []
      [] true probe_parses probe_asks ((refl, refl), tt) (omega arith)

hints : shown_lines (codes "ok" ∷ codes "Hint: x" ∷ []) ≡ codes "  Hint: x\n"
unfolding shown_lines search
hints = refl

lib_path :
    ensure_npi_lib_path ((codes "VERDI_HOME", codes "/v") ∷ [])
    ≡ (codes "VERDI_HOME", codes "/v")
      ∷ (codes "LD_LIBRARY_PATH", codes "/v/share/NPI/lib/linux64:/v/platform/linux64/bin")
      ∷ []
unfolding ensure_npi_lib_path find assign search
lib_path = refl

abbrev in_opt : Bytes → Bool
in_opt path = true

abbrev old_home : Variables
old_home = (codes "VERDI_HOME", codes "/old") ∷ (codes "LD_LIBRARY_PATH", codes "/lib") ∷ []

prepare_twice_example :
    (find (codes "VERDI_HOME") (prepare in_opt (codes "/v") false old_home) ≡ some (codes "/v"))
    × (value_of_variable (prepare in_opt (codes "/v") false old_home) (codes "LD_LIBRARY_PATH")
        ≡ joined (npi_lib (codes "/v") ∷ (platform (codes "/v") ∷ (codes "/lib" ∷ []))))
    × (sync_verdi_home in_opt (codes "/v") true (prepare in_opt (codes "/v") false old_home)
        ≡ (prepare in_opt (codes "/v") false old_home, []))
    × (ensure_npi_lib_path (prepare in_opt (codes "/v") false old_home)
        ≡ prepare in_opt (codes "/v") false old_home)
unfolding find search
prepare_twice_example =
    prepare_twice in_opt (codes "/v") false true old_home (codes "/lib" ∷ []) refl (refl, tt)
      (unfold equal in refl) refl

-- The test for the directory is one for a part of the text: another Verdi hides this one.
hidden :
    ensure_npi_lib_path (
      (codes "VERDI_HOME", codes "/v")
      ∷ (codes "LD_LIBRARY_PATH", codes "/old/v/platform/linux64/bin")
      ∷ [])
    ≡ (codes "VERDI_HOME", codes "/v")
      ∷ (codes "LD_LIBRARY_PATH", codes "/old/v/platform/linux64/bin")
      ∷ []
unfolding ensure_npi_lib_path find assign search equal
hidden = refl
