-- ===== src/Proxy/Arguments.antt =====
-- What the front end passes arrives in the proxy, and what the proxy passes in the worker.
use tool_debug.Common.{
  Bytes, codes, equal, equal_refl, List, [], ◌∷◌, ◌++◌, ◌≡◌, refl, ap, ◌∙◌, ℤ, pos, ltb_ℤ, IsInt32,
  IsInt32-IsInt64, to_int-eq_self, to_int, false, ◌||◌, some, if◌then◌else◌, is_empty, All, Bool,
  true, not, ◌&&◌, ◌==◌, arith,
}
use tool_debug.Backend.Walks.{c_str}
use tool_debug.Common.Decimal.{to_string, strtoll-to_string}
use tool_debug.Common.Outcome.{ok, ◌>>=◌}
use tool_debug.Json.Builder.{JsonObject, dump}
use tool_debug.Json.Parser.{starts_with}
use tool_debug.Transport.{hex_encode, hex_decode}
use tool_debug.Transport.RoundTrip.{IsByte, hex_decode-hex_encode}
use tool_debug.Session.{Session, json, DesignSession, design_json, parse_design_session, has_none}
use tool_debug.Session.RoundTrip.{parse_session-json, parse_design_session-design_json}
use tool_debug.RunDir.{World, Host, RunDir}
use tool_debug.RunDir.Tools.{vwave_from_dir, vsignal_from_dir}
use tool_debug.Proxy.{
  execl, Config, LsfOptions, Environment, env_or, env_value, vwave_proxy_args, vsignal_proxy_args,
  timeout_of, Started, started, vwave_entry, vsignal_entry, submission, worker_args,
  vwave_worker_session, vsignal_worker_session,
}

-- JSON is no hex form.
hex_decode-dump : (o : JsonObject) → hex_decode (dump o) ≡ ok (dump o)
unfolding hex_decode dump starts_with
hex_decode-dump o = refl

hex_decode-json : (s : Session) → hex_decode (json s) ≡ ok (json s)
unfolding json
hex_decode-json s = hex_decode-dump _

-- `std::max(1, timeout)`
abbrev pub at_least_one : ℤ → ℤ
at_least_one n = if ltb_ℤ (pos 1) n then n else pos 1

timeout_of-to_string : (n : ℤ) → IsInt32 n → timeout_of (to_string n) ≡ at_least_one n
unfolding timeout_of
timeout_of-to_string n h =
    ap (λ t. at_least_one (to_int t)) (strtoll-to_string n (IsInt32-IsInt64 n h))
    ∙ ap at_least_one (to_int-eq_self n h)

-- No byte of an argument is 0.
abbrev pub is_c_string : Bytes → Bool
is_c_string [] = true
is_c_string (c ∷ s) = not (c == 0) && is_c_string s

abbrev pub has_no_nul : List Bytes → Bool
has_no_nul [] = true
has_no_nul (arg ∷ args) = is_c_string arg && has_no_nul args

c_str-is_c_string : (s : Bytes) → is_c_string s ≡ true → c_str s ≡ s
unfolding c_str
c_str-is_c_string [] h = refl
c_str-is_c_string (c ∷ s) h =
    let other : (c == 0) ≡ false = ground arith in
    rw other (ap (◌∷◌ c) (c_str-is_c_string s (ground arith)))

execl-has_no_nul : (args : List Bytes) → has_no_nul args ≡ true → execl args ≡ args
unfolding execl
execl-has_no_nul [] h = refl
execl-has_no_nul (arg ∷ args) h =
    rw (c_str-is_c_string arg (ground arith), execl-has_no_nul args (ground arith)) refl

-- The configuration that the options stand for.
abbrev pub vwave_config : Environment → LsfOptions → Config
vwave_config env opts = record {
  bsub = env_value env opts.lsf_bsub (codes "VWAVE_LSF_BSUB") (codes "bsub");
  bkill = env_value env opts.lsf_bkill (codes "VWAVE_LSF_BKILL") (codes "bkill");
  queue = opts.lsf_queue;
  resource = opts.lsf_resource;
  job_name = opts.lsf_job_name;
  startup_timeout_sec = at_least_one opts.open_timeout_sec;
  query_timeout_sec = timeout_of (env_or env (codes "VWAVE_LSF_QUERY_TIMEOUT") (codes "360"));
}

abbrev pub vsignal_config : Environment → LsfOptions → ℤ → Config
vsignal_config env opts pid = record {
  bsub = env_value env opts.lsf_bsub (codes "VWAVE_LSF_BSUB") (codes "bsub");
  bkill = env_value env opts.lsf_bkill (codes "VWAVE_LSF_BKILL") (codes "bkill");
  queue = env_value env opts.lsf_queue (codes "VWAVE_LSF_QUEUE") [];
  resource = env_value env opts.lsf_resource (codes "VWAVE_LSF_RESOURCE") [];
  job_name =
      if is_empty opts.lsf_job_name then codes "vsignal_" ++ to_string pid else opts.lsf_job_name;
  startup_timeout_sec = at_least_one opts.open_timeout_sec;
  query_timeout_sec = timeout_of (env_or env (codes "VWAVE_LSF_QUERY_TIMEOUT") (codes "360"));
}

abbrev pub start_with : {S : Type 0} → S → Config → Bytes → RunDir → Started S
start_with session config worker run_dir = record {
  session = session;
  run_dir = run_dir;
  config = config;
  worker = worker;
}

-- What vwave's `exec_lsf_proxy` passes to the proxy, the proxy starts with: the session, its
-- configuration with timeouts of a second at least, and the worker, once the run directory is found;
-- and what the proxy passes behind the submission command, the worker of the session's backend takes
-- for the session, where no argument has a NUL byte, the text of the session is bytes and the timeout
-- is an int.
pub vwave_entry-vwave_proxy_args :
    (host : Host) (w : World) (env : Environment) (worker : Bytes) (s : Session) (run_dir : RunDir)
    (opts : LsfOptions)
    → IsInt32 opts.open_timeout_sec
    → All IsByte (json s)
    → has_no_nul (vwave_proxy_args env worker s run_dir opts) ≡ true
    → (vwave_entry host w (execl (vwave_proxy_args env worker s run_dir opts))
        ≡ started (
            vwave_from_dir host w run_dir.run_dir
            >>= (λ rd. ok (start_with s (vwave_config env opts) worker rd))))
      × ((args : List Bytes) × (worker_args (vwave_config env opts) worker (json s)
            ≡ submission (vwave_config env opts) ++ worker ∷ args)
          × (vwave_worker_session s.backend args ≡ some (ok s)))
unfolding vwave_entry vwave_proxy_args worker_args vwave_worker_session equal
vwave_entry-vwave_proxy_args host w env worker s run_dir opts in_range bytes whole = (
  ap (vwave_entry host w) (execl-has_no_nul (vwave_proxy_args env worker s run_dir opts) whole)
      ∙ (rw (hex_decode-json s) (
          rw (parse_session-json s)
            (rw (timeout_of-to_string opts.open_timeout_sec in_range) refl))),
  (
    codes "--stdio-loop" ∷ hex_encode (json s) ∷ [],
    refl,
    rw (hex_decode-hex_encode (json s) bytes)
        (rw (parse_session-json s) (rw (equal_refl s.backend) refl)),
  ),
)

-- The same for vsignal, where no argument has a NUL byte, the session has a source and an argument,
-- its text is bytes and the timeout is an int.
vsignal_entry-vsignal_proxy_args :
    (w : World) (env : Environment) (worker : Bytes) (s : DesignSession) (run_dir : RunDir)
    (opts : LsfOptions) (pid : ℤ)
    → IsInt32 opts.open_timeout_sec
    → All IsByte (design_json s)
    → (is_empty s.source || has_none s.args) ≡ false
    → has_no_nul (vsignal_proxy_args env worker s run_dir opts pid) ≡ true
    → (vsignal_entry w (execl (vsignal_proxy_args env worker s run_dir opts pid))
        ≡ started (
            ok (
              start_with s
                (vsignal_config env opts pid)
                worker
                (vsignal_from_dir w run_dir.run_dir))))
      × ((args : List Bytes) × (worker_args (vsignal_config env opts pid) worker (design_json s)
            ≡ submission (vsignal_config env opts pid) ++ worker ∷ args)
          × (vsignal_worker_session args ≡ some (ok s)))
unfolding vsignal_entry vsignal_proxy_args worker_args vsignal_worker_session equal
vsignal_entry-vsignal_proxy_args w env worker s run_dir opts pid in_range bytes complete no_nul =
    let decoded = hex_decode-hex_encode (design_json s) bytes in
    let whole : parse_design_session (design_json s) ≡ ok s =
      parse_design_session-design_json s ∙ (rw complete refl) in
    (
      ap (vsignal_entry w)
            (execl-has_no_nul (vsignal_proxy_args env worker s run_dir opts pid) no_nul)
          ∙ (rw decoded (rw whole (rw (timeout_of-to_string opts.open_timeout_sec in_range) refl))),
      (codes "--stdio-loop" ∷ hex_encode (design_json s) ∷ [], refl, rw decoded (ap some whole)),
    )
