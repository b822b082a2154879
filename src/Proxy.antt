-- ===== src/Proxy.antt =====
-- src_vwave/lsf_proxy.h and src_vsignal/lsf_proxy.h, and what starts them in src_vwave/main.cpp and
-- src_vsignal/main.cpp: the arguments of the proxy and of the worker.
pub mod Pipe
pub mod Arguments
pub mod Ready
pub mod Status
pub mod Exchange
pub mod Transparent
use tool_debug.Common.{
  ℕ, Bytes, codes, equal, List, [], ◌∷◌, ◌++◌, ℤ, pos, negsuc, ltb_ℤ, to_int, Bool, true, false,
  not, ◌||◌, Option, none, some, if◌then◌else◌, is_empty, length, ◌==◌, leb, map,
}
use tool_debug.Backend.Walks.{c_str}
use tool_debug.Common.Decimal.{to_string, strtoll}
use tool_debug.Common.Outcome.{Outcome, ok, throw, ◌>>=◌}
use tool_debug.Transport.{hex_encode, hex_decode}
use tool_debug.Session.{
  Session, json, parse_session, DesignSession, design_json, parse_design_session,
}
use tool_debug.Lsf.{split_command}
use tool_debug.RunDir.{World, Host, RunDir, from_dir}
use tool_debug.RunDir.Tools.{vwave_from_dir, vsignal_from_dir}

pub record Config : Type 0 where
  pub bsub : Bytes
  pub bkill : Bytes
  pub queue : Bytes
  pub resource : Bytes
  pub job_name : Bytes
  pub startup_timeout_sec : ℤ
  pub query_timeout_sec : ℤ

-- The options of the front ends that the proxy is started with.
pub record LsfOptions : Type 0 where
  pub lsf_bsub : Bytes
  pub lsf_bkill : Bytes
  pub lsf_queue : Bytes
  pub lsf_resource : Bytes
  pub lsf_job_name : Bytes
  pub open_timeout_sec : ℤ

-- The environment, by getenv.
abbrev pub Environment : Type 0
Environment = Bytes → Option Bytes

abbrev pub env_or : Environment → Bytes → Bytes → Bytes
env_or env name fallback = elim (env name) [ none ↦ fallback | some value ↦ value ]

-- `env_value` of vsignal, and the lambda `arg` of vwave.
unfoldable pub env_value : Environment → Bytes → Bytes → Bytes → Bytes
env_value env value name fallback = if is_empty value then env_or env name fallback else value

-- The arguments of execl as the program that it starts has them: each as a C string.
unfoldable pub execl : List Bytes → List Bytes
unfolding c_str
execl args = map c_str args

-- `exec_lsf_proxy` of vwave: argv[1] and what follows, before execl.
unfoldable pub vwave_proxy_args : Environment → Bytes → Session → RunDir → LsfOptions → List Bytes
unfolding env_value json
vwave_proxy_args env worker session run_dir opts =
    codes "--lsf-proxy"
    ∷ json session
    ∷ run_dir.run_dir
    ∷ worker
    ∷ env_value env opts.lsf_bsub (codes "VWAVE_LSF_BSUB") (codes "bsub")
    ∷ env_value env opts.lsf_bkill (codes "VWAVE_LSF_BKILL") (codes "bkill")
    ∷ opts.lsf_queue
    ∷ opts.lsf_resource
    ∷ opts.lsf_job_name
    ∷ to_string opts.open_timeout_sec
    ∷ env_or env (codes "VWAVE_LSF_QUERY_TIMEOUT") (codes "360")
    ∷ []

-- `exec_lsf_proxy` of vsignal, before execl; the number is the process id.
unfoldable pub vsignal_proxy_args :
    Environment → Bytes → DesignSession → RunDir → LsfOptions → ℤ → List Bytes
unfolding env_value hex_encode design_json
vsignal_proxy_args env worker session run_dir opts pid =
    codes "--lsf-proxy"
    ∷ hex_encode (design_json session)
    ∷ run_dir.run_dir
    ∷ worker
    ∷ env_value env opts.lsf_bsub (codes "VWAVE_LSF_BSUB") (codes "bsub")
    ∷ env_value env opts.lsf_bkill (codes "VWAVE_LSF_BKILL") (codes "bkill")
    ∷ env_value env opts.lsf_queue (codes "VWAVE_LSF_QUEUE") []
    ∷ env_value env opts.lsf_resource (codes "VWAVE_LSF_RESOURCE") []
    ∷ (if is_empty opts.lsf_job_name then codes "vsignal_" ++ to_string pid else opts.lsf_job_name)
    ∷ to_string opts.open_timeout_sec
    ∷ env_or env (codes "VWAVE_LSF_QUERY_TIMEOUT") (codes "360")
    ∷ []

-- `std::max(1, atoi(text))`: atoi is strtol, cast to int.
unfoldable pub timeout_of : Bytes → ℤ
timeout_of text = let n = to_int (strtoll text) in if ltb_ℤ (pos 1) n then n else pos 1

-- What `entry` hands to run_proxy.
pub record Started (S : Type 0) : Type 0 where
  pub session : S
  pub run_dir : RunDir
  pub config : Config
  pub worker : Bytes

-- `entry` returned 2, or it goes on or throws.
pub data Entered (S : Type 0) : Type 0 where
  refused : Entered S
  started : Outcome (Started S) → Entered S

-- `entry` of vwave on argv[1] and what follows; there may be more arguments.
unfoldable pub vwave_entry : Host → World → List Bytes → Entered Session
unfolding hex_decode parse_session vwave_from_dir timeout_of equal
vwave_entry host w
      (mode ∷ payload ∷ dir ∷ worker ∷ bsub ∷ bkill ∷ queue ∷ resource ∷ job_name ∷ startup ∷ query
        ∷ more) =
    let start = hex_decode payload >>= (λ text. parse_session text >>= (λ session.
      vwave_from_dir host w dir >>= (λ run_dir. ok (record {
        session = session;
        run_dir = run_dir;
        config = record {
          bsub = bsub;
          bkill = bkill;
          queue = queue;
          resource = resource;
          job_name = job_name;
          startup_timeout_sec = timeout_of startup;
          query_timeout_sec = timeout_of query;
        };
        worker = worker;
      })))) in
    if not (equal mode (codes "--lsf-proxy")) then refused else started start
vwave_entry host w _ = refused

-- `entry` of vsignal: exactly these arguments.
unfoldable pub vsignal_entry : World → List Bytes → Entered DesignSession
unfolding hex_decode parse_design_session vsignal_from_dir timeout_of equal
vsignal_entry w
      (mode ∷ payload ∷ dir ∷ worker ∷ bsub ∷ bkill ∷ queue ∷ resource ∷ job_name ∷ startup ∷ query
        ∷ []) =
    let start = hex_decode payload >>= (λ text. parse_design_session text >>= (λ session.
      ok (record {
        session = session;
        run_dir = vsignal_from_dir w dir;
        config = record {
          bsub = bsub;
          bkill = bkill;
          queue = queue;
          resource = resource;
          job_name = job_name;
          startup_timeout_sec = timeout_of startup;
          query_timeout_sec = timeout_of query;
        };
        worker = worker;
      }))) in
    if not (equal mode (codes "--lsf-proxy")) then refused else started start
vsignal_entry w _ = refused

abbrev pub command_or : List Bytes → Bytes → List Bytes
command_or [] fallback = fallback ∷ []
command_or (arg ∷ args) fallback = arg ∷ args

unfoldable pub is_interactive : List Bytes → Bool
is_interactive [] = false
is_interactive (arg ∷ args) =
    equal arg (codes "-I")
    || (equal arg (codes "-Is") || (equal arg (codes "-Ip") || is_interactive args))

-- `if (!value.empty()) { push(flag); push(value); }`
unfoldable pub flag_args : Bytes → Bytes → List Bytes
flag_args flag [] = []
flag_args flag (c ∷ value) = flag ∷ (c ∷ value) ∷ []

-- What `start` passes to execvp: the submission command with its options.
unfoldable pub submission : Config → List Bytes
unfolding split_command is_interactive flag_args
submission cfg =
    let text = if is_empty cfg.bsub then codes "bsub" else cfg.bsub in
    let args = command_or (split_command text) (codes "bsub") in
    args
    ++ ((if is_interactive args then [] else codes "-I" ∷ [])
        ++ (flag_args (codes "-J") cfg.job_name
            ++ (flag_args (codes "-q") cfg.queue ++ flag_args (codes "-R") cfg.resource)))

-- And the worker's own arguments, with the text of the session.
unfoldable pub worker_args : Config → Bytes → Bytes → List Bytes
unfolding submission hex_encode
worker_args cfg worker text = submission cfg ++ worker ∷ codes "--stdio-loop" ∷ hex_encode text ∷ []

unfoldable pub bkill_args : Bytes → Bytes → List Bytes
unfolding split_command
bkill_args command job_id = command_or (split_command command) (codes "bkill") ++ job_id ∷ []

-- `--stdio-loop` with one argument, or another mode with two.
abbrev pub is_stdio : Bytes → Bool
is_stdio mode = equal mode (codes "--stdio-loop")

abbrev pub expect_backend : Bytes → Session → Outcome Session
expect_backend backend session =
    if equal session.backend backend
    then ok session
    else throw (codes "Expected " ++ (backend ++ codes " session"))

-- `main` of the vwave worker for a backend: the session that it is started with by argv[1] and what
-- follows; `none` where it refuses the arguments.
unfoldable pub vwave_worker_session : Bytes → List Bytes → Option (Outcome Session)
unfolding hex_decode parse_session equal
vwave_worker_session backend (mode ∷ payload ∷ []) =
    if is_stdio mode
    then some (hex_decode payload >>= (λ text. parse_session text >>= expect_backend backend))
    else none
vwave_worker_session backend (mode ∷ payload ∷ dir ∷ []) =
    if equal mode (codes "--serve") || equal mode (codes "--check")
    then some (hex_decode payload >>= (λ text. parse_session text >>= expect_backend backend))
    else none
vwave_worker_session backend _ = none

unfoldable pub vsignal_worker_session : List Bytes → Option (Outcome DesignSession)
unfolding hex_decode parse_design_session equal
vsignal_worker_session (mode ∷ payload ∷ []) =
    if is_stdio mode then some (hex_decode payload >>= parse_design_session) else none
vsignal_worker_session (mode ∷ payload ∷ dir ∷ []) =
    if equal mode (codes "--serve")
    then some (hex_decode payload >>= parse_design_session)
    else none
vsignal_worker_session _ = none
