-- ===== src/Daemon.antt =====
-- src_common/daemon.h: what the parent of a server does. A round of a loop sees what waitpid, stat,
-- the server and kill give in it.
pub mod Launch
use tool_debug.Common.{
  ◌*◌, ℕ, zero, suc, Bytes, codes, List, [], ◌∷◌, ◌++◌, ℤ, pos, ltb_ℤ, Bool, true, false, not, ◌&&◌,
  ◌||◌, Option, none, some, if◌then◌else◌, is_empty,
}
use tool_debug.Common.Decimal.{to_string}
use tool_debug.Lsf.{find}
use tool_debug.RunDir.{RunDir, World, Host, socket_path, log_path, read_pid, is_server_alive}

pub record LaunchConfig : Type 0 where
  pub log_tag : Bytes
  pub timeout_sec : ℕ
  pub json_mode : Bool

-- One round of the parent's loop: whether waitpid says that the child ended, whether stat finds the
-- socket, and what send_fn gives then.
pub record Observed : Type 0 where
  pub ended : Bool
  pub has_socket : Bool
  pub reply : Bytes

-- The exit code, with what goes to stdout and to stderr.
pub record Launched : Type 0 where
  pub code : ℕ
  pub out : Bytes
  pub err : Bytes

abbrev pub is_found : Option (Bytes × Bytes) → Bool
is_found none = false
is_found (some _) = true

abbrev pub contains_text : Bytes → Bytes → Bool
contains_text key text = is_found (find key text)

-- `!resp.empty() && resp.find("\"ok\"") != npos`
unfoldable pub answers_ok : Bytes → Bool
unfolding find
answers_ok resp = not (is_empty resp) && contains_text (codes "\"ok\"") resp

-- How the loop of at most so many rounds ends.
pub data Polled : Type 0 where
  child_ended ready not_ready : Polled

-- A round that is not observed sees nothing.
unfoldable pub poll_loop : ℕ → List Observed → Polled
unfolding answers_ok
poll_loop zero rounds = not_ready
poll_loop (suc n) [] = not_ready
poll_loop (suc n) (seen ∷ rounds) =
    let next = poll_loop n rounds in
    if seen.ended
    then child_ended
    else if seen.has_socket && answers_ok seen.reply
    then ready
    else next

-- The lines of the log that are shown: those with ERROR or Hint:.
unfoldable pub shown_lines : List Bytes → Bytes
unfolding find
shown_lines [] = []
shown_lines (line ∷ lines) =
    let rest = shown_lines lines in
    if contains_text (codes "ERROR") line || contains_text (codes "Hint:") line
    then codes "  " ++ (line ++ (b'\n' ∷ rest))
    else rest

abbrev pub loading : ℤ → LaunchConfig → Launched
loading pid cfg =
    if cfg.json_mode
    then record {
      code = 2;
      out =
          codes "{\"status\":\"loading\",\"message\":\"Server still starting\",\"pid\":"
          ++ (to_string pid
              ++ (codes ",\"timeout\":" ++ (to_string (pos cfg.timeout_sec) ++ codes "}\n")));
      err = [];
    }
    else record {
      code = 2;
      out = [];
      err =
          codes "Warning: Server still loading (PID "
          ++ (to_string pid
              ++ (codes ", waited "
                  ++ (to_string (pos cfg.timeout_sec)
                      ++ (codes "s).\nUse '"
                          ++ (cfg.log_tag ++ codes " status' to check when ready.\n")))));
    }

abbrev pub loaded : RunDir → ℤ → LaunchConfig → Launched
loaded rd pid cfg =
    if cfg.json_mode
    then record {
      code = 0;
      out =
          codes "{\"status\":\"ok\",\"message\":\"Loaded\",\"pid\":"
          ++ (to_string pid
              ++ (codes ",\"socket\":\""
                  ++ (socket_path rd
                      ++ (codes "\",\"log\":\"" ++ (log_path rd ++ codes "\"}\n")))));
      err = [];
    }
    else record {
      code = 0;
      out =
          codes "Loaded (PID "
          ++ (to_string pid
              ++ (codes ")\n  Socket: "
                  ++ (socket_path rd ++ (codes "\n  Log:    " ++ (log_path rd ++ codes "\n")))));
      err = [];
    }

abbrev pub exited : RunDir → Bytes → Launched
exited rd text = record {
  code = 1;
  out = [];
  err = text ++ (codes "Check log: " ++ (log_path rd ++ codes "\n"));
}

-- What the parent makes of it; `running` is whether waitpid after the loop finds the child alive,
-- and the log is read when the child has ended.
abbrev pub after_polls : RunDir → ℤ → LaunchConfig → List Bytes → Bool → Polled → Launched
after_polls rd pid cfg log running child_ended =
    exited rd (codes "Error: Server process exited unexpectedly.\n" ++ shown_lines log)
after_polls rd pid cfg log running ready = loaded rd pid cfg
after_polls rd pid cfg log running not_ready =
    if running
    then loading pid cfg
    else exited rd (codes "Error: Server process exited during startup.\n")

-- `fork_and_wait` once the child runs.
unfoldable pub wait_for_server :
    RunDir → ℤ → LaunchConfig → List Observed → List Bytes → Bool → Launched
unfolding poll_loop shown_lines socket_path log_path
wait_for_server rd pid cfg rounds log running =
    after_polls rd pid cfg log running (poll_loop (cfg.timeout_sec * 10) rounds)

-- The loop of `shutdown_server`: whether the server is gone within so many rounds, by the state of
-- the files and of the processes in each.
unfoldable pub gone_loop : ℕ → RunDir → List (Host × World) → Bool
unfolding is_server_alive
gone_loop zero rd rounds = false
gone_loop (suc n) rd [] = false
gone_loop (suc n) rd ((host, w) ∷ rounds) =
    let later = gone_loop n rd rounds in if is_server_alive host rd w then later else true

-- `shutdown_server` after the request: the process that is killed, if any.
unfoldable pub shutdown_kill : RunDir → List (Host × World) → World → Option ℤ
unfolding gone_loop read_pid
shutdown_kill rd rounds w =
    let pid = read_pid rd w in
    if gone_loop 30 rd rounds then none else if ltb_ℤ (pos 0) pid then some pid else none
