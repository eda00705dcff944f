-- ===== src/Common.antt =====
-- acme_common/src/logs.rs and the start of a server in acme_common/src/lib.rs. An exit of the process
-- is a panic with the text of its status.
pub mod Logs
use acmed.Base.{String, ◌<>◌, Bool, true, false, Option, none, some}
use acmed.Base.Result
use acmed.Base.Result.{Result, ok, err, panic}
use acmed.Base.Exec.{Exec, pure, lift, gets, modify, ◌>>=◌, ◌>>◌, map_err}
use acmed.Error.{Error, prefix, from_text, from_io}
use acmed.World.{World, removed, delete_file}
use acmed.World.Env.{Env}
use acmed.World.Io.{Io, create_file, write_all, check_io, log}
use acmed.World.Terminal.{Terminal, LevelFilter}
use acmed.Common.Logs.{LogSystem}

-- `exit_match!`
abbrev exit_on : {A : Type 0} → Result Error A → Result Error (Unit {0})
exit_on (ok a) = ok tt
exit_on (err e) = panic "exit 3"
exit_on (panic m) = panic m

unfoldable pub exit_match : {A : Type 0} → Io A → Io (Unit {0})
exit_match m w = let (r, w') = m w in (exit_on r, w')

-- A program that cannot log exits with the status 2.
abbrev pub exit_2 : Result Error (LogSystem × LevelFilter) → Result Error (Unit {0})
exit_2 (ok _) = ok tt
exit_2 (err e) = panic "exit 2"
exit_2 (panic m) = panic m

module _ (env : Env) (os : Terminal) where
  unfoldable pub write_pid_file : String → Io (Unit {0})
  write_pid_file pid_file = do
    create_file env pid_file
    write_all env pid_file (env.as_bytes (os.process_id <> "\n"))
    failed ← gets (λ w. os.sync_all w pid_file)
    lift (check_io failed)

  start_daemon : Option String → Io (Unit {0})
  start_daemon pid_file = map_err from_text (os.daemonize pid_file)

  unfoldable pub init_server : Bool → Option String → Io (Unit {0})
  unfolding start_daemon
  init_server false pid_file = exit_match (start_daemon pid_file)
  init_server true (some f) = exit_match (map_err (prefix f) (write_pid_file f))
  init_server true none = pure tt

  -- `fs::remove_file`
  unfoldable pub remove_file : String → Io (Unit {0})
  remove_file path = do
    failed ← gets (λ w. os.remove_file w path)
    lift (check_io failed)
    modify (delete_file path)
    log (removed path)

  unfoldable pub clean_pid_file : Option String → Io (Unit {0})
  clean_pid_file none = pure tt
  clean_pid_file (some f) = remove_file f
