-- ===== src/Daemon.antt =====
-- `inner_main` of acmed/src/main.rs up to `run`, once the command line is read.
use acmed.Base.{ℕ, String, Option, List, [], unwrap_or}
use acmed.Base.Result.{Result, ok, err, panic}
use acmed.Base.Exec.{pure, lift, ◌>>=◌, ◌>>◌}
use acmed.Error.{Error}
use acmed.World.Env.{Env}
use acmed.World.Io.{Io}
use acmed.World.System.{System}
use acmed.World.Terminal.{Terminal, Matches}
use acmed.Endpoint.Limits.{Packages}
use acmed.Common.{init_server, clean_pid_file, exit_2}
use acmed.Common.Logs.{set_log_system}
use acmed.MainLoop.Setup.{MainEventLoop}
use acmed.MainLoop.New.{new}

module _ (env : Env) (sys : System) (os : Terminal) (depth : ℕ) (packages : Packages) where
  -- The file of the process goes, whether or not that works.
  unfoldable pub give_up : Option String → Io MainEventLoop
  give_up pid_file w = let (r, w') = clean_pid_file env os pid_file w in (panic "exit 1", w')

  abbrev or_exit : Option String → Result Error MainEventLoop → Io MainEventLoop
  or_exit pid_file (ok srv) = pure srv
  or_exit pid_file (err e) = give_up pid_file
  or_exit pid_file (panic m) = lift (panic m)

  unfoldable pub build_loop : String → List String → Option String → Io MainEventLoop
  build_loop config_file root_certs pid_file w =
      let (r, w') = new env sys depth packages config_file root_certs w in or_exit pid_file r w'

  unfoldable pub inner_main : Matches → Io MainEventLoop
  inner_main matches = do
    level ← lift (matches.get_string "log-level")
    lift (
        exit_2
          (set_log_system os level (matches.get_flag "to-syslog") (matches.get_flag "to-stderr")))
    root_certs ← lift (matches.get_many "root-cert")
    config_file ← lift (matches.get_string "config")
    pid_file ← lift (matches.get_string "pid-file")
    init_server env os (matches.get_flag "foreground") pid_file
    build_loop (unwrap_or config_file sys.build.default_config_file) (unwrap_or root_certs [])
        pid_file
