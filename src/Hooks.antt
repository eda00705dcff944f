-- ===== src/Hooks.antt =====
-- acmed/src/hooks.rs: the commands that the operator hangs on the program's operations.
pub mod Order
use acmed.Base.{
  ℕ, String, ◌<>◌, Bool, not, ◌&&◌, Option, none, some, List, [], ◌∷◌, contains, if◌then◌else◌,
  show,
}
use acmed.Base.Result
use acmed.Base.Result.{Result, ok, err, collect}
use acmed.Base.Exec.{Exec, pure, fail, lift, gets, modify, ◌>>=◌, ◌>>◌, map_err}
use acmed.Base.Dict.{Dict, extend}
use acmed.Error.{Error, from_text, from_minijinja, from_io, prefix}
use acmed.Config.Types.{HookType, hook_type_eq}
use acmed.World.{World, Stdio, Command, spawned, fed}
use acmed.World.Env.{
  Env, TemplateData, post_operation, challenge, file_storage, cert_file, ExitStatus, spawn, feed,
  wait,
}
use acmed.World.Io.{Io, log, attempt_io, open_file, create_file}

pub data HookStdin : Type 0 where
  file str : String → HookStdin
  no_stdin : HookStdin

pub record Hook : Type 0 where
  pub name : String
  pub hook_type : List HookType
  pub cmd : String
  pub args : Option (List String)
  pub stdin : HookStdin
  pub stdout : Option String
  pub stderr : Option String
  pub allow_failure : Bool

-- `HookEnvData::set_env`: the variables of the process, then those given, over what is there.
unfoldable pub set_env : Env → Dict String → Dict String → Dict String
set_env env given own = extend (extend own env.vars) given

-- `HookEnvData::get_env`
abbrev get_env : TemplateData → Dict String
get_env (post_operation d) = d.env
get_env (challenge d) = d.env
get_env (file_storage d) = d.env
get_env (cert_file _) = []

module _ (env : Env) where
  -- template.rs
  unfoldable pub render_template : String → TemplateData → Result Error String
  render_template template d = Result.map_err from_minijinja (env.render template d)

  -- `get_hook_output!`
  unfoldable pub get_hook_output : Option String → TemplateData → Io Stdio
  get_hook_output none d = pure Stdio.null
  get_hook_output (some path) d = do
    name ← lift (render_template path d)
    create_file env name
    pure (Stdio.to_file name)

  abbrev stdin_of : HookStdin → Stdio
  stdin_of (str _) = Stdio.piped
  stdin_of (file _) = Stdio.piped
  stdin_of no_stdin = Stdio.null

  unfoldable pub render_args : Option (List String) → TemplateData → Result Error (List String)
  render_args none d = ok []
  render_args (some args) d = collect (λ fmt. render_template fmt d) args

  write_stdin : String → String → Io (Unit {0})
  write_stdin cmd text = do attempt_io env (feed cmd); log (fed text)

  write_lines : String → List String → Io (Unit {0})
  write_lines cmd [] = pure tt
  write_lines cmd (line ∷ more) = do write_stdin cmd (line <> "\n"); write_lines cmd more

  unfoldable pub feed_stdin : String → HookStdin → TemplateData → Io (Unit {0})
  unfolding write_stdin write_lines
  feed_stdin cmd no_stdin d = pure tt
  feed_stdin cmd (str s) d = do data_in ← lift (render_template s d); write_stdin cmd data_in
  feed_stdin cmd (file f) d = do
    file_name ← lift (render_template f d)
    content ← map_err (prefix file_name) (open_file env file_name)
    lines ← lift (Result.map_err from_io (env.lines content))
    write_lines cmd lines

  abbrev failure_message : Option ℕ → String
  failure_message (some code) = "unrecoverable failure: code " <> show code
  failure_message none = "unrecoverable failure"

  unfoldable pub check_exit : Bool → ExitStatus → Result Error (Unit {0})
  check_exit allow_failure status =
      if not status.success && not allow_failure
      then err (from_text (failure_message status.code))
      else ok tt

  unfoldable pub call_single : TemplateData → Hook → Io (Unit {0})
  call_single d hook = do
    args ← lift (render_args hook.args d)
    stdout ← get_hook_output hook.stdout d
    stderr ← get_hook_output hook.stderr d
    let command : Command = record {
      cmd = hook.cmd;
      envs = get_env d;
      args = args;
      stdout = stdout;
      stderr = stderr;
      stdin = stdin_of hook.stdin;
    }
    attempt_io env (spawn hook.cmd)
    log (spawned command)
    feed_stdin hook.cmd hook.stdin d
    attempt_io env (wait hook.cmd)
    modify (λ w. record w { files = env.files_after w command })
    status ← gets (λ w. env.exit_status w command)
    lift (check_exit hook.allow_failure status)

  -- The loop of `call`: a hook of another type is passed over, and the first failure ends it.
  unfoldable pub call : List Hook → TemplateData → HookType → Io (Unit {0})
  call [] d hook_type = pure tt
  call (hook ∷ hooks) d hook_type =
      let rest = call hooks d hook_type in
      if contains hook.hook_type hook_type
      then map_err (prefix hook.name) (call_single d hook) >> rest
      else rest
