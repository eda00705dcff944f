-- ===== src/Tests/Commands.antt =====
-- Runs of the theorems on hooks.
use acmed.Base.{String, ◌≡◌, ◌↔◌, refl, Bool, false, Option, none, some, List, [], ◌∷◌}
use acmed.Base.Result.{ok}
use acmed.Error.{Error}
use acmed.Config.Types.{HookType, post_operation, file_pre_edit}
use acmed.World.{World}
use acmed.World.Env.{TemplateData, file_storage}
use acmed.Hooks.{Hook, HookStdin, no_stdin, file, call}
use acmed.Hooks.Order.{Ran, Stopped, of_type, call_iff, call-Stopped}
use acmed.Tests.Outside.{outside, machine}

abbrev hook : String → HookStdin → HookType → Hook
hook name stdin t = record {
  name = name;
  hook_type = t ∷ [];
  cmd = "true";
  args = none;
  stdin = stdin;
  stdout = none;
  stderr = none;
  allow_failure = false;
}

-- the third hook reads a file that does not exist
abbrev hooks : List Hook
hooks =
    hook "a" no_stdin post_operation
    ∷ hook "b" no_stdin file_pre_edit
    ∷ hook "c" (file "/absent") post_operation
    ∷ hook "d" no_stdin post_operation
    ∷ []

abbrev data_in : TemplateData
data_in = file_storage (record { file_name = ""; file_directory = ""; file_path = ""; env = [] })

call_iff_example :
    (call outside hooks data_in file_pre_edit machine
      ≡ (ok tt, (call outside hooks data_in file_pre_edit machine).1))
    ↔ Ran outside data_in
        (of_type file_pre_edit hooks)
        machine
        (call outside hooks data_in file_pre_edit machine).1
call_iff_example =
    call_iff outside data_in hooks file_pre_edit machine
      (call outside hooks data_in file_pre_edit machine).1

abbrev failure : Error
failure = record { message = "c: /absent: IO error: No such file or directory (os error 2)" }

call-Stopped_example :
    Stopped outside data_in
      (of_type post_operation hooks)
      machine
      (call outside hooks data_in post_operation machine).1
      failure
unfolding call acmed.Config.Types.hook_type_beq acmed.Base.Exec.◌>>=◌ acmed.Hooks.call_single
    acmed.Hooks.render_args acmed.Hooks.get_hook_output acmed.World.Io.attempt_io acmed.World.Io.log
    acmed.Hooks.feed_stdin acmed.Hooks.check_exit acmed.Hooks.render_template
    acmed.World.Io.open_file acmed.Error.prefix
call-Stopped_example =
    call-Stopped outside data_in hooks post_operation machine
      (call outside hooks data_in post_operation machine).1 failure refl
