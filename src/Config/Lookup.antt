-- ===== src/Config/Lookup.antt =====
-- The hooks that a name stands for in acmed/src/config.rs: one hook, or the hooks of a group, which
-- may name groups in turn. Nothing bounds the depth in the source, so it is fuel here.
use acmed.Base.{
  ℕ, zero, suc, String, ◌<>◌, Bool, false, Option, none, some, List, [], ◌∷◌, ◌++◌, ◌==◌, string_eq,
  if◌then◌else◌, unwrap_or,
}
use acmed.Base.Result.{Result, ok, err, panic, ◌>>=◌}
use acmed.Error.{Error, from_text}
use acmed.Config.Types.{Config, Group}
use acmed.Config.Types
use acmed.Hooks
use acmed.Hooks.{HookStdin, no_stdin, file, str}

abbrev pub default_hook_allow_failure : Bool
default_hook_allow_failure = false

abbrev stdin_of : String → Option String → Option String → Result Error HookStdin
stdin_of name (some f) (some s) =
    err (from_text (name <> ": a hook cannot have both stdin and stdin_str"))
stdin_of name (some f) none = ok (file f)
stdin_of name none (some s) = ok (str s)
stdin_of name none none = ok no_stdin

unfoldable pub get_stdin : Types.Hook → Result Error HookStdin
get_stdin hook = stdin_of hook.name hook.stdin hook.stdin_str

-- the hook of `hooks.rs` for one of the configuration
unfoldable pub to_hook : Types.Hook → Result Error Hooks.Hook
to_hook hook = do
  stdin ← get_stdin hook
  ok (record {
    name = hook.name;
    hook_type = hook.hook_type;
    cmd = hook.cmd;
    args = hook.args;
    stdin = stdin;
    stdout = hook.stdout;
    stderr = hook.stderr;
    allow_failure = unwrap_or hook.allow_failure default_hook_allow_failure;
  })

unfoldable pub find_hook : String → List Types.Hook → Option Types.Hook
find_hook name [] = none
find_hook name (hook ∷ more) = if name == hook.name then some hook else find_hook name more

unfoldable pub find_group : String → List Group → Option Group
find_group name [] = none
find_group name (grp ∷ more) = if name == grp.name then some grp else find_group name more

-- the hooks of several names, one after the other
abbrev pub append_all :
    (String → Result Error (List Hooks.Hook)) → List String → Result Error (List Hooks.Hook)
append_all get [] = ok []
append_all get (name ∷ names) = get name >>= λ h. append_all get names >>= λ ret. ok (h ++ ret)

abbrev pub expand :
    (String → Result Error (List Hooks.Hook))
    → String
    → Option Types.Hook
    → Option Group
    → Result Error (List Hooks.Hook)
expand get name (some hook) grp = to_hook hook >>= λ h. ok (h ∷ [])
expand get name none (some grp) = append_all get grp.hooks
expand get name none none = err (from_text (name <> ": hook not found"))

-- Fuel that runs out stands for a stack that does.
unfoldable pub get_hook : Config → ℕ → String → Result Error (List Hooks.Hook)
get_hook cnf zero name = panic "stack overflow"
get_hook cnf (suc fuel) name =
    expand (get_hook cnf fuel) name (find_hook name cnf.hook) (find_group name cnf.group)

-- `get_hooks` of an account and of a certificate
unfoldable pub account_hooks : Config → ℕ → Types.Account → Result Error (List Hooks.Hook)
account_hooks cnf fuel a = elim a.hooks [ some h ↦ append_all (get_hook cnf fuel) h | none ↦ ok [] ]

unfoldable pub certificate_hooks : Config → ℕ → Types.Certificate → Result Error (List Hooks.Hook)
certificate_hooks cnf fuel c = append_all (get_hook cnf fuel) c.hooks
