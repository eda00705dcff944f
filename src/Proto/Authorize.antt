-- ===== src/Proto/Authorize.antt =====
-- The authorizations of `request_certificate` in acmed/src/acme_proto.rs.
use acmed.Base.{String, ◌<>◌, Bool, not, none, List, [], ◌∷◌, ◌++◌, if◌then◌else◌}
use acmed.Base.Exec.{Exec, pure, fail, lift, gets, ◌>>=◌, ◌>>◌}
use acmed.Error.{Error, from_text}
use acmed.Config.Types.{HookType}
use acmed.Structs.Identifier
use acmed.Structs.Identifier.{describe}
use acmed.Structs.Authorization
use acmed.Structs.Authorization.{Authorization, get_url, get_file_name, status_to_string, matches}
use acmed.World.{Bytes}
use acmed.World.Env.{Env, ChallengeHookData}
use acmed.Account.Sync.{Sys, on_world, post_jose_no_response}
use acmed.Certificate.{
  Certificate, get_identifier_from_str, call_challenge_hooks, call_challenge_hooks_clean,
}
use acmed.Proto.Proof.{get_proof}
use acmed.Proto.Http.{get_authorization, pool_authorization}
use acmed.Proto.Order.{on_endpoint, builder}

-- what a hook of a challenge was called with, and the type of the hook that cleans up
abbrev pub HookDatas : Type 0
HookDatas = List (ChallengeHookData × HookType)

-- b"{}"
abbrev pub empty_object : Bytes
empty_object = b'{' ∷ b'}' ∷ []

abbrev pub is_valid : Authorization → Bool
is_valid a = Authorization.is_valid a.status

module _ (env : Env) (cert : Certificate) (endpoint_name : String) where
  -- one challenge of the type at hand: its hook is called, and the server told
  unfoldable pub complete :
      Authorization → Authorization.Challenge → HookDatas → Exec Sys Error HookDatas
  complete auth challenge hook_datas = do
    account ← gets (λ s. s.account)
    proof ← lift (get_proof env challenge account.current_key.key)
    called ←
        on_world
          (call_challenge_hooks env cert (get_file_name challenge) proof auth.identifier.value)
    let hook_data = record (called.0) { is_clean_hook = Bool.true }
    make ← builder env endpoint_name empty_object
    on_endpoint (post_jose_no_response env make (get_url challenge) none)
    pure (hook_datas ++ ((hook_data, called.1) ∷ []))

  unfoldable pub complete_all :
      Identifier.Challenge
      → Authorization
      → List Authorization.Challenge
      → HookDatas
      → Exec Sys Error HookDatas
  complete_all current auth [] hook_datas = pure hook_datas
  complete_all current auth (challenge ∷ more) hook_datas = do
    hook_datas ←
        if matches current challenge then complete auth challenge hook_datas else pure hook_datas
    complete_all current auth more hook_datas

  unfoldable pub clean_all : HookDatas → Exec Sys Error (Unit {0})
  clean_all [] = pure tt
  clean_all ((hook_data, hook_type) ∷ more) = do
    on_world (call_challenge_hooks_clean env cert hook_data hook_type)
    clean_all more

  -- an authorization that is pending
  unfoldable pub prove : String → Authorization → HookDatas → Exec Sys Error HookDatas
  prove auth_url auth hook_datas = do
    current ← lift (get_identifier_from_str cert auth.identifier.value)
    hook_datas ← complete_all current.challenge auth auth.challenges hook_datas
    make ← builder env endpoint_name []
    on_endpoint (pool_authorization env make is_valid auth_url)
    clean_all hook_datas
    pure []

  unfoldable pub authorize_if : String → Authorization → HookDatas → Exec Sys Error HookDatas
  authorize_if auth_url auth hook_datas =
      if is_valid auth
      then pure hook_datas
      else if not (Authorization.is_pending auth.status)
      then fail (
          from_text (
            describe auth.identifier
            <> (": authorization status is " <> status_to_string auth.status)))
      else prove auth_url auth hook_datas

  unfoldable pub authorize : String → HookDatas → Exec Sys Error HookDatas
  authorize auth_url hook_datas = do
    make ← builder env endpoint_name []
    auth ← on_endpoint (get_authorization env make auth_url)
    authorize_if auth_url auth hook_datas

  unfoldable pub authorize_all : List String → HookDatas → Exec Sys Error (Unit {0})
  authorize_all [] hook_datas = pure tt
  authorize_all (auth_url ∷ more) hook_datas = do
    hook_datas ← authorize auth_url hook_datas
    authorize_all more hook_datas
