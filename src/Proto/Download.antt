-- ===== src/Proto/Download.antt =====
-- What a request of a certificate that succeeds has written.
use acmed.Base.{String, ◌≡◌}
use acmed.Base.Result.{Result}
use acmed.Base.Exec.Ensures.{Ensures, Ensures-map_err}
use acmed.Error.{Error}
use acmed.Structs.Order.{Order}
use acmed.World.Env.{Env}
use acmed.Http.Client.{Net, M, ValidHttpResponse, in_err}
use acmed.Http.Answer.{Answers}
use acmed.Storage.Paths.{FullPath, certificate}
use acmed.Storage.Files.{file_mode}
use acmed.Storage.Write.{with_file, stored}
use acmed.Account.Sync.{Sys, on_net}
use acmed.Certificate.{Certificate}
use acmed.Proto.Order.{on_endpoint}

abbrev pub net_of : Sys → Net
net_of s = record { endpoint = s.endpoint; world = s.world }

pub on_endpoint_ensures :
    {A : Type 0} {Q : A → Net → Type 0} (m : M A)
    → Ensures (λ _. Unit) m Q
    → Ensures (λ _. Unit) (on_endpoint m) (λ a s. Q a (net_of s))
unfolding on_endpoint on_net
on_endpoint_ensures m h =
    Ensures-map_err in_err _ (record { at = λ s _ a e. h.at (net_of s) tt a e })

-- The text of a certificate is the body of the newest response, which had a success status.
abbrev Body : Env → String → Sys → Type 0
Body env crt s = (v : ValidHttpResponse) × Answers env v (net_of s) × (v.body ≡ crt)

-- The certificate was downloaded, in the state `reached`, and then written.
pub record Renewed (env : Env) (cert : Certificate) (full : FullPath) (u : Sys) : Type 0 where
  pub reached : Sys
  pub response : ValidHttpResponse
  pub answers : Answers env response (net_of reached)
  pub written :
      u.world.files
      ≡ with_file full.path
          (stored
            (file_mode cert.file_manager certificate)
            (env.as_bytes response.body)
            (reached.world.files full.path))
          reached.world.files
