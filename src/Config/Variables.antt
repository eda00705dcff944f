-- ===== src/Config/Variables.antt =====
-- The variables of the certificates in acmed/src/config.rs.
use acmed.Base.{String, ◌≡◌, refl, Option, none, some, List, [], ◌∷◌, All}
use acmed.Base.Dict.{Dict, get, Distinct, or_else, get-extend}
use acmed.Config.Types
use acmed.Config.Types.{Config, GlobalOptions}
use acmed.Config.Merge.{with_global_env, dispatched, dispatch_global_env_vars}

abbrev pub global_vars : Option GlobalOptions → Dict String
global_vars none = []
global_vars (some g) = g.env

-- A certificate as it was, but for its variables: each is its own, or that of the global section.
pub record Inherits (vars : Dict String) (before after : Types.Certificate) : Type 0 where
  pub kept : after ≡ record before { env = after.env }
  pub variable : (k : String) → get k after.env ≡ or_else (get k before.env) (get k vars)

abbrev pub Each :
    (Types.Certificate → Types.Certificate → Type 0)
    → List Types.Certificate
    → List Types.Certificate
    → Type 0
Each R [] [] = Unit
Each R [] (y ∷ ys) = ⊥
Each R (x ∷ xs) [] = ⊥
Each R (x ∷ xs) (y ∷ ys) = R x y × Each R xs ys

unchanged : (o : Option String) → o ≡ or_else o none
unchanged none = refl
unchanged (some v) = refl

with_global_env-Inherits :
    (vars : Dict String) (cert : Types.Certificate)
    → Distinct cert.env
    → Inherits vars cert (with_global_env vars cert)
unfolding with_global_env get
with_global_env-Inherits [] cert h = record {
  kept = refl;
  variable = λ k. unchanged (get k cert.env);
}
with_global_env-Inherits (v ∷ vars) cert h = record {
  kept = refl;
  variable = λ k. get-extend k (v ∷ vars) cert.env h;
}

dispatched-Inherits :
    (glob : Option GlobalOptions) (certs : List Types.Certificate)
    → All (λ (c : Types.Certificate). Distinct c.env) certs
    → Each (Inherits (global_vars glob)) certs (dispatched glob certs)
unfolding get
dispatched-Inherits none [] h = tt
dispatched-Inherits none (c ∷ certs) h = (
  record { kept = refl; variable = λ k. unchanged (get k c.env) },
  dispatched-Inherits none certs h.1,
)
dispatched-Inherits (some g) [] h = tt
dispatched-Inherits (some g) (c ∷ certs) h =
    (with_global_env-Inherits g.env c h.0, dispatched-Inherits (some g) certs h.1)

-- Where no certificate names a variable twice, each certificate has after the dispatch the
-- variables of the global section and its own, its own value where both name one; nothing else of
-- the certificates changes, and none is lost.
pub dispatch_global_env_vars-Inherits :
    (config : Config)
    → All (λ (c : Types.Certificate). Distinct c.env) config.certificate
    → Each
        (Inherits (global_vars config.global))
        config.certificate
        (dispatch_global_env_vars config).certificate
unfolding dispatch_global_env_vars
dispatch_global_env_vars-Inherits config h = dispatched-Inherits config.global config.certificate h
