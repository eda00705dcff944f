-- ===== src/Config/Identified.antt =====
-- What the identifiers of a configuration that acmed/src/config.rs has read are.
use acmed.Base.{
  ℕ, zero, suc, String, Bool, true, false, ◌≡◌, refl, subst, Option, none, some, List, [], ◌∷◌, map,
  all, All, All-append, All-mono, arith, number_eq,
}
use acmed.Base.Result
use acmed.Base.Result.{Result, ok, err, panic, >>=-eq-ok}
use acmed.Base.Dict.{Dict}
use acmed.Base.Exec.{Exec, ◌>>=◌}
use acmed.Base.Exec.Ensures.{Ensures, Ensures-pure, Ensures-lift, Ensures-bind, Ensures-any}
use acmed.Error.{Error}
use acmed.World.{World}
use acmed.World.Env.{Env}
use acmed.World.System.{System}
use acmed.Identifier
use acmed.Structs.Identifier.{IdentifierType}
use acmed.Config.Types
use acmed.Config.Types.{Config}
use acmed.Config.Options.{to_identifier}
use acmed.Config.Merge.{empty_config, append, with_global_env, dispatched, dispatch_global_env_vars}
use acmed.Config.Toml.{filled_nb, is_deserialized, check_identifiers, checked, from_str}
use acmed.Config.Reading.{
  Reading, get_cnf_path, add_files, add_included, load_file, load_once, read_path, read_cnf,
  read_all, from_file, init_directories,
}

-- Every identifier of every certificate is given by one of its two names.
abbrev pub Identified : Config → Type 0
Identified config =
    All (λ (crt : Types.Certificate). all is_deserialized crt.identifiers ≡ true) config.certificate

of_check :
    (certs : List Types.Certificate)
    → all (λ (crt : Types.Certificate). all is_deserialized crt.identifiers) certs ≡ true
    → All (λ (crt : Types.Certificate). all is_deserialized crt.identifiers ≡ true) certs
of_check [] h = tt
of_check (c ∷ certs) h = (ground (arith), of_check certs (ground (arith)))

from_str-Identified :
    (sys : System) (text : String) (config : Config)
    → from_str sys text ≡ ok config
    → Identified config
unfolding from_str check_identifiers
from_str-Identified sys text config h =
    let (c, got, rest) = >>=-eq-ok (sys.from_toml text) _ h in
    of_checked c (check_identifiers c) refl rest
  where
    of_checked :
        (c : Config) (b : Bool)
        → check_identifiers c ≡ b
        → checked sys text c b ≡ ok config
        → Identified config
    of_checked c true e p =
        let same : c ≡ config = cc p in subst Identified same (of_check c.certificate e)
    of_checked c false e p = absurd (cc)

empty-Identified : Identified empty_config
unfolding empty_config
empty-Identified = tt

append-Identified :
    (config add_cnf : Config)
    → Identified config
    → Identified add_cnf
    → Identified (append config add_cnf)
unfolding append
append-Identified config add_cnf h k = All-append _ config.certificate add_cnf.certificate h k

with_global_env-identifiers :
    (vars : Dict String) (crt : Types.Certificate)
    → (with_global_env vars crt).identifiers ≡ crt.identifiers
unfolding with_global_env
with_global_env-identifiers [] crt = refl
with_global_env-identifiers (v ∷ vars) crt = refl

mapped-Identified :
    (vars : Dict String) (certs : List Types.Certificate)
    → All (λ (crt : Types.Certificate). all is_deserialized crt.identifiers ≡ true) certs
    → All
        (λ (crt : Types.Certificate). all is_deserialized crt.identifiers ≡ true)
        (map (with_global_env vars) certs)
mapped-Identified vars [] h = tt
mapped-Identified vars (c ∷ certs) h =
    (rw (with_global_env-identifiers vars c) h.0, mapped-Identified vars certs h.1)

dispatched-Identified :
    (config : Config) → Identified config → Identified (dispatch_global_env_vars config)
unfolding dispatch_global_env_vars
dispatched-Identified config h = of_global config.global
  where
    of_global :
        (global : Option Types.GlobalOptions)
        → All
            (λ (crt : Types.Certificate). all is_deserialized crt.identifiers ≡ true)
            (dispatched global config.certificate)
    of_global none = h
    of_global (some g) = mapped-Identified g.env config.certificate h

of_map_err :
    {E F A : Type 0} (f : E → F) (r : Result E A) (a : A) → Result.map_err f r ≡ ok a → r ≡ ok a
of_map_err f (ok x) a e = cc
of_map_err f (err x) a e = absurd (cc)
of_map_err f (panic x) a e = absurd (cc)

abbrev Returns : {S A : Type 0} → (A → Type 0) → Exec S Error A → Type 0
Returns Q m = Ensures (λ _. Unit) m (λ a _. Q a)

module _ {S A B : Type 0} {Q : B → Type 0} where
  and_then :
      (R : A → Type 0) (m : Exec S Error A) (f : A → Exec S Error B)
      → Returns R m
      → ((a : A) → R a → Returns Q (f a))
      → Returns Q (m >>= f)
  and_then R m f h k = Ensures-bind (λ a _. R a) m f h λ a. record { at = λ s r. (k a r).at s tt }

  whatever :
      (m : Exec S Error A) (f : A → Exec S Error B)
      → ((a : A) → Returns Q (f a))
      → Returns Q (m >>= f)
  whatever m f k = and_then (λ _. Unit) m f (Ensures-any m) λ a _. k a

module _ (env : Env) (sys : System) where
  module _ (read_file : String → Exec Reading Error Config)
      (reads : (path : String) → Returns Identified (read_file path)) where
    add_files-Identified :
        (config : Config) (paths : List String)
        → Identified config
        → Returns Identified (add_files env sys read_file config paths)
    unfolding add_files
    add_files-Identified config [] h = Ensures-pure config λ s _. h
    add_files-Identified config (path ∷ paths) h =
        and_then Identified (read_file path) _ (reads path)
          λ c k. add_files-Identified (append config c) paths (append-Identified config c h k)

    add_included-Identified :
        (path : String) (config : Config) (names : List String)
        → Identified config
        → Returns Identified (add_included env sys read_file path config names)
    unfolding add_included
    add_included-Identified path config [] h = Ensures-pure config λ s _. h
    add_included-Identified path config (name ∷ names) h =
        whatever (get_cnf_path env sys path name) _ λ paths.
          and_then Identified _ _ (add_files-Identified config paths h)
            λ c k. add_included-Identified path c names k

    load_once-Identified :
        (path : String) (loaded : Bool)
        → Returns Identified (load_once env sys read_file path loaded)
    unfolding load_once load_file
    load_once-Identified path true = Ensures-pure empty_config λ s _. empty-Identified
    load_once-Identified path false = whatever _ _ λ _. whatever _ _ λ contents.
        and_then Identified _ _
          (Ensures-lift _ λ s c _ e. from_str-Identified sys contents c (of_map_err _ _ c e))
          λ c k. add_included-Identified path c c.included k

    read_path-Identified : (path : String) → Returns Identified (read_path env sys read_file path)
    unfolding read_path
    read_path-Identified path =
        whatever _ _
          λ found. whatever _ _ λ path. whatever _ _ λ loaded. load_once-Identified path loaded

  read_cnf-Identified :
      (depth : ℕ) (path : String) → Returns Identified (read_cnf env sys depth path)
  unfolding read_cnf
  read_cnf-Identified zero path = Ensures-lift _ λ s c _ e. absurd (cc)
  read_cnf-Identified (suc depth) path =
      read_path-Identified (read_cnf env sys depth) (read_cnf-Identified depth) path

  read_all-Identified :
      (depth : ℕ) (path : String) → Returns Identified (read_all env sys depth path)
  unfolding read_all
  read_all-Identified depth path = record {
    at = λ w _ config e. (read_cnf-Identified depth path).at _ tt config e;
  }

  from_file-Identified :
      (depth : ℕ) (file_name : String) → Returns Identified (from_file env sys depth file_name)
  unfolding from_file
  from_file-Identified depth file_name =
      and_then Identified (read_all env sys depth file_name) _ (read_all-Identified depth file_name)
        λ config h.
          whatever (init_directories env sys (dispatch_global_env_vars config)) _
            λ _. Ensures-pure _ λ w _. dispatched-Identified config h

-- An identifier has a domain name or an address, not both, and is made from the one it has.
pub data Named (env : Env) (id : Types.Identifier) : Type 0 where
  by_dns :
      (d : String)
      → id.dns ≡ some d
      → id.ip ≡ none
      → to_identifier env id ≡ Identifier.new env IdentifierType.dns d id.challenge id.env
      → Named env id
  by_ip :
      (a : String)
      → id.dns ≡ none
      → id.ip ≡ some a
      → to_identifier env id ≡ Identifier.new env IdentifierType.ip a id.challenge id.env
      → Named env id

id-Named :
    (env : Env) (id : Types.Identifier) (d a : Option String)
    → id.dns ≡ d
    → id.ip ≡ a
    → is_deserialized id ≡ true
    → Named env id
unfolding is_deserialized filled_nb to_identifier
id-Named env id (some d) none p q h = by_dns d p q (rw p refl)
id-Named env id none (some a) p q h = by_ip a p q (rw p (rw q refl))
id-Named env id (some d) (some a) p q h = absurd (ground arith)
id-Named env id none none p q h = absurd (ground arith)

all-Named :
    (env : Env) (ids : List Types.Identifier) → all is_deserialized ids ≡ true → All (Named env) ids
all-Named env [] h = tt
all-Named env (id ∷ ids) h =
    (id-Named env id id.dns id.ip refl refl (ground arith), all-Named env ids (ground arith))

-- When the configuration is read without an error, from however many files, each identifier of
-- each certificate has a domain name or an address, not both, and `to_generic` makes it from the
-- one it has: its error "no identifier found" never occurs.
pub from_file-Named :
    (env : Env) (sys : System) (depth : ℕ) (file_name : String) (w : World) (config : Config)
    → (from_file env sys depth file_name w).0 ≡ ok config
    → All (λ (crt : Types.Certificate). All (Named env) crt.identifiers) config.certificate
from_file-Named env sys depth file_name w config read =
    All-mono (λ crt h. all-Named env crt.identifiers h) config.certificate
      ((from_file-Identified env sys depth file_name).at w tt config read)
