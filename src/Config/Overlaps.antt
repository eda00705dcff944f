-- ===== src/Config/Overlaps.antt =====
-- Which file of acmed/src/config.rs an option of the global section comes from, where several files
-- have such a section.
use acmed.Base.{String, ◌≡◌, refl, ap, ◌∙◌, Option, none, some, List, [], ◌∷◌, map, subst}
use acmed.Base.Result.{Result, ok, err, panic}
use acmed.Error.{Error}
use acmed.World.Env.{Env}
use acmed.World.System.{System}
use acmed.Config.Types.{Config, GlobalOptions}
use acmed.Config.Merge.{set_cfg_attr, merge_options, merge_global, append}
use acmed.Config.Included.{append_files, included_files, add_included-included_files, mapped}
use acmed.Base.Exec.{Exec}
use acmed.Config.Reading.{Reading, add_included}

-- the last option that is set, and the given one where none is
abbrev pub last_set : {A : Type 0} → Option A → List (Option A) → Option A
last_set a [] = a
last_set a (o ∷ os) = last_set (set_cfg_attr a o) os

-- the first global section that there is
abbrev pub first_section : Option GlobalOptions → List (Option GlobalOptions) → Option GlobalOptions
first_section (some g) gs = some g
first_section none [] = none
first_section none (g ∷ gs) = first_section g gs

abbrev pub option_of : {A : Type 0} → (GlobalOptions → Option A) → Option GlobalOptions → Option A
option_of field none = none
option_of field (some g) = field g

abbrev pub field_of : {A : Type 0} → (GlobalOptions → A) → Option GlobalOptions → Option A
field_of field none = none
field_of field (some g) = some (field g)

abbrev sections : List Config → List (Option GlobalOptions)
sections files = map (λ (f : Config). f.global) files

abbrev pub LastOf :
    {A : Type 0} → (GlobalOptions → Option A) → Config → List Config → Config → Type 0
LastOf field config files merged =
    option_of field merged.global
    ≡ last_set (option_of field config.global) (map (option_of field) (sections files))

abbrev pub FirstOf : {A : Type 0} → (GlobalOptions → A) → Config → List Config → Config → Type 0
FirstOf field config files merged =
    field_of field merged.global ≡ field_of field (first_section config.global (sections files))

module _ {A : Type 0} (field : GlobalOptions → Option A) where
  option-merge :
      ((g h : GlobalOptions) → field (merge_options g h) ≡ set_cfg_attr (field g) (field h))
      → (g h : Option GlobalOptions)
      → option_of field (merge_global g h) ≡ set_cfg_attr (option_of field g) (option_of field h)
  unfolding merge_global
  option-merge over none none = refl
  option-merge over none (some h) = set-none (field h)
    where
      set-none : (o : Option A) → o ≡ set_cfg_attr none o
      set-none none = refl
      set-none (some v) = refl
  option-merge over (some g) none = refl
  option-merge over (some g) (some h) = over g h

  last :
      ((g h : GlobalOptions) → field (merge_options g h) ≡ set_cfg_attr (field g) (field h))
      → (config : Config) (files : List Config)
      → LastOf field config files (append_files config files)
  unfolding append_files append
  last over config [] = refl
  last over config (f ∷ files) =
      last over (append config f) files
      ∙ ap (λ o. last_set o (map (option_of field) (sections files)))
          (option-merge over config.global f.global)

module _ {A : Type 0} (field : GlobalOptions → A) where
  field-merge :
      ((g h : GlobalOptions) → field (merge_options g h) ≡ field g)
      → (g h : Option GlobalOptions) (gs : List (Option GlobalOptions))
      → field_of field (first_section (merge_global g h) gs)
        ≡ field_of field (first_section g (h ∷ gs))
  unfolding merge_global
  field-merge kept none none gs = refl
  field-merge kept none (some h) gs = refl
  field-merge kept (some g) none gs = refl
  field-merge kept (some g) (some h) gs = rw (kept g h) refl

  first :
      ((g h : GlobalOptions) → field (merge_options g h) ≡ field g)
      → (config : Config) (files : List Config)
      → FirstOf field config files (append_files config files)
  unfolding append_files append
  first kept config [] = first-none config.global
    where
      first-none :
          (g : Option GlobalOptions) → field_of field g ≡ field_of field (first_section g [])
      first-none none = refl
      first-none (some g) = refl
  first kept config (f ∷ files) =
      first kept (append config f) files ∙ field-merge kept config.global f.global (sections files)

-- what the global section of `merged` takes from the files
pub record Overlap (config : Config) (files : List Config) (merged : Config) : Type 0 where
  pub accounts_directory : LastOf (λ g. g.accounts_directory) config files merged
  pub certificates_directory : LastOf (λ g. g.certificates_directory) config files merged
  pub cert_file_mode : LastOf (λ g. g.cert_file_mode) config files merged
  pub cert_file_user : LastOf (λ g. g.cert_file_user) config files merged
  pub cert_file_group : LastOf (λ g. g.cert_file_group) config files merged
  pub pk_file_mode : LastOf (λ g. g.pk_file_mode) config files merged
  pub pk_file_user : LastOf (λ g. g.pk_file_user) config files merged
  pub pk_file_group : LastOf (λ g. g.pk_file_group) config files merged
  pub env : FirstOf (λ g. g.env) config files merged
  pub file_name_format : FirstOf (λ g. g.file_name_format) config files merged
  pub random_early_renew : FirstOf (λ g. g.random_early_renew) config files merged
  pub renew_delay : FirstOf (λ g. g.renew_delay) config files merged
  pub root_certificates : FirstOf (λ g. g.root_certificates) config files merged

append_files-Overlap :
    (config : Config) (files : List Config) → Overlap config files (append_files config files)
unfolding merge_options
append_files-Overlap config files = record {
  accounts_directory = last (λ g. g.accounts_directory) (λ g h. refl) config files;
  certificates_directory = last (λ g. g.certificates_directory) (λ g h. refl) config files;
  cert_file_mode = last (λ g. g.cert_file_mode) (λ g h. refl) config files;
  cert_file_user = last (λ g. g.cert_file_user) (λ g h. refl) config files;
  cert_file_group = last (λ g. g.cert_file_group) (λ g h. refl) config files;
  pk_file_mode = last (λ g. g.pk_file_mode) (λ g h. refl) config files;
  pk_file_user = last (λ g. g.pk_file_user) (λ g h. refl) config files;
  pk_file_group = last (λ g. g.pk_file_group) (λ g h. refl) config files;
  env = first (λ g. g.env) (λ g h. refl) config files;
  file_name_format = first (λ g. g.file_name_format) (λ g h. refl) config files;
  random_early_renew = first (λ g. g.random_early_renew) (λ g h. refl) config files;
  renew_delay = first (λ g. g.renew_delay) (λ g h. refl) config files;
  root_certificates = first (λ g. g.root_certificates) (λ g h. refl) config files;
}

-- the files that were read, where their merge returned
abbrev pub Merged : Config → Result Error (List Config) → Config → Type 0
Merged config (ok files) merged = Overlap config files merged
Merged config (err e) merged = ⊥
Merged config (panic m) merged = ⊥

-- Where the files that a file includes can be read, and several have a global section, the merged
-- directories, modes and owners of files come from the last file that sets them, in the order of
-- the inclusion. The variables, the format of file names, the two delays and the root certificates
-- are those of the first file that has the section, whatever the files after it set.
pub add_included-Overlap :
    (env : Env) (sys : System) (read_file : String → Exec Reading Error Config) (path : String)
    (config : Config) (names : List String) (s : Reading) (merged : Config)
    → (add_included env sys read_file path config names s).0 ≡ ok merged
    → Merged config (included_files env sys read_file path names s).0 merged
add_included-Overlap env sys read_file path config names s merged h =
    of_result (included_files env sys read_file path names s) (
      subst (λ x. x.0 ≡ ok merged)
        (add_included-included_files env sys read_file path config names s) h)
  where
    of_result :
        (x : Result Error (List Config) × Reading)
        → (mapped (append_files config) x).0 ≡ ok merged
        → Merged config x.0 merged
    of_result (ok files, s) e =
        let same : append_files config files ≡ merged = cc e in
        subst (λ c. Overlap config files c) same (append_files-Overlap config files)
    of_result (err x, s) e = absurd (cc)
    of_result (panic m, s) e = absurd (cc)
