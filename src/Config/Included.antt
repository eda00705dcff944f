-- ===== src/Config/Included.antt =====
-- The files that a file of acmed/src/config.rs includes: that the loop which merges them as it reads
-- does what reading all of them first, and merging them then, would do.
use acmed.Base.{String, ◌≡◌, refl, ◌∙◌, ap, sym, fun_ext, List, [], ◌∷◌, ◌++◌}
use acmed.Base.Result.{Result, ok, err, panic}
use acmed.Base.Exec.{Exec, pure, continue, ◌>>=◌}
use acmed.Error.{Error}
use acmed.World.Env.{Env}
use acmed.World.System.{System}
use acmed.Config.Types.{Config}
use acmed.Config.Merge.{append}
use acmed.Config.Reading.{Reading, get_cnf_path, add_files, add_included}

unfoldable pub append_files : Config → List Config → Config
append_files config [] = config
append_files config (file ∷ files) = append_files (append config file) files

append_files-append :
    (config : Config) (fs gs : List Config)
    → append_files config (fs ++ gs) ≡ append_files (append_files config fs) gs
unfolding append_files
append_files-append config [] gs = refl
append_files-append config (f ∷ fs) gs = append_files-append (append config f) fs gs

module _ {A B : Type 0} where
  abbrev pub mapped : (A → B) → Result Error A × Reading → Result Error B × Reading
  mapped f (ok a, s) = (ok (f a), s)
  mapped f (err e, s) = (err e, s)
  mapped f (panic m, s) = (panic m, s)

module _ {A B C D : Type 0} (f : B → C) where
  -- A block on a changed value is the changed block, if the rest is.
  bind-mapped :
      (e : A → D) (x : Result Error A × Reading) (g : A → Exec Reading Error B)
      (k : D → Exec Reading Error C)
      → ((a : A) (s : Reading) → k (e a) s ≡ mapped f (g a s))
      → continue (mapped e x).0 k (mapped e x).1 ≡ mapped f (continue x.0 g x.1)
  bind-mapped e (ok a, s) g k h = h a s
  bind-mapped e (err x, s) g k h = refl
  bind-mapped e (panic m, s) g k h = refl

module _ {A B C : Type 0} (f : B → C) where
  bind_both :
      (x : Result Error A × Reading) (g : A → Exec Reading Error B) (k : A → Exec Reading Error C)
      → ((a : A) (s : Reading) → k a s ≡ mapped f (g a s))
      → continue x.0 k x.1 ≡ mapped f (continue x.0 g x.1)
  bind_both (ok a, s) g k h = h a s
  bind_both (err x, s) g k h = refl
  bind_both (panic m, s) g k h = refl

  -- A block that ends in a computed value.
  mapped-pure :
      (x : Result Error A × Reading) (h : A → B)
      → mapped (λ a. f (h a)) x ≡ mapped f (continue x.0 (λ a. pure (h a)) x.1)
  unfolding pure
  mapped-pure (ok a, s) h = refl
  mapped-pure (err e, s) h = refl
  mapped-pure (panic m, s) h = refl

module _ (env : Env) (sys : System) (read_file : String → Exec Reading Error Config) where
  all_files : List String → Exec Reading Error (List Config)
  all_files [] = pure []
  all_files (path ∷ paths) = do file ← read_file path; files ← all_files paths; pure (file ∷ files)

  -- the configurations of all included files, in their order
  unfoldable pub included_files : String → List String → Exec Reading Error (List Config)
  unfolding all_files
  included_files path [] = pure []
  included_files path (name ∷ names) = do
    paths ← get_cnf_path env sys path name
    files ← all_files paths
    more ← included_files path names
    pure (files ++ more)

  add_files-all_files :
      (config : Config) (paths : List String) (s : Reading)
      → add_files env sys read_file config paths s
        ≡ mapped (append_files config) (all_files paths s)
  unfolding add_files all_files ◌>>=◌ append_files
  add_files-all_files config [] s = refl
  add_files-all_files config (path ∷ paths) s =
      bind_both (append_files config) (read_file path s) _ _ λ file s'.
        add_files-all_files (append config file) paths s'
        ∙ mapped-pure (append_files config) (all_files paths s') (λ files. file ∷ files)

  -- Whatever the reader does, the merge of the included files returns what merging the files that
  -- were read returns, fails where their reading fails, and leaves the same state.
  pub add_included-included_files :
      (path : String) (config : Config) (names : List String) (s : Reading)
      → add_included env sys read_file path config names s
        ≡ mapped (append_files config) (included_files path names s)
  unfolding add_included included_files ◌>>=◌ append_files
  add_included-included_files path config [] s = refl
  add_included-included_files path config (name ∷ names) s =
      bind_both (append_files config) (get_cnf_path env sys path name s) _ _ λ paths s'.
        ap (λ x. continue x.0 (λ c. add_included env sys read_file path c names) x.1)
          (add_files-all_files config paths s')
        ∙ bind-mapped (append_files config) (append_files config) (all_files paths s') _
            (λ c. add_included env sys read_file path c names)
            λ fs t.
              add_included-included_files path (append_files config fs) names t
              ∙ ap (λ h. mapped h (included_files path names t))
                  (fun_ext (λ more. sym (append_files-append config fs more)))
              ∙ mapped-pure (append_files config) (included_files path names t) (λ more. fs ++ more)
