-- ===== src/Storage/Elsewhere.antt =====
-- What `write_file` of acmed/src/storage.rs leaves alone, however it ends.
use acmed.Base.{
  ℕ, String, ◌≡◌, ◌≢◌, refl, subst, ap, ◌∙◌, false, Option, [], ◌==◌, string_eq, arith, eq_iff,
}
use acmed.Base.Result.{ok}
use acmed.Base.Exec.{modify}
use acmed.Base.Exec.Keeps.{Keeps, keeps_rules, Keeps-bind, Keeps-bind_lift, Keeps-map_err}
use acmed.Error.{Error}
use acmed.World.{World, Event, Bytes, File, put_file}
use acmed.World.Env.{Env}
use acmed.World.Io.{
  Io, log, attempt_io, open_file, open_for_write, write_all, opened_for_write, rewritten,
}
use acmed.Storage.Paths.{FileManager, FileType, FullPath, get_file_full_path}
use acmed.Storage.Files.{store, write_file, read_file}
use acmed.Storage.Write.{Files, Has, log-Has, set_owner-Has}
use acmed.Storage.Unhooked.{call_none-Keeps}

-- the file at the path
abbrev pub At : String → Option File → World → Type 0
At p f w = w.files p ≡ f

-- What leaves every file as it is leaves this one.
pub Keeps-of_Has :
    {A : Type 0} (p : String) (f : Option File) (m : Io A)
    → ((fs : Files) → Keeps (Has fs) m)
    → Keeps (At p f) m
Keeps-of_Has p f m k = record { at = λ w h. ap (λ (fs : Files). fs p) ((k w.files).at w refl) ∙ h }

module _ (p : String) (f : Option File) (path : String) (other : path ≢ p) where
  not_equal : (path == p) ≡ false
  not_equal = ground (arith, eq_iff path p)

  put_file-At :
      (g : Option File → File)
      → Keeps (At p f) (modify {E = Error} (λ w. put_file path (g (w.files path)) w))
  unfolding modify
  put_file-At g = record { at = λ w h. rw not_equal h }

  logged : (e : Event) → Keeps (At p f) (log e)
  logged e = Keeps-of_Has p f _ (λ fs. log-Has fs e)

  module _ (env : Env) where
    open_for_write-At : (mode : ℕ) → Keeps (At p f) (open_for_write env mode path)
    unfolding open_for_write attempt_io
    open_for_write-At mode =
        Keeps-bind _ _ (search keeps_rules)
          λ _. Keeps-bind _ _ (put_file-At (opened_for_write mode)) λ _. logged _

    write_all-At : (d : Bytes) → Keeps (At p f) (write_all env path d)
    unfolding write_all attempt_io
    write_all-At d =
        Keeps-bind _ _ (search keeps_rules)
          λ _. Keeps-bind _ _ (put_file-At (rewritten d)) λ _. logged _

    pub store-At :
        (fm : FileManager) (t : FileType) (d : Bytes) → Keeps (At p f) (store env fm t path d)
    unfolding store
    store-At fm t d = Keeps-bind _ _ (Keeps-map_err _ _ (open_for_write-At _)) λ _.
        Keeps-bind _ _ (Keeps-map_err _ _ (write_all-At d))
          λ _. Keeps-map_err _ _ (Keeps-of_Has p f _ (λ fs. set_owner-Has env fs fm path t))

module _ (env : Env) (p : String) (f : Option File) (fm : FileManager) (t : FileType)
    (full : FullPath) (none_ : fm.hooks ≡ []) (there : get_file_full_path env fm t ≡ ok full)
    (other : full.path ≢ p) where
  -- With no hook for files, a write leaves every other file as it was, also when it fails.
  pub write_file-At : (d : Bytes) → Keeps (At p f) (write_file env fm t d)
  unfolding write_file
  write_file-At d = Keeps-bind_lift _ _ λ found e.
      let same : full ≡ found = cc in
      Keeps-bind _ _ (search keeps_rules) λ new.
        Keeps-bind _ _ (call_none-Keeps env _ _ _ _ none_) λ _.
          Keeps-bind _ _
            (store-At p f found.path (subst (λ (x : FullPath). x.path ≢ p) same other) env fm t d)
            λ _. call_none-Keeps env _ _ _ _ none_

read_file-Has : (env : Env) (path : String) (fs : Files) → Keeps (Has fs) (read_file env path)
unfolding read_file open_file attempt_io
read_file-Has env path fs = search (keeps_rules, log-Has) depth 14

pub read_file-At :
    (env : Env) (p : String) (f : Option File) (path : String) → Keeps (At p f) (read_file env path)
read_file-At env p f path = Keeps-of_Has p f _ (read_file-Has env path)
