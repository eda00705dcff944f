-- ===== src/Storage/Write.antt =====
-- What `write_file` of acmed/src/storage.rs leaves in a file.
use acmed.Base.{
  ℕ, zero, suc, String, ◌≡◌, refl, ap, ◌∙◌, fun_ext, Option, none, some, [], ◌++◌, append-nil,
  arith, length, ◌==◌, string_eq, if◌then◌else◌, eq_refl,
}
use acmed.Base.Result.{Result, ok}
use acmed.Base.Exec.{modify}
use acmed.Base.Exec.Keeps.{Keeps, keeps_rules}
use acmed.Base.Exec.Ensures.{
  Ensures, Ensures-bind, Ensures-map_err, Ensures-mono, Ensures-modify, Ensures-of_Keeps,
}
use acmed.World.{Bytes, File, World, Event}
use acmed.World.Env.{Env}
use acmed.World.Io.{
  log, attempt_io, open_for_write, write_all, opened_for_write, rewritten, overwrite, drop,
}
use acmed.Storage.Paths.{FileManager, FileType, account}
use acmed.Storage.Files.{file_mode, store, set_owner, change_owner, resolve}

abbrev pub Files : Type 0
Files = String → Option File

abbrev pub Has : Files → World → Type 0
Has fs w = w.files ≡ fs

-- one file replaced
abbrev pub with_file : String → File → Files → Files
with_file path f fs = λ p. if path == p then some f else fs p

pub log-Has : (fs : Files) (e : Event) → Keeps (Has fs) (log e)
unfolding log modify
log-Has fs e = record { at = λ w h. h }

module _ (env : Env) where
  resolve-Has :
      (fs : Files) (message : String) (find : World → String → Result String (Option ℕ))
      (name : Option String)
      → Keeps (Has fs) (resolve env message find name)
  unfolding resolve
  resolve-Has fs message find none = search keeps_rules
  resolve-Has fs message find (some name) = search keeps_rules

  pub set_owner-Has :
      (fs : Files) (fm : FileManager) (path : String) (t : FileType)
      → Keeps (Has fs) (set_owner env fm path t)
  unfolding set_owner change_owner
  set_owner-Has fs fm path account = search keeps_rules
  set_owner-Has fs fm path _ = search (keeps_rules, resolve-Has, log-Has) depth 10

with_file_twice :
    (path : String) (f g : File) (fs : Files)
    → with_file path f (with_file path g fs) ≡ with_file path f fs
with_file_twice path f g fs = fun_ext λ p. ground arith

with_file_self : (path : String) (f : File) (fs : Files) → with_file path f fs path ≡ some f
with_file_self path f fs = rw (eq_refl path)

module _ (env : Env) where
  open_for_write_files :
      (mode : ℕ) (path : String) (fs : Files)
      → Ensures
          (Has fs)
          (open_for_write env mode path)
          (λ _. Has (with_file path (opened_for_write mode (fs path)) fs))
  unfolding open_for_write attempt_io
  open_for_write_files mode path fs =
      Ensures-bind (λ _. Has fs) _ _ (Ensures-of_Keeps _ (search keeps_rules))
        λ _.
          Ensures-bind (λ _. Has (with_file path (opened_for_write mode (fs path)) fs)) _ _
            (Ensures-modify _
              λ w h. ap (λ (gs : Files). with_file path (opened_for_write mode (gs path)) gs) h)
            λ _. Ensures-of_Keeps _ (log-Has _ _)

  write_all_files :
      (path : String) (data_in : Bytes) (fs : Files)
      → Ensures
          (Has fs)
          (write_all env path data_in)
          (λ _. Has (with_file path (rewritten data_in (fs path)) fs))
  unfolding write_all attempt_io
  write_all_files path data_in fs =
      Ensures-bind (λ _. Has fs) _ _ (Ensures-of_Keeps _ (search keeps_rules))
        λ _.
          Ensures-bind (λ _. Has (with_file path (rewritten data_in (fs path)) fs)) _ _
            (Ensures-modify _
              λ w h. ap (λ (gs : Files). with_file path (rewritten data_in (gs path)) gs) h)
            λ _. Ensures-of_Keeps _ (log-Has _ _)

-- The file that a write leaves: a new one has the data and the mode of its type, an old one keeps
-- its mode and the bytes that lie behind the data.
abbrev pub stored : ℕ → Bytes → Option File → File
stored mode data_in none = record { content = data_in; mode = mode }
stored mode data_in (some f) = record f { content = data_in ++ drop (length data_in) f.content }

drop-nil : (n : ℕ) → drop {A = ℕ} n [] ≡ []
drop-nil zero = refl
drop-nil (suc n) = refl

rewritten-opened :
    (mode : ℕ) (data_in : Bytes) (old : Option File)
    → rewritten data_in (some (opened_for_write mode old)) ≡ stored mode data_in old
unfolding overwrite
rewritten-opened mode data_in none = rw (drop-nil (length data_in)) (rw append-nil)
rewritten-opened mode data_in (some f) = refl

module _ (env : Env) (fm : FileManager) (t : FileType) (path : String) (data_in : Bytes) where
  pub store_files :
      (fs : Files)
      → Ensures
          (Has fs)
          (store env fm t path data_in)
          (λ _. Has (with_file path (stored (file_mode fm t) data_in (fs path)) fs))
  unfolding store
  store_files fs =
      Ensures-bind (λ _. Has (with_file path (opened_for_write (file_mode fm t) (fs path)) fs)) _ _
        (Ensures-map_err _ _ (open_for_write_files env (file_mode fm t) path fs))
        λ _.
          Ensures-bind (λ _. Has (with_file path (stored (file_mode fm t) data_in (fs path)) fs)) _
            _
            (Ensures-mono (Ensures-map_err _ _ (write_all_files env path data_in _))
              λ _ w h. h ∙ rewritten_once)
            λ _. Ensures-map_err _ _ (Ensures-of_Keeps _ (set_owner-Has env _ fm path t))
    where
      opened : File
      opened = opened_for_write (file_mode fm t) (fs path)

      rewritten_once :
          with_file path
            (rewritten data_in (with_file path opened fs path))
            (with_file path opened fs)
          ≡ with_file path (stored (file_mode fm t) data_in (fs path)) fs
      rewritten_once =
          rw (with_file_self path opened fs, rewritten-opened (file_mode fm t) data_in (fs path))
            (with_file_twice path _ opened fs)

  -- When the write between the hooks of `write_file` succeeds, the file at the path is the stored
  -- one, and every other file is as it was.
  pub files-store :
      (w : World)
      → (store env fm t path data_in w).0 ≡ ok tt
      → (store env fm t path data_in w).1.files ≡ (λ p.
          if path == p then some (stored (file_mode fm t) data_in (w.files path)) else w.files p)
  files-store w h = (store_files w.files).at w refl tt h
