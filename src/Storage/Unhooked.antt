-- ===== src/Storage/Unhooked.antt =====
-- `write_file` of acmed/src/storage.rs where no hook is configured for files.
use acmed.Base.{◌≡◌, sym, subst, List, []}
use acmed.Base.Result.{ok}
use acmed.Base.Exec.Keeps.{Keeps, keeps_rules, Keeps-pure}
use acmed.Base.Exec.Ensures.{Ensures, Ensures-bind, Ensures-bind_lift, Ensures-of_Keeps}
use acmed.Config.Types.{HookType}
use acmed.World.{World, Bytes}
use acmed.World.Env.{Env, TemplateData}
use acmed.Hooks
use acmed.Hooks.{Hook}
use acmed.Storage.Paths.{FileManager, FileType, FullPath, get_file_full_path}
use acmed.Storage.Files.{file_mode, store, write_file}
use acmed.Storage.Write.{Files, Has, with_file, stored, store_files}

module _ (env : Env) where
  nothing_called :
      (P : World → Type 0) (d : TemplateData) (t : HookType) → Keeps P (Hooks.call env [] d t)
  unfolding Hooks.call
  nothing_called P d t = Keeps-pure tt

  pub call_none-Keeps :
      (P : World → Type 0) (hooks : List Hook) (d : TemplateData) (t : HookType)
      → hooks ≡ []
      → Keeps P (Hooks.call env hooks d t)
  call_none-Keeps P hooks d t none_ =
      subst (λ hs. Keeps P (Hooks.call env hs d t)) (sym none_) (nothing_called P d t)

  module _ (fm : FileManager) (t : FileType) (full : FullPath) (data_in : Bytes) where
    pub write_file_files :
        (fs : Files)
        → fm.hooks ≡ []
        → get_file_full_path env fm t ≡ ok full
        → Ensures
            (Has fs)
            (write_file env fm t data_in)
            (λ _. Has (with_file full.path (stored (file_mode fm t) data_in (fs full.path)) fs))
    unfolding write_file
    write_file_files fs none_ there = Ensures-bind_lift _ _ λ found e.
        Ensures-bind (λ _. Has fs) _ _ (Ensures-of_Keeps _ (search keeps_rules))
          λ new.
            Ensures-bind (λ _. Has fs) _ _ (Ensures-of_Keeps _ (call_none-Keeps _ _ _ _ none_))
              λ _.
                Ensures-bind
                  (λ _.
                    Has (with_file full.path (stored (file_mode fm t) data_in (fs full.path)) fs))
                  _ _
                  (let same : full ≡ found = cc in
                    subst
                      (λ (x : FullPath). Ensures (Has fs) (store env fm t x.path data_in) (λ _.
                        Has (
                          with_file full.path (stored (file_mode fm t) data_in (fs full.path)) fs)))
                      same (store_files env fm t full.path data_in fs))
                  λ _. Ensures-of_Keeps _ (call_none-Keeps _ _ _ _ none_)
