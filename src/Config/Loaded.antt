-- ===== src/Config/Loaded.antt =====
-- Which files the reading of the configuration in acmed/src/config.rs opens.
use acmed.Base.{
  ℕ, zero, suc, String, ◌≡◌, refl, ap, Bool, true, false, ◌⊎◌, inl, inr, List, [], ◌∷◌, ◌++◌, map,
  arith, All, contains, string_eq, eq_iff, eq_refl,
}
use acmed.Base.Result.{Result, ok, err, panic, map_err}
use acmed.Base.Exec
use acmed.Base.Exec.{Exec, pure, lift, gets, continue, ◌>>=◌}
use acmed.Base.Exec.Keeps.{Keeps, Keeps-bind, Keeps-after, Keeps-rename, keeps_rules}
use acmed.Error.{Error, prefix, from_io}
use acmed.World.{World, opened, record_event}
use acmed.World.Env.{Env}
use acmed.World.Io
use acmed.World.Io.{open_file, attempt_io, check_io, content_of}
use acmed.World.System.{System}
use acmed.Config.Types.{Config}
use acmed.Config.Merge.{append}
use acmed.Config.Reading.{
  Reading, on_world, get_cnf_path, read_contents, add_files, add_included, load_file, load_once,
  read_path, read_cnf, read_all,
}

abbrev pub NoRepeat : List String → Type 0
NoRepeat [] = Unit
NoRepeat (x ∷ xs) = (contains xs x ≡ false) × NoRepeat xs

abbrev Known : List String → List String → Type 0
Known loaded paths = All (λ p. contains loaded p ≡ true) paths

-- Since `start`, exactly these paths were opened, each once, and all of them are known as loaded.
record Once (start : World) (s : Reading) : Type 0 where
  paths : List String
  logged : s.world.log ≡ map opened paths ++ start.log
  files : s.world.files ≡ start.files
  once : NoRepeat paths
  known : Known s.loaded_files paths

Known-cons :
    (path : String) (loaded paths : List String) → Known loaded paths → Known (path ∷ loaded) paths
Known-cons path loaded [] h = tt
Known-cons path loaded (p ∷ paths) h = (ground (arith, h.0), Known-cons path loaded paths h.1)

not_known :
    (path : String) (loaded paths : List String)
    → contains loaded path ≡ false
    → Known loaded paths
    → contains paths path ≡ false
not_known path loaded [] new h = refl
not_known path loaded (p ∷ paths) new h =
    ground (arith, eq_iff p path, h.0, not_known path loaded paths new h.1)

module _ (env : Env) (sys : System) where
  read_contents-world :
      (path : String) (w : World)
      → ((read_contents env sys path w).1 ≡ w)
        ⊎ ((read_contents env sys path w).1 ≡ record_event (opened path) w)
  unfolding read_contents open_file attempt_io Io.log ◌>>=◌
  read_contents-world path w = ground arith

  module _ (start : World) (read_file : String → Exec Reading Error Config) where
    get_cnf_path-Once : (from file : String) → Keeps (Once start) (get_cnf_path env sys from file)
    unfolding get_cnf_path
    get_cnf_path-Once from file = search keeps_rules

    add_files-Once :
        ((path : String) → Keeps (Once start) (read_file path))
        → (config : Config) (paths : List String)
        → Keeps (Once start) (add_files env sys read_file config paths)
    unfolding add_files
    add_files-Once keep config [] = search keeps_rules
    add_files-Once keep config (path ∷ paths) =
        Keeps-bind (read_file path) _ (keep path) (λ c. add_files-Once keep (append config c) paths)

    add_included-Once :
        ((path : String) → Keeps (Once start) (read_file path))
        → (path : String) (config : Config) (names : List String)
        → Keeps (Once start) (add_included env sys read_file path config names)
    unfolding add_included
    add_included-Once keep path config [] = search keeps_rules
    add_included-Once keep path config (name ∷ names) =
        Keeps-bind _ _ (get_cnf_path-Once path name) λ paths.
          Keeps-bind _ _ (add_files-Once keep config paths) λ c. add_included-Once keep path c names

    read-Once :
        (path : String) (s : Reading) (w : World)
        → contains s.loaded_files path ≡ false
        → Once start s
        → ((w ≡ s.world) ⊎ (w ≡ record_event (opened path) s.world))
        → Once start (record { world = w; loaded_files = path ∷ s.loaded_files })
    read-Once path s w new h (inl e) = record {
      paths = h.paths;
      logged = rw e (h.logged);
      files = rw e (h.files);
      once = h.once;
      known = Known-cons path s.loaded_files h.paths h.known;
    }
    read-Once path s w new h (inr e) = record {
      paths = path ∷ h.paths;
      logged = rw e (ap (λ l. opened path ∷ l) h.logged);
      files = rw e (h.files);
      once = (not_known path s.loaded_files h.paths new h.known, h.once);
      known = (rw (eq_refl path) refl, Known-cons path s.loaded_files h.paths h.known);
    }

    load_file-Once :
        ((path : String) → Keeps (Once start) (read_file path))
        → (path : String) (s : Reading) → contains s.loaded_files path ≡ false
        → Once start s
        → Once start (load_file env sys read_file path s).1
    unfolding load_file ◌>>=◌
    load_file-Once keep path s new h =
        Keeps-after (Exec.map_err (prefix path) (on_world (read_contents env sys path))) _
          (record s { loaded_files = path ∷ s.loaded_files })
          (rw (Keeps-rename (prefix path) (read_contents env sys path s.world).0 _) (
            read-Once path s (read_contents env sys path s.world).1 new h
              (read_contents-world path s.world)))
          λ contents.
            Keeps-bind _ _ (search keeps_rules)
              λ config. add_included-Once keep path config config.included

    load_once-Once :
        ((path : String) → Keeps (Once start) (read_file path))
        → (path : String) (s : Reading) (loaded : Bool) → contains s.loaded_files path ≡ loaded
        → Once start s
        → Once start (load_once env sys read_file path loaded s).1
    unfolding load_once pure
    load_once-Once keep path s true e h = h
    load_once-Once keep path s false e h = load_file-Once keep path s e h

    read_path-Once :
        ((path : String) → Keeps (Once start) (read_file path))
        → (path : String) → Keeps (Once start) (read_path env sys read_file path)
    unfolding read_path ◌>>=◌
    read_path-Once keep path = record {
      at = λ s h.
          of_found s h (map_err (λ e. prefix path (from_io e)) (sys.canonicalize s.world path));
    }
      where
        of_found :
            (s : Reading)
            → Once start s
            → (r : Result Error String)
            → Once start
                (continue r
                  (λ p t. load_once env sys read_file p (contains t.loaded_files p) t)
                  s).1
        of_found s h (ok p) = load_once-Once keep p s (contains s.loaded_files p) refl h
        of_found s h (err e) = h
        of_found s h (panic m) = h

  read_cnf-Once :
      (start : World) (depth : ℕ) (path : String) → Keeps (Once start) (read_cnf env sys depth path)
  unfolding read_cnf
  read_cnf-Once start zero path = search keeps_rules
  read_cnf-Once start (suc depth) path =
      read_path-Once start (read_cnf env sys depth) (read_cnf-Once start depth) path

  -- Whether it succeeds or fails, the reading of the configuration changes no file, opens no file
  -- twice, and does nothing else that the log records.
  pub read_all-NoRepeat :
      (depth : ℕ) (path : String) (w : World)
      → let after = (read_all env sys depth path w).1 in
        (paths : List String) × (after.log ≡ map opened paths ++ w.log)
        × NoRepeat paths
        × (after.files ≡ w.files)
  unfolding read_all
  read_all-NoRepeat depth path w =
      let h =
        (read_cnf-Once w depth path).at (record { world = w; loaded_files = [] })
          (record { paths = []; logged = refl; files = refl; once = tt; known = tt }) in
      (h.paths, h.logged, h.once, h.files)
