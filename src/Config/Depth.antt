-- ===== src/Config/Depth.antt =====
-- How deep the reading of the configuration in acmed/src/config.rs goes.
use acmed.Base.{
  ℕ, zero, suc, ◌<◌, ◌≤◌, String, ◌≡◌, refl, Bool, true, false, Option, none, some, List, [], ◌∷◌,
  arith, contains, string_eq, eq_iff, length, if◌then◌else◌,
}
use acmed.Base.Result.{ok, map_err}
use acmed.Base.Ends.{Ends, Ends-map_err, Ends-ok, Ends-err}
use acmed.Base.Exec
use acmed.Base.Exec.{Exec, lift, gets, modify, continue, ◌>>=◌}
use acmed.Base.Exec.Total.{
  Total, Total-pure, Total-lift, Total-gets, Total-bind, Total-map_err, Total-reads,
}
use acmed.Error.{Error, prefix, from_io, from_glob, from_toml}
use acmed.World.{World, File}
use acmed.World.Env.{Env, IoCall}
use acmed.World.Io
use acmed.World.Io.{open_file, attempt_io, check_io, content_of}
use acmed.World.System.{System}
use acmed.Config.Toml.{from_str, from_str-Ends}
use acmed.Config.Types.{Config}
use acmed.Config.Merge.{empty_config, append}
use acmed.Storage.Paths.{push}
use acmed.Config.Reading.{
  Reading, on_world, get_cnf_path, read_contents, add_files, add_included, load_file, load_once,
  read_path, read_cnf, read_all, pop,
}

-- how many of these files are not loaded yet
unread : List String → List String → ℕ
unread [] loaded = 0
unread (a ∷ all) loaded =
    let rest = unread all loaded in if contains loaded a then rest else suc rest

unread-cons : (p : String) (all loaded : List String) → unread all (p ∷ loaded) ≤ unread all loaded
unfolding unread
unread-cons p [] loaded = omega arith
unread-cons p (a ∷ all) loaded = ground (arith, unread-cons p all loaded)

unread-lt :
    (p : String) (all loaded : List String)
    → contains all p ≡ true
    → contains loaded p ≡ false
    → unread all (p ∷ loaded) < unread all loaded
unfolding unread
unread-lt p [] loaded h new = absurd (cc)
unread-lt p (a ∷ all) loaded h new =
    ground (arith, eq_iff a p, eq_iff p a, unread-cons p all loaded, unread-lt p all loaded)

unread-le : (all loaded : List String) → unread all loaded ≤ length all
unfolding unread
unread-le [] loaded = omega arith
unread-le (a ∷ all) loaded = ground (arith, unread-le all loaded)

-- The packages return, and every path that there is stands for one of finitely many files.
pub record Finite (sys : System) (all : List String) : Type 0 where
  pub canonicalize : (w : World) (p : String) → Ends (sys.canonicalize w p)
  pub glob : (w : World) (p : String) → Ends (sys.glob w p)
  pub read_text : (raw : List ℕ) → Ends (sys.read_text raw)
  pub from_toml : (text : String) → Ends (sys.from_toml text)
  pub known : (w : World) (p c : String) → sys.canonicalize w p ≡ ok c → contains all c ≡ true

module _ (env : Env) (sys : System) (all : List String) (finite : Finite sys all) where
  abbrev Below : ℕ → Reading → Type 0
  Below n s = unread all s.loaded_files ≤ n

  attempt_io-Total : (call : IoCall) → Total (λ (w : World). Unit) (attempt_io env call)
  unfolding attempt_io
  attempt_io-Total call =
      Total-bind _ _ (Total-gets _) λ failed. Total-lift (check_io failed) (of_failed failed)
    where
      of_failed : (failed : Option String) → Ends (check_io failed)
      of_failed none = Ends-ok tt
      of_failed (some e) = Ends-err (from_io e)

  open_file-Total : (path : String) → Total (λ (w : World). Unit) (open_file env path)
  unfolding open_file Io.log modify
  open_file-Total path = Total-bind _ _ (attempt_io-Total _) λ _.
      Total-bind _ _ (Total-gets _) λ file.
        Total-bind _ _ (Total-lift _ (of_file file)) λ content.
          Total-bind _ _ (record { at = λ s p. (Ends-ok tt, tt) }) λ _. Total-pure content
    where
      of_file : (file : Option File) → Ends (content_of file)
      of_file none = Ends-err (from_io "No such file or directory (os error 2)")
      of_file (some f) = Ends-ok f.content

  read_contents-Total : (path : String) → Total (λ (w : World). Unit) (read_contents env sys path)
  unfolding read_contents
  read_contents-Total path = Total-bind _ _ (open_file-Total path) λ raw.
      Total-bind _ _ (attempt_io-Total _)
        λ _. Total-lift _ (Ends-map_err from_io (sys.read_text raw) (finite.read_text raw))

  on_world-Total :
      {A : Type 0} (n : ℕ) (m : Io.Io A)
      → Total (λ (w : World). Unit) m
      → Total (Below n) (on_world m)
  on_world-Total n m h = record { at = λ s p. ((h.at s.world tt).0, p) }

  get_cnf_path-Total :
      (n : ℕ) (from file : String) → Total (Below n) (get_cnf_path env sys from file)
  unfolding get_cnf_path ◌>>=◌
  get_cnf_path-Total n from file =
      Total-reads _ from_io _ (λ s. finite.canonicalize s.world from)
        λ path s p e. (Total-map_lift (push (pop path) file)).at s p
    where
      Total-map_lift :
          (raw_path : String)
          → Total (Below n) (
              gets (λ (s : Reading). sys.glob s.world raw_path) >>= λ g. lift (map_err from_glob g))
      Total-map_lift raw_path = record {
        at = λ s p. (Ends-map_err from_glob _ (finite.glob s.world raw_path), p);
      }

  module _ (n : ℕ) (read_file : String → Exec Reading Error Config) where
    add_files-Total :
        ((path : String) → Total (Below n) (read_file path))
        → (config : Config) (paths : List String)
        → Total (Below n) (add_files env sys read_file config paths)
    unfolding add_files
    add_files-Total h config [] = Total-pure config
    add_files-Total h config (path ∷ paths) =
        Total-bind (read_file path) _ (h path) (λ c. add_files-Total h (append config c) paths)

    add_included-Total :
        ((path : String) → Total (Below n) (read_file path))
        → (path : String) (config : Config) (names : List String)
        → Total (Below n) (add_included env sys read_file path config names)
    unfolding add_included
    add_included-Total h path config [] = Total-pure config
    add_included-Total h path config (name ∷ names) =
        Total-bind _ _ (get_cnf_path-Total n path name) λ paths.
          Total-bind _ _ (add_files-Total h config paths) λ c. add_included-Total h path c names

  -- A file that is loaded leaves fewer to load.
  module _ (n : ℕ) (read_file : String → Exec Reading Error Config)
      (reads : (m : ℕ) → m < n → (path : String) → Total (Below m) (read_file path)) where
    load_file-Total :
        (path : String) (s : Reading)
        → contains all path ≡ true
        → contains s.loaded_files path ≡ false
        → Below n s
        → Ends (load_file env sys read_file path s).0
          × Below n (load_file env sys read_file path s).1
    unfolding load_file ◌>>=◌
    load_file-Total path s there new below =
        let m = unread all (path ∷ s.loaded_files) in
        let fewer : m < n = omega (arith, unread-lt path all s.loaded_files there new) in
        let after =
          (Total-bind (Exec.map_err (prefix path) (on_world (read_contents env sys path))) _
              (Total-map_err (prefix path) _ (on_world-Total m _ (read_contents-Total path)))
              λ contents.
                Total-bind (lift (map_err (λ e. prefix path (from_toml e)) (from_str sys contents)))
                  _
                  (Total-lift _
                    (Ends-map_err _ _ (from_str-Ends sys contents (finite.from_toml contents))))
                  λ config.
                    add_included-Total m read_file (reads m fewer) path config config.included).at
            (record s { loaded_files = path ∷ s.loaded_files }) (omega arith) in
        (after.0, omega (arith, after.1))

    load_once-Total :
        (path : String) (s : Reading) (loaded : Bool)
        → contains all path ≡ true
        → contains s.loaded_files path ≡ loaded
        → Below n s
        → Ends (load_once env sys read_file path loaded s).0
          × Below n (load_once env sys read_file path loaded s).1
    unfolding load_once Exec.pure
    load_once-Total path s true there e below = (Ends-ok empty_config, below)
    load_once-Total path s false there e below = load_file-Total path s there e below

    read_path-Total : (path : String) → Total (Below n) (read_path env sys read_file path)
    unfolding read_path ◌>>=◌
    read_path-Total path =
        Total-reads _ (λ e. prefix path (from_io e)) _ (λ s. finite.canonicalize s.world path)
          λ p s below e.
            load_once-Total p s (contains s.loaded_files p) (finite.known s.world path p e) refl
              below

  read_cnf-Total :
      (depth n : ℕ) → n < depth → (path : String) → Total (Below n) (read_cnf env sys depth path)
  unfolding read_cnf
  read_cnf-Total zero n h path = absurd (omega arith)
  read_cnf-Total (suc depth) n h path =
      read_path-Total n (read_cnf env sys depth) (λ m fewer. read_cnf-Total depth m (omega arith))
        path

  -- Where there are finitely many files, and the packages return, the recursion of `read_cnf` ends
  -- at a depth of their number, however the files include one another: the configuration is read,
  -- or there is an error.
  pub read_all-Ends :
      (depth : ℕ) (path : String) (w : World)
      → length all < depth
      → Ends (read_all env sys depth path w).0
  unfolding read_all
  read_all-Ends depth path w h =
      ((read_cnf-Total depth (length all) h path).at (record { world = w; loaded_files = [] })
        (unread-le all [])).0
