-- ===== src/World/Io.antt =====
-- Input and output of the standard library and of tokio, as the program calls it: each call may
-- fail by the answer of the operating system, and changes the files as its documentation says.
use acmed.Base.{ℕ, zero, suc, String, Option, none, some, List, [], ◌∷◌, ◌++◌, length}
use acmed.Base.Result.{Result, ok, err}
use acmed.Base.Exec.{Exec, pure, lift, gets, modify, ◌>>=◌, ◌>>◌}
use acmed.Error.{Error, from_io}
use acmed.World.{Bytes, World, File, Event, opened, written, record_event, put_file}
use acmed.World.Env.{Env, IoCall, open_read, open_write, create, write}

abbrev pub Io : Type 0 → Type 0
Io A = Exec World Error A

unfoldable pub log : Event → Io (Unit {0})
unfolding modify
log e = modify (record_event e)

abbrev pub check_io : Option String → Result Error (Unit {0})
check_io none = ok tt
check_io (some e) = err (from_io e)

unfoldable pub attempt_io : Env → IoCall → Io (Unit {0})
attempt_io env call = do failed ← gets (λ w. env.io_error w call); lift (check_io failed)

abbrev pub content_of : Option File → Result Error Bytes
content_of none = err (from_io "No such file or directory (os error 2)")
content_of (some f) = ok f.content

-- `File::open` and `read_to_end`, with the conversion that each error goes through
unfoldable pub open_file : Env → String → Io Bytes
open_file env path = do
  attempt_io env (open_read path)
  file ← gets (λ w. w.files path)
  content ← lift (content_of file)
  log (opened path)
  pure content

-- `drop` of the standard library
abbrev pub drop {ℓ} : {A : Type ℓ} → ℕ → List A → List A
drop zero xs = xs
drop (suc n) [] = []
drop (suc n) (x ∷ xs) = drop n xs

-- Writing from the start of a file leaves what lies behind the data.
unfoldable pub overwrite : Bytes → Bytes → Bytes
overwrite data_in old = data_in ++ drop (length data_in) old

-- `OpenOptions::mode(mode).write(true).create(true).open(path)`: the mode is for a new file, and an
-- old one keeps its bytes.
abbrev pub opened_for_write : ℕ → Option File → File
opened_for_write mode none = record { content = []; mode = mode }
opened_for_write mode (some f) = f

unfoldable pub open_for_write : Env → ℕ → String → Io (Unit {0})
open_for_write env mode path = do
  attempt_io env (open_write path)
  modify (λ w. put_file path (opened_for_write mode (w.files path)) w)
  log (opened path)

-- `write_all` on a handle just opened
abbrev pub rewritten : Bytes → Option File → File
rewritten data_in none = record { content = data_in; mode = 0 }
rewritten data_in (some f) = record f { content = overwrite data_in f.content }

unfoldable pub write_all : Env → String → Bytes → Io (Unit {0})
write_all env path data_in = do
  attempt_io env (write path)
  modify (λ w. put_file path (rewritten data_in (w.files path)) w)
  log (written path)

-- `File::create`: the file is there afterwards, and empty.
abbrev emptied : Option File → File
emptied none = record { content = []; mode = 438 }
emptied (some f) = record f { content = [] }

unfoldable pub create_file : Env → String → Io (Unit {0})
create_file env path = do
  attempt_io env (create path)
  modify (λ w. put_file path (emptied (w.files path)) w)
  log (opened path)
