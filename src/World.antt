-- ===== src/World.antt =====
-- What lies outside the program. `World` is the state that the code reads and changes by input and
-- output: the files, and a log of everything that was done, the newest entry first. `Env` is what
-- the program does not implement: the operating system, the network and the third-party packages.
-- Each answer of the outside may depend on the whole world, log included, so that it is arbitrary.
pub mod Env
pub mod Io
pub mod System
pub mod Terminal
use acmed.Base.{ℕ, String, Bool, Option, none, List, ◌∷◌, some, ◌==◌, string_eq, if◌then◌else◌}
use acmed.Base.Dict.{Dict}

abbrev pub Bytes : Type 0
Bytes = List ℕ

pub record File : Type 0 where
  pub content : Bytes
  pub mode : ℕ

-- `std::process::Stdio`
pub data Stdio : Type 0 where
  null piped : Stdio
  to_file : String → Stdio

-- `async_process::Command`
pub record Command : Type 0 where
  pub cmd : String
  pub envs : Dict String
  pub args : List String
  pub stdout : Stdio
  pub stderr : Stdio
  pub stdin : Stdio

pub data Method : Type 0 where
  get post : Method

-- `content_type` is absent from a GET request.
pub record Request : Type 0 where
  pub method : Method
  pub url : String
  pub accept : String
  pub content_type : Option String
  pub body : String

-- `header` looks a header up; the inner option is `to_str`, absent on bytes that are no visible
-- ASCII. The status comes with the answers of `as_u16`, `as_str` and `is_success`.
pub record Response : Type 0 where
  pub code : ℕ
  pub status_text : String
  pub is_success : Bool
  pub header : String → Option (Option String)
  pub body : String

-- A governor quota: `burst` requests at once, one cell more for each `interval` nanoseconds.
pub record Quota : Type 0 where
  pub interval : ℕ
  pub burst : ℕ

pub data Event : Type 0 where
  awaited : Quota → Event
  -- a blocking sleep, in seconds, and one of the runtime, in nanoseconds
  slept waited : ℕ → Event
  sent : Request → Event
  received : Response → Event
  spawned : Command → Event
  fed : String → Event
  opened written chowned made_dir removed : String → Event
  generated : Event

pub record World : Type 0 where
  pub files : String → Option File
  pub log : List Event

abbrev pub record_event : Event → World → World
record_event e w = record w { log = e ∷ w.log }

abbrev pub put_file : String → File → World → World
put_file path f w = record w { files = λ p. if path == p then some f else w.files p }

abbrev pub delete_file : String → World → World
delete_file path w = record w { files = λ p. if path == p then none else w.files p }
