-- ===== src/Tests/Files.antt =====
-- Runs of the theorems on files: a certificate replaces a longer one.
use acmed.Base.{ℕ, String, Option, none, some, List, [], ◌∷◌, string_eq}
use acmed.World.{File, World, Bytes}
use acmed.Storage.Paths.{FileManager}
use acmed.Storage.Paths.{FullPath}

abbrev fm : FileManager
fm = record {
  account_name = "me";
  account_directory = "/acc";
  crt_name = "example.org";
  crt_name_format = "cert";
  crt_directory = "/crt";
  crt_key_type = "rsa2048";
  cert_file_mode = 420;
  cert_file_owner = none;
  cert_file_group = none;
  pk_file_mode = 384;
  pk_file_owner = none;
  pk_file_group = none;
  hooks = [];
  env = [];
}

abbrev old : File
old = record { content = 1 ∷ 2 ∷ 3 ∷ []; mode = 420 }

abbrev before : World
before = record { files = λ _. some old; log = [] }

abbrev shorter : Bytes
shorter = 9 ∷ []

abbrev full : FullPath
full = record { directory = "/crt"; name = "cert"; path = "/crt/cert" }
