-- ===== src/Lib.antt =====
-- A verification library for ACMEd, the ACME (RFC 8555) client daemon in acmed/, for tacd, the server
-- in tacd/ that answers its TLS-ALPN challenges, and for the crate acme_common/ that they share.
--
-- The daemon reads its configuration (acmed/src/config.rs), makes from it the accounts, endpoints and
-- certificates of its event loop (acmed/src/main_event_loop.rs), and for each certificate waits until
-- it is due, requests it (acmed/src/acme_proto.rs, over acmed/src/http.rs and acmed/src/jws.rs) and
-- writes it (acmed/src/storage.rs), with the operator's hooks (acmed/src/hooks.rs) at each step. A
-- hook may start tacd with the extension of the challenge that the daemon has written.
--
-- The files:
--
--   Base         lists, text, lines, results, dictionaries, and computations on a state (Exec) with
--                four logics for them: what is kept (Keeps), what is counted (Costs), what a
--                successful run ensures (Ensures), which runs end without a panic (Total). Ends and
--                Gives are the like for results without a state.
--   Error        acme_common/src/error.rs
--   Crypto       acme_common/src/crypto.rs and crypto/: names of algorithms, key types and hashes;
--                Crypto/Keys has the key pairs of crypto/openssl_keys.rs, with how they are made
--                (Keys/Generate) and sent (Keys/Jwk); Crypto/X509 has the certificates and requests
--                of crypto/openssl_certificate.rs
--   Structs      acmed/src/acme_proto/structs/, with the challenges of acmed/src/acme_proto.rs, the
--                identifiers of acmed/src/identifier.rs and the stored form of an account
--   Config       acmed/src/config.rs: its types (Config/Types), how a file is parsed (Config/Toml),
--                read with those that it includes (Config/Reading) and merged with them
--                (Config/Merge), the options with their defaults (Config/Options and
--                Config/Sections), the hooks that names stand for (Config/Lookup), and how a section
--                becomes an account (Config/Accounts)
--   World        what lies outside: the files and a log of all that was done (World), the operating
--                system, the network and the third-party packages as functions (World/Env for the
--                renewals, World/System for the configuration, World/Terminal for the start of the
--                programs), and the file operations over them (World/Io)
--   Hooks        acmed/src/hooks.rs and the rendering of acmed/src/template.rs
--   Storage      acmed/src/storage.rs
--   Jws          acmed/src/jws.rs
--   Identifier   acmed/src/identifier.rs and `to_idna` of acme_common/src/lib.rs
--   Duration     acmed/src/duration.rs
--   Endpoint     acmed/src/endpoint.rs
--   Http         acmed/src/http.rs
--   Account      acmed/src/account.rs with its children, and acmed/src/acme_proto/account.rs
--   Certificate  acmed/src/certificate.rs
--   Proto        acmed/src/acme_proto.rs, with acmed/src/acme_proto/http.rs and certificate.rs
--   MainLoop     acmed/src/main_event_loop.rs: `renew_certificate`, `new` (MainLoop/Setup and
--                MainLoop/New) and `run` (MainLoop/Run)
--   Common       acme_common/src/logs.rs, and the start of a server in acme_common/src/lib.rs
--   Tacd         tacd/src/main.rs and tacd/src/openssl_server.rs, with the certificate of tacd in
--                acme_common/src/crypto/openssl_certificate.rs (Tacd/Extension)
--   Daemon       `inner_main` of acmed/src/main.rs
--   Tests        runs of the theorems on concrete inputs
--
-- State. A function that does input and output is `Exec S E A`: from a state to a result and a state.
-- The state of a file operation or a hook is the `World`; that of the reading of the configuration is
-- a `Reading`, the world and the files loaded so far; that of a request is a `Net`, the endpoint
-- and the world; that of the protocol is a `Sys`, the account, the endpoint and the world; that of
-- the event loop is a `Running`, the accounts, the endpoints, the world and the renewals under way.
-- A result is `ok`, `err`, or `panic` where the source panics or exits. Everything done outside is an
-- event in the log of the world, the newest first. An `Env`, a `System` and a `Terminal` answer for
-- the outside: each answer may depend on the whole world, log included, so theorems hold whatever
-- the network, the operating system and the packages answer. An error of a package is its text. No
-- clock runs: a wait is an event.
--
-- Bounds and fuel. The loop of `post` is recursion on the number of tries left, which the source bounds
-- by 10 (DEFAULT_HTTP_FAIL_NB_RETRY); pooling is the same on 20 tries (DEFAULT_POOL_NB_TRIES). The loop
-- that places an order has fuel 2, since it goes round again only once, after a registration. The
-- parts of a duration are read on the length of the text, of which each takes some. The files that
-- include one another and the groups of hooks are resolved on a depth that stands for the stack, and
-- a depth that is used up is a panic; for the files their number is enough, for the groups the
-- rank of the name, where the groups have one. The loop that
-- waits for a certificate to be due has no end in the source: theorems on it are for any number of
-- its rounds, and a step of the event loop has as many as its certificate takes.
--
-- Not modelled: the command lines that clap reads in acmed/src/main.rs and tacd/src/main.rs, with
-- their help; the log lines that functions write; the TLS connections that tacd accepts; the build
-- scripts; and the bindings without logic of their own, acme_common/src/crypto/openssl_hash.rs,
-- openssl_version.rs and openssl_subject_attribute.rs, for which an `Env` or a `System` answers. What
-- several renewals do at the same time is taken as one renewal after another, in any order.
pub mod Base
pub mod Error
pub mod Crypto
pub mod Structs
pub mod Config
pub mod World
pub mod Hooks
pub mod Storage
pub mod Jws
pub mod Identifier
pub mod Duration
pub mod Endpoint
pub mod Http
pub mod Account
pub mod Certificate
pub mod Proto
pub mod MainLoop
pub mod Common
pub mod Tacd
pub mod Daemon
pub mod Tests
