-- ===== src/Tacd/Server.antt =====
-- tacd/src/openssl_server.rs: a listener, and a thread for each of its connections.
use acmed.Base.{String, if◌then◌else◌, skip, unwrap_or}
use text.Mathlib.Text.{starts_with}
use acmed.Base.Result
use acmed.Base.Result.{Result, err}
use acmed.Base.Exec.{lift, gets, modify, ◌>>=◌, ◌>>◌}
use acmed.Error.{from_text, from_openssl, from_io}
use acmed.World.{Bytes}
use acmed.World.Env.{KeyPair}
use acmed.World.Io.{Io}
use acmed.World.Terminal.{Terminal, Listener, tcp, unix}

-- tacd/src/main.rs: the length of the name, and the name
abbrev alpn_acme_proto_name : String
alpn_acme_proto_name = "\nacme-tls/1"

-- `listen_addr[5..]` behind its prefix
unfoldable pub listener_of : String → Listener
listener_of listen_addr =
    if starts_with listen_addr "unix:"
    then unix (unwrap_or (skip 5 listen_addr) "")
    else tcp listen_addr

module _ (os : Terminal) where
  -- `listen_and_accept!`
  unfoldable pub listen_and_accept : Listener → Io (Unit {0})
  listen_and_accept listener = do
    bound ← gets (λ w. os.bind w listener)
    lift (Result.map_err from_io bound)
    modify (λ w. os.incoming w listener)

  unfoldable pub start : String → Bytes → KeyPair → Io (Unit {0})
  start listen_addr certificate key_pair = do
    lift (
        Result.map_err from_openssl
          (os.new_acceptor alpn_acme_proto_name key_pair.inner_key certificate))
    listen_and_accept (listener_of listen_addr)
    lift (err (from_text "main thread loop unexpectedly exited"))
