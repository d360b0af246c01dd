-- ===== src/Session.antt =====
-- session/mod.rs: how a connection is set up, and the builder of its configuration. The TCP
-- connections of `SessionBuilder::connect` are outside the model.
pub mod Fed
pub mod Keeps
pub mod Validated
pub mod Builder
use ssh_rs.Base.{ℕ, Bool}
use ssh_rs.Error.{SshResult, ok, panic, map_ok, and_then}
use ssh_rs.Io.{Io, lift, pure, ◌>>=◌, ◌>>◌}
use ssh_rs.Stream.{Stream}
use ssh_rs.AlgList.{unpack}
use ssh_rs.Hash.{ctx_new, set_i_s}
use ssh_rs.Config.{Config, tune_alglist_on_private_key}
use ssh_rs.Version.{send_our_version, read_server_version, validate}
use ssh_rs.Client
use ssh_rs.Client.{Client, Link}
use ssh_rs.Packet.{from_stream}
use ssh_rs.Suite.{Suite}
use ssh_rs.Kex.{key_agreement}
use ssh_rs.Auth.{KeyOps, do_auth}

pub data SessionState (S C : Type 0) : Type 0 where
  init : Config → Stream → SessionState S C
  version : Config → Stream → SessionState S C
  auth : Client S C → Stream → SessionState S C
  connected : Client S C → Stream → SessionState S C

-- The exchange of versions: the configuration with the version of the server.
unfoldable pub version_exchange : Config → Io Stream Config
version_exchange config = do
  send_our_version config.ver
  ver ← read_server_version config.ver config.timeout
  lift (validate ver)
  pure (record config { ver = ver })

module _ {S C : Type 0} (su : Suite S C) (keys : KeyOps) where
  -- The key exchange, and the authentication.
  unfoldable pub authenticate : Io (Link S C) (Unit {0})
  authenticate = do
    payload ← from_stream su.enc su.comp
    server_algs ← lift (unpack payload)
    digest ← key_agreement su server_algs (set_i_s payload ctx_new)
    do_auth su keys digest

  -- The state `auth`. The numbers that were drawn before are `draws`.
  unfoldable pub connect_auth : ℕ → Client S C → Stream → SshResult (SessionState S C)
  connect_auth draws client stream =
      let (r, l) = authenticate (record { client = client; stream = stream; draws = draws }) in
      map_ok (λ u. connected l.client l.stream) r

  -- The state `version`, with the cipher and the compressor that a new client has.
  unfoldable pub connect_version : ℕ → S → C → Config → Stream → SshResult (SessionState S C)
  connect_version draws cipher compressor config stream =
      let (r, s) = version_exchange config stream in
      and_then r (λ config'. connect_auth draws (Client.new cipher compressor config') s)

  -- `SessionConnector::connect`, which goes on by itself from state to state.
  unfoldable pub connect : ℕ → S → C → SessionState S C → SshResult (SessionState S C)
  connect draws cipher compressor (init config stream) =
      connect_version draws cipher compressor config stream
  connect draws cipher compressor (version config stream) =
      connect_version draws cipher compressor config stream
  connect draws cipher compressor (auth client stream) = connect_auth draws client stream
  connect draws cipher compressor (connected client stream) = panic

  -- `SessionBuilder::connect_bio`
  unfoldable pub connect_bio : ℕ → S → C → Config → Stream → SshResult (SessionState S C)
  connect_bio draws cipher compressor config stream =
      connect draws cipher compressor (init (tune_alglist_on_private_key config) stream)
