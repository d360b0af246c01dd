-- ===== src/Session/Fed.antt =====
-- Setting up a connection ends.
use ssh_rs.Base.{ℕ, ◌≢◌, List, [], ◌∷◌, Option, if-cases}
use ssh_rs.Error.{SshResult, starved, IsFed, IsFed-ne-starved, or_return-IsFed, >>=-IsFed}
use ssh_rs.Constant.{ascii}
use ssh_rs.Data.{Bytes}
use ssh_rs.AlgList.Fed.{unpack-IsFed}
use ssh_rs.Stream.{
  Stream, ReadEvent, chunk, read_would_block, read_fails, WriteEvent, accepts, write_would_block,
  write_fails,
}
use ssh_rs.Config.{Config, SshVersion}
use ssh_rs.Text.{is_utf8}
use ssh_rs.Stream.Fed.{till_next_tick-IsFed}
use ssh_rs.Timeout
use ssh_rs.Timeout.{Timeout, till_next_tick}
use ssh_rs.Version.{
  take_bytes, version_loop, read_version, server_version, read_server_version, write_event,
  write_once, send_our_version, contains, validate,
}
use ssh_rs.Version.Lines.{on_round-cases}
use ssh_rs.Client.{Client, Link}
use ssh_rs.Packet.Fed.{from_stream-Paid}
use ssh_rs.Suite.{Suite}
use ssh_rs.Io.Fed.{Paid-IsFed}
use ssh_rs.Kex.{incoming}
use ssh_rs.Kex.Fed.{SuiteFed, key_agreement-Paid}
use ssh_rs.Auth.{KeyOps}
use ssh_rs.Auth.Fed.{KeysFed, do_auth-IsFed}
use ssh_rs.Session.{
  version_exchange, authenticate, connect_auth, connect_version, connect, connect_bio,
}

version_loop-IsFed :
    (t : Timeout) (got : Bytes) (es : List ReadEvent) → IsFed (version_loop t got es).0
unfolding version_loop
version_loop-IsFed t got [] = tt
version_loop-IsFed t got (chunk [] ∷ es) = tt
version_loop-IsFed t got (chunk (b ∷ bs) ∷ es) =
    on_round-cases (λ (p : SshResult Bytes × List ReadEvent). IsFed p.0) (take_bytes t got (b ∷ bs))
      _ _ (λ next e. version_loop-IsFed next.0 next.1 es) (λ found e. tt)
version_loop-IsFed t got (read_would_block now used ∷ es) =
    or_return-IsFed _ _ es (till_next_tick-IsFed t now used) λ t'. version_loop-IsFed t' got es
version_loop-IsFed t got (read_fails code ∷ es) = tt

write_event-IsFed :
    (es : List WriteEvent) (buf : Bytes) (s : Stream) → IsFed (write_event es buf s).0
unfolding write_event
write_event-IsFed [] buf s = tt
write_event-IsFed (accepts n ∷ es) buf s = tt
write_event-IsFed (write_would_block now used ∷ es) buf s = tt
write_event-IsFed (write_fails code ∷ es) buf s = tt

send_our_version-IsFed : (v : SshVersion) (s : Stream) → IsFed (send_our_version v s).0
unfolding send_our_version write_once
send_our_version-IsFed v s = or_return-IsFed _ _ _ (write_event-IsFed s.sink _ s) λ n. tt

server_version-IsFed : (v : SshVersion) (buf : Bytes) → IsFed (server_version v buf)
unfolding server_version
server_version-IsFed v buf = if-cases (IsFed {A = SshVersion}) (is_utf8 buf) _ _ (λ e. tt) (λ e. tt)

read_server_version-IsFed :
    (v : SshVersion) (tm : Option ℕ) (s : Stream) → IsFed (read_server_version v tm s).0
unfolding read_server_version read_version
read_server_version-IsFed v tm s =
    or_return-IsFed _ _ _ (version_loop-IsFed (Timeout.new tm) [] s.input)
      λ buf. server_version-IsFed v buf

validate-IsFed : (v : SshVersion) → IsFed (validate v)
unfolding validate
validate-IsFed v =
    if-cases (IsFed {A = Unit {0}}) (contains v.server_ver (ascii "SSH-2.0")) _ _ (λ e. tt)
      (λ e. tt)

version_exchange-IsFed : (config : Config) (s : Stream) → IsFed (version_exchange config s).0
unfolding version_exchange
version_exchange-IsFed config s = or_return-IsFed _ _ _ (send_our_version-IsFed config.ver s) λ u.
    or_return-IsFed _ _ _ (read_server_version-IsFed config.ver config.timeout _)
      λ ver. or_return-IsFed _ _ _ (validate-IsFed ver) λ u'. tt

module _ {S C : Type 0} (su : Suite S C) (fed : SuiteFed su) (keys : KeyOps)
    (keys_fed : KeysFed keys) where
  authenticate-IsFed : (l : Link S C) → IsFed (authenticate su keys l).0
  unfolding authenticate
  authenticate-IsFed l =
      or_return-IsFed _ _ _
        (Paid-IsFed incoming (λ v. 1) _ _ (from_stream-Paid su.enc su.comp fed.packets l))
        λ payload. or_return-IsFed _ _ _ (unpack-IsFed payload) λ server_algs.
          or_return-IsFed _ _ _
            (Paid-IsFed incoming (λ d. 0) _ _ (key_agreement-Paid su fed server_algs _ _))
            λ digest. do_auth-IsFed su fed keys keys_fed digest _

  connect_auth-IsFed :
      (draws : ℕ) (client : Client S C) (stream : Stream)
      → IsFed (connect_auth su keys draws client stream)
  unfolding connect_auth
  connect_auth-IsFed draws client stream = >>=-IsFed _ _ (authenticate-IsFed _) λ u. tt

  connect_version-IsFed :
      (draws : ℕ) (cipher : S) (compressor : C) (config : Config) (stream : Stream)
      → IsFed (connect_version su keys draws cipher compressor config stream)
  unfolding connect_version
  connect_version-IsFed draws cipher compressor config stream =
      >>=-IsFed _ _ (version_exchange-IsFed config stream) λ config'. connect_auth-IsFed draws _ _

  -- Connecting never uses up the bound of one of its loops, whatever the server sends, if the calls
  -- of the algorithms and on the private key do not: the version is read, the key exchange and the
  -- authentication each take a message in a round.
  pub connect_bio_never_starves :
      (draws : ℕ) (cipher : S) (compressor : C) (config : Config) (stream : Stream)
      → connect_bio su keys draws cipher compressor config stream ≢ starved
  unfolding connect_bio connect
  connect_bio_never_starves draws cipher compressor config stream =
      IsFed-ne-starved _ (connect_version-IsFed draws cipher compressor _ stream)
