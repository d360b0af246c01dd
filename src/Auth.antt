-- ===== src/Auth.antt =====
-- client/client_auth.rs, and `signature` of config/auth.rs. The parsing of private keys and the
-- signing are calls of other crates, and are parameters.
pub mod Fed
pub mod Success
use ssh_rs.Base.{
  ℕ, List, [], ◌∷◌, ◌++◌, Bool, true, false, Option, none, some, ◌⊎◌, inl, inr, ◌==◌, if◌then◌else◌,
}
use ssh_rs.Error.{SshResult, ok, err, panic, auth_error}
use ssh_rs.Constant.{
  ssh_userauth, ssh_connection, public_key, password, service_request, service_accept,
  userauth_request, userauth_failure, userauth_success, userauth_pk_ok, global_request,
  request_failure,
}
use ssh_rs.Data.{Bytes, put_u8, put_str, put_u8s, get_u8}
use ssh_rs.Algorithm.{PubKey, pub_key_name, Compress, zlib_open_ssh}
use ssh_rs.Hash.{digest, as_bytes}
use ssh_rs.Config.{KeyPair}
use ssh_rs.Io.{Io, pure, lift, gets, modify, ◌>>=◌, ◌>>◌, drive}
use ssh_rs.Client.{Client, Link}
use ssh_rs.Packet.{write_stream, from_stream}
use ssh_rs.Suite.{Suite, first}
use ssh_rs.Kex.{incoming, Digest}

-- What a private key gives: its public blob, and a signature. A key that cannot be used panics.
pub record KeyOps : Type 0 where
  pub get_blob : KeyPair → PubKey → SshResult Bytes
  pub sign : KeyPair → Bytes → PubKey → SshResult Bytes

-- `Option::unwrap`.
unfoldable pub unwrap : {A : Type 0} → Option A → SshResult A
unwrap none = panic
unwrap (some a) = ok a

-- The arms of the match on the message code.
pub data Arm : Type 0 where
  accepted refused key_fine succeeded asked ignored : Arm

unfoldable pub arm_of : ℕ → Arm
arm_of code =
    if code == service_accept
    then accepted
    else if code == userauth_failure
    then refused
    else if code == userauth_pk_ok
    then key_fine
    else if code == userauth_success
    then succeeded
    else if code == global_request
    then asked
    else ignored

-- The compressor that waits for the authentication is put in place.
abbrev pub delayed_compressor : {C : Type 0} → (Compress → C) → Compress → C → C
delayed_compressor from zlib_open_ssh c = from zlib_open_ssh
delayed_compressor from _ c = c

module _ {S C : Type 0} (su : Suite S C) (keys : KeyOps) where
  unfoldable pub password_authentication : Io (Link S C) (Unit {0})
  password_authentication l =
      let auth = l.client.config.auth in
      let d1 = put_str (put_u8 [] userauth_request) auth.username in
      let d2 = put_str (put_str d1 ssh_connection) password in
      write_stream su.enc su.comp (put_str (put_u8 d2 0) auth.password) l

  -- The request for a key, with a flag that says whether a signature follows.
  unfoldable pub key_request : Bytes → ℕ → PubKey → Bytes → Bytes
  key_request username signed alg blob =
      let d1 = put_str (put_u8 [] userauth_request) username in
      let d2 = put_u8 (put_str (put_str d1 ssh_connection) public_key) signed in
      put_u8s (put_str d2 (pub_key_name alg)) blob

  unfoldable pub public_key_authentication : Io (Link S C) (Unit {0})
  public_key_authentication = do
    alg ← gets (λ l. l.client.negotiated.public_key) >>= λ v. lift (first v)
    auth ← gets (λ l. l.client.config.auth)
    pair ← lift (unwrap auth.key_pair)
    blob ← lift (keys.get_blob pair alg)
    write_stream su.enc su.comp (key_request auth.username 0 alg blob)

  -- `KeyPair::signature`: the signature over the session id and the request.
  unfoldable pub signed_bytes : Digest → Bytes → Bytes
  signed_bytes d buf =
      put_u8s [] (digest su.ring (as_bytes d.hash_ctx) d.key_exchange.get_hash_type) ++ buf

  unfoldable pub public_key_signature : Digest → Io (Link S C) (Unit {0})
  public_key_signature d = do
    alg ← gets (λ l. l.client.negotiated.public_key) >>= λ v. lift (first v)
    auth ← gets (λ l. l.client.config.auth)
    pair ← lift (unwrap auth.key_pair)
    blob ← lift (keys.get_blob pair alg)
    let request = key_request auth.username 1 alg blob
    sig ← lift (keys.sign pair (signed_bytes d request) alg)
    write_stream su.enc su.comp (put_u8s request (put_u8s (put_str [] (pub_key_name alg)) sig))

  -- A password at once if there is no key, which is noted down as if the key had been tried.
  unfoldable pub start_with : Option KeyPair → Bool → Io (Link S C) (Bool ⊎ Unit {0})
  start_with none tried = password_authentication >> pure (inl true)
  start_with (some pair) tried = public_key_authentication >> pure (inl tried)

  -- The password after the key, and an error after the password.
  unfoldable pub fall_back : Bool → Io (Link S C) (Bool ⊎ Unit {0})
  fall_back false = password_authentication >> pure (inl true)
  fall_back true = lift (err auth_error)

  unfoldable pub finish_auth : Io (Link S C) (Bool ⊎ Unit {0})
  finish_auth = do
    compress ← gets (λ l. l.client.negotiated.c_compress) >>= λ v. lift (first v)
    modify λ l. record l {
      client = record l.client {
        compressor = delayed_compressor su.compression_from compress l.client.compressor;
      };
    }
    pure (inr tt)

  unfoldable pub auth_arm : Digest → Bool → Arm → Io (Link S C) (Bool ⊎ Unit {0})
  auth_arm d tried accepted =
      gets (λ l. l.client.config.auth.key_pair) >>= λ pair. start_with pair tried
  auth_arm d tried refused = fall_back tried
  auth_arm d tried key_fine = public_key_signature d >> pure (inl tried)
  auth_arm d tried succeeded = finish_auth
  auth_arm d tried asked =
      write_stream su.enc su.comp (put_u8 [] request_failure) >> pure (inl tried)
  auth_arm d tried ignored = pure (inl tried)

  -- One round of the loop.
  unfoldable pub auth_round : Digest → Bool → Io (Link S C) (Bool ⊎ Unit {0})
  auth_round d tried = do
    payload ← from_stream su.enc su.comp
    (code, rest) ← lift (get_u8 payload)
    auth_arm d tried (arm_of code)

  unfoldable pub do_auth : Digest → Io (Link S C) (Unit {0})
  do_auth d = do
    write_stream su.enc su.comp (put_str (put_u8 [] service_request) ssh_userauth)
    drive (λ tried. incoming) (auth_round d) false
