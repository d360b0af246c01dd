-- ===== src/Session/Keeps.antt =====
-- A connection keeps the configuration that it was made with, the version of the server included.
pub mod KexStage
pub mod Authentication
use ssh_rs.Base.{
  ℕ, suc, ◌+◌, ◌≡◌, refl, List, [], ◌∷◌, Bool, true, false, Option, none, some, ◌⊎◌, inl, inr, ◌==◌,
  if◌then◌else◌, if-cases, length, replicate, leb, ◌-◌, ◌++◌,
}
use ssh_rs.Error.{SshResult, ok, err, panic, hang, starved, or_return, map_ok, and_then, >>=-eq-ok}
use ssh_rs.Constant.{ascii, kexdh_init, kexdh_reply, newkeys, service_request, ssh_userauth}
use ssh_rs.Data.{Bytes, get_u8, put_u8, put_u8s, put_str}
use ssh_rs.AlgList.{AlgList, unpack, match_with, pack}
use ssh_rs.Frame.{unframe, frame, get_align}
use ssh_rs.Sequence.{get_client, get_server}
use ssh_rs.Algorithm.{PubKey}
use ssh_rs.Hash.{HashCtx, ctx_new, set_i_s, set_i_c, set_v_s, set_v_c}
use ssh_rs.Stream.{Stream, read_with_timeout, write_with_timeout}
use ssh_rs.Config.{Config, KeyPair, SshVersion, tune_alglist_on_private_key}
use ssh_rs.Io.{Io, lift, gets, modify, pure, require, ◌>>=◌, ◌>>◌}
use ssh_rs.Io.Keeps.{Keeps, bind-Keeps, lift-Keeps, then-Keeps, drive-Keeps}
use ssh_rs.Version.{contains, validate, read_server_version, send_our_version}
use ssh_rs.Client
use ssh_rs.Client.{Client, Link, Encryption, Compression}
use ssh_rs.Packet.{
  client_number, server_number, encrypt_with, decrypt_with, data_len_with, compress_with,
  decompress_with, write_out, read_in, block_size, write_stream, read_packet, from_stream,
}
use ssh_rs.Suite.{Suite, KeyExchange, first}
use ssh_rs.KexReply.{Exchange, on_reply}
use ssh_rs.Kex.{
  incoming, Digest, draw, send_qc, new_keys, on_code, exchange_step, verify_signature_and_new_keys,
  install, key_agreement,
}
use ssh_rs.Auth.{
  KeyOps, Arm, accepted, refused, key_fine, succeeded, asked, ignored, arm_of, unwrap,
  password_authentication, public_key_authentication, public_key_signature, start_with, fall_back,
  finish_auth, auth_arm, auth_round, do_auth,
}
use ssh_rs.Session.{
  SessionState, init, version, auth, connected, version_exchange, authenticate, connect_auth,
  connect_version, connect, connect_bio,
}

module _ {S C : Type 0} (c : Config) where
  -- The configuration of a link.
  abbrev pub Has : Link S C → Type 0
  Has l = l.client.config ≡ c

  -- That of the link that a method leaves, whatever its outcome.
  abbrev pub Left : {A : Type 0} → SshResult A × Link S C → Type 0
  Left (ok a, l) = Has l
  Left (err e, l) = Has l
  Left (panic, l) = Has l
  Left (hang, l) = Has l
  Left (starved, l) = Has l

  pub left : {A : Type 0} (r : SshResult A) (l : Link S C) → Has l → Left (r, l)
  left (ok a) l h = h
  left (err e) l h = h
  left panic l h = h
  left hang l h = h
  left starved l h = h

  pub same : {A : Type 0} (p : SshResult A × Link S C) → Left p → Has p.1
  same (ok a, l) h = h
  same (err e, l) h = h
  same (panic, l) h = h
  same (hang, l) h = h
  same (starved, l) h = h

  pub step :
      {A B : Type 0} (r : SshResult A) (k : A → SshResult B × Link S C) (l : Link S C)
      → Has l
      → ((a : A) → Left (k a))
      → Left (or_return r k l)
  step (ok a) k l h go = go a
  step (err e) k l h go = h
  step panic k l h go = h
  step hang k l h go = h
  step starved k l h go = h

  pub require-Left :
      {B : Type 0} (b : Bool) (k : Io (Link S C) B) (l : Link S C)
      → Has l
      → Left (k l)
      → Left ((require b >> k) l)
  require-Left true k l h go = go
  require-Left false k l h go = h

  module _ (enc : Encryption S) (comp : Compression C) where
    pub write_stream-Left :
        (payload : Bytes) (l : Link S C) → Has l → Left (write_stream enc comp payload l)
    unfolding write_stream compress_with block_size client_number encrypt_with write_out
    write_stream-Left payload l h =
        let cipher = l.client.encryptor in
        step (comp.compress l.client.compressor payload).0 _ _ h λ body.
          step
            (enc.encrypt cipher (get_client l.client.sequence).0
              (frame (get_align (enc.bsize cipher)) (enc.no_pad cipher) body)).0
            _ _ h λ sealed. left (write_with_timeout l.client.config.timeout sealed l.stream).0 _ h

    -- `read_packet` behind its test.
    abbrev rest_of : ℕ → ℕ → Bytes → Io (Link S C) Bytes
    rest_of seq want front =
        read_in enc comp want
        >>= (λ rest. decrypt_with enc comp seq (front ++ rest) >>= (λ plain. lift (unframe plain)))

    rest_of-Left :
        (seq want : ℕ) (front : Bytes) (l : Link S C) → Has l → Left (rest_of seq want front l)
    unfolding read_in decrypt_with
    rest_of-Left seq want front l h =
        step (read_with_timeout l.client.config.timeout want l.stream.input).0 _ _ h λ rest.
          step (enc.decrypt l.client.encryptor seq (front ++ rest)).0 _ _ h
            λ plain. left (unframe plain) _ h

    read_packet-Left :
        (bsize : ℕ) (front : Bytes) (l : Link S C)
        → Has l
        → Left (read_packet enc comp bsize front l)
    unfolding read_packet server_number data_len_with
    read_packet-Left bsize front l h =
        let seq = (get_server l.client.sequence).0 in
        step (enc.data_len l.client.encryptor seq front).0 _ _ h λ len.
          let l' = (data_len_with enc comp seq front (server_number enc comp l).1).1 in
          require-Left (leb bsize len) (rest_of seq (len - bsize) front) l' h
            (rest_of-Left seq (len - bsize) front l' h)

    pub from_stream-Left : (l : Link S C) → Has l → Left (from_stream enc comp l)
    unfolding from_stream block_size read_in decompress_with
    from_stream-Left l h =
        let bsize = get_align (enc.bsize l.client.encryptor) in
        step (read_with_timeout l.client.config.timeout bsize l.stream.input).0 _ _ h λ front.
          let h' = same _ (read_packet-Left _ front _ h) in
          let plain = (read_packet enc comp bsize front (read_in enc comp bsize l).1) in
          step plain.0 _ _ h'
            λ payload. left (comp.decompress plain.1.client.compressor payload).0 _ h'
