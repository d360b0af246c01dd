-- ===== src/Kex.antt =====
-- client/client_kex.rs: the key exchange. The digest is local to the callers, which drop it when a
-- call fails, so it is passed on and returned by value.
pub mod Verified
pub mod Fed
use ssh_rs.Base.{
  ℕ, suc, List, [], ◌∷◌, Bool, true, false, ◌⊎◌, inl, inr, ◌==◌, if◌then◌else◌, length,
}
use ssh_rs.Error.{SshResult, ok, err, panic, kex_error}
use ssh_rs.Constant.{ascii, kexdh_init, kexdh_reply, newkeys}
use ssh_rs.Data.{Bytes, put_u8, put_u8s, get_u8}
use ssh_rs.Algorithm.{PubKey, Compress, zlib}
use ssh_rs.AlgList.{AlgList, match_with, pack}
use ssh_rs.Hash
use ssh_rs.Hash.{HashCtx, digest, set_v_c, set_v_s, set_i_c, as_bytes}
use ssh_rs.Io.{Io, pure, lift, gets, modify, ◌>>=◌, ◌>>◌, drive}
use ssh_rs.Client.{Client, Link}
use ssh_rs.Stream.Reads.{content}
use ssh_rs.Packet.{write_stream, from_stream}
use ssh_rs.Suite.{KeyExchange, Suite, first}
use ssh_rs.KexReply.{Exchange, on_reply}

-- The bytes that are still to come, which the bounded loops count.
abbrev pub incoming : {S C : Type 0} → Link S C → ℕ
incoming l = length (content l.stream.input)

-- algorithm/mod.rs: the context of the exchange hash and the method that was used.
pub record Digest : Type 0 where
  pub hash_ctx : HashCtx
  pub key_exchange : KeyExchange

-- The session id is that of the first exchange.
abbrev pub kept_session_id : Bytes → Bytes → Bytes
kept_session_id [] session_id = session_id
kept_session_id (b ∷ old) session_id = b ∷ old

-- With zlib the compressor is replaced at once; zlib@openssh.com waits for the authentication.
abbrev pub compressor_after : {C : Type 0} → (Compress → C) → Compress → C → C
compressor_after from zlib c = from zlib
compressor_after from _ c = c

module _ {S C : Type 0} (su : Suite S C) where
  -- A number from the random generator.
  unfoldable pub draw : Io (Link S C) ℕ
  draw l = (ok l.draws, record l { draws = suc l.draws })

  unfoldable pub send_qc : Bytes → Io (Link S C) (Unit {0})
  send_qc key = write_stream su.enc su.comp (put_u8s (put_u8 [] kexdh_init) key)

  unfoldable pub new_keys : Io (Link S C) (Unit {0})
  new_keys = write_stream su.enc su.comp (put_u8 [] newkeys)

  -- The branches on the message code; another code is `unreachable!()`.
  unfoldable pub on_code :
      PubKey → KeyExchange → Exchange → ℕ → Bytes → Io (Link S C) (Exchange ⊎ Exchange)
  on_code pk kx x code d =
      if code == kexdh_reply
      then lift (on_reply su pk kx d x) >>= (λ x'. pure (inl x'))
      else if code == newkeys
      then new_keys >> pure (inr x)
      else lift panic

  -- One round of the loop.
  unfoldable pub exchange_step :
      PubKey → KeyExchange → Exchange → Io (Link S C) (Exchange ⊎ Exchange)
  exchange_step pk kx x = do
    payload ← from_stream su.enc su.comp
    (code, d) ← lift (get_u8 payload)
    on_code pk kx x code d

  unfoldable pub verify_signature_and_new_keys :
      PubKey → KeyExchange → HashCtx → Io (Link S C) Exchange
  verify_signature_and_new_keys pk kx h =
      drive (λ x. incoming) (exchange_step pk kx) (record { session_id = []; ctx = h })

  -- What the exchange leaves in the client, at its end.
  unfoldable pub install : AlgList → KeyExchange → Exchange → Io (Link S C) (Unit {0})
  install negotiated kx x = do
    old ← gets (λ l. l.client.session_id)
    let session_id = kept_session_id old x.session_id
    let hash = Hash.new su.ring x.ctx session_id kx.get_hash_type
    mac ← lift (first negotiated.c_mac)
    cipher ← lift (first negotiated.c_encryption)
    encryptor ← lift (su.encryption_from cipher hash mac)
    compress ← lift (first negotiated.c_compress)
    modify λ l. record l {
      client = record l.client {
        session_id = session_id;
        negotiated = negotiated;
        encryptor = encryptor;
        compressor = compressor_after su.compression_from compress l.client.compressor;
      };
    }

  unfoldable pub key_agreement : AlgList → HashCtx → Io (Link S C) Digest
  key_agreement server_algs h = do
    config ← gets (λ l. l.client.config)
    n ← draw
    let kexinit_payload = pack (su.cookie n) config.algs
    write_stream su.enc su.comp kexinit_payload
    negotiated ← lift (match_with config.algs server_algs)
    kex ← lift (first negotiated.key_exchange)
    m ← draw
    kx ← lift (su.key_exchange_from kex m)
    send_qc kx.get_public_key
    pk ← lift (first negotiated.public_key)
    let ctx =
        set_i_c kexinit_payload (set_v_s config.ver.server_ver (set_v_c config.ver.client_ver h))
    x ← verify_signature_and_new_keys pk kx ctx
    install negotiated kx x
    pure (record { hash_ctx = x.ctx; key_exchange = kx })
