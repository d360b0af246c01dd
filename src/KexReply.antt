-- ===== src/KexReply.antt =====
-- What the client does with KEXDH_REPLY: `generate_signature` of client/client_kex.rs, and the branch
-- of `verify_signature_and_new_keys`.
use ssh_rs.Base.{Bool, true, false}
use ssh_rs.Error.{SshResult, ok, err, kex_error, ◌>>=◌}
use ssh_rs.Constant.{ascii}
use ssh_rs.Data.{Bytes, get_u8s}
use ssh_rs.Algorithm.{PubKey}
use ssh_rs.Hash.{HashCtx, digest, as_bytes, set_k_s, set_e, set_f, set_k}
use ssh_rs.Suite.{KeyExchange, Suite}

-- The signature, and the context with what the server sent.
unfoldable pub generate_signature : Bytes → HashCtx → KeyExchange → SshResult (Bytes × HashCtx)
generate_signature d h kx = do
  (ks, d1) ← get_u8s d
  (qs, d2) ← get_u8s d1
  secret ← kx.get_shared_secret qs
  ctx ← set_k secret (set_f qs (set_e kx.get_public_key (set_k_s ks h)))
  (blob, d3) ← get_u8s d2
  (name, hd) ← get_u8s blob
  (signature, rest) ← get_u8s hd
  ok (signature, ctx)

-- The local variables of the loop.
pub record Exchange : Type 0 where
  pub session_id : Bytes
  pub ctx : HashCtx

abbrev pub verdict : Bool → Exchange → SshResult Exchange
verdict true x = ok x
verdict false x = err (kex_error (ascii "signature verification failure."))

-- The new session id, if the signature is good.
unfoldable pub on_reply :
    {S C : Type 0} → Suite S C → PubKey → KeyExchange → Bytes → Exchange → SshResult Exchange
on_reply su pk kx d x = do
  (sig, ctx) ← generate_signature d x.ctx kx
  let session_id = digest su.ring (as_bytes ctx) kx.get_hash_type
  flag ← su.verify_signature pk ctx.k_s session_id sig
  verdict flag (record { session_id = session_id; ctx = ctx })
