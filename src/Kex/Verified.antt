-- ===== src/Kex/Verified.antt =====
-- What a key exchange that succeeds has checked.
use ssh_rs.Base.{ℕ, ◌≡◌, [], ◌∷◌, true, ◌⊎◌}
use ssh_rs.Error.{SshResult, ok, err, panic, hang, starved, IsFailure}
use ssh_rs.Constant.{kexdh_reply, newkeys}
use ssh_rs.Data.{Bytes, get_u8s, put_u8s, put_mpint}
use ssh_rs.Algorithm.{PubKey}
use ssh_rs.Hash.{HashCtx}
use ssh_rs.Hash.Derived.{exchange_hash}
use ssh_rs.Io.Invariant.{Turn, Turn-failure}
use ssh_rs.Client.{Link}
use ssh_rs.Packet.{from_stream}
use ssh_rs.Suite.{KeyExchange, Suite}
use ssh_rs.KexReply.{Exchange}

-- KEXDH_REPLY of RFC 4253, section 8, after its code: the host key K_S, f, and the signature of H,
-- which is the name of its algorithm and the signature itself.
pub record Parts (d ks qs sig : Bytes) : Type 0 where
  pub after_ks : Bytes
  pub after_qs : Bytes
  pub after_blob : Bytes
  pub blob : Bytes
  pub name : Bytes
  pub after_name : Bytes
  pub after_sig : Bytes
  pub host_key : get_u8s d ≡ ok (ks, after_ks)
  pub public_key : get_u8s after_ks ≡ ok (qs, after_qs)
  pub signature_blob : get_u8s after_qs ≡ ok (blob, after_blob)
  pub scheme : get_u8s blob ≡ ok (name, after_name)
  pub signature : get_u8s after_name ≡ ok (sig, after_sig)

-- The context of the exchange hash once K_S, e, f and K are known.
abbrev pub completed : HashCtx → KeyExchange → Bytes → Bytes → Bytes → HashCtx
completed h kx ks qs k = record h {
  k_s = put_u8s [] ks;
  e = put_u8s [] kx.get_public_key;
  f = put_u8s [] qs;
  k = k;
}

-- The parts of a reply, and the context that they make of another one.
pub record Generated (kx : KeyExchange) (d : Bytes) (h : HashCtx) (sig : Bytes) (ctx : HashCtx)
    : Type 0 where
  pub ks : Bytes
  pub qs : Bytes
  pub secret : Bytes
  pub k : Bytes
  pub parts : Parts d ks qs sig
  pub agreed : kx.get_shared_secret qs ≡ ok secret
  pub encoded : put_mpint [] secret ≡ ok k
  pub context : ctx ≡ completed h kx ks qs k

module _ {S C : Type 0} (su : Suite S C) (pk : PubKey) (kx : KeyExchange) where
  -- The links that reading messages leads to.
  pub data Along (start : Link S C) : Link S C → Type 0 where
    at_start : Along start start
    after_read : (l : Link S C) → Along start l → Along start (from_stream su.enc su.comp l).1

  -- A message of this code, and what follows it, was read since the start.
  abbrev pub Received : Link S C → ℕ → Bytes → Type 0
  Received start code d =
      (l : Link S C) × Along start l × ((from_stream su.enc su.comp l).0 ≡ ok (code ∷ d))

  -- A KEXDH_REPLY was read; the context is `h` with its host key, both public keys and the secret;
  -- the session id is the exchange hash of it; and the host key has signed that hash.
  pub record Signed (h : HashCtx) (start : Link S C) (x : Exchange) : Type 0 where
    pub reply : Bytes
    pub sig : Bytes
    pub received : Received start kexdh_reply reply
    pub read : Generated kx reply h sig x.ctx
    pub hashed : x.session_id ≡ exchange_hash su.ring kx.get_hash_type x.ctx
    pub verified : su.verify_signature pk (put_u8s [] read.ks) x.session_id sig ≡ ok true

  -- No reply was read yet.
  abbrev pub IsFresh : HashCtx → Exchange → Type 0
  IsFresh h x = (x.session_id ≡ []) × (x.ctx ≡ h)

  abbrev pub Sound : HashCtx → Link S C → Exchange → Type 0
  Sound h start x = IsFresh h x ⊎ Signed h start x

  -- If the exchange succeeds, NEWKEYS was read, and a reply was checked or none was read.
  abbrev pub Checked : HashCtx → Link S C → SshResult Exchange × Link S C → Type 0
  Checked h start (ok x, l) = Sound h start x × ((rest : Bytes) × Received start newkeys rest)
  Checked h start (_, l) = Unit {0}

  module _ (h : HashCtx) (start : Link S C) where
    abbrev I : Exchange → Link S C → Type 0
    I x l = Sound h start x × Along start l

    Checked-failure : (l : Link S C) (r : SshResult Exchange) → IsFailure r → Checked h start (r, l)
    Checked-failure l (ok x) f = absurd f
    Checked-failure l (err e) f = tt
    Checked-failure l panic f = tt
    Checked-failure l hang f = tt
    Checked-failure l starved f = tt

    abbrev failed :
        (l : Link S C) (r : SshResult (Exchange ⊎ Exchange))
        → IsFailure r
        → Turn I (Checked h start) (r, l)
    failed l = Turn-failure I (Checked h start) l (Checked-failure l)
