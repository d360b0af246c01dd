-- ===== src/Hash.antt =====
-- algorithm/hash: the exchange hash and the keys that are derived from it. The digests of the crate
-- ring are a parameter.
pub mod Keys
pub mod Derived
use ssh_rs.Base.{ℕ, zero, suc, ◌+◌, List, [], ◌∷◌, ◌++◌, ltb, if◌then◌else◌, length}
use ssh_rs.Error.{SshResult, ok, starved, ◌>>=◌}
use ssh_rs.Data.{Bytes, put_str, put_u8s, put_mpint}

pub data HashType : Type 0 where
  none sha1 sha256 : HashType

pub record Ring : Type 0 where
  pub sha1_digest : Bytes → Bytes
  pub sha256_digest : Bytes → Bytes

pub record HashCtx : Type 0 where
  pub v_c : Bytes
  pub v_s : Bytes
  pub i_c : Bytes
  pub i_s : Bytes
  pub k_s : Bytes
  pub e : Bytes
  pub f : Bytes
  pub k : Bytes

abbrev pub ctx_new : HashCtx
ctx_new = record { v_c = []; v_s = []; i_c = []; i_s = []; k_s = []; e = []; f = []; k = [] }

unfoldable pub set_v_c : Bytes → HashCtx → HashCtx
set_v_c vc h = record h { v_c = put_str [] vc }

unfoldable pub set_v_s : Bytes → HashCtx → HashCtx
set_v_s vs h = record h { v_s = put_str [] vs }

unfoldable pub set_i_c : Bytes → HashCtx → HashCtx
set_i_c ic h = record h { i_c = put_u8s [] ic }

unfoldable pub set_i_s : Bytes → HashCtx → HashCtx
set_i_s is' h = record h { i_s = put_u8s [] is' }

unfoldable pub set_k_s : Bytes → HashCtx → HashCtx
set_k_s ks h = record h { k_s = put_u8s [] ks }

unfoldable pub set_e : Bytes → HashCtx → HashCtx
set_e qc h = record h { e = put_u8s [] qc }

unfoldable pub set_f : Bytes → HashCtx → HashCtx
set_f qs h = record h { f = put_u8s [] qs }

-- `put_mpint` panics on no bytes.
unfoldable pub set_k : Bytes → HashCtx → SshResult HashCtx
set_k k h = do d ← put_mpint [] k; ok (record h { k = d })

unfoldable pub as_bytes : HashCtx → Bytes
as_bytes h = h.v_c ++ (h.v_s ++ (h.i_c ++ (h.i_s ++ (h.k_s ++ (h.e ++ (h.f ++ h.k))))))

pub record Hash : Type 0 where
  pub iv_c_s : Bytes
  pub iv_s_c : Bytes
  pub ek_c_s : Bytes
  pub ek_s_c : Bytes
  pub ik_c_s : Bytes
  pub ik_s_c : Bytes
  pub hash_type : HashType
  pub hash_ctx : HashCtx

module _ (ring : Ring) where
  unfoldable pub digest : Bytes → HashType → Bytes
  digest bytes sha256 = ring.sha256_digest bytes
  digest bytes _ = ring.sha1_digest bytes

  unfoldable pub mix : Bytes → Bytes → ℕ → Bytes → HashType → Bytes
  mix k h key_char session_id t = digest (k ++ (h ++ (key_char ∷ session_id))) t

  -- One key for each letter of ALPHABET.
  unfoldable pub new : HashCtx → Bytes → HashType → Hash
  new ctx session_id t =
      let h = digest (as_bytes ctx) t in
      record {
        iv_c_s = mix ctx.k h b'A' session_id t;
        iv_s_c = mix ctx.k h b'B' session_id t;
        ek_c_s = mix ctx.k h b'C' session_id t;
        ek_s_c = mix ctx.k h b'D' session_id t;
        ik_c_s = mix ctx.k h b'E' session_id t;
        ik_s_c = mix ctx.k h b'F' session_id t;
        hash_type = t;
        hash_ctx = ctx;
      }

  unfoldable pub extend : Hash → Bytes → Bytes
  extend hash key =
      let ctx = hash.hash_ctx in
      let h = digest (as_bytes ctx) hash.hash_type in digest (ctx.k ++ (h ++ key)) hash.hash_type

  -- `while key_size > ck.len()`, with fuel.
  unfoldable pub mix_loop : ℕ → Hash → ℕ → Bytes → Bytes → SshResult (Bytes × Bytes)
  mix_loop zero hash key_size ck sk = starved
  mix_loop (suc fuel) hash key_size ck sk =
      let longer = mix_loop fuel hash key_size (ck ++ extend hash ck) (sk ++ extend hash sk) in
      if ltb (length ck) key_size then longer else ok (ck, sk)

  -- Each round adds a byte at least, if digests are not empty, so `key_size` rounds are enough.
  unfoldable pub mix_ek : Hash → ℕ → SshResult (Bytes × Bytes)
  mix_ek hash key_size = mix_loop (suc key_size) hash key_size hash.ek_c_s hash.ek_s_c

  unfoldable pub mix_ik : Hash → ℕ → SshResult (Bytes × Bytes)
  mix_ik hash key_size = mix_loop (suc key_size) hash key_size hash.ik_c_s hash.ik_s_c
