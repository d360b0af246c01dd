-- ===== src/Keys.antt =====
-- The keys that `new` of aes_ctr.rs, aes_cbc.rs and des_cbc.rs (algorithm/encryption) take from the
-- hash of a key exchange. The three have the same lines, with their own sizes.
pub mod Shared
use ssh_rs.Base.{ℕ, Bool, true, false}
use ssh_rs.Error.{SshResult, ok, err, encryption_error, ◌>>=◌}
use ssh_rs.Constant.{ascii}
use ssh_rs.Data.{Bytes}
use ssh_rs.Hash.{Ring, Hash, mix_ek, mix_ik}
use ssh_rs.Hmac.{MacBox, bsize, slice}

-- `Extend`, the part for the codes.
pub record Extend : Type 0 where
  pub mac : MacBox
  pub ik_c_s : Bytes
  pub ik_s_c : Bytes

pub record Keys : Type 0 where
  pub ckey : Bytes
  pub skey : Bytes
  pub civ : Bytes
  pub siv : Bytes
  pub extend : Extend

unfoldable pub keys_from : Ring → ℕ → ℕ → Hash → MacBox → SshResult Keys
keys_from ring key_size iv_size hash mac = do
  (ck, sk) ← mix_ek ring hash key_size
  ckey ← slice key_size ck
  skey ← slice key_size sk
  civ ← slice iv_size hash.iv_c_s
  siv ← slice iv_size hash.iv_s_c
  n ← bsize mac
  (ik_c_s, ik_s_c) ← mix_ik ring hash n
  ok (record {
    ckey = ckey;
    skey = skey;
    civ = civ;
    siv = siv;
    extend = record { mac = mac; ik_c_s = ik_c_s; ik_s_c = ik_s_c };
  })

-- The end of `decrypt`: whether the code is the one that was sent.
unfoldable pub opened : Bool → Bytes → SshResult Bytes
opened true d = ok d
opened false d = err (encryption_error (ascii "Failed to decrypt the server traffic"))
