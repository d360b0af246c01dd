-- ===== src/Ctr.antt =====
-- algorithm/encryption/aes_ctr.rs. The three types that `crate_aes_ctr!` makes differ in the size of
-- the key. The stream cipher, `Ctr64BE<AesN>` for the size N of the key, is a parameter; positions in
-- its stream have no bound here.
pub mod Pairs
use ssh_rs.Base.{ℕ, ◌+◌, ◌-◌, false, ◌++◌, bytes_eq, length, take, drop, u32}
use ssh_rs.Error.{SshResult, ok, map_ok}
use ssh_rs.Data.{Bytes, get_u32}
use ssh_rs.Hash.{Ring, Hash}
use ssh_rs.Keys.{Extend, Keys, keys_from, opened}
use ssh_rs.Hmac
use ssh_rs.Hmac.{HmacRing, MacBox, sign, slice}
use ssh_rs.Io.{Io, pure, lift, gets, modify, require, ◌>>=◌, ◌>>◌}
use ssh_rs.Client.{Encryption}

-- The traits KeyIvInit, StreamCipher and StreamCipherSeek.
pub record StreamCipher (K : Type 0) : Type 0 where
  pub new : Bytes → Bytes → K
  pub apply_keystream : K → Bytes → Bytes × K
  pub current_pos : K → ℕ
  pub seek : K → ℕ → K

abbrev pub iv_size : ℕ
iv_size = 16

abbrev pub block_size : ℕ
block_size = 16

pub record Ctr (K : Type 0) : Type 0 where
  pub client_key : K
  pub server_key : K
  pub extend : Extend

abbrev pub from_keys : {K : Type 0} → StreamCipher K → Keys → Ctr K
from_keys aes keys = record {
  client_key = aes.new keys.ckey keys.civ;
  server_key = aes.new keys.skey keys.siv;
  extend = keys.extend;
}

module _ {K : Type 0} (aes : StreamCipher K) (hmac : HmacRing) where
  unfoldable pub new : Ring → ℕ → Hash → MacBox → SshResult (Ctr K)
  new ring key_size hash mac = map_ok (from_keys aes) (keys_from ring key_size iv_size hash mac)

  -- The stream ciphers inside, with the buffer that is changed in place.
  unfoldable pub client_apply : Bytes → Io (Ctr K) Bytes
  client_apply buf c =
      let (r, k) = aes.apply_keystream c.client_key buf in (ok r, record c { client_key = k })

  unfoldable pub server_apply : Bytes → Io (Ctr K) Bytes
  server_apply buf c =
      let (r, k) = aes.apply_keystream c.server_key buf in (ok r, record c { server_key = k })

  -- `self.server_key.seek(pos - bsize)`
  unfoldable pub server_back : ℕ → Io (Ctr K) (Unit {0})
  server_back n c =
      let k = c.server_key in (ok tt, record c { server_key = aes.seek k (aes.current_pos k - n) })

  unfoldable pub encrypt : ℕ → Bytes → Io (Ctr K) Bytes
  encrypt seq buf = do
    x ← gets (λ c. c.extend)
    tag ← lift (sign hmac x.mac x.ik_c_s seq buf)
    sealed ← client_apply buf
    pure (sealed ++ tag)

  unfoldable pub packet_len : Bytes → Io (Ctr K) ℕ
  packet_len buf = do
    first ← lift (slice block_size buf)
    r ← server_apply first
    server_back block_size
    (len, rest) ← lift (get_u32 r)
    pure (u32 (len + 4))

  unfoldable pub decrypt : ℕ → Bytes → Io (Ctr K) Bytes
  decrypt seq buf = do
    pl ← packet_len buf
    x ← gets (λ c. c.extend)
    n ← lift (Hmac.bsize x.mac)
    all ← lift (slice (pl + n) buf)
    d ← server_apply (take pl all)
    tag ← lift (sign hmac x.mac x.ik_s_c seq d)
    lift (opened (bytes_eq (drop pl all) tag) d)

  unfoldable pub data_len : Bytes → Io (Ctr K) ℕ
  data_len buf = do
    pl ← packet_len buf
    n ← gets (λ c. c.extend.mac) >>= λ mac. lift (Hmac.bsize mac)
    pure (pl + n)

  abbrev pub encryption_ctr : Encryption (Ctr K)
  encryption_ctr = record {
    bsize = λ c. block_size;
    no_pad = λ c. false;
    encrypt = λ c seq buf. encrypt seq buf c;
    decrypt = λ c seq buf. decrypt seq buf c;
    data_len = λ c seq buf. data_len buf c;
  }
