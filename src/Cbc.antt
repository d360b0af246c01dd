-- ===== src/Cbc.antt =====
-- algorithm/encryption/aes_cbc.rs. The three types that `crate_aes_cbc!` makes differ in the size of
-- the key, and the type of des_cbc.rs has the same lines with other sizes. The block cipher in CBC
-- mode is a parameter.
pub mod Blocks
pub mod Pairs
use ssh_rs.Base.{ℕ, zero, suc, ◌+◌, List, [], ◌∷◌, false, ◌++◌, bytes_eq, length, take, drop, u32}
use ssh_rs.Error.{SshResult, ok, starved, map_ok}
use ssh_rs.Data.{Bytes, get_u32}
use ssh_rs.Hash.{Ring, Hash}
use ssh_rs.Keys.{Extend, Keys, keys_from, opened}
use ssh_rs.Hmac
use ssh_rs.Hmac.{HmacRing, MacBox, sign, slice}
use ssh_rs.Io.{Io, pure, lift, gets, ◌>>=◌}
use ssh_rs.Client.{Encryption}

-- The types cbc::Encryptor and cbc::Decryptor. A block replaces the buffer.
pub record BlockModes (E D : Type 0) : Type 0 where
  pub encryptor : Bytes → Bytes → E
  pub decryptor : Bytes → Bytes → D
  pub encrypt_block : E → Bytes → Bytes × E
  pub decrypt_block : D → Bytes → Bytes × D

abbrev pub iv_size : ℕ
iv_size = 16

abbrev pub aes_block_size : ℕ
aes_block_size = 16

pub record Cbc (E D : Type 0) : Type 0 where
  pub client_key : E
  pub server_key : D
  pub extend : Extend

-- `while idx < len`: each block of the buffer is replaced. The fuel is the length of the buffer; a
-- part of a block at the end panics.
unfoldable pub blocks : {K : Type 0} → (K → Bytes → Bytes × K) → ℕ → ℕ → Bytes → Io K Bytes
blocks step size fuel [] = pure []
blocks step size zero (b ∷ buf) = lift starved
blocks step size (suc fuel) (b ∷ buf) = do
  block ← lift (slice size (b ∷ buf))
  x ← λ k. let (y, k') = step k block in (ok y, k')
  rest ← blocks step size fuel (drop size (b ∷ buf))
  pure (x ++ rest)

abbrev pub from_keys : {E D : Type 0} → BlockModes E D → Keys → Cbc E D
from_keys modes keys = record {
  client_key = modes.encryptor keys.ckey keys.civ;
  server_key = modes.decryptor keys.skey keys.siv;
  extend = keys.extend;
}

module _ {E D : Type 0} (modes : BlockModes E D) (hmac : HmacRing) (size : ℕ) where
  unfoldable pub client_blocks : Bytes → Io (Cbc E D) Bytes
  client_blocks buf c =
      let (r, k) = blocks modes.encrypt_block size (length buf) buf c.client_key in
      (r, record c { client_key = k })

  unfoldable pub server_blocks : Bytes → Io (Cbc E D) Bytes
  server_blocks buf c =
      let (r, k) = blocks modes.decrypt_block size (length buf) buf c.server_key in
      (r, record c { server_key = k })

  unfoldable pub encrypt : ℕ → Bytes → Io (Cbc E D) Bytes
  encrypt seq buf = do
    x ← gets (λ c. c.extend)
    tag ← lift (sign hmac x.mac x.ik_c_s seq buf)
    sealed ← client_blocks buf
    pure (sealed ++ tag)

  -- The cipher is cloned, so that its own state stays.
  unfoldable pub packet_len : Bytes → Io (Cbc E D) ℕ
  packet_len buf = do
    first ← lift (slice size buf)
    r ← gets (λ c. (modes.decrypt_block c.server_key first).0)
    (len, rest) ← lift (get_u32 r)
    pure (u32 (len + 4))

  unfoldable pub decrypt : ℕ → Bytes → Io (Cbc E D) Bytes
  decrypt seq buf = do
    pl ← packet_len buf
    x ← gets (λ c. c.extend)
    n ← lift (Hmac.bsize x.mac)
    all ← lift (slice (pl + n) buf)
    d ← server_blocks (take pl all)
    tag ← lift (sign hmac x.mac x.ik_s_c seq d)
    lift (opened (bytes_eq (drop pl all) tag) d)

  unfoldable pub data_len : Bytes → Io (Cbc E D) ℕ
  data_len buf = do
    pl ← packet_len buf
    n ← gets (λ c. c.extend.mac) >>= λ mac. lift (Hmac.bsize mac)
    pure (pl + n)

  abbrev pub encryption_cbc : Encryption (Cbc E D)
  encryption_cbc = record {
    bsize = λ c. size;
    no_pad = λ c. false;
    encrypt = λ c seq buf. encrypt seq buf c;
    decrypt = λ c seq buf. decrypt seq buf c;
    data_len = λ c seq buf. data_len buf c;
  }

module _ {E D : Type 0} (modes : BlockModes E D) where
  unfoldable pub new : Ring → ℕ → Hash → MacBox → SshResult (Cbc E D)
  new ring key_size hash mac = map_ok (from_keys modes) (keys_from ring key_size iv_size hash mac)
