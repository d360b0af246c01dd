-- ===== src/ChaCha.antt =====
-- algorithm/encryption/chacha20_poly1305_openssh.rs. The keys of the crate ring are a parameter.
pub mod Pairs
use ssh_rs.Base.{
  ℕ, ◌+◌, ◌-◌, true, ◌++◌, Option, none, some, leb, ◌==◌, if◌then◌else◌, length, take, drop, u32,
}
use ssh_rs.Error.{SshResult, ok, err, panic, encryption_error, ◌>>=◌}
use ssh_rs.Constant.{ascii}
use ssh_rs.Data.{Bytes, get_u32}
use ssh_rs.Hash.{Ring, Hash, mix_ek}
use ssh_rs.Hmac.{MacBox, slice}
use ssh_rs.Client.{Encryption}

-- ring::aead::chacha20_poly1305_openssh. A buffer that is sealed in place comes back with its tag;
-- one that is opened comes back without the four bytes of its length.
pub record ChaChaKeys (E D : Type 0) : Type 0 where
  pub sealing_key : Bytes → E
  pub opening_key : Bytes → D
  pub seal_in_place : E → ℕ → Bytes → Bytes × Bytes
  pub decrypt_packet_length : D → ℕ → Bytes → Bytes
  pub open_in_place : D → ℕ → Bytes → Bytes → Option Bytes

abbrev pub key_size : ℕ
key_size = 64

abbrev pub block_size : ℕ
block_size = 0

abbrev pub mac_size : ℕ
mac_size = 16

pub record ChaCha20Poly1305 (E D : Type 0) : Type 0 where
  pub client_key : E
  pub server_key : D

-- `copy_from_slice` of a whole slice, which panics on another length.
unfoldable pub exact : ℕ → Bytes → SshResult Bytes
exact n v = if length v == n then ok v else panic

unfoldable pub opened : Bytes → Option Bytes → SshResult Bytes
opened len none = err (encryption_error (ascii "Failed to decrypt the server traffic"))
opened len (some result) = ok (len ++ result)

module _ {E D : Type 0} (keys : ChaChaKeys E D) where
  unfoldable pub new : Ring → Hash → MacBox → SshResult (ChaCha20Poly1305 E D)
  new ring hash mac = do
    (ck, sk) ← mix_ek ring hash key_size
    sealing ← exact key_size ck
    opening ← exact key_size sk
    ok (record { client_key = keys.sealing_key sealing; server_key = keys.opening_key opening })

  unfoldable pub encrypt : ChaCha20Poly1305 E D → ℕ → Bytes → Bytes
  encrypt c seq buf = let (sealed, tag) = keys.seal_in_place c.client_key seq buf in sealed ++ tag

  -- The length field in the clear.
  unfoldable pub length_field : ChaCha20Poly1305 E D → ℕ → Bytes → SshResult Bytes
  length_field c seq buf = do
    len ← slice 4 buf
    ok (keys.decrypt_packet_length c.server_key seq len)

  unfoldable pub decrypt : ChaCha20Poly1305 E D → ℕ → Bytes → SshResult Bytes
  decrypt c seq buf = do
    len ← length_field c seq buf
    (packet_len, rest) ← get_u32 len
    let at = u32 (packet_len + 4)
    front ← slice at buf
    tag ← exact mac_size (drop at buf)
    opened len (keys.open_in_place c.server_key seq front tag)

  unfoldable pub packet_len : ChaCha20Poly1305 E D → ℕ → Bytes → SshResult ℕ
  packet_len c seq buf = do len ← length_field c seq buf; (n, rest) ← get_u32 len; ok (n + 4)

  unfoldable pub data_len : ChaCha20Poly1305 E D → ℕ → Bytes → SshResult ℕ
  data_len c seq buf = do n ← packet_len c seq buf; ok (n + mac_size)

  abbrev pub encryption_cha_cha : Encryption (ChaCha20Poly1305 E D)
  encryption_cha_cha = record {
    bsize = λ c. block_size;
    no_pad = λ c. true;
    encrypt = λ c seq buf. (ok (encrypt c seq buf), c);
    decrypt = λ c seq buf. (decrypt c seq buf, c);
    data_len = λ c seq buf. (data_len c seq buf, c);
  }
