-- ===== src/Ciphers.antt =====
-- algorithm/encryption/mod.rs: the objects behind `Box<dyn Encryption>`, and `from`, which makes
-- one for the algorithm that was agreed on.
pub mod Pairs
pub mod Ends
pub mod Fed
use ssh_rs.Base.{ℕ, Bool}
use ssh_rs.Error.{SshResult, ok, map_ok}
use ssh_rs.Data.{Bytes}
use ssh_rs.Algorithm.{
  Enc, chacha20_poly1305_openssh, aes128_ctr, aes192_ctr, aes256_ctr, aes128_cbc, aes192_cbc,
  aes256_cbc, triple_des_cbc,
}
use ssh_rs.Hash.{Ring, Hash}
use ssh_rs.Hmac.{HmacRing, MacBox}
use ssh_rs.Client.{Encryption}
use ssh_rs.Plain
use ssh_rs.Ctr
use ssh_rs.Ctr.{StreamCipher, Ctr, encryption_ctr}
use ssh_rs.Cbc
use ssh_rs.Cbc.{BlockModes, Cbc, encryption_cbc, aes_block_size}
use ssh_rs.Des
use ssh_rs.Des.{encryption_des}
use ssh_rs.ChaCha
use ssh_rs.ChaCha.{ChaChaKeys, ChaCha20Poly1305, encryption_cha_cha}

abbrev pub ctr128_key_size : ℕ
ctr128_key_size = 16

abbrev pub ctr192_key_size : ℕ
ctr192_key_size = 24

abbrev pub ctr256_key_size : ℕ
ctr256_key_size = 32

abbrev pub cbc128_key_size : ℕ
cbc128_key_size = 16

abbrev pub cbc192_key_size : ℕ
cbc192_key_size = 24

abbrev pub cbc256_key_size : ℕ
cbc256_key_size = 32

pub data CipherBox (K E D E' D' F G : Type 0) : Type 0 where
  encryption_none : CipherBox K E D E' D' F G
  ctr : Ctr K → CipherBox K E D E' D' F G
  cbc : Cbc E D → CipherBox K E D E' D' F G
  des : Cbc E' D' → CipherBox K E D E' D' F G
  cha_cha : ChaCha20Poly1305 F G → CipherBox K E D E' D' F G

-- The result of a method, with the object put back into its box.
abbrev pub boxed : {A S T : Type 0} → (S → T) → A × S → A × T
boxed box (a, s) = (a, box s)

module _ {K E D E' D' F G : Type 0} (aes : StreamCipher K) (aes_cbc : BlockModes E D)
    (tdes : BlockModes E' D') (cha : ChaChaKeys F G) (hmac : HmacRing) where
  abbrev pub block_size_of : CipherBox K E D E' D' F G → ℕ
  block_size_of encryption_none = Plain.encryption_none.bsize tt
  block_size_of (ctr c) = (encryption_ctr aes hmac).bsize c
  block_size_of (cbc c) = (encryption_cbc aes_cbc hmac aes_block_size).bsize c
  block_size_of (des c) = (encryption_des tdes hmac).bsize c
  block_size_of (cha_cha c) = (encryption_cha_cha cha).bsize c

  abbrev pub no_pad_of : CipherBox K E D E' D' F G → Bool
  no_pad_of encryption_none = Plain.encryption_none.no_pad tt
  no_pad_of (ctr c) = (encryption_ctr aes hmac).no_pad c
  no_pad_of (cbc c) = (encryption_cbc aes_cbc hmac aes_block_size).no_pad c
  no_pad_of (des c) = (encryption_des tdes hmac).no_pad c
  no_pad_of (cha_cha c) = (encryption_cha_cha cha).no_pad c

  abbrev pub encrypt_of :
      CipherBox K E D E' D' F G → ℕ → Bytes → SshResult Bytes × CipherBox K E D E' D' F G
  encrypt_of encryption_none seq buf =
      boxed (λ u. encryption_none) (Plain.encryption_none.encrypt tt seq buf)
  encrypt_of (ctr c) seq buf = boxed ctr ((encryption_ctr aes hmac).encrypt c seq buf)
  encrypt_of (cbc c) seq buf =
      boxed cbc ((encryption_cbc aes_cbc hmac aes_block_size).encrypt c seq buf)
  encrypt_of (des c) seq buf = boxed des ((encryption_des tdes hmac).encrypt c seq buf)
  encrypt_of (cha_cha c) seq buf = boxed cha_cha ((encryption_cha_cha cha).encrypt c seq buf)

  abbrev pub decrypt_of :
      CipherBox K E D E' D' F G → ℕ → Bytes → SshResult Bytes × CipherBox K E D E' D' F G
  decrypt_of encryption_none seq buf =
      boxed (λ u. encryption_none) (Plain.encryption_none.decrypt tt seq buf)
  decrypt_of (ctr c) seq buf = boxed ctr ((encryption_ctr aes hmac).decrypt c seq buf)
  decrypt_of (cbc c) seq buf =
      boxed cbc ((encryption_cbc aes_cbc hmac aes_block_size).decrypt c seq buf)
  decrypt_of (des c) seq buf = boxed des ((encryption_des tdes hmac).decrypt c seq buf)
  decrypt_of (cha_cha c) seq buf = boxed cha_cha ((encryption_cha_cha cha).decrypt c seq buf)

  abbrev pub data_len_of :
      CipherBox K E D E' D' F G → ℕ → Bytes → SshResult ℕ × CipherBox K E D E' D' F G
  data_len_of encryption_none seq buf =
      boxed (λ u. encryption_none) (Plain.encryption_none.data_len tt seq buf)
  data_len_of (ctr c) seq buf = boxed ctr ((encryption_ctr aes hmac).data_len c seq buf)
  data_len_of (cbc c) seq buf =
      boxed cbc ((encryption_cbc aes_cbc hmac aes_block_size).data_len c seq buf)
  data_len_of (des c) seq buf = boxed des ((encryption_des tdes hmac).data_len c seq buf)
  data_len_of (cha_cha c) seq buf = boxed cha_cha ((encryption_cha_cha cha).data_len c seq buf)

  -- The trait, by the object in the box.
  abbrev pub encryption : Encryption (CipherBox K E D E' D' F G)
  encryption = record {
    bsize = block_size_of;
    no_pad = no_pad_of;
    encrypt = encrypt_of;
    decrypt = decrypt_of;
    data_len = data_len_of;
  }

  unfoldable pub from : Ring → Enc → Hash → MacBox → SshResult (CipherBox K E D E' D' F G)
  from ring chacha20_poly1305_openssh hash mac = map_ok cha_cha (ChaCha.new cha ring hash mac)
  from ring aes128_ctr hash mac = map_ok ctr (Ctr.new aes hmac ring ctr128_key_size hash mac)
  from ring aes192_ctr hash mac = map_ok ctr (Ctr.new aes hmac ring ctr192_key_size hash mac)
  from ring aes256_ctr hash mac = map_ok ctr (Ctr.new aes hmac ring ctr256_key_size hash mac)
  from ring aes128_cbc hash mac = map_ok cbc (Cbc.new aes_cbc ring cbc128_key_size hash mac)
  from ring aes192_cbc hash mac = map_ok cbc (Cbc.new aes_cbc ring cbc192_key_size hash mac)
  from ring aes256_cbc hash mac = map_ok cbc (Cbc.new aes_cbc ring cbc256_key_size hash mac)
  from ring triple_des_cbc hash mac = map_ok des (Des.new tdes hmac ring hash mac)
