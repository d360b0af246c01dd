-- ===== src/ClientSuite.antt =====
-- The algorithms that the client uses, over the crates that it gets them from: the functions `from`
-- of src/algorithm.
pub mod Keys
pub mod Fed
use ssh_rs.Base.{ℕ}
use ssh_rs.Data.{Bytes}
use ssh_rs.Hash.{Ring}
use ssh_rs.Hmac
use ssh_rs.Hmac.{HmacRing}
use ssh_rs.Ctr.{StreamCipher}
use ssh_rs.Cbc.{BlockModes}
use ssh_rs.ChaCha.{ChaChaKeys}
use ssh_rs.Ciphers
use ssh_rs.Ciphers.{CipherBox}
use ssh_rs.Zlib
use ssh_rs.Zlib.{Flate, CompressBox}
use ssh_rs.Dh.{BigUints}
use ssh_rs.Agreements
use ssh_rs.Agreements.{AgreementRing}
use ssh_rs.HostKeys
use ssh_rs.HostKeys.{SignatureCrates}
use ssh_rs.KeyPairs.{KeyCrates}
use ssh_rs.Suite.{Suite}

-- The other crates, with the types of their objects. The random bytes of a cookie are numbered.
pub record Crates : Type 1 where
  pub StreamState : Type 0
  pub AesEncryptor : Type 0
  pub AesDecryptor : Type 0
  pub DesEncryptor : Type 0
  pub DesDecryptor : Type 0
  pub SealingKey : Type 0
  pub OpeningKey : Type 0
  pub InflateState : Type 0
  pub DeflateState : Type 0
  pub EphemeralKey : Type 0
  pub RsaPublicKey : Type 0
  pub DsaComponents : Type 0
  pub DsaPublicKey : Type 0
  pub DsaSignature : Type 0
  pub RsaPrivateKey : Type 0
  pub OpensshKey : Type 0
  pub aes : StreamCipher StreamState
  pub aes_cbc : BlockModes AesEncryptor AesDecryptor
  pub des_cbc : BlockModes DesEncryptor DesDecryptor
  pub cha_cha : ChaChaKeys SealingKey OpeningKey
  pub hmac : HmacRing
  pub ring : Ring
  pub flate : Flate InflateState DeflateState
  pub big : BigUints
  pub agreement : AgreementRing EphemeralKey
  pub signatures : SignatureCrates RsaPublicKey DsaComponents DsaPublicKey DsaSignature
  pub private_keys : KeyCrates RsaPrivateKey OpensshKey
  pub cookie : ℕ → Bytes

-- The objects in the boxes of a client.
abbrev pub Cipher : Crates → Type 0
Cipher c =
    CipherBox c.StreamState c.AesEncryptor c.AesDecryptor c.DesEncryptor c.DesDecryptor c.SealingKey
      c.OpeningKey

abbrev pub Compressor : Crates → Type 0
Compressor c = CompressBox c.InflateState c.DeflateState

unfoldable pub client_suite : (c : Crates) → Suite (Cipher c) (Compressor c)
client_suite c = record {
  enc = Ciphers.encryption c.aes c.aes_cbc c.des_cbc c.cha_cha c.hmac;
  comp = Zlib.compression c.flate;
  ring = c.ring;
  cookie = c.cookie;
  key_exchange_from = Agreements.from c.agreement c.big;
  verify_signature = HostKeys.verify_signature c.signatures;
  encryption_from = λ cipher hash mac.
      Ciphers.from c.aes c.aes_cbc c.des_cbc c.cha_cha c.hmac c.ring cipher hash (Hmac.from mac);
  compression_from = Zlib.from c.flate;
}
