-- ===== src/Des.antt =====
-- algorithm/encryption/des_cbc.rs. It has the lines of aes_cbc.rs, with sizes of its own and the
-- cipher TdesEde3.
use ssh_rs.Base.{ℕ}
use ssh_rs.Error.{SshResult, map_ok}
use ssh_rs.Data.{Bytes}
use ssh_rs.Hash.{Ring, Hash}
use ssh_rs.Keys.{keys_from}
use ssh_rs.Hmac.{HmacRing, MacBox}
use ssh_rs.Io.{Io}
use ssh_rs.Client.{Encryption}
use ssh_rs.Cbc
use ssh_rs.Cbc.{BlockModes, Cbc, from_keys, encryption_cbc}

abbrev pub key_size : ℕ
key_size = 24

abbrev pub iv_size : ℕ
iv_size = 8

abbrev pub block_size : ℕ
block_size = 8

module _ {E D : Type 0} (des : BlockModes E D) (hmac : HmacRing) where
  unfoldable pub new : Ring → Hash → MacBox → SshResult (Cbc E D)
  new ring hash mac = map_ok (from_keys des) (keys_from ring key_size iv_size hash mac)

  abbrev pub encrypt : ℕ → Bytes → Io (Cbc E D) Bytes
  encrypt = Cbc.encrypt des hmac block_size

  abbrev pub decrypt : ℕ → Bytes → Io (Cbc E D) Bytes
  decrypt = Cbc.decrypt des hmac block_size

  abbrev pub packet_len : Bytes → Io (Cbc E D) ℕ
  packet_len = Cbc.packet_len des hmac block_size

  abbrev pub data_len : Bytes → Io (Cbc E D) ℕ
  data_len = Cbc.data_len des hmac block_size

  abbrev pub encryption_des : Encryption (Cbc E D)
  encryption_des = encryption_cbc des hmac block_size
