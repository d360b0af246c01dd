-- ===== src/Plain.antt =====
-- `EncryptionNone` of algorithm/encryption/mod.rs and `CompressNone` of algorithm/compression/mod.rs:
-- what a connection uses before the key exchange. The objects have no state.
pub mod Pairs
use ssh_rs.Base.{ℕ, ◌+◌, Bool, false}
use ssh_rs.Error.{SshResult, ok, ◌>>=◌}
use ssh_rs.Data.{Bytes, get_u32}
use ssh_rs.Client.{Encryption, Compression}

-- `buf[0..4]` panics on fewer bytes.
unfoldable pub none_packet_len : Bytes → SshResult ℕ
none_packet_len buf = do (len, rest) ← get_u32 buf; ok len

unfoldable pub none_data_len : Bytes → SshResult ℕ
none_data_len buf = do len ← none_packet_len buf; ok (len + 4)

abbrev pub encryption_none : Encryption (Unit {0})
encryption_none = record {
  bsize = λ _. 8;
  no_pad = λ _. false;
  encrypt = λ _ seq buf. (ok buf, tt);
  decrypt = λ _ seq buf. (ok buf, tt);
  data_len = λ _ seq buf. (none_data_len buf, tt);
}

abbrev pub compress_none : Compression (Unit {0})
compress_none = record { compress = λ _ buf. (ok buf, tt); decompress = λ _ buf. (ok buf, tt) }
