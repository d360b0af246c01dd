-- ===== src/Tests/Client.antt =====
-- The set-up of a connection with the algorithms of the client, over concrete functions of the other
-- crates.
use ssh_rs.Base.{ℕ, [], ◌∷◌, length, replicate}
use ssh_rs.Data.{Bytes}
use ssh_rs.Zlib.{Flate, Flated, status_ok, buf_error}
use ssh_rs.ClientSuite.{Crates}
use ssh_rs.Tests.Crates.{flip_stream, flip_blocks, sealed_keys, fixed_hmac, fixed_ring}
use ssh_rs.Tests.Numbers.{numbers, products}
use ssh_rs.Tests.Keys.{plain_signatures, one_key}

-- A stream that stores its input.
abbrev stored : Bytes → Flated
stored [] = record { status = buf_error; consumed = 0; produced = [] }
stored (b ∷ v) = record { status = status_ok; consumed = length (b ∷ v); produced = b ∷ v }

abbrev stores : Flate (Unit {0}) (Unit {0})
stores = record {
  decompress_new = tt;
  compress_new = tt;
  decompress = λ z v. (stored v, tt);
  compress = λ y v. (stored v, tt);
  decompress_rank = λ z v. length v;
  compress_rank = λ y v. length v;
}

abbrev crates : Crates
crates = record {
  StreamState = ℕ;
  AesEncryptor = Bytes;
  AesDecryptor = Bytes;
  DesEncryptor = Bytes;
  DesDecryptor = Bytes;
  SealingKey = Bytes;
  OpeningKey = Bytes;
  InflateState = Unit {0};
  DeflateState = Unit {0};
  EphemeralKey = ℕ;
  RsaPublicKey = ℕ × ℕ;
  DsaComponents = Unit {0};
  DsaPublicKey = Unit {0};
  DsaSignature = Unit {0};
  RsaPrivateKey = Unit {0};
  OpensshKey = Unit {0};
  aes = flip_stream;
  aes_cbc = flip_blocks;
  des_cbc = flip_blocks;
  cha_cha = sealed_keys;
  hmac = fixed_hmac;
  ring = fixed_ring;
  flate = stores;
  big = numbers;
  agreement = products;
  signatures = plain_signatures;
  private_keys = one_key;
  cookie = λ n. replicate 16 n;
}
