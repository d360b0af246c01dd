-- ===== src/Client.antt =====
-- client/client.rs: the state of a connection, over the ciphers and the compressors that the
-- trait objects `dyn Encryption` and `dyn Compression` stand for.
use ssh_rs.Base.{ℕ, [], Bool, Option}
use ssh_rs.Error.{SshResult}
use ssh_rs.Data.{Bytes}
use ssh_rs.Sequence
use ssh_rs.Sequence.{Sequence}
use ssh_rs.Stream.{Stream}
use ssh_rs.AlgList
use ssh_rs.AlgList.{AlgList}
use ssh_rs.Config.{Config}

-- algorithm/encryption/mod.rs: the trait, over the states of the objects that implement it. A
-- method on `&mut self` returns the new state.
pub record Encryption (S : Type 0) : Type 0 where
  pub bsize : S → ℕ
  pub no_pad : S → Bool
  pub encrypt : S → ℕ → Bytes → SshResult Bytes × S
  pub decrypt : S → ℕ → Bytes → SshResult Bytes × S
  pub data_len : S → ℕ → Bytes → SshResult ℕ × S

-- algorithm/compression/mod.rs
pub record Compression (C : Type 0) : Type 0 where
  pub compress : C → Bytes → SshResult Bytes × C
  pub decompress : C → Bytes → SshResult Bytes × C

pub record Client (S C : Type 0) : Type 0 where
  pub sequence : Sequence
  pub config : Config
  pub negotiated : AlgList
  pub encryptor : S
  pub compressor : C
  pub session_id : Bytes

-- `Client::new`, with the objects for no encryption and no compression.
abbrev pub new : {S C : Type 0} → S → C → Config → Client S C
new none_enc none_comp config = record {
  sequence = Sequence.new;
  config = config;
  negotiated = AlgList.new;
  encryptor = none_enc;
  compressor = none_comp;
  session_id = [];
}

abbrev pub set_timeout : {S C : Type 0} → Option ℕ → Client S C → Client S C
set_timeout tm c = record c { config = record c.config { timeout = tm } }

-- A client and the stream that it is called with. The random generator is outside the model: what
-- it yields is numbered, and `draws` counts the numbers that are used up.
pub record Link (S C : Type 0) : Type 0 where
  pub client : Client S C
  pub stream : Stream
  pub draws : ℕ
