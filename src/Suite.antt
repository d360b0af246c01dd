-- ===== src/Suite.antt =====
-- What the client takes from the algorithms: the trait objects of src/algorithm and the functions
-- that make them.
use ssh_rs.Base.{ℕ, List, [], ◌∷◌, Bool}
use ssh_rs.Error.{SshResult, ok, panic}
use ssh_rs.Data.{Bytes}
use ssh_rs.Algorithm.{Enc, Kex, PubKey, Mac, Compress}
use ssh_rs.Hash.{Ring, Hash, HashType}
use ssh_rs.Client.{Encryption, Compression}

-- The trait of algorithm/key_exchange/mod.rs. Its methods take `&self`, so an object is what they
-- return.
pub record KeyExchange : Type 0 where
  pub get_public_key : Bytes
  pub get_shared_secret : Bytes → SshResult Bytes
  pub get_hash_type : HashType

-- `S` and `C` are the states of the ciphers and compressors. What the random generator yields is
-- numbered. `mac::from` is left to `encryption_from`, which gets the name of the algorithm.
pub record Suite (S C : Type 0) : Type 0 where
  pub enc : Encryption S
  pub comp : Compression C
  pub ring : Ring
  pub cookie : ℕ → Bytes
  pub key_exchange_from : Kex → ℕ → SshResult KeyExchange
  pub verify_signature : PubKey → Bytes → Bytes → Bytes → SshResult Bool
  pub encryption_from : Enc → Hash → Mac → SshResult S
  pub compression_from : Compress → C

-- `v[0]`, which panics on an empty list.
unfoldable pub first : {A : Type 0} → List A → SshResult A
first [] = panic
first (a ∷ v) = ok a
