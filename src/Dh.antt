-- ===== src/Dh.antt =====
-- algorithm/key_exchange/dh.rs: Diffie-Hellman in a group of numbers. The numbers of num_bigint are
-- natural numbers here, and its functions on them are a parameter.
pub mod Powers
pub mod Agree
use ssh_rs.Base.{ℕ, zero, ◌+◌, ◌*◌, ◌-◌, ◌^◌, ◌%◌, ◌<◌, ◌≡◌, [], ◌∷◌, ltb, if◌then◌else◌}
use ssh_rs.Error.{SshResult, ok}
use ssh_rs.Data.{Bytes}
use ssh_rs.Data.Mpint.{value}
use ssh_rs.Hash.{HashType}
use ssh_rs.Suite.{KeyExchange}
use ssh_rs.DhGroups.{DhGroup}

-- `BigUint`, and `gen_biguint` of the random generator, whose draws are numbered.
pub record BigUints : Type 0 where
  pub to_bytes_be : ℕ → Bytes
  pub from_bytes_be : Bytes → ℕ
  pub modpow : ℕ → ℕ → ℕ → ℕ
  pub gen_biguint : ℕ → ℕ → ℕ

-- What is documented of them: the bytes are the number in base 256, and powers are taken modulo a
-- modulus above zero.
pub record BigUintLaws (big : BigUints) : Type 0 where
  pub from-eq : (v : Bytes) → big.from_bytes_be v ≡ value v
  pub from-to : (n : ℕ) → big.from_bytes_be (big.to_bytes_be n) ≡ n
  pub modpow-eq : (b e m : ℕ) → 0 < m → big.modpow b e m ≡ b ^ e % m

pub record Dh : Type 0 where
  pub prime : ℕ
  pub private_key : ℕ
  pub public_key : Bytes

-- A zero byte goes in front of a byte with its top bit set.
unfoldable pub with_sign : Bytes → Bytes
with_sign [] = []
with_sign (b ∷ bytes) = if ltb 0x7f b then 0 ∷ b ∷ bytes else b ∷ bytes

module _ (big : BigUints) where
  unfoldable pub biguint_to_mpint : ℕ → Bytes
  biguint_to_mpint biguint = with_sign (big.to_bytes_be biguint)

  unfoldable pub new : DhGroup → ℕ → Dh
  new group draw =
      let prime = big.from_bytes_be group.prime in
      let private_key = big.gen_biguint (group.exp_size * 8 - 2) draw * 2 in
      record {
        prime = prime;
        private_key = private_key;
        public_key = biguint_to_mpint (big.modpow group.generator private_key prime);
      }

  unfoldable pub get_shared_secret : Dh → Bytes → SshResult Bytes
  get_shared_secret dh puk =
      let other_pub = big.from_bytes_be puk in
      ok (biguint_to_mpint (big.modpow other_pub dh.private_key dh.prime))

  -- The object of the trait.
  unfoldable pub key_exchange : HashType → Dh → KeyExchange
  key_exchange hash_type dh = record {
    get_public_key = dh.public_key;
    get_shared_secret = get_shared_secret dh;
    get_hash_type = hash_type;
  }
