-- ===== src/HostKeys.antt =====
-- algorithm/public_key: whether a host key has signed a message. The crates rsa, dsa and ring are a
-- parameter, with numbers as natural numbers.
use ssh_rs.Base.{ℕ, ◌-◌, Bool, Option, none, some, leb, length, take, drop, if◌then◌else◌}
use ssh_rs.Error.{SshResult, ok, err, panic, ssh_pub_key_error, ◌>>=◌}
use ssh_rs.Constant.{ascii}
use ssh_rs.Data.{Bytes, skip, get_u8s}
use ssh_rs.Algorithm.{PubKey, ssh_ed25519, ssh_rsa, rsa_sha2_256, rsa_sha2_512, ssh_dss}
use ssh_rs.Auth.{unwrap}

-- The digest that an RSA signature is over.
pub data RsaHash : Type 0 where
  rsa_sha1 rsa_sha256 rsa_sha512 : RsaHash

-- `R` are the RSA keys, `D` the components of DSA keys, `V` the DSA keys and `G` their signatures.
pub record SignatureCrates (R D V G : Type 0) : Type 0 where
  pub from_bytes_be : Bytes → ℕ
  pub digest : RsaHash → Bytes → Bytes
  pub rsa_public_key : ℕ → ℕ → Option R
  pub rsa_verify : RsaHash → R → Bytes → Bytes → Bool
  pub ed25519_verify : Bytes → Bytes → Bytes → Bool
  pub dsa_components : ℕ → ℕ → ℕ → Option D
  pub dsa_verifying_key : D → ℕ → Option V
  pub dsa_signature : ℕ → ℕ → Option G
  pub dsa_verify : V → Bytes → G → Bool

-- `v[from..to]`
unfoldable pub range : ℕ → ℕ → Bytes → SshResult Bytes
range from to v = if leb to (length v) then ok (take (to - from) (drop from v)) else panic

-- The host key `ks` behind its length, without the name in front.
unfoldable pub key_data : Bytes → SshResult Bytes
key_data ks = do blob ← skip 4 ks; (name, d) ← get_u8s blob; ok d

-- `map_err` to a text.
unfoldable pub or_invalid : {A : Type 0} → Bytes → Option A → SshResult A
or_invalid text none = err (ssh_pub_key_error text)
or_invalid text (some a) = ok a

abbrev pub components_not_valid : Bytes
components_not_valid = ascii "SSH Public Key components were not valid"

abbrev pub signature_not_valid : Bytes
signature_not_valid = ascii "SSH Signature was not valid"

module _ {R D V G : Type 0} (crates : SignatureCrates R D V G) where
  unfoldable pub number : Bytes → SshResult (ℕ × Bytes)
  number d = do (v, rest) ← get_u8s d; ok (crates.from_bytes_be v, rest)

  unfoldable pub verify_rsa : RsaHash → Bytes → Bytes → Bytes → SshResult Bool
  verify_rsa hash ks message sig = do
    d ← key_data ks
    (e, d1) ← number d
    (n, d2) ← number d1
    public_key ← unwrap (crates.rsa_public_key n e)
    ok (crates.rsa_verify hash public_key (crates.digest hash message) sig)

  unfoldable pub verify_ed25519 : Bytes → Bytes → Bytes → SshResult Bool
  verify_ed25519 ks message sig = do
    d ← key_data ks
    (host_key, rest) ← get_u8s d
    ok (crates.ed25519_verify host_key message sig)

  -- `R` and `S` of a signature: two blobs of 160 bits.
  unfoldable pub signature_of : Bytes → SshResult G
  signature_of sig = do
    r ← range 0 20 sig
    s ← range 20 40 sig
    or_invalid signature_not_valid
        (crates.dsa_signature (crates.from_bytes_be r) (crates.from_bytes_be s))

  unfoldable pub verify_dss : Bytes → Bytes → Bytes → SshResult Bool
  verify_dss ks message sig = do
    d ← key_data ks
    (p, d1) ← number d
    (q, d2) ← number d1
    (g, d3) ← number d2
    (y, d4) ← number d3
    components ← or_invalid components_not_valid (crates.dsa_components p q g)
    public_key ← or_invalid components_not_valid (crates.dsa_verifying_key components y)
    signature ← signature_of sig
    ok (crates.dsa_verify public_key message signature)

  -- `public_key::from`, and `verify_signature` of the object.
  unfoldable pub verify_signature : PubKey → Bytes → Bytes → Bytes → SshResult Bool
  verify_signature ssh_ed25519 = verify_ed25519
  verify_signature ssh_rsa = verify_rsa rsa_sha1
  verify_signature rsa_sha2_256 = verify_rsa rsa_sha256
  verify_signature rsa_sha2_512 = verify_rsa rsa_sha512
  verify_signature ssh_dss = verify_dss
