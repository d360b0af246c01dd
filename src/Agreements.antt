-- ===== src/Agreements.antt =====
-- The other methods of algorithm/key_exchange, over the key agreement of ring, and the choice of a
-- method in algorithm/key_exchange/mod.rs.
pub mod Agree
use ssh_rs.Base.{ℕ, Option, none, some}
use ssh_rs.Error.{SshResult, ok, err, kex_error, ◌>>=◌}
use ssh_rs.Data.{Bytes}
use ssh_rs.Algorithm.{
  Kex, curve25519_sha256, ecdh_sha2_nistrp256, diffie_hellman_group1_sha1,
  diffie_hellman_group14_sha1, diffie_hellman_group14_sha256,
}
use ssh_rs.Hash.{HashType, sha1, sha256}
use ssh_rs.ChaCha.{exact}
use ssh_rs.Suite.{KeyExchange}
use ssh_rs.DhGroups.{DhGroup, dh_group1, dh_group14}
use ssh_rs.Dh.{BigUints}
use ssh_rs.Dh

-- The algorithms of `ring::agreement`.
pub data Curve : Type 0 where
  x25519 ecdh_p256 : Curve

-- The key agreement of ring over keys `K`, whose draws are numbered; `unspecified` is the text of its
-- error.
pub record AgreementRing (K : Type 0) : Type 0 where
  pub generate : Curve → ℕ → Option K
  pub compute_public_key : Curve → K → Option Bytes
  pub agree_ephemeral : Curve → K → Bytes → Option Bytes
  pub unspecified : Bytes

-- The size of the array that the key of the other end is copied to; another size panics.
unfoldable pub key_size : Curve → ℕ
key_size x25519 = 32
key_size ecdh_p256 = 65

module _ {K : Type 0} (ring : AgreementRing K) where
  -- `Err(e) => return Err(SshError::KexError(e.to_string()))`
  unfoldable pub or_kex_error : {A : Type 0} → Option A → SshResult A
  or_kex_error none = err (kex_error ring.unspecified)
  or_kex_error (some a) = ok a

  unfoldable pub agree_ephemeral : Curve → K → Bytes → SshResult Bytes
  agree_ephemeral curve private_key peer_public_key =
      or_kex_error (ring.agree_ephemeral curve private_key peer_public_key)

  -- `new` of both objects: the keys.
  unfoldable pub generate : Curve → ℕ → SshResult (K × Bytes)
  generate curve draw = do
    private_key ← or_kex_error (ring.generate curve draw)
    public_key ← or_kex_error (ring.compute_public_key curve private_key)
    ok (private_key, public_key)

  unfoldable pub get_shared_secret : Curve → K → Bytes → SshResult Bytes
  get_shared_secret curve private_key puk = do
    public_key ← exact (key_size curve) puk
    agree_ephemeral curve private_key public_key

  unfoldable pub curve_exchange : Curve → ℕ → SshResult KeyExchange
  curve_exchange curve draw = do
    (private_key, public_key) ← generate curve draw
    ok (record {
      get_public_key = public_key;
      get_shared_secret = get_shared_secret curve private_key;
      get_hash_type = sha256;
    })

  unfoldable pub from : BigUints → Kex → ℕ → SshResult KeyExchange
  from big curve25519_sha256 draw = curve_exchange x25519 draw
  from big ecdh_sha2_nistrp256 draw = curve_exchange ecdh_p256 draw
  from big diffie_hellman_group1_sha1 draw =
      ok (Dh.key_exchange big sha1 (Dh.new big dh_group1 draw))
  from big diffie_hellman_group14_sha1 draw =
      ok (Dh.key_exchange big sha1 (Dh.new big dh_group14 draw))
  from big diffie_hellman_group14_sha256 draw =
      ok (Dh.key_exchange big sha256 (Dh.new big dh_group14 draw))
