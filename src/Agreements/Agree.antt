-- ===== src/Agreements/Agree.antt =====
-- Both ends of a key exchange get the same secret, whatever the method.
use mathlib.Core.Path.{subst}
use native.Mathlib.Nat.{mul_comm}
use ssh_rs.Base.{ℕ, ◌*◌, ◌<◌, ◌≡◌, refl, ap, ◌∙◌, Option, none, some, length, arith}
use ssh_rs.Error.{ok, >>=-eq-ok}
use ssh_rs.Data.{Bytes}
use ssh_rs.Data.Mpint.{value}
use ssh_rs.Algorithm.{
  Kex, curve25519_sha256, ecdh_sha2_nistrp256, diffie_hellman_group1_sha1,
  diffie_hellman_group14_sha1, diffie_hellman_group14_sha256,
}
use ssh_rs.Hash.{HashType, sha1, sha256}
use ssh_rs.ChaCha.{exact}
use ssh_rs.Suite.{KeyExchange}
use ssh_rs.DhGroups.{DhGroup, dh_group1, dh_group14}
use ssh_rs.Dh.{BigUints, BigUintLaws}
use ssh_rs.Dh
use ssh_rs.Dh.Agree.{IsPower, new-Agree}
use ssh_rs.Agreements.{
  Curve, x25519, ecdh_p256, AgreementRing, or_kex_error, agree_ephemeral, generate, key_size,
  get_shared_secret, curve_exchange, from,
}

-- What is documented of the key agreement of ring: the sizes of public keys, and that it is the
-- Diffie-Hellman function on a curve. A key stands for a number `scalar`, and the agreement with the
-- public key of the number n gives the x-coordinate of the point (scalar * n) G.
pub record AgreementLaws {K : Type 0} (ring : AgreementRing K) : Type 0 where
  pub scalar : K → ℕ
  pub coordinate : Curve → ℕ → Bytes
  pub size :
      (c : Curve) (k : K) (p : Bytes) → ring.compute_public_key c k ≡ some p → length p ≡ key_size c
  pub agreed :
      (c : Curve) (k k' : K) (p : Bytes)
      → ring.compute_public_key c k' ≡ some p
      → ring.agree_ephemeral c k p ≡ some (coordinate c (scalar k * scalar k'))

-- The two objects get a secret of this kind from each other's public keys, and it is the same.
abbrev pub Agree : (Bytes → Type 0) → KeyExchange → KeyExchange → Type 0
Agree Kind x y =
    (secret : Bytes) × Kind secret
    × (x.get_shared_secret y.get_public_key ≡ ok secret)
    × (y.get_shared_secret x.get_public_key ≡ ok secret)

exact-whole : (n : ℕ) (v : Bytes) → length v ≡ n → exact n v ≡ ok v
unfolding exact
exact-whole n v h = ground arith

module _ {K : Type 0} (ring : AgreementRing K) (laws : AgreementLaws ring) where
  or_kex_error-eq-ok : {A : Type 0} (o : Option A) (a : A) → or_kex_error ring o ≡ ok a → o ≡ some a
  unfolding or_kex_error
  or_kex_error-eq-ok none a h = cc
  or_kex_error-eq-ok (some b) a h = let same : b ≡ a = cc in ap (λ t. some t) same

  -- The x-coordinate of the point that both private keys, which were drawn, lead to.
  abbrev pub IsPoint : Curve → ℕ → ℕ → Bytes → Type 0
  IsPoint c n m secret =
      (k : K) × (k' : K) × (ring.generate c n ≡ some k)
      × (ring.generate c m ≡ some k')
      × (secret ≡ laws.coordinate c (laws.scalar k * laws.scalar k'))

  -- The keys of an object, and what it is made of.
  abbrev Made : Curve → ℕ → KeyExchange → Type 0
  Made c n x =
      (k : K) × (ring.generate c n ≡ some k)
      × (ring.compute_public_key c k ≡ some x.get_public_key)
      × ((p : Bytes) → x.get_shared_secret p ≡ get_shared_secret ring c k p)

  curve_exchange-Made :
      (c : Curve) (n : ℕ) (x : KeyExchange) → curve_exchange ring c n ≡ ok x → Made c n x
  unfolding curve_exchange generate
  curve_exchange-Made c n x h =
      let ((k, p), e, made) = >>=-eq-ok (generate ring c n) _ h in
      let (k1, e1, h1) = >>=-eq-ok (or_kex_error ring (ring.generate c n)) _ e in
      let (p1, e2, h2) = >>=-eq-ok (or_kex_error ring (ring.compute_public_key c k1)) _ h1 in
      let same_key : k1 ≡ k = cc in
      let same_pub : p1 ≡ x.get_public_key = cc in
      let key : ring.compute_public_key c k ≡ some x.get_public_key =
        cc (or_kex_error-eq-ok _ p1 e2) in
      (k, or_kex_error-eq-ok _ k1 e1 ∙ ap (λ t. some t) same_key, key, λ q. cc)

  -- The secret that an object gets from the public key of another.
  Made-secret :
      (c : Curve) (k k' : K) (p : Bytes)
      → ring.compute_public_key c k' ≡ some p
      → get_shared_secret ring c k p ≡ ok (laws.coordinate c (laws.scalar k * laws.scalar k'))
  unfolding get_shared_secret agree_ephemeral or_kex_error
  Made-secret c k k' p e =
      rw (exact-whole (key_size c) p (laws.size c k' p e))
        (ap (λ o. or_kex_error ring o) (laws.agreed c k k' p e))

  Made-Agree :
      (c : Curve) (n m : ℕ) (x y : KeyExchange)
      → Made c n x
      → Made c m y
      → Agree (IsPoint c n m) x y
  Made-Agree c n m x y (k, drawn, pk, sk) (k', drawn', pk', sk') = (
    laws.coordinate c (laws.scalar k * laws.scalar k'),
    (k, k', drawn, drawn', refl),
    sk y.get_public_key ∙ Made-secret c k k' y.get_public_key pk',
    sk' x.get_public_key
        ∙ Made-secret c k' k x.get_public_key pk
        ∙ ap (λ t. ok (laws.coordinate c t)) (mul_comm (laws.scalar k') (laws.scalar k)),
  )

  dh-Agree :
      (big : BigUints) (laws' : BigUintLaws big) (hash : HashType) (group : DhGroup) (n m : ℕ)
      (x y : KeyExchange)
      → 0 < value group.prime
      → ok (Dh.key_exchange big hash (Dh.new big group n)) ≡ ok x
      → ok (Dh.key_exchange big hash (Dh.new big group m)) ≡ ok y
      → Agree (IsPower big group n m) x y
  unfolding Dh.key_exchange
  dh-Agree big laws' hash group n m x y positive hx hy =
      let same_x : Dh.key_exchange big hash (Dh.new big group n) ≡ x = cc in
      let same_y : Dh.key_exchange big hash (Dh.new big group m) ≡ y = cc in
      subst (λ z. Agree (IsPower big group n m) z y) same_x
        (subst
          (λ z. Agree (IsPower big group n m) (Dh.key_exchange big hash (Dh.new big group n)) z)
          same_y (new-Agree big laws' group n m positive))

  -- The secret that two ends with these draws get by a method.
  unfoldable pub IsSecret : BigUints → Kex → ℕ → ℕ → Bytes → Type 0
  IsSecret big curve25519_sha256 n m = IsPoint x25519 n m
  IsSecret big ecdh_sha2_nistrp256 n m = IsPoint ecdh_p256 n m
  IsSecret big diffie_hellman_group1_sha1 n m = IsPower big dh_group1 n m
  IsSecret big diffie_hellman_group14_sha1 n m = IsPower big dh_group14 n m
  IsSecret big diffie_hellman_group14_sha256 n m = IsPower big dh_group14 n m

  -- Given what is documented of ring and of the big numbers: two objects that are made for the same
  -- method, the client's and the server's, both get a shared secret from each other's public keys,
  -- and it is the same, for each method, whatever numbers were drawn for them. In a group of numbers
  -- it stands for g ^ (a * b) modulo the prime, where a and b are twice the drawn numbers; on a curve
  -- it is the x-coordinate that the product of both keys gives.
  pub from-Agree :
      (big : BigUints) (laws' : BigUintLaws big) (kex : Kex) (n m : ℕ) (x y : KeyExchange)
      → from ring big kex n ≡ ok x
      → from ring big kex m ≡ ok y
      → Agree (IsSecret big kex n m) x y
  unfolding from IsSecret
  from-Agree big laws' curve25519_sha256 n m x y hx hy =
      Made-Agree x25519 n m x y (curve_exchange-Made x25519 n x hx)
        (curve_exchange-Made x25519 m y hy)
  from-Agree big laws' ecdh_sha2_nistrp256 n m x y hx hy =
      Made-Agree ecdh_p256 n m x y (curve_exchange-Made ecdh_p256 n x hx)
        (curve_exchange-Made ecdh_p256 m y hy)
  from-Agree big laws' diffie_hellman_group1_sha1 n m x y hx hy =
      dh-Agree big laws' sha1 dh_group1 n m x y (omega arith) hx hy
  from-Agree big laws' diffie_hellman_group14_sha1 n m x y hx hy =
      dh-Agree big laws' sha1 dh_group14 n m x y (omega arith) hx hy
  from-Agree big laws' diffie_hellman_group14_sha256 n m x y hx hy =
      dh-Agree big laws' sha256 dh_group14 n m x y (omega arith) hx hy
