-- ===== src/Tests/Numbers.antt =====
-- The numbers and the key agreement of other crates, as concrete functions.
use ssh_rs.Base.{
  ℕ, zero, suc, ◌+◌, ◌*◌, ◌/◌, ◌%◌, ◌^◌, ◌≤◌, ◌≡◌, refl, ap, sym, ◌∙◌, [], ◌∷◌, ◌++◌, Option, none,
  some, length, replicate, arith,
}
use ssh_rs.Error.{ok}
use ssh_rs.Data.{Bytes}
use ssh_rs.Data.Mpint.{value, value_from}
use ssh_rs.Algorithm.{Kex}
use ssh_rs.Hash.{sha256}
use ssh_rs.Suite.{KeyExchange}
use ssh_rs.DhGroups.{dh_group14}
use ssh_rs.Dh
use ssh_rs.Dh.{BigUints, BigUintLaws}
use ssh_rs.Agreements.{Curve, x25519, ecdh_p256, AgreementRing, key_size, from}
use ssh_rs.Agreements.Agree.{AgreementLaws, Agree, IsSecret, from-Agree}

-- The digits in base 256, the lowest last, with fuel.
unfoldable pub digits : ℕ → ℕ → Bytes
digits zero n = []
digits (suc fuel) n = digits fuel (n / 256) ++ (n % 256 ∷ [])

value_from_last :
    (k : ℕ) (v : Bytes) (b : ℕ) → value_from k (v ++ (b ∷ [])) ≡ value_from k v * 256 + b
value_from_last k [] b = refl
value_from_last k (a ∷ v) b = value_from_last (k * 256 + a) v b

value-digits : (fuel n : ℕ) → n ≤ fuel → value (digits fuel n) ≡ n
unfolding digits
value-digits zero n h = omega (arith, h)
value-digits (suc fuel) n h =
    let ih = value-digits fuel (n / 256) (omega (arith, h)) in
    value_from_last 0 (digits fuel (n / 256)) (n % 256) ∙ omega (arith, ih)

abbrev pub numbers : BigUints
numbers = record {
  to_bytes_be = λ n. digits n n;
  from_bytes_be = value;
  modpow = λ b e m. b ^ e % m;
  gen_biguint = λ bits draw. draw + 1;
}

pub numbers-BigUintLaws : BigUintLaws numbers
numbers-BigUintLaws = record {
  from-eq = λ v. refl;
  from-to = λ n. value-digits n n (omega arith);
  modpow-eq = λ b e m h. refl;
}

-- The public key of `k` starts with it; the secret of two keys is their product.
abbrev pub public_of : Curve → ℕ → Bytes
public_of x25519 k = k ∷ replicate 31 0
public_of ecdh_p256 k = k ∷ replicate 64 0

abbrev pub product : ℕ → Bytes → Option Bytes
product k [] = none
product k (n ∷ v) = some (k * n ∷ [])

abbrev pub products : AgreementRing ℕ
products = record {
  generate = λ c n. some (n + 1);
  compute_public_key = λ c k. some (public_of c k);
  agree_ephemeral = λ c k p. product k p;
  unspecified = [];
}

products_size :
    (c : Curve) (k : ℕ) (p : Bytes) → some (public_of c k) ≡ some p → length p ≡ key_size c
unfolding key_size
products_size x25519 k p h = let same : public_of x25519 k ≡ p = cc in ap length (sym same)
products_size ecdh_p256 k p h = let same : public_of ecdh_p256 k ≡ p = cc in ap length (sym same)

product_agreed : (c : Curve) (k k' : ℕ) → product k (public_of c k') ≡ some (k * k' ∷ [])
product_agreed x25519 k k' = refl
product_agreed ecdh_p256 k k' = refl

pub products-AgreementLaws : AgreementLaws products
products-AgreementLaws = record {
  scalar = λ k. k;
  coordinate = λ c n. n ∷ [];
  size = products_size;
  agreed = λ c k k' p h.
      let same : public_of c k' ≡ p = cc in
      ap (λ q. product k q) (sym same) ∙ product_agreed c k k';
}

-- The objects of both ends for a draw.
abbrev object : ℕ → KeyExchange
object n = Dh.key_exchange numbers sha256 (Dh.new numbers dh_group14 n)

made : (n : ℕ) → from products numbers Kex.diffie_hellman_group14_sha256 n ≡ ok (object n)
unfolding from
made n = refl

from-Agree_example :
    Agree
      (IsSecret products products-AgreementLaws numbers Kex.diffie_hellman_group14_sha256 4 9)
      (object 4)
      (object 9)
from-Agree_example =
    from-Agree products products-AgreementLaws numbers numbers-BigUintLaws
      Kex.diffie_hellman_group14_sha256 4 9 (object 4) (object 9) (made 4) (made 9)
