-- ===== src/Dh/Agree.antt =====
-- Both ends of an exchange in a group get the same secret.
use ssh_rs.Base.{ℕ, ◌*◌, ◌-◌, ◌^◌, ◌%◌, ◌<◌, ◌≡◌, refl, sym, ap, ◌∙◌, [], ◌∷◌, ltb, if-cases}
use ssh_rs.Error.{ok}
use ssh_rs.Data.{Bytes}
use ssh_rs.Data.Mpint.{value}
use ssh_rs.DhGroups.{DhGroup}
use ssh_rs.Dh.{BigUints, BigUintLaws, with_sign, biguint_to_mpint, new, get_shared_secret}
use ssh_rs.Dh.Powers.{pow-mod, pow-pow, pow-mul, powers_agree}

value-with_sign : (v : Bytes) → value (with_sign v) ≡ value v
unfolding with_sign
value-with_sign [] = refl
value-with_sign (b ∷ v) =
    if-cases (λ w. value w ≡ value (b ∷ v)) (ltb 0x7f b) _ _ (λ e. refl) (λ e. refl)

-- The number g ^ (a * b) modulo the prime, where a and b are twice the drawn numbers.
abbrev pub IsPower : BigUints → DhGroup → ℕ → ℕ → Bytes → Type 0
IsPower big group n m secret =
    let bits = group.exp_size * 8 - 2 in
    value secret
    ≡ group.generator ^ ((big.gen_biguint bits n * 2) * (big.gen_biguint bits m * 2))
      % value group.prime

module _ (big : BigUints) (laws : BigUintLaws big) where
  pub from-biguint_to_mpint : (n : ℕ) → big.from_bytes_be (biguint_to_mpint big n) ≡ n
  unfolding biguint_to_mpint
  from-biguint_to_mpint n =
      laws.from-eq (with_sign (big.to_bytes_be n))
      ∙ value-with_sign (big.to_bytes_be n)
      ∙ sym (laws.from-eq (big.to_bytes_be n))
      ∙ laws.from-to n

  -- The secret is the mpint of the number that both ends compute.
  secret_of :
      (group : DhGroup) (n m : ℕ)
      → 0 < value group.prime
      → get_shared_secret big (new big group n) (new big group m).public_key
        ≡ ok (
            biguint_to_mpint big (
              (group.generator ^ (new big group m).private_key % value group.prime)
                ^ (new big group n).private_key
              % value group.prime))
  unfolding get_shared_secret new
  secret_of group n m h =
      let bits = group.exp_size * 8 - 2 in
      let p = big.from_bytes_be group.prime in
      let a = big.gen_biguint bits n * 2 in
      let b = big.gen_biguint bits m * 2 in
      let prime : p ≡ value group.prime = laws.from-eq group.prime in
      let positive : 0 < p = rw prime h in
      rw
        (
          from-biguint_to_mpint (big.modpow group.generator b p),
          laws.modpow-eq group.generator b p positive,
          laws.modpow-eq (group.generator ^ b % p) a p positive,
          prime,
        )
        refl

  value-biguint_to_mpint : (n : ℕ) → value (biguint_to_mpint big n) ≡ n
  value-biguint_to_mpint n = sym (laws.from-eq _) ∙ from-biguint_to_mpint n

  secret-IsPower :
      (group : DhGroup) (n m : ℕ)
      → IsPower big group n m (
          biguint_to_mpint big (
            (group.generator ^ (new big group m).private_key % value group.prime)
              ^ (new big group n).private_key
            % value group.prime))
  unfolding new
  secret-IsPower group n m =
      let bits = group.exp_size * 8 - 2 in
      let a = big.gen_biguint bits n * 2 in
      let b = big.gen_biguint bits m * 2 in
      value-biguint_to_mpint _
      ∙ pow-mod (group.generator ^ b) a (value group.prime)
      ∙ ap (λ t. t % value group.prime)
          (pow-pow group.generator b a ∙ sym (pow-mul group.generator a b))

  pub new-Agree :
      (group : DhGroup) (n m : ℕ)
      → 0 < value group.prime
      → (secret : Bytes) × IsPower big group n m secret
        × (get_shared_secret big (new big group n) (new big group m).public_key ≡ ok secret)
        × (get_shared_secret big (new big group m) (new big group n).public_key ≡ ok secret)
  new-Agree group n m h = (
    _,
    secret-IsPower group n m,
    secret_of group n m h,
    secret_of group m n h
        ∙ ap (λ t. ok (biguint_to_mpint big t))
            (powers_agree group.generator (new big group n).private_key
              (new big group m).private_key (value group.prime)),
  )
