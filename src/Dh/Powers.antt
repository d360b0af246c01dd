-- ===== src/Dh/Powers.antt =====
-- Powers modulo a number.
use native.Mathlib.Nat.{
  mod-add-div', add-mul, mul_comm, mul_assoc, mul_left_comm, mul_right_comm, add-mul-mod_self_right,
  pow-suc, pow-zero, mul-zero, mul-suc, add-zero, add-suc, mul-one,
}
use ssh_rs.Base.{ℕ, zero, suc, ◌+◌, ◌*◌, ◌/◌, ◌^◌, ◌%◌, ◌≡◌, sym, ap, ◌∙◌}

mul-mod_front : (a b m : ℕ) → a % m * b % m ≡ a * b % m
mul-mod_front a b m =
    let split : a * b ≡ a % m * b + a / m * b * m =
      ap (λ t. t * b) (sym (mod-add-div' a m))
      ∙ add-mul (a % m) (a / m * m) b
      ∙ ap (λ t. a % m * b + t) (mul_right_comm (a / m) m b) in
    sym (ap (λ t. t % m) split ∙ add-mul-mod_self_right (a % m * b) (a / m * b) m)

pub pow-mod : (a n m : ℕ) → (a % m) ^ n % m ≡ a ^ n % m
pow-mod a zero m = ap (λ t. t % m) (pow-zero (a % m) ∙ sym (pow-zero a))
pow-mod a (suc n) m =
    ap (λ t. t % m) (pow-suc (a % m) n)
    ∙ sym (mul-mod_front ((a % m) ^ n) (a % m) m)
    ∙ ap (λ t. t * (a % m) % m) (pow-mod a n m)
    ∙ mul-mod_front (a ^ n) (a % m) m
    ∙ ap (λ t. t % m) (mul_comm (a ^ n) (a % m))
    ∙ mul-mod_front a (a ^ n) m
    ∙ ap (λ t. t % m) (mul_comm a (a ^ n) ∙ sym (pow-suc a n))

mul-pow : (x y n : ℕ) → (x * y) ^ n ≡ x ^ n * y ^ n
mul-pow x y zero = rw (pow-zero (x * y), pow-zero x, pow-zero y)
mul-pow x y (suc n) =
    pow-suc (x * y) n
    ∙ ap (λ t. t * (x * y)) (mul-pow x y n)
    ∙ mul_assoc (x ^ n) (y ^ n) (x * y)
    ∙ ap (λ t. x ^ n * t) (mul_left_comm (y ^ n) x y)
    ∙ sym (mul_assoc (x ^ n) x (y ^ n * y))
    ∙ rw (pow-suc x n, pow-suc y n)

pow_one : (n : ℕ) → 1 ^ n ≡ 1
pow_one zero = pow-zero 1
pow_one (suc n) = pow-suc 1 n ∙ ap (λ t. t * 1) (pow_one n)

pub pow-pow : (b n m : ℕ) → (b ^ n) ^ m ≡ (b ^ m) ^ n
pow-pow b n zero = pow-zero (b ^ n) ∙ sym (pow_one n) ∙ ap (λ t. t ^ n) (sym (pow-zero b))
pow-pow b n (suc m) =
    pow-suc (b ^ n) m
    ∙ ap (λ t. t * b ^ n) (pow-pow b n m)
    ∙ sym (mul-pow (b ^ m) b n)
    ∙ ap (λ t. t ^ n) (sym (pow-suc b m))

pow-add : (b n m : ℕ) → b ^ (n + m) ≡ b ^ n * b ^ m
pow-add b n zero =
    ap (λ t. b ^ t) (add-zero n) ∙ sym (ap (λ t. b ^ n * t) (pow-zero b) ∙ mul-one (b ^ n))
pow-add b n (suc m) =
    ap (λ t. b ^ t) (add-suc n m)
    ∙ pow-suc b (n + m)
    ∙ ap (λ t. t * b) (pow-add b n m)
    ∙ mul_assoc (b ^ n) (b ^ m) b
    ∙ ap (λ t. b ^ n * t) (sym (pow-suc b m))

pub pow-mul : (b n m : ℕ) → b ^ (n * m) ≡ (b ^ n) ^ m
pow-mul b n zero = ap (λ t. b ^ t) (mul-zero n) ∙ pow-zero b ∙ sym (pow-zero (b ^ n))
pow-mul b n (suc m) =
    ap (λ t. b ^ t) (mul-suc n m)
    ∙ pow-add b (n * m) n
    ∙ ap (λ t. t * b ^ n) (pow-mul b n m)
    ∙ sym (pow-suc (b ^ n) m)

-- Both orders of two powers agree, also where the first is reduced.
pub powers_agree : (b n m p : ℕ) → (b ^ n % p) ^ m % p ≡ (b ^ m % p) ^ n % p
powers_agree b n m p =
    pow-mod (b ^ n) m p ∙ ap (λ t. t % p) (pow-pow b n m) ∙ sym (pow-mod (b ^ m) n p)
