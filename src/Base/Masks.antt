-- ===== src/Base/Masks.antt =====
-- `x & (2 ^ k - 1)` for the two masks that the padding uses, from the digits that `bit_and` is
-- defined by.
use Prim.Native.Nat.{ℕ, zero, suc, ◌+◌, ◌*◌, ◌/◌, ◌%◌, ◌≤◌, min, bit_and, digits, bit_and-bitwise}
use mathlib.Core.Path.{◌≡◌, refl}
use native.Mathlib.Omega.{arith}

abbrev low_min : ℕ → ℕ → ℕ → ℕ
low_min fuel x y = digits (λ _. zero) min fuel x y

-- Any fuel that is not below the first number gives the same digits.
low_min_fuel : (f g x y : ℕ) → x ≤ f → x ≤ g → low_min f x y ≡ low_min g x y
low_min_fuel zero zero x y p q = refl
low_min_fuel zero (suc g) zero y p q = refl
low_min_fuel zero (suc g) (suc x) y p q = absurd (omega arith)
low_min_fuel (suc f) zero zero y p q = refl
low_min_fuel (suc f) zero (suc x) y p q = absurd (omega arith)
low_min_fuel (suc f) (suc g) zero y p q = refl
low_min_fuel (suc f) (suc g) (suc x) y p q =
    omega (arith, low_min_fuel f g (suc x / 2) (y / 2) (omega arith) (omega arith))

nothing_and : (y : ℕ) → bit_and 0 y ≡ 0
nothing_and y = bit_and-bitwise 0 y

last_digit : (x y : ℕ) → bit_and x y ≡ bit_and (x / 2) (y / 2) * 2 + min (x % 2) (y % 2)
last_digit zero y = omega (arith, nothing_and y, nothing_and (y / 2))
last_digit (suc x) y = omega (
  arith,
  bit_and-bitwise (suc x) y,
  bit_and-bitwise (suc x / 2) (y / 2),
  low_min_fuel x (suc x / 2) (suc x / 2) (y / 2) (omega arith) (omega arith),
)

and_nothing : (bound x : ℕ) → x ≤ bound → bit_and x 0 ≡ 0
and_nothing bound zero h = refl
and_nothing zero (suc x) h = absurd (omega arith)
and_nothing (suc bound) (suc x) h =
    omega (arith, last_digit (suc x) 0, and_nothing bound (suc x / 2) (omega arith))

mask_1 : (x : ℕ) → bit_and x 1 ≡ x % 2
mask_1 x = omega (arith, last_digit x 1, and_nothing (x / 2) (x / 2) (omega arith))

mask_3 : (x : ℕ) → bit_and x 3 ≡ x % 4
mask_3 x = omega (arith, last_digit x 3, mask_1 (x / 2))

pub mask_7 : (x : ℕ) → bit_and x 7 ≡ x % 8
mask_7 x = omega (arith, last_digit x 7, mask_3 (x / 2))

pub mask_15 : (x : ℕ) → bit_and x 15 ≡ x % 16
mask_15 x = omega (arith, last_digit x 15, mask_7 (x / 2))
