-- ===== src/Base/Bits.antt =====
-- The top bit of a byte, by a table over all bytes.
use Prim.Native.Nat.{ℕ, zero, suc, ◌<◌, bit_and}
use mathlib.Core.Path.{◌≡◌, refl}
use mathlib.Core.Bool.{Bool, true, false, ◌&&◌, beq}
use native.Mathlib.Omega.{arith}
use ssh_rs.Base.Tests.{ltb, ◌==◌}

holds_below : ℕ → (ℕ → Bool) → Bool
holds_below zero p = true
holds_below (suc n) p = p n && holds_below n p

holds_below→holds : (n : ℕ) (p : ℕ → Bool) (x : ℕ) → holds_below n p ≡ true → x < n → p x ≡ true
unfolding holds_below
holds_below→holds zero p x h lt = absurd (omega arith)
holds_below→holds (suc n) p x h lt = ground (arith, holds_below→holds n p x)

top_bit_table : holds_below 256 (λ b. beq (bit_and b 0x80 == 0) (ltb b 128)) ≡ true
unfolding holds_below
top_bit_table = refl

beq→eq : (a b : Bool) → beq a b ≡ true → a ≡ b
beq→eq true true h = refl
beq→eq true false h = cc
beq→eq false true h = cc
beq→eq false false h = refl

-- `b & 0x80 == 0` on a byte.
pub top_bit_lem : (b : ℕ) → b < 256 → (bit_and b 0x80 == 0) ≡ ltb b 128
top_bit_lem b h = beq→eq _ _ (holds_below→holds 256 _ b top_bit_table h)
