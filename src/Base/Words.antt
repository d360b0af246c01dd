-- ===== src/Base/Words.antt =====
-- A u32 as a number below 2 ^ 32, and its four bytes in network order.
use Prim.Native.Nat.{ℕ, ◌+◌, ◌*◌, ◌/◌, ◌%◌, ◌^◌, ◌<◌}
use mathlib.Core.Path.{◌≡◌}
use mathlib.Core.List.{List, [], ◌∷◌}
use native.Mathlib.Omega.{arith}
use ssh_rs.Base.Lists.{All}

abbrev pub u32_mod : ℕ
u32_mod = 2 ^ 32

-- `x as u32`
abbrev pub u32 : ℕ → ℕ
u32 x = x % 2 ^ 32

abbrev pub IsByte : ℕ → Type 0
IsByte b = b < 256

abbrev pub IsU32 : ℕ → Type 0
IsU32 n = n < 2 ^ 32

-- `u32::to_be_bytes`
unfoldable pub u32_be : ℕ → List ℕ
u32_be n = (n / 2 ^ 24 % 256) ∷ (n / 2 ^ 16 % 256) ∷ (n / 2 ^ 8 % 256) ∷ (n % 256) ∷ []

-- `u32::from_be_bytes`
unfoldable pub u32_of : ℕ → ℕ → ℕ → ℕ → ℕ
u32_of a b c d = a * 2 ^ 24 + b * 2 ^ 16 + c * 2 ^ 8 + d

pub u32_be-IsByte : (n : ℕ) → All IsByte (u32_be n)
unfolding u32_be
u32_be-IsByte n = omega arith

pub u32_of-u32_be :
    (n : ℕ)
    → n < 2 ^ 32
    → u32_of (n / 2 ^ 24 % 256) (n / 2 ^ 16 % 256) (n / 2 ^ 8 % 256) (n % 256) ≡ n
unfolding u32_of
u32_of-u32_be n h = omega arith

pub u32_of-lt : (a b c d : ℕ) → a < 256 → b < 256 → c < 256 → d < 256 → u32_of a b c d < 2 ^ 32
unfolding u32_of
u32_of-lt a b c d ha hb hc hd = omega arith

pub u32_be-u32_of :
    (a b c d : ℕ)
    → a < 256
    → b < 256
    → c < 256
    → d < 256
    → u32_be (u32_of a b c d) ≡ a ∷ b ∷ c ∷ d ∷ []
unfolding u32_be u32_of
u32_be-u32_of a b c d ha hb hc hd = ground arith
