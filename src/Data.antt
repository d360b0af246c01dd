-- ===== src/Data.antt =====
-- model/data.rs: the SSH wire types over a byte buffer. A method that changes the buffer returns
-- the new one; an index or a drain out of range is a panic.
pub mod RoundTrip
pub mod Decode
pub mod Mpint
pub mod Fed
use Prim.Native.Nat.{bit_and}
use ssh_rs.Base.{
  ℕ, ◌+◌, List, [], ◌∷◌, ◌++◌, leb, ◌==◌, if◌then◌else◌, length, take, drop, u32, u32_be, u32_of,
}
use ssh_rs.Error.{SshResult, ok, panic, ◌>>=◌}

abbrev pub Bytes : Type 0
Bytes = List ℕ

unfoldable pub put_u8 : Bytes → ℕ → Bytes
put_u8 d v = d ++ (v ∷ [])

unfoldable pub put_u32 : Bytes → ℕ → Bytes
put_u32 d v = d ++ u32_be v

-- The length is cast to 32 bits.
unfoldable pub put_u8s : Bytes → Bytes → Bytes
unfolding put_u32
put_u8s d v = put_u32 d (u32 (length v)) ++ v

-- A `str` is its UTF-8 bytes, so this writes what `put_u8s` writes.
unfoldable pub put_str : Bytes → Bytes → Bytes
unfolding put_u32
put_str d s = put_u32 d (u32 (length s)) ++ s

-- The bytes of the integer, behind a zero byte if the top bit is set. `v[0]` panics on no bytes.
unfoldable pub mpint_payload : Bytes → SshResult Bytes
mpint_payload [] = panic
mpint_payload (b ∷ v) = ok (if bit_and b 0x80 == 0 then b ∷ v else 0 ∷ b ∷ v)

unfoldable pub put_mpint : Bytes → Bytes → SshResult Bytes
put_mpint d v = do result ← mpint_payload v; ok (put_u8s d result)

-- `Vec::drain(..n)`: what is taken off, and what stays.
unfoldable pub drain : ℕ → Bytes → SshResult (Bytes × Bytes)
drain n d = if leb n (length d) then ok (take n d, drop n d) else panic

unfoldable pub skip : ℕ → Bytes → SshResult Bytes
skip n d = do (gone, rest) ← drain n d; ok rest

unfoldable pub get_u8 : Bytes → SshResult (ℕ × Bytes)
get_u8 [] = panic
get_u8 (b ∷ d) = ok (b, d)

-- `try_into().unwrap()` to an array of four bytes, and `from_be_bytes`.
unfoldable pub from_be_bytes : Bytes → SshResult ℕ
from_be_bytes (a ∷ b ∷ c ∷ e ∷ []) = ok (u32_of a b c e)
from_be_bytes _ = panic

unfoldable pub get_u32 : Bytes → SshResult (ℕ × Bytes)
unfolding drain from_be_bytes
get_u32 d = do (four, rest) ← drain 4 d; n ← from_be_bytes four; ok (n, rest)

unfoldable pub get_u8s : Bytes → SshResult (Bytes × Bytes)
get_u8s d = do (len, rest) ← get_u32 d; drain len rest
