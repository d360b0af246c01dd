-- ===== src/Data/RoundTrip.antt =====
-- What the writers of Data write, the readers read back.
use ssh_rs.Base.{
  ℕ, ◌+◌, ◌^◌, ◌<◌, ◌≡◌, refl, [], ◌++◌, append_assoc, arith, length, length-append, take_front,
  drop_front, u32, u32_be, u32_of-u32_be, IsU32,
}
use ssh_rs.Error.{ok}
use ssh_rs.Data.{Bytes, put_u8s, put_str, drain, get_u32, get_u8s}

pub get_u32-u32_be : (n : ℕ) (rest : Bytes) → IsU32 n → get_u32 (u32_be n ++ rest) ≡ ok (n, rest)
unfolding get_u32 u32_be
get_u32-u32_be n rest h = ground (arith, u32_of-u32_be n h)

pub drain-append : (v rest : Bytes) (n : ℕ) → n ≡ length v → drain n (v ++ rest) ≡ ok (v, rest)
unfolding drain
drain-append v rest n h =
    ground (arith, length-append v rest, take_front v rest n h, drop_front v rest n h)

-- Reading a string off the front of a buffer gives back the string that was written there and
-- leaves what follows it, for every string whose length fits 32 bits.
pub get_u8s-put_u8s :
    (v rest : Bytes) → length v < 2 ^ 32 → get_u8s (put_u8s [] v ++ rest) ≡ ok (v, rest)
unfolding get_u8s put_u8s
get_u8s-put_u8s v rest h = rw (append_assoc (u32_be (u32 (length v))) v rest) (
    rw (get_u32-u32_be (u32 (length v)) (v ++ rest) (omega arith))
      (drain-append v rest _ (omega arith)))

-- Each writer keeps what the buffer holds and appends to it.
pub put_u8s-front : (d v : Bytes) → put_u8s d v ≡ d ++ put_u8s [] v
unfolding put_u8s
put_u8s-front d v = append_assoc d _ v

pub put_str-eq-put_u8s : (d v : Bytes) → put_str d v ≡ put_u8s d v
unfolding put_str put_u8s
put_str-eq-put_u8s d v = refl

pub length-put_u8s : (v : Bytes) → length (put_u8s [] v) ≡ length v + 4
unfolding put_u8s u32_be
length-put_u8s v = omega arith
