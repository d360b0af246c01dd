-- ===== src/Data/Decode.antt =====
-- The readers of Data on any input: what is accepted, and what panics.
use ssh_rs.Base.{
  ℕ, ◌^◌, ◌<◌, ◌≡◌, [], ◌∷◌, ◌++◌, append_assoc, arith, length, take-append-drop, length-take, All,
  IsByte, u32_be, u32_be-u32_of, u32_of-lt,
}
use ssh_rs.Error.{ok, >>=-eq-ok}
use ssh_rs.Data.{Bytes, put_u8s, drain, get_u32, get_u8s}

-- What `drain` takes and leaves is the buffer, cut at `n`.
pub drain-eq-ok :
    (n : ℕ) (d v rest : Bytes) → drain n d ≡ ok (v, rest) → (d ≡ v ++ rest) × (length v ≡ n)
unfolding drain
drain-eq-ok n d v rest h = ground (arith, take-append-drop n d, length-take n d)

pub get_u32-eq-ok :
    (d rest : Bytes) (n : ℕ)
    → All IsByte d
    → get_u32 d ≡ ok (n, rest)
    → (d ≡ u32_be n ++ rest) × (n < 2 ^ 32)
unfolding get_u32 u32_be
get_u32-eq-ok (a ∷ b ∷ c ∷ e ∷ d) rest n (ha, (hb, (hc, (he, hd)))) h =
    ground (arith, u32_of-lt a b c e ha hb hc he, u32_be-u32_of a b c e ha hb hc he)
get_u32-eq-ok _ rest n bytes h = ground arith

-- A string that is read off the front of a buffer of bytes was written there by `put_u8s`: the
-- decoder accepts only encodings, and it takes no more and no less than one.
pub get_u8s-eq-ok :
    (d v rest : Bytes)
    → All IsByte d
    → get_u8s d ≡ ok (v, rest)
    → (d ≡ put_u8s [] v ++ rest) × (length v < 2 ^ 32)
unfolding get_u8s put_u8s
get_u8s-eq-ok d v rest bytes h =
    let (p, e, k) = >>=-eq-ok (get_u32 d) (λ (n, tail). drain n tail) h in
    let front = get_u32-eq-ok d p.1 p.0 bytes e in
    let back = drain-eq-ok p.0 p.1 v rest k in
    ground (arith, front, back, append_assoc (u32_be p.0) v rest)
