-- ===== src/Data/Fed.antt =====
-- The readers of Data end.
use ssh_rs.Base.{ℕ, [], ◌∷◌, if-cases, leb, length}
use ssh_rs.Error.{IsFed, >>=-IsFed}
use ssh_rs.Data.{
  Bytes, drain, skip, from_be_bytes, get_u8, get_u32, get_u8s, mpint_payload, put_mpint,
}

pub drain-IsFed : (n : ℕ) (d : Bytes) → IsFed (drain n d)
unfolding drain
drain-IsFed n d = if-cases IsFed (leb n (length d)) _ _ (λ e. tt) (λ e. tt)

pub skip-IsFed : (n : ℕ) (d : Bytes) → IsFed (skip n d)
unfolding skip
skip-IsFed n d = >>=-IsFed (drain n d) _ (drain-IsFed n d) (λ p. tt)

pub get_u8-IsFed : (d : Bytes) → IsFed (get_u8 d)
unfolding get_u8
get_u8-IsFed [] = tt
get_u8-IsFed (b ∷ d) = tt

from_be_bytes-IsFed : (d : Bytes) → IsFed (from_be_bytes d)
unfolding from_be_bytes
from_be_bytes-IsFed (a ∷ b ∷ c ∷ e ∷ []) = tt
from_be_bytes-IsFed _ = tt

pub get_u32-IsFed : (d : Bytes) → IsFed (get_u32 d)
unfolding get_u32
get_u32-IsFed d =
    >>=-IsFed (drain 4 d) _ (drain-IsFed 4 d)
      (λ p. >>=-IsFed (from_be_bytes p.0) _ (from_be_bytes-IsFed p.0) (λ n. tt))

pub get_u8s-IsFed : (d : Bytes) → IsFed (get_u8s d)
unfolding get_u8s
get_u8s-IsFed d = >>=-IsFed (get_u32 d) _ (get_u32-IsFed d) (λ p. drain-IsFed p.0 p.1)

mpint_payload-IsFed : (v : Bytes) → IsFed (mpint_payload v)
unfolding mpint_payload
mpint_payload-IsFed [] = tt
mpint_payload-IsFed (b ∷ v) = tt

pub put_mpint-IsFed : (d v : Bytes) → IsFed (put_mpint d v)
unfolding put_mpint
put_mpint-IsFed d v = >>=-IsFed (mpint_payload v) _ (mpint_payload-IsFed v) (λ r. tt)
