-- ===== src/Data/Mpint.antt =====
-- `put_mpint` against the mpint of RFC 4251.
use ssh_rs.Base.{
  ℕ, zero, suc, ◌+◌, ◌*◌, ◌^◌, ◌<◌, ◌≤◌, ◌≡◌, ◌≢◌, refl, [], ◌∷◌, ◌++◌, arith, length, IsByte, ltb,
  if◌then◌else◌, top_bit_lem,
}
use ssh_rs.Error.{ok}
use ssh_rs.Data.{Bytes, put_u8s, mpint_payload, put_mpint, get_u8s}
use ssh_rs.Data.RoundTrip.{get_u8s-put_u8s}

-- The number that bytes stand for, the first the most significant.
abbrev pub value_from : ℕ → Bytes → ℕ
value_from n [] = n
value_from n (b ∷ v) = value_from (n * 256 + b) v

abbrev pub value : Bytes → ℕ
value v = value_from 0 v

-- In two's complement the number is not negative.
abbrev pub IsNonNegative : Bytes → Type 0
IsNonNegative [] = Unit {0}
IsNonNegative (b ∷ v) = b < 128

-- No leading byte can be left out: a zero byte stands only before a byte with its top bit set.
abbrev pub IsShortest : Bytes → Type 0
IsShortest [] = Unit {0}
IsShortest (zero ∷ []) = ⊥
IsShortest (zero ∷ b ∷ v) = 128 ≤ b
IsShortest (suc a ∷ v) = Unit {0}

pub payload_lem :
    (b : ℕ) (v : Bytes)
    → IsByte b
    → mpint_payload (b ∷ v) ≡ ok (if ltb b 128 then b ∷ v else 0 ∷ b ∷ v)
unfolding mpint_payload
payload_lem b v h = rw (top_bit_lem b h)

-- The mpint that `put_mpint` appends for bytes with a first byte reads back as a string that is
-- not negative and stands for the same number.
pub get_u8s-put_mpint :
    (b : ℕ) (v rest : Bytes)
    → IsByte b
    → length v + 2 < 2 ^ 32
    → (w : Bytes) × (d : Bytes) × (put_mpint [] (b ∷ v) ≡ ok d)
      × (get_u8s (d ++ rest) ≡ ok (w, rest))
      × (value w ≡ value (b ∷ v))
      × IsNonNegative w
unfolding put_mpint
get_u8s-put_mpint b v rest hb hv =
    let w : Bytes = (if ltb b 128 then b ∷ v else 0 ∷ b ∷ v) in
    (
      w,
      put_u8s [] w,
      rw (payload_lem b v hb),
      get_u8s-put_u8s w rest (ground arith),
      ground arith,
      ground arith,
    )

-- If the first byte of the input is not zero, the payload of the mpint is the shortest one.
pub mpint_payload-IsShortest :
    (b : ℕ) (v w : Bytes) → IsByte b → b ≢ 0 → mpint_payload (b ∷ v) ≡ ok w → IsShortest w
mpint_payload-IsShortest zero v w hb ne h = absurd (ne refl)
mpint_payload-IsShortest (suc b) v w hb ne h = ground (arith, payload_lem (suc b) v hb)

-- If the input has a zero byte before a byte below 128, the payload of the mpint is not the shortest
-- one, which RFC 4251 asks for.
pub mpint_payload_zero :
    (b : ℕ) (v w : Bytes) → b < 128 → mpint_payload (0 ∷ b ∷ v) ≡ ok w → ¬ IsShortest w
mpint_payload_zero b v w hb h = ground (arith, payload_lem 0 (b ∷ v))
