-- ===== src/Frame/Measure.antt =====
-- The length of a framed packet, as its first bytes show it.
use ssh_rs.Base.{
  ℕ, suc, ◌+◌, ◌-◌, ◌%◌, ◌^◌, ◌≤◌, ◌<◌, ◌≡◌, ◌∷◌, ◌++◌, Bool, false, inl, inr, arith, length, take,
  replicate, u32, u32_be,
}
use ssh_rs.Error.{ok}
use ssh_rs.Data.{Bytes, get_u32}
use ssh_rs.Data.RoundTrip.{get_u32-u32_be}
use ssh_rs.Frame.{get_align, pad_len, frame}
use ssh_rs.Frame.Padding.{IsAlign, IsAlign-le, pad_len_bounds, length-frame}

-- The length field of a packet, read from its front.
pub record Measured (b : ℕ) (no_pad : Bool) (body front : Bytes) : Type 0 where
  pub field : ℕ
  pub rest : Bytes
  pub reads : get_u32 front ≡ ok (field, rest)
  pub whole : field + 4 ≡ length (frame b no_pad body)
  pub small : field + 4 < 2 ^ 32

-- Any four bytes or more from the front of a packet show its length.
pub take-frame-Measured :
    (k b : ℕ) (no_pad : Bool) (body : Bytes)
    → IsAlign b
    → length body < 2 ^ 32 - 64
    → Measured b no_pad body (take (suc (suc (suc (suc k)))) (frame b no_pad body))
unfolding frame u32_be
take-frame-Measured k b no_pad body align h =
    let pad = pad_len b no_pad (u32 (length body)) in
    let bounds = pad_len_bounds b no_pad (u32 (length body)) align (omega arith) in
    let short = IsAlign-le b align in
    let n = u32 (1 + pad + u32 (length body)) in
    let same : n + 4 ≡ length (frame b no_pad body) = omega (arith, length-frame b no_pad body) in
    record {
      field = n;
      rest = take k (pad ∷ (body ++ replicate pad 0));
      reads = get_u32-u32_be n (take k (pad ∷ (body ++ replicate pad 0))) (omega arith);
      whole = same;
      small = omega (arith, length-frame b no_pad body);
    }

-- A packet is longer than a block.
pub length-frame-ge :
    (b : ℕ) (no_pad : Bool) (body : Bytes) → IsAlign b → b + 5 ≤ length (frame b no_pad body)
length-frame-ge b no_pad body align = omega (
  arith,
  length-frame b no_pad body,
  pad_len_bounds b no_pad (u32 (length body)) align (omega arith),
)

-- A packet whose length field counts fills whole blocks.
pub length-frame_blocks :
    (b : ℕ) (body : Bytes)
    → IsAlign b
    → length body < 2 ^ 32 - 64
    → length (frame b false body) % b ≡ 0
length-frame_blocks b body align h = ground (
  arith,
  length-frame b false body,
  pad_len_bounds b false (u32 (length body)) align (omega arith),
)

pub take-Measured :
    (m b : ℕ) (no_pad : Bool) (body : Bytes)
    → 4 ≤ m
    → IsAlign b
    → length body < 2 ^ 32 - 64
    → Measured b no_pad body (take m (frame b no_pad body))
take-Measured (suc (suc (suc (suc k)))) b no_pad body wide align h =
    take-frame-Measured k b no_pad body align h
take-Measured m b no_pad body wide align h = absurd (omega arith)

pub get_align-eq : (b : ℕ) → IsAlign b → get_align b ≡ b
unfolding get_align
get_align-eq b (inl e) = rw e
get_align-eq b (inr e) = rw e
