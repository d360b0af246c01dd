-- ===== src/Frame/Padding.antt =====
-- The padding of RFC 4253, section 6, and the payload of a framed packet.
use ssh_rs.Base.{
  ℕ, zero, ◌+◌, ◌-◌, ◌*◌, ◌%◌, ◌^◌, ◌≤◌, ◌<◌, ◌≡◌, refl, ◌∷◌, ◌++◌, Bool, true, false, arith, ◌⊎◌,
  inl, inr, if◌then◌else◌, length, length-append, length-replicate, take_front, replicate, u32,
  u32_be, mask_7, mask_15,
}
use ssh_rs.Error.{ok}
use ssh_rs.Data.{Bytes, get_u8}
use ssh_rs.Data.RoundTrip.{get_u32-u32_be}
use ssh_rs.Frame.{pad_len, frame, unframe}

-- The two block sizes in use.
abbrev pub IsAlign : ℕ → Type 0
IsAlign b = (b ≡ 8) ⊎ (b ≡ 16)

-- What the padding has to round up: the length field counts unless the cipher keeps it apart.
abbrev pub counted : Bool → ℕ → ℕ
counted no_pad n = n + 1 + (if no_pad then 0 else 4)

-- The padding is at least a block and less than two, which is at least the 4 bytes and at most the
-- 255 of the RFC, and it fills the packet up to a multiple of the block, at each payload length.
pub pad_len_bounds :
    (b : ℕ) (no_pad : Bool) (n : ℕ)
    → IsAlign b
    → n < 2 ^ 32
    → (b ≤ pad_len b no_pad n)
      × (pad_len b no_pad n < 2 * b)
      × ((counted no_pad n + pad_len b no_pad n) % b ≡ 0)
unfolding pad_len
pad_len_bounds b true n (inl e) h = rw e (ground (arith, mask_7 (u32 (2 ^ 32 - u32 (n + 1 + 0)))))
pad_len_bounds b true n (inr e) h = rw e (ground (arith, mask_15 (u32 (2 ^ 32 - u32 (n + 1 + 0)))))
pad_len_bounds b false n (inl e) h = rw e (ground (arith, mask_7 (u32 (2 ^ 32 - u32 (n + 1 + 4)))))
pad_len_bounds b false n (inr e) h = rw e (ground (arith, mask_15 (u32 (2 ^ 32 - u32 (n + 1 + 4)))))

pub IsAlign-le : (b : ℕ) → IsAlign b → b ≤ 16
IsAlign-le b (inl e) = omega arith
IsAlign-le b (inr e) = omega arith

payload_len-lem :
    (pad n : ℕ)
    → pad < 32
    → n < 2 ^ 32 - 64
    → u32 (u32 (1 + pad + u32 n) + 2 ^ 32 + 2 ^ 32 - pad - 1) ≡ n
payload_len-lem pad n p h = omega arith

-- For payloads of fewer than 2 ^ 32 - 64 bytes, the payload of a framed packet is read back, for
-- both block sizes and with the length field padded or not.
pub unframe-frame :
    (b : ℕ) (no_pad : Bool) (payload : Bytes)
    → IsAlign b
    → length payload < 2 ^ 32 - 64
    → unframe (frame b no_pad payload) ≡ ok payload
unfolding unframe frame get_u8
unframe-frame b no_pad payload a h =
    let pad = pad_len b no_pad (u32 (length payload)) in
    let bounds = pad_len_bounds b no_pad (u32 (length payload)) a (omega arith) in
    let zeros : Bytes = replicate pad 0 in
    let small : pad < 32 = omega (arith, IsAlign-le b a) in
    rw
      (get_u32-u32_be (u32 (1 + pad + u32 (length payload))) (pad ∷ (payload ++ zeros))
        (omega arith))
      (rw (payload_len-lem pad (length payload) small h) (
        ground
          (arith, length-append payload zeros, take_front payload zeros (length payload) refl)))

pub length-frame :
    (b : ℕ) (no_pad : Bool) (payload : Bytes)
    → length (frame b no_pad payload) ≡ 5 + length payload + pad_len b no_pad (u32 (length payload))
unfolding frame u32_be
length-frame b no_pad payload =
    let pad = pad_len b no_pad (u32 (length payload)) in
    omega (arith, length-append payload (replicate pad 0), length-replicate pad zero)
