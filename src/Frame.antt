-- ===== src/Frame.antt =====
-- The layout of a packet in model/packet.rs: its padding, and the payload inside it. Arithmetic on
-- u32 and i32 wraps, as in a release build.
pub mod Padding
pub mod Measure
use Prim.Native.Nat.{bit_and}
use ssh_rs.Base.{
  ℕ, ◌+◌, ◌-◌, ◌%◌, ◌^◌, ◌∷◌, ◌++◌, Bool, ltb, leb, if◌then◌else◌, length, take, replicate, u32,
  u32_be,
}
use ssh_rs.Error.{SshResult, ok, panic, ◌>>=◌}
use ssh_rs.Data.{Bytes, get_u32, get_u8}

unfoldable pub get_align : ℕ → ℕ
get_align bsize = if ltb 8 bsize then bsize else 8

-- `(((-pad) & (block_size - 1)) + block_size) as u32 as u8`, where `-pad` is an i32.
unfoldable pub pad_len : ℕ → Bool → ℕ → ℕ
pad_len block_size no_pad payload_len =
    let pad = u32 (payload_len + 1 + (if no_pad then 0 else 4)) in
    (bit_and (u32 (2 ^ 32 - pad)) (block_size - 1) + block_size) % 256

-- The packet before encryption: length, padding length, payload, and a padding of zeros.
unfoldable pub frame : ℕ → Bool → Bytes → Bytes
frame block_size no_pad payload =
    let payload_len = u32 (length payload) in
    let pad = pad_len block_size no_pad payload_len in
    u32_be (u32 (1 + pad + payload_len)) ++ (pad ∷ (payload ++ replicate pad 0))

-- The payload of a decrypted packet; a slice out of range panics.
unfoldable pub unframe : Bytes → SshResult Bytes
unframe plain = do
  (pkt_len, rest) ← get_u32 plain
  (pad, tail) ← get_u8 rest
  let payload_len = u32 (pkt_len + 2 ^ 32 + 2 ^ 32 - pad - 1)
  if leb payload_len (length tail) then ok (take payload_len tail) else panic
