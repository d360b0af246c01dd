-- ===== src/Hmac/Tags.antt =====
-- The lengths of the codes.
use ssh_rs.Base.{ℕ, ◌≤◌, ◌≡◌, refl, ◌++◌, length, take, u32_be, arith}
use ssh_rs.Error.{ok}
use ssh_rs.Data.{Bytes}
use ssh_rs.Algorithm
use ssh_rs.Algorithm.{Mac}
use ssh_rs.Hmac.{
  HmacRing, MacBox, h_mac_sha1, hmac_sha2_256, hmac_sha2_512, mac_none, from, bsize, keyed, sign,
}

-- A code is as long as the output of its hash function.
pub record HmacSizes (ring : HmacRing) : Type 0 where
  pub sha1_size : (key text : Bytes) → length (ring.sha1 key text) ≡ 20
  pub sha256_size : (key text : Bytes) → length (ring.sha256 key text) ≡ 32
  pub sha512_size : (key text : Bytes) → length (ring.sha512 key text) ≡ 64

-- A key that serves an object: `bsize` bytes at least.
abbrev pub KeyFits : MacBox → ℕ → Bytes → Type 0
KeyFits m n ik = (bsize m ≡ ok n) × (n ≤ length ik)

keyed-ok :
    (hmac : Bytes → Bytes → Bytes) (size : ℕ) (ik : Bytes) (seq : ℕ) (buf : Bytes)
    → size ≤ length ik
    → keyed hmac size ik seq buf ≡ ok (hmac (take size ik) (u32_be seq ++ buf))
unfolding keyed
keyed-ok hmac size ik seq buf h = ground arith

pub record HasTag (ring : HmacRing) (m : MacBox) (n : ℕ) (ik : Bytes) (seq : ℕ) (buf : Bytes)
    : Type 0 where
  pub tag : Bytes
  pub signed : sign ring m ik seq buf ≡ ok tag
  pub size : length tag ≡ n

-- With a key that fits, a buffer has a code of `bsize` bytes.
pub sign-HasTag :
    (ring : HmacRing) (m : MacBox) (n : ℕ) (ik : Bytes) (seq : ℕ) (buf : Bytes)
    → HmacSizes ring
    → KeyFits m n ik
    → HasTag ring m n ik seq buf
unfolding sign bsize
sign-HasTag ring h_mac_sha1 n ik seq buf sizes (e, long) =
    let same : 20 ≡ n = cc in
    record {
      tag = ring.sha1 (take 20 ik) (u32_be seq ++ buf);
      signed = keyed-ok ring.sha1 20 ik seq buf (omega arith);
      size = omega (arith, sizes.sha1_size (take 20 ik) (u32_be seq ++ buf));
    }
sign-HasTag ring hmac_sha2_256 n ik seq buf sizes (e, long) =
    let same : 32 ≡ n = cc in
    record {
      tag = ring.sha256 (take 32 ik) (u32_be seq ++ buf);
      signed = keyed-ok ring.sha256 32 ik seq buf (omega arith);
      size = omega (arith, sizes.sha256_size (take 32 ik) (u32_be seq ++ buf));
    }
sign-HasTag ring hmac_sha2_512 n ik seq buf sizes (e, long) =
    let same : 64 ≡ n = cc in
    record {
      tag = ring.sha512 (take 64 ik) (u32_be seq ++ buf);
      signed = keyed-ok ring.sha512 64 ik seq buf (omega arith);
      size = omega (arith, sizes.sha512_size (take 64 ik) (u32_be seq ++ buf));
    }
sign-HasTag ring mac_none n ik seq buf sizes (e, long) = absurd (none_fits e)
  where
    none_fits : bsize mac_none ≡ ok n → ⊥
    none_fits e = cc

pub from_fits : (m : Mac) → (n : ℕ) × (bsize (from m) ≡ ok n)
unfolding bsize
from_fits Algorithm.hmac_sha1 = (20, refl)
from_fits Algorithm.hmac_sha2_256 = (32, refl)
from_fits Algorithm.hmac_sha2_512 = (64, refl)
