-- ===== src/Hmac.antt =====
-- algorithm/mac: the authentication codes of packets. The HMACs of the crate ring are a parameter.
pub mod Tags
use ssh_rs.Base.{ℕ, ◌++◌, leb, if◌then◌else◌, length, take, u32_be}
use ssh_rs.Error.{SshResult, ok, panic}
use ssh_rs.Data.{Bytes}
use ssh_rs.Algorithm
use ssh_rs.Algorithm.{Mac}

-- The code of a text under a key. A `Context` that is updated twice takes the two texts in turn.
pub record HmacRing : Type 0 where
  pub sha1 : Bytes → Bytes → Bytes
  pub sha256 : Bytes → Bytes → Bytes
  pub sha512 : Bytes → Bytes → Bytes

-- The objects behind `Box<dyn Mac>`.
pub data MacBox : Type 0 where
  h_mac_sha1 hmac_sha2_256 hmac_sha2_512 mac_none : MacBox

abbrev pub from : Mac → MacBox
from Algorithm.hmac_sha1 = h_mac_sha1
from Algorithm.hmac_sha2_256 = hmac_sha2_256
from Algorithm.hmac_sha2_512 = hmac_sha2_512

-- `v[..size]`
unfoldable pub slice : ℕ → Bytes → SshResult Bytes
slice size v = if leb size (length v) then ok (take size v) else panic

unfoldable pub bsize : MacBox → SshResult ℕ
bsize h_mac_sha1 = ok 20
bsize hmac_sha2_256 = ok 32
bsize hmac_sha2_512 = ok 64
bsize mac_none = panic

-- The code of the sequence number and the buffer, under the first bytes of the key.
unfoldable pub keyed : (Bytes → Bytes → Bytes) → ℕ → Bytes → ℕ → Bytes → SshResult Bytes
keyed hmac size ik seq buf =
    if leb size (length ik) then ok (hmac (take size ik) (u32_be seq ++ buf)) else panic

unfoldable pub sign : HmacRing → MacBox → Bytes → ℕ → Bytes → SshResult Bytes
sign ring h_mac_sha1 ik seq buf = keyed ring.sha1 20 ik seq buf
sign ring hmac_sha2_256 ik seq buf = keyed ring.sha256 32 ik seq buf
sign ring hmac_sha2_512 ik seq buf = keyed ring.sha512 64 ik seq buf
sign ring mac_none ik seq buf = panic
