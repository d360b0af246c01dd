-- ===== src/Tests/Ciphers.antt =====
-- The theorems on the ciphers at concrete inputs.
use ssh_rs.Base.{◌≡◌, refl, [], ◌∷◌}
use ssh_rs.Error.{panic}
use ssh_rs.Algorithm.{hmac_sha2_256, chacha20_poly1305_openssh}
use ssh_rs.Hash
use ssh_rs.Hash.{sha1, sha256, ctx_new}
use ssh_rs.Hmac
use ssh_rs.Packet.Paired.{CipherPair}
use ssh_rs.Ciphers.{encryption, from}
use ssh_rs.Ciphers.Pairs.{InStep, encryption-CipherPair}
use ssh_rs.Ciphers.Ends.{Ends, from-Ends, from_cha_cha_sha1}
use ssh_rs.Tests.Crates.{
  flip_stream, flip_blocks, sealed_keys, fixed_hmac, fixed_ring, fixed_ring-RingSizes,
  flip-CipherLaws, Same,
}

encryption-CipherPair_example :
    CipherPair
      (encryption flip_stream flip_blocks flip_blocks sealed_keys fixed_hmac)
      (InStep flip_stream flip_blocks flip_blocks sealed_keys fixed_hmac Same Same Same)
encryption-CipherPair_example =
    encryption-CipherPair flip_stream flip_blocks flip_blocks sealed_keys fixed_hmac Same Same Same
      flip-CipherLaws

from-Ends_example :
    Ends flip_stream flip_blocks flip_blocks sealed_keys fixed_hmac fixed_ring fixed_ring-RingSizes
      Same Same Same chacha20_poly1305_openssh
      (Hash.new fixed_ring ctx_new (8 ∷ []) sha256)
      (Hmac.from hmac_sha2_256)
from-Ends_example =
    from-Ends flip_stream flip_blocks flip_blocks sealed_keys fixed_hmac fixed_ring
      fixed_ring-RingSizes Same Same Same flip-CipherLaws chacha20_poly1305_openssh hmac_sha2_256
      ctx_new (8 ∷ []) sha256 refl

from_cha_cha_sha1_example :
    from flip_stream flip_blocks flip_blocks sealed_keys fixed_hmac fixed_ring
      chacha20_poly1305_openssh
      (Hash.new fixed_ring ctx_new (8 ∷ []) sha1)
      (Hmac.from hmac_sha2_256)
    ≡ panic
from_cha_cha_sha1_example =
    from_cha_cha_sha1 flip_stream flip_blocks flip_blocks sealed_keys fixed_hmac fixed_ring
      fixed_ring-RingSizes ctx_new (8 ∷ []) (Hmac.from hmac_sha2_256)
