-- ===== src/Tests/Negotiation.antt =====
-- Runs of the negotiation, of the KEXINIT message, of the tuning, and of the key derivation.
use ssh_rs.Base.{◌≡◌, refl, [], ◌∷◌, arith, length, replicate, inl, inr, some}
use ssh_rs.Error.{ok}
use ssh_rs.Constant.{ascii}
use ssh_rs.Algorithm.{
  PubKey, Kex, Mac, Compress, rsa_sha2_512, rsa_sha2_256, aes128_ctr, chacha20_poly1305_openssh,
}
use ssh_rs.AlgList
use ssh_rs.AlgList.{AlgList, match_with, pack, unpack}
use ssh_rs.AlgList.Negotiate.{Negotiated, AllAgree, match_with-Negotiated, match_with-AllAgree}
use ssh_rs.AlgList.Kexinit.{IsShort, unpack-pack}
use ssh_rs.Config.{Config, KeyPair, KeyType, default_config, tune_alglist_on_private_key}
use ssh_rs.Config.Tune.{IsFirst, tune-IsFirst}
use ssh_rs.Hash
use ssh_rs.Hash.{Ring, HashCtx, ctx_new, sha256, mix_ek}
use ssh_rs.Hash.Keys.{HasOutput}
use ssh_rs.Hash.Derived.{Derived, mix_ek-Derived}

-- A server with one cipher, which is our second.
abbrev server_algs : AlgList
server_algs = record AlgList.client_default { c_encryption = aes128_ctr ∷ [] }

abbrev agreed_algs : AlgList
agreed_algs = record {
  key_exchange = Kex.curve25519_sha256 ∷ [];
  public_key = rsa_sha2_512 ∷ [];
  c_encryption = aes128_ctr ∷ [];
  s_encryption = chacha20_poly1305_openssh ∷ [];
  c_mac = Mac.hmac_sha2_256 ∷ [];
  s_mac = Mac.hmac_sha2_256 ∷ [];
  c_compress = Compress.none ∷ [];
  s_compress = Compress.none ∷ [];
}

agreed_run : match_with AlgList.client_default server_algs ≡ ok agreed_algs
unfolding match_with AlgList.match_field AlgList.find_common AlgList.contains
    ssh_rs.Algorithm.Names.Kex-discrete ssh_rs.Algorithm.Names.PubKey-discrete
    ssh_rs.Algorithm.Names.Enc-discrete ssh_rs.Algorithm.Names.Mac-discrete
    ssh_rs.Algorithm.Names.Compress-discrete
agreed_run = refl

match_with-Negotiated_example : Negotiated AlgList.client_default server_algs agreed_algs
match_with-Negotiated_example =
    match_with-Negotiated AlgList.client_default server_algs agreed_algs agreed_run

default_AllAgree : AllAgree AlgList.client_default server_algs
default_AllAgree = record {
  kex = (Kex.curve25519_sha256, inl refl, inl refl);
  pubkey = (rsa_sha2_512, inl refl, inl refl);
  c_enc = (aes128_ctr, inr (inl refl), inl refl);
  s_enc = (aes128_ctr, inr (inl refl), inr (inl refl));
  c_mac = (Mac.hmac_sha1, inr (inr (inl refl)), inr (inr (inl refl)));
  s_mac = (Mac.hmac_sha1, inr (inr (inl refl)), inr (inr (inl refl)));
  c_compress = (Compress.none, inl refl, inl refl);
  s_compress = (Compress.none, inl refl, inl refl);
}

match_with-AllAgree_example :
    (agreed : AlgList) × (match_with AlgList.client_default server_algs ≡ ok agreed)
match_with-AllAgree_example =
    match_with-AllAgree AlgList.client_default server_algs default_AllAgree

agreed-IsShort : IsShort agreed_algs
unfolding AlgList.to_string ssh_rs.Text.join
agreed-IsShort = record {
  kex = omega arith;
  pubkey = omega arith;
  c_enc = omega arith;
  s_enc = omega arith;
  c_mac = omega arith;
  s_mac = omega arith;
  c_compress = omega arith;
  s_compress = omega arith;
}

unpack-pack_example : unpack (pack (replicate 16 7) agreed_algs) ≡ ok agreed_algs
unpack-pack_example = unpack-pack (replicate 16 7) agreed_algs refl agreed-IsShort

abbrev ed25519_pair : KeyPair
ed25519_pair = record { private_key = ascii "key"; key_type = KeyType.ssh_ed25519 }

abbrev with_key : Config
with_key = record default_config {
  auth = record { username = ascii "u"; password = []; key_pair = some ed25519_pair };
}

tune-IsFirst_example :
    IsFirst PubKey.ssh_ed25519
      (rsa_sha2_512 ∷ rsa_sha2_256 ∷ [])
      (tune_alglist_on_private_key with_key).algs.public_key
    × (tune_alglist_on_private_key with_key ≡ record with_key {
      algs = record AlgList.client_default {
        public_key = (tune_alglist_on_private_key with_key).algs.public_key;
      };
    })
tune-IsFirst_example = tune-IsFirst with_key ed25519_pair refl refl

-- Digests of one and of two bytes.
abbrev tiny_ring : Ring
tiny_ring = record { sha1_digest = λ b. 1 ∷ []; sha256_digest = λ b. 2 ∷ length b ∷ [] }

tiny_ring-HasOutput : HasOutput tiny_ring
tiny_ring-HasOutput = record { sha1_long = λ b. omega arith; sha256_long = λ b. omega arith }

abbrev some_ctx : HashCtx
some_ctx = record ctx_new { k_s = 1 ∷ []; k = 2 ∷ 3 ∷ [] }

mix_ek-Derived_example :
    Derived tiny_ring some_ctx
      (8 ∷ [])
      sha256
      5
      (mix_ek tiny_ring (Hash.new tiny_ring some_ctx (8 ∷ []) sha256) 5)
mix_ek-Derived_example = mix_ek-Derived tiny_ring some_ctx (8 ∷ []) sha256 tiny_ring-HasOutput 5
