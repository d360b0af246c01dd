-- ===== src/Tests/Crates.antt =====
-- Small stand-ins for the algorithms of other crates, with the laws that the theorems ask for.
use ssh_rs.Base.{
  ℕ, zero, suc, ◌+◌, ◌-◌, ◌%◌, ◌≡◌, refl, sym, ap, ◌∙◌, [], ◌∷◌, ◌++◌, some, arith, length, take,
  drop, replicate, ◌==◌, if◌then◌else◌,
}
use ssh_rs.Data.{Bytes}
use ssh_rs.Hash.{Ring}
use ssh_rs.Keys.Shared.{RingSizes}
use ssh_rs.Hmac.{HmacRing}
use ssh_rs.Hmac.Tags.{HmacSizes}
use ssh_rs.Ctr.{StreamCipher}
use ssh_rs.Ctr.Pairs.{StreamLaws}
use ssh_rs.Cbc.{BlockModes}
use ssh_rs.Cbc.Blocks.{BlockLaws}
use ssh_rs.ChaCha.{ChaChaKeys}
use ssh_rs.ChaCha.Pairs.{ChaChaLaws}
use ssh_rs.Ciphers.Pairs.{CipherLaws}

-- Each byte with its lowest bit flipped.
abbrev pub flip : ℕ → ℕ
flip b = if b % 2 == 0 then b + 1 else b - 1

flip_twice : (b : ℕ) → flip (flip b) ≡ b
flip_twice b = ground arith

abbrev pub flips : Bytes → Bytes
flips [] = []
flips (b ∷ bs) = flip b ∷ flips bs

length-flips : (bs : Bytes) → length (flips bs) ≡ length bs
length-flips [] = refl
length-flips (b ∷ bs) = ap suc (length-flips bs)

flips_twice : (bs : Bytes) → flips (flips bs) ≡ bs
flips_twice [] = refl
flips_twice (b ∷ bs) = λ i. flip_twice b i ∷ flips_twice bs i

take-flips : (n : ℕ) (bs : Bytes) → take n (flips bs) ≡ flips (take n bs)
take-flips zero bs = refl
take-flips (suc n) [] = refl
take-flips (suc n) (b ∷ bs) = ap (λ (xs : Bytes). flip b ∷ xs) (take-flips n bs)

-- The position alone is the state.
abbrev pub flip_stream : StreamCipher ℕ
flip_stream = record {
  new = λ key iv. 0;
  apply_keystream = λ k b. (flips b, k + length b);
  current_pos = λ k. k;
  seek = λ k n. n;
}

pub flip_stream-StreamLaws : StreamLaws flip_stream
flip_stream-StreamLaws = record {
  size = λ k b. length-flips b;
  twice = λ k b. flips_twice b;
  front = λ k n b. take-flips n b;
  step = λ k a b e. ap (λ n. k + n) e;
  position = λ k b. refl;
  back = λ k b. refl;
}

abbrev pub Same : Bytes → Bytes → Type 0
Same e d = e ≡ d

-- The block before is the state.
abbrev pub flip_blocks : BlockModes Bytes Bytes
flip_blocks = record {
  encryptor = λ key iv. key ++ iv;
  decryptor = λ key iv. key ++ iv;
  encrypt_block = λ k b. (flips b, b);
  decrypt_block = λ k b. (flips b, flips b);
}

pub flip_blocks-BlockLaws : (size : ℕ) → BlockLaws flip_blocks size Same
flip_blocks-BlockLaws size = record {
  started = λ key iv. refl;
  block = λ e d b r long. record {
    size_kept = length-flips b ∙ long;
    restored = flips_twice b;
    still = sym (flips_twice b);
  };
}

abbrev pub sealed_keys : ChaChaKeys Bytes Bytes
sealed_keys = record {
  sealing_key = λ key. key;
  opening_key = λ key. key;
  seal_in_place = λ k seq b. (flips b, replicate 16 7);
  decrypt_packet_length = λ k seq b. flips b;
  open_in_place = λ k seq b tag. some (drop 4 (flips b));
}

pub sealed_keys-ChaChaLaws : ChaChaLaws sealed_keys Same
sealed_keys-ChaChaLaws = record {
  started = λ key. refl;
  packet = λ e d r seq b long. record {
    size = length-flips b;
    tag_size = refl;
    shows = ap flips (take-flips 4 b) ∙ flips_twice (take 4 b);
    opens = ap (λ x. some (drop 4 x)) (flips_twice b);
  };
}

abbrev pub fixed_hmac : HmacRing
fixed_hmac = record {
  sha1 = λ key text. replicate 20 1;
  sha256 = λ key text. replicate 32 2;
  sha512 = λ key text. replicate 64 3;
}

fixed_hmac-HmacSizes : HmacSizes fixed_hmac
fixed_hmac-HmacSizes = record {
  sha1_size = λ key text. refl;
  sha256_size = λ key text. refl;
  sha512_size = λ key text. refl;
}

abbrev pub fixed_ring : Ring
fixed_ring = record { sha1_digest = λ b. replicate 20 4; sha256_digest = λ b. replicate 32 5 }

pub fixed_ring-RingSizes : RingSizes fixed_ring
fixed_ring-RingSizes = record { sha1_size = λ b. refl; sha256_size = λ b. refl }

pub flip-CipherLaws :
    CipherLaws flip_stream flip_blocks flip_blocks sealed_keys fixed_hmac Same Same Same
flip-CipherLaws = record {
  codes = fixed_hmac-HmacSizes;
  streams = flip_stream-StreamLaws;
  aes_blocks = flip_blocks-BlockLaws 16;
  des_blocks = flip_blocks-BlockLaws 8;
  packets = sealed_keys-ChaChaLaws;
}
