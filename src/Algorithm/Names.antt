-- ===== src/Algorithm/Names.antt =====
-- What the negotiation needs of a family of algorithms, and the five families that have it.
use ssh_rs.Base.{ℕ, ◌<◌, ◌≡◌, ◌≢◌, refl, List, [], ◌∷◌, Option, none, some, All, arith, bytes_eq→eq}
use ssh_rs.Data.{Bytes}
use ssh_rs.Algorithm.{
  Enc, Kex, PubKey, Mac, Compress, enc_name, kex_name, pub_key_name, mac_name, compress_name, encs,
  kexs, pub_keys, macs, compresses, find_name,
}

-- A byte of an algorithm's name: ASCII, and no comma.
abbrev pub IsNameByte : ℕ → Type 0
IsNameByte b = (b < 128) × (b ≢ b',')

-- A derived `AsRef`, `EnumString` and `PartialEq`.
pub record Named (A : Type 0) : Type 0 where
  pub as_ref : A → Bytes
  pub from_str : Bytes → Option A
  pub discrete : Discrete A
  pub from_str-as_ref : (a : A) → from_str (as_ref a) ≡ some a
  pub as_ref-from_str : (s : Bytes) (a : A) → from_str s ≡ some a → s ≡ as_ref a
  pub name_bytes : (a : A) → All IsNameByte (as_ref a)
  pub from_str-nil : from_str [] ≡ none

pub find_name-eq_some :
    {A : Type 0} (name : A → Bytes) (as' : List A) (s : Bytes) (a : A)
    → find_name name as' s ≡ some a
    → s ≡ name a
unfolding find_name
find_name-eq_some name [] s a h = cc
find_name-eq_some name (x ∷ as') s a h =
    ground (arith, bytes_eq→eq (name x) s, find_name-eq_some name as' s a)

module _ {A : Type 0} (name : A → Bytes) (variants : List A) (d : Discrete A) where
  abbrev pub named :
      ((a : A) → find_name name variants (name a) ≡ some a)
      → ((a : A) → All IsNameByte (name a))
      → find_name name variants [] ≡ none
      → Named A
  named found bytes nil = record {
    as_ref = name;
    from_str = find_name name variants;
    discrete = d;
    from_str-as_ref = found;
    as_ref-from_str = find_name-eq_some name variants;
    name_bytes = bytes;
    from_str-nil = nil;
  }

unfoldable pub Enc-discrete : Discrete Enc
Enc-discrete = hlevel

pub find_name-enc_name : (a : Enc) → find_name enc_name encs (enc_name a) ≡ some a
unfolding find_name
find_name-enc_name Enc.aes128_ctr = refl
find_name-enc_name _ = refl

pub enc_name_bytes : (a : Enc) → All IsNameByte (enc_name a)
enc_name_bytes Enc.aes128_ctr = omega arith
enc_name_bytes _ = omega arith

pub find_name-enc_nil : find_name enc_name encs [] ≡ none
unfolding find_name
find_name-enc_nil = refl

instance abbrev pub enc_named : Named Enc
enc_named = named enc_name encs Enc-discrete find_name-enc_name enc_name_bytes find_name-enc_nil

unfoldable pub Kex-discrete : Discrete Kex
Kex-discrete = hlevel

pub find_name-kex_name : (a : Kex) → find_name kex_name kexs (kex_name a) ≡ some a
unfolding find_name
find_name-kex_name Kex.curve25519_sha256 = refl
find_name-kex_name _ = refl

pub kex_name_bytes : (a : Kex) → All IsNameByte (kex_name a)
kex_name_bytes Kex.curve25519_sha256 = omega arith
kex_name_bytes _ = omega arith

pub find_name-kex_nil : find_name kex_name kexs [] ≡ none
unfolding find_name
find_name-kex_nil = refl

instance abbrev pub kex_named : Named Kex
kex_named = named kex_name kexs Kex-discrete find_name-kex_name kex_name_bytes find_name-kex_nil

unfoldable pub PubKey-discrete : Discrete PubKey
PubKey-discrete = hlevel

pub find_name-pub_key_name :
    (a : PubKey) → find_name pub_key_name pub_keys (pub_key_name a) ≡ some a
unfolding find_name
find_name-pub_key_name PubKey.ssh_rsa = refl
find_name-pub_key_name _ = refl

pub pub_key_name_bytes : (a : PubKey) → All IsNameByte (pub_key_name a)
pub_key_name_bytes PubKey.ssh_rsa = omega arith
pub_key_name_bytes _ = omega arith

pub find_name-pub_key_nil : find_name pub_key_name pub_keys [] ≡ none
unfolding find_name
find_name-pub_key_nil = refl

instance abbrev pub pub_key_named : Named PubKey
pub_key_named =
    named pub_key_name pub_keys PubKey-discrete find_name-pub_key_name pub_key_name_bytes
      find_name-pub_key_nil

unfoldable pub Mac-discrete : Discrete Mac
Mac-discrete = hlevel

pub find_name-mac_name : (a : Mac) → find_name mac_name macs (mac_name a) ≡ some a
unfolding find_name
find_name-mac_name Mac.hmac_sha1 = refl
find_name-mac_name _ = refl

pub mac_name_bytes : (a : Mac) → All IsNameByte (mac_name a)
mac_name_bytes Mac.hmac_sha1 = omega arith
mac_name_bytes _ = omega arith

pub find_name-mac_nil : find_name mac_name macs [] ≡ none
unfolding find_name
find_name-mac_nil = refl

instance abbrev pub mac_named : Named Mac
mac_named = named mac_name macs Mac-discrete find_name-mac_name mac_name_bytes find_name-mac_nil

unfoldable pub Compress-discrete : Discrete Compress
Compress-discrete = hlevel

pub find_name-compress_name :
    (a : Compress) → find_name compress_name compresses (compress_name a) ≡ some a
unfolding find_name
find_name-compress_name Compress.zlib = refl
find_name-compress_name _ = refl

pub compress_name_bytes : (a : Compress) → All IsNameByte (compress_name a)
compress_name_bytes Compress.zlib = omega arith
compress_name_bytes _ = omega arith

pub find_name-compress_nil : find_name compress_name compresses [] ≡ none
unfolding find_name
find_name-compress_nil = refl

instance abbrev pub compress_named : Named Compress
compress_named =
    named compress_name compresses Compress-discrete find_name-compress_name compress_name_bytes
      find_name-compress_nil
