-- ===== src/AlgList.antt =====
-- config/algorithm.rs: the algorithm lists, the KEXINIT message, and the negotiation; with
-- `vec_u8_to_string` of util.rs. The cookie comes from the random generator, and is an argument.
pub mod Negotiate
pub mod Kexinit
pub mod Fed
use mathlib.Core.Logic.{ite}
use mathlib.Core.Option
use ssh_rs.Base.{
  ℕ, List, [], ◌∷◌, ◌++◌, map, Bool, true, false, Option, none, some, ◌==◌, if◌then◌else◌,
}
use ssh_rs.Constant.{ascii, kexinit}
use ssh_rs.Error.{
  SshResult, ok, err, panic, hang, starved, kex_error, data_format_error, ◌>>=◌, ◌>>◌,
}
use ssh_rs.Data.{Bytes, put_u8, put_str, put_u32, skip, get_u8, get_u8s}
use ssh_rs.Text.{is_utf8, split, join}
use ssh_rs.Algorithm.{
  Enc, Kex, PubKey, Mac, Compress, curve25519_sha256, ecdh_sha2_nistrp256,
  diffie_hellman_group14_sha1, diffie_hellman_group14_sha256, rsa_sha2_256, rsa_sha2_512,
  chacha20_poly1305_openssh, aes128_ctr, aes192_ctr, aes256_ctr, hmac_sha1, hmac_sha2_256,
  hmac_sha2_512, zlib_open_ssh,
}
use ssh_rs.Algorithm.Names.{Named, enc_named, kex_named, pub_key_named, mac_named, compress_named}

-- util.rs: a text that is not UTF-8 is an error.
unfoldable pub vec_u8_to_string : Bytes → ℕ → SshResult (List Bytes)
vec_u8_to_string v pat = if is_utf8 v then ok (split pat v) else err data_format_error

-- The wrapped list types, one for each family of algorithms.
module _ {A : Type 0} ⦃n : Named A⦄ where
  unfoldable pub to_string : List A → Bytes
  to_string as' = join b',' (map n.as_ref as')

  -- Names that are not known are left out.
  unfoldable pub try_from : List Bytes → List A
  try_from [] = []
  try_from (s ∷ ss) = elim (n.from_str s) [ none ↦ try_from ss | some a ↦ a ∷ try_from ss ]

  unfoldable pub contains : List A → A → Bool
  contains [] a = false
  contains (b ∷ bs) a = let rest = contains bs a in ite (n.discrete b a) true rest

  -- `iter().find_map(..)` over our list.
  unfoldable pub find_common : List A → List A → Option A
  find_common [] theirs = none
  find_common (a ∷ ours) theirs =
      let rest = find_common ours theirs in if contains theirs a then some a else rest

  unfoldable pub mismatch : Bytes → List A → List A → Bytes
  mismatch hint theirs ours =
      ascii "Key_agreement: the "
      ++ (hint
          ++ (ascii " fails to match, algorithms supported by the server: "
              ++ (to_string theirs
                  ++ (ascii ",algorithms supported by the client: " ++ to_string ours))))

  unfoldable pub match_field : Bytes → List A → List A → SshResult A
  match_field hint ours theirs = elim (find_common ours theirs) [
    | none ↦ err (kex_error (mismatch hint theirs ours))
    | some a ↦ ok a
  ]

  -- One `try_convert!` of `AlgList::from`.
  unfoldable pub try_convert : Bytes → SshResult (List A × Bytes)
  try_convert d = do
    (v, rest) ← get_u8s d
    names ← vec_u8_to_string v b','
    ok (try_from names, rest)

pub record AlgList : Type 0 where
  pub key_exchange : List Kex
  pub public_key : List PubKey
  pub c_encryption : List Enc
  pub s_encryption : List Enc
  pub c_mac : List Mac
  pub s_mac : List Mac
  pub c_compress : List Compress
  pub s_compress : List Compress

abbrev pub new : AlgList
new = record {
  key_exchange = [];
  public_key = [];
  c_encryption = [];
  s_encryption = [];
  c_mac = [];
  s_mac = [];
  c_compress = [];
  s_compress = [];
}

abbrev pub client_default : AlgList
client_default = record {
  key_exchange =
      curve25519_sha256 ∷ ecdh_sha2_nistrp256 ∷ diffie_hellman_group14_sha256
      ∷ diffie_hellman_group14_sha1 ∷ [];
  public_key = rsa_sha2_512 ∷ rsa_sha2_256 ∷ [];
  c_encryption = chacha20_poly1305_openssh ∷ aes128_ctr ∷ aes192_ctr ∷ aes256_ctr ∷ [];
  s_encryption = chacha20_poly1305_openssh ∷ aes128_ctr ∷ aes192_ctr ∷ aes256_ctr ∷ [];
  c_mac = hmac_sha2_256 ∷ hmac_sha2_512 ∷ hmac_sha1 ∷ [];
  s_mac = hmac_sha2_256 ∷ hmac_sha2_512 ∷ hmac_sha1 ∷ [];
  c_compress = Compress.none ∷ zlib_open_ssh ∷ [];
  s_compress = Compress.none ∷ zlib_open_ssh ∷ [];
}

unfoldable pub from : Bytes → SshResult AlgList
from d0 = do
  (code, d1) ← get_u8 d0
  d2 ← skip 16 d1
  (key_exchange, d3) ← try_convert d2
  (public_key, d4) ← try_convert d3
  (c_encryption, d5) ← try_convert d4
  (s_encryption, d6) ← try_convert d5
  (c_mac, d7) ← try_convert d6
  (s_mac, d8) ← try_convert d7
  (c_compress, d9) ← try_convert d8
  (s_compress, d10) ← try_convert d9
  ok (record {
    key_exchange = key_exchange;
    public_key = public_key;
    c_encryption = c_encryption;
    s_encryption = s_encryption;
    c_mac = c_mac;
    s_mac = s_mac;
    c_compress = c_compress;
    s_compress = s_compress;
  })

-- The fields are matched in this order, and the first that fails is the error.
unfoldable pub match_with : AlgList → AlgList → SshResult AlgList
match_with our their = do
  kex ← match_field (ascii "DH algorithm") our.key_exchange their.key_exchange
  pubkey ← match_field (ascii "signature algorithm") our.public_key their.public_key
  c_enc ← match_field (ascii "client encryption algorithm") our.c_encryption their.c_encryption
  s_enc ← match_field (ascii "server encryption algorithm") our.s_encryption their.s_encryption
  c_mac ← match_field (ascii "client mac algorithm") our.c_mac their.c_mac
  s_mac ← match_field (ascii "server mac algorithm") our.s_mac their.s_mac
  c_compress ← match_field (ascii "client compression algorithm") our.c_compress their.c_compress
  s_compress ← match_field (ascii "server compression algorithm") our.s_compress their.s_compress
  ok (record {
    key_exchange = kex ∷ [];
    public_key = pubkey ∷ [];
    c_encryption = c_enc ∷ [];
    s_encryption = s_enc ∷ [];
    c_mac = c_mac ∷ [];
    s_mac = s_mac ∷ [];
    c_compress = c_compress ∷ [];
    s_compress = s_compress ∷ [];
  })

unfoldable pub as_i : AlgList → Bytes
as_i a =
    let d1 = put_str [] (to_string a.key_exchange) in
    let d2 = put_str d1 (to_string a.public_key) in
    let d3 = put_str d2 (to_string a.c_encryption) in
    let d4 = put_str d3 (to_string a.s_encryption) in
    let d5 = put_str d4 (to_string a.c_mac) in
    let d6 = put_str d5 (to_string a.s_mac) in
    let d7 = put_str d6 (to_string a.c_compress) in put_str d7 (to_string a.s_compress)

-- The payload of our KEXINIT.
unfoldable pub pack : Bytes → AlgList → Bytes
pack cookie a =
    let d = put_u8 [] kexinit ++ cookie ++ as_i a in
    put_u32 (put_u8 (put_str (put_str d []) []) 0) 0

-- The assertion on the message code panics if it does not hold.
unfoldable pub unpack : Bytes → SshResult AlgList
unpack [] = panic
unpack (code ∷ d) = if code == kexinit then from (code ∷ d) else panic
