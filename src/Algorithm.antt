-- ===== src/Algorithm.antt =====
-- algorithm/mod.rs: the algorithms and their names, with every optional feature of the crate on.
-- `as_ref` and `from_str` are those that strum derives.
pub mod Names
use ssh_rs.Base.{Bool, List, [], ◌∷◌, Option, bytes_eq, if◌then◌else◌}
use ssh_rs.Constant.{ascii}
use ssh_rs.Data.{Bytes}

pub data Enc : Type 0 where
  chacha20_poly1305_openssh aes128_ctr aes192_ctr aes256_ctr : Enc
  aes128_cbc aes192_cbc aes256_cbc triple_des_cbc : Enc

pub data Kex : Type 0 where
  curve25519_sha256 ecdh_sha2_nistrp256 : Kex
  diffie_hellman_group1_sha1 diffie_hellman_group14_sha1 diffie_hellman_group14_sha256 : Kex

pub data PubKey : Type 0 where
  ssh_ed25519 ssh_rsa rsa_sha2_256 rsa_sha2_512 ssh_dss : PubKey

pub data Mac : Type 0 where
  hmac_sha1 hmac_sha2_256 hmac_sha2_512 : Mac

pub data Compress : Type 0 where
  none zlib zlib_open_ssh : Compress

abbrev pub enc_name : Enc → Bytes
enc_name chacha20_poly1305_openssh = ascii "chacha20-poly1305@openssh.com"
enc_name aes128_ctr = ascii "aes128-ctr"
enc_name aes192_ctr = ascii "aes192-ctr"
enc_name aes256_ctr = ascii "aes256-ctr"
enc_name aes128_cbc = ascii "aes128-cbc"
enc_name aes192_cbc = ascii "aes192-cbc"
enc_name aes256_cbc = ascii "aes256-cbc"
enc_name triple_des_cbc = ascii "3des-cbc"

abbrev pub kex_name : Kex → Bytes
kex_name curve25519_sha256 = ascii "curve25519-sha256"
kex_name ecdh_sha2_nistrp256 = ascii "ecdh-sha2-nistp256"
kex_name diffie_hellman_group1_sha1 = ascii "diffie-hellman-group1-sha1"
kex_name diffie_hellman_group14_sha1 = ascii "diffie-hellman-group14-sha1"
kex_name diffie_hellman_group14_sha256 = ascii "diffie-hellman-group14-sha256"

abbrev pub pub_key_name : PubKey → Bytes
pub_key_name ssh_ed25519 = ascii "ssh-ed25519"
pub_key_name ssh_rsa = ascii "ssh-rsa"
pub_key_name rsa_sha2_256 = ascii "rsa-sha2-256"
pub_key_name rsa_sha2_512 = ascii "rsa-sha2-512"
pub_key_name ssh_dss = ascii "ssh-dss"

abbrev pub mac_name : Mac → Bytes
mac_name hmac_sha1 = ascii "hmac-sha1"
mac_name hmac_sha2_256 = ascii "hmac-sha2-256"
mac_name hmac_sha2_512 = ascii "hmac-sha2-512"

abbrev pub compress_name : Compress → Bytes
compress_name none = ascii "none"
compress_name zlib = ascii "zlib"
compress_name zlib_open_ssh = ascii "zlib@openssh.com"

abbrev pub encs : List Enc
encs =
    chacha20_poly1305_openssh ∷ aes128_ctr ∷ aes192_ctr ∷ aes256_ctr ∷ aes128_cbc ∷ aes192_cbc
    ∷ aes256_cbc ∷ triple_des_cbc ∷ []

abbrev pub kexs : List Kex
kexs =
    curve25519_sha256 ∷ ecdh_sha2_nistrp256 ∷ diffie_hellman_group1_sha1
    ∷ diffie_hellman_group14_sha1 ∷ diffie_hellman_group14_sha256 ∷ []

abbrev pub pub_keys : List PubKey
pub_keys = ssh_ed25519 ∷ ssh_rsa ∷ rsa_sha2_256 ∷ rsa_sha2_512 ∷ ssh_dss ∷ []

abbrev pub macs : List Mac
macs = hmac_sha1 ∷ hmac_sha2_256 ∷ hmac_sha2_512 ∷ []

abbrev pub compresses : List Compress
compresses = none ∷ zlib ∷ zlib_open_ssh ∷ []

-- `from_str` compares the text with the name of each variant.
unfoldable pub find_name : {A : Type 0} → (A → Bytes) → List A → Bytes → Option A
find_name name [] s = Option.none
find_name name (a ∷ as') s =
    let rest = find_name name as' s in if bytes_eq (name a) s then Option.some a else rest
