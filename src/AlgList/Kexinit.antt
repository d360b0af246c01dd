-- ===== src/AlgList/Kexinit.antt =====
-- The KEXINIT message that we send reads back as the lists it was made from.
use ssh_rs.Base.{
  ◌^◌, ◌<◌, ◌≡◌, refl, List, [], ◌∷◌, ◌++◌, map, true, arith, length, u32_be, append_assoc, All,
  All-weaken,
}
use ssh_rs.Error.{ok}
use ssh_rs.Data.{Bytes, put_u8, put_u8s, put_str, put_u32, skip, get_u8}
use ssh_rs.Data.RoundTrip.{get_u8s-put_u8s, drain-append}
use ssh_rs.Text.{is_utf8, split, join}
use ssh_rs.Text.Split.{IsFree, split-join, is_utf8-ascii, All-join}
use ssh_rs.Constant.{kexinit}
use ssh_rs.Algorithm.Names.{
  Named, IsNameByte, enc_named, kex_named, pub_key_named, mac_named, compress_named,
}
use ssh_rs.AlgList.{
  AlgList, to_string, try_from, try_convert, vec_u8_to_string, from, as_i, pack, unpack,
}

module _ {A : Type 0} ⦃n : Named A⦄ where
  try_from-names : (as' : List A) → try_from (map n.as_ref as') ≡ as'
  unfolding try_from
  try_from-names [] = refl
  try_from-names (a ∷ as') = rw (n.from_str-as_ref a, try_from-names as')

  names_bytes : (as' : List A) → All (All IsNameByte) (map n.as_ref as')
  names_bytes [] = tt
  names_bytes (a ∷ as') = (n.name_bytes a, names_bytes as')

  names-IsFree : (as' : List A) → All (All (IsFree b',')) (map n.as_ref as')
  names-IsFree as' =
      All-weaken (All IsNameByte) (All (IsFree b','))
        (All-weaken IsNameByte (IsFree b',') (λ b h. h.1)) _ (names_bytes as')

  split-to_string : (as' : List A) → try_from (split b',' (to_string as')) ≡ as'
  unfolding to_string
  split-to_string [] = unfold split join try_from in rw n.from_str-nil
  split-to_string (a ∷ as') =
      rw (split-join b',' (n.as_ref a) (map n.as_ref as') (names-IsFree (a ∷ as')))
        (try_from-names (a ∷ as'))

  is_utf8-to_string : (as' : List A) → is_utf8 (to_string as') ≡ true
  unfolding to_string
  is_utf8-to_string as' = is_utf8-ascii _ (
      All-join (λ b. b < 128) b',' _ (omega arith)
        (All-weaken (All IsNameByte) (All (λ b. b < 128))
          (All-weaken IsNameByte (λ b. b < 128) (λ b h. h.0)) _ (names_bytes as')))

  try_convert-to_string :
      (as' : List A) (rest : Bytes)
      → length (to_string as') < 2 ^ 32
      → try_convert (put_u8s [] (to_string as') ++ rest) ≡ ok (as', rest)
  unfolding try_convert vec_u8_to_string
  try_convert-to_string as' rest h =
      rw (get_u8s-put_u8s (to_string as') rest h, is_utf8-to_string as', split-to_string as')

-- Each name-list of the message has a length that fits 32 bits.
pub record IsShort (a : AlgList) : Type 0 where
  pub kex : length (to_string a.key_exchange) < 2 ^ 32
  pub pubkey : length (to_string a.public_key) < 2 ^ 32
  pub c_enc : length (to_string a.c_encryption) < 2 ^ 32
  pub s_enc : length (to_string a.s_encryption) < 2 ^ 32
  pub c_mac : length (to_string a.c_mac) < 2 ^ 32
  pub s_mac : length (to_string a.s_mac) < 2 ^ 32
  pub c_compress : length (to_string a.c_compress) < 2 ^ 32
  pub s_compress : length (to_string a.s_compress) < 2 ^ 32

-- What `pack` writes, in the order in which it is read.
pack-parts :
    (cookie : Bytes) (a : AlgList)
    → (rest : Bytes) × (pack cookie a
        ≡ kexinit
          ∷ (cookie
              ++ (put_u8s [] (to_string a.key_exchange)
                  ++ (put_u8s [] (to_string a.public_key)
                      ++ (put_u8s [] (to_string a.c_encryption)
                          ++ (put_u8s [] (to_string a.s_encryption)
                              ++ (put_u8s [] (to_string a.c_mac)
                                  ++ (put_u8s [] (to_string a.s_mac)
                                      ++ (put_u8s [] (to_string a.c_compress)
                                          ++ (put_u8s [] (to_string a.s_compress) ++ rest))))))))))
unfolding pack as_i put_str put_u8s put_u32 put_u8
pack-parts cookie a = (u32_be 0 ++ (u32_be 0 ++ (0 ∷ u32_be 0)), simp append_assoc)

-- The KEXINIT that is packed from any algorithm lists and a cookie of 16 bytes unpacks to the same
-- lists, if each name-list has a length that fits 32 bits.
pub unpack-pack :
    (cookie : Bytes) (a : AlgList) → length cookie ≡ 16 → IsShort a → unpack (pack cookie a) ≡ ok a
unfolding unpack from get_u8 skip
unpack-pack cookie a h s =
    let (rest, e) = pack-parts cookie a in
    rw e (
      rw (
        drain-append cookie _ 16 (omega arith),
        try_convert-to_string a.key_exchange _ s.kex,
        try_convert-to_string a.public_key _ s.pubkey,
        try_convert-to_string a.c_encryption _ s.c_enc,
        try_convert-to_string a.s_encryption _ s.s_enc,
        try_convert-to_string a.c_mac _ s.c_mac,
        try_convert-to_string a.s_mac _ s.s_mac,
        try_convert-to_string a.c_compress _ s.c_compress,
        try_convert-to_string a.s_compress _ s.s_compress,
      ))
