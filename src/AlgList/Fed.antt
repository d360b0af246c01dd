-- ===== src/AlgList/Fed.antt =====
-- The negotiation and the reading of KEXINIT end.
use ssh_rs.Base.{ℕ, List, [], ◌∷◌, if-cases, ◌==◌, Option, none, some}
use ssh_rs.Error.{SshError, SshResult, ok, err, IsFed, >>=-IsFed}
use ssh_rs.Constant.{kexinit}
use ssh_rs.Data.{Bytes, get_u8, get_u8s, skip}
use ssh_rs.Data.Fed.{get_u8-IsFed, get_u8s-IsFed, skip-IsFed}
use ssh_rs.Text.{is_utf8}
use ssh_rs.Algorithm.{Enc, Kex, PubKey, Mac, Compress}
use ssh_rs.Algorithm.Names.{Named, enc_named, kex_named, pub_key_named, mac_named, compress_named}
use ssh_rs.AlgList.{
  AlgList, vec_u8_to_string, try_convert, match_field, match_with, find_common, from, unpack,
}

vec_u8_to_string-IsFed : (v : Bytes) (pat : ℕ) → IsFed (vec_u8_to_string v pat)
unfolding vec_u8_to_string
vec_u8_to_string-IsFed v pat = if-cases IsFed (is_utf8 v) _ _ (λ e. tt) (λ e. tt)

try_convert-IsFed : (A : Type 0) ⦃n : Named A⦄ (d : Bytes) → IsFed (try_convert {A = A} d)
unfolding try_convert
try_convert-IsFed A d =
    >>=-IsFed (get_u8s d) _ (get_u8s-IsFed d)
      (λ p. >>=-IsFed (vec_u8_to_string p.0 b',') _ (vec_u8_to_string-IsFed p.0 b',') (λ names. tt))

chosen-IsFed :
    {A : Type 0} (o : Option A) (e : SshError)
    → IsFed (elim o as (λ x. SshResult A) [ none ↦ err e | some a ↦ ok a ])
chosen-IsFed none e = tt
chosen-IsFed (some a) e = tt

match_field-IsFed :
    {A : Type 0} ⦃n : Named A⦄ (hint : Bytes) (ours theirs : List A)
    → IsFed (match_field hint ours theirs)
unfolding match_field
match_field-IsFed hint ours theirs = chosen-IsFed (find_common ours theirs) _

from-IsFed : (d : Bytes) → IsFed (from d)
unfolding from
from-IsFed d = >>=-IsFed (get_u8 d) _ (get_u8-IsFed d) λ p1.
    >>=-IsFed (skip 16 p1.1) _ (skip-IsFed 16 p1.1) λ d2.
      >>=-IsFed (try_convert d2) _ (try_convert-IsFed Kex d2) λ p3.
        >>=-IsFed (try_convert p3.1) _ (try_convert-IsFed PubKey p3.1) λ p4.
          >>=-IsFed (try_convert p4.1) _ (try_convert-IsFed Enc p4.1) λ p5.
            >>=-IsFed (try_convert p5.1) _ (try_convert-IsFed Enc p5.1) λ p6.
              >>=-IsFed (try_convert p6.1) _ (try_convert-IsFed Mac p6.1) λ p7.
                >>=-IsFed (try_convert p7.1) _ (try_convert-IsFed Mac p7.1) λ p8.
                  >>=-IsFed (try_convert p8.1) _ (try_convert-IsFed Compress p8.1)
                    λ p9. >>=-IsFed (try_convert p9.1) _ (try_convert-IsFed Compress p9.1) λ p10. tt

pub unpack-IsFed : (d : Bytes) → IsFed (unpack d)
unfolding unpack
unpack-IsFed [] = tt
unpack-IsFed (code ∷ d) =
    if-cases IsFed (code == kexinit) _ _ (λ e. from-IsFed (code ∷ d)) (λ e. tt)

pub match_with-IsFed : (our their : AlgList) → IsFed (match_with our their)
unfolding match_with
match_with-IsFed our their =
    >>=-IsFed _ _ (match_field-IsFed _ our.key_exchange their.key_exchange) λ a1.
      >>=-IsFed _ _ (match_field-IsFed _ our.public_key their.public_key) λ a2.
        >>=-IsFed _ _ (match_field-IsFed _ our.c_encryption their.c_encryption) λ a3.
          >>=-IsFed _ _ (match_field-IsFed _ our.s_encryption their.s_encryption) λ a4.
            >>=-IsFed _ _ (match_field-IsFed _ our.c_mac their.c_mac) λ a5.
              >>=-IsFed _ _ (match_field-IsFed _ our.s_mac their.s_mac) λ a6.
                >>=-IsFed _ _ (match_field-IsFed _ our.c_compress their.c_compress)
                  λ a7. >>=-IsFed _ _ (match_field-IsFed _ our.s_compress their.s_compress) λ a8. tt
