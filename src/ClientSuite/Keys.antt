-- ===== src/ClientSuite/Keys.antt =====
-- The uses of a private key end.
use ssh_rs.Error.{IsFed, SshResult, >>=-IsFed}
use ssh_rs.Data.{Bytes}
use ssh_rs.Data.Fed.{put_mpint-IsFed}
use ssh_rs.Algorithm.{PubKey, ssh_ed25519, ssh_rsa, rsa_sha2_256, rsa_sha2_512, ssh_dss}
use ssh_rs.Config.{KeyPair, KeyType, pem_rsa}
use ssh_rs.Config
use ssh_rs.Auth.Fed.{KeysFed, unwrap-IsFed}
use ssh_rs.KeyPairs.{
  KeyCrates, Parsed, parsed, not_parsed, unwrap_parsed, rsa_scheme, rsa_blob, blob_by, get_blob,
  sign_with, openssh_key, sign_by, sign, key_ops,
}

unwrap_parsed-IsFed : {O : Type 0} (p : Parsed O) → IsFed (unwrap_parsed p)
unfolding unwrap_parsed
unwrap_parsed-IsFed (parsed o) = tt
unwrap_parsed-IsFed (not_parsed why) = tt

rsa_scheme-IsFed : (alg : PubKey) → IsFed (rsa_scheme alg)
unfolding rsa_scheme
rsa_scheme-IsFed ssh_ed25519 = tt
rsa_scheme-IsFed ssh_rsa = tt
rsa_scheme-IsFed rsa_sha2_256 = tt
rsa_scheme-IsFed rsa_sha2_512 = tt
rsa_scheme-IsFed ssh_dss = tt

rsa_blob-IsFed : (alg : PubKey) (public : Bytes × Bytes) → IsFed (rsa_blob alg public)
unfolding rsa_blob
rsa_blob-IsFed alg public =
    >>=-IsFed _ _ (put_mpint-IsFed _ public.0) λ d. put_mpint-IsFed d public.1

module _ {R O : Type 0} (crates : KeyCrates R O) where
  blob_by-IsFed :
      (type : KeyType) (key : Bytes) (alg : PubKey) → IsFed (blob_by crates type key alg)
  unfolding blob_by
  blob_by-IsFed pem_rsa key alg = >>=-IsFed _ _ (unwrap-IsFed _) λ r. rsa_blob-IsFed alg _
  blob_by-IsFed Config.ssh_rsa key alg =
      >>=-IsFed _ _ (unwrap_parsed-IsFed _)
        λ o. >>=-IsFed _ _ (unwrap-IsFed _) λ public. rsa_blob-IsFed alg public
  blob_by-IsFed Config.ssh_ed25519 key alg =
      >>=-IsFed _ _ (unwrap_parsed-IsFed _) λ o. >>=-IsFed _ _ (unwrap-IsFed _) λ public. tt

  sign_with-IsFed :
      (r : SshResult R) (sd : Bytes) (alg : PubKey) → IsFed r → IsFed (sign_with crates r sd alg)
  unfolding sign_with
  sign_with-IsFed r sd alg fed =
      >>=-IsFed _ _ (rsa_scheme-IsFed alg) λ hash. >>=-IsFed r _ fed λ key. unwrap-IsFed _

  openssh_key-IsFed : (key : Bytes) → IsFed (openssh_key crates key)
  unfolding openssh_key
  openssh_key-IsFed key =
      >>=-IsFed _ _ (unwrap_parsed-IsFed _)
        λ o. >>=-IsFed _ _ (unwrap-IsFed _) λ public. unwrap-IsFed _

  sign_by-IsFed :
      (type : KeyType) (key sd : Bytes) (alg : PubKey) → IsFed (sign_by crates type key sd alg)
  unfolding sign_by
  sign_by-IsFed pem_rsa key sd alg = sign_with-IsFed _ sd alg (unwrap-IsFed _)
  sign_by-IsFed Config.ssh_rsa key sd alg = sign_with-IsFed _ sd alg (openssh_key-IsFed key)
  sign_by-IsFed Config.ssh_ed25519 key sd alg =
      >>=-IsFed _ _ (unwrap_parsed-IsFed _) λ o. unwrap-IsFed _

  pub key_ops-KeysFed : KeysFed (key_ops crates)
  unfolding get_blob sign
  key_ops-KeysFed = record {
    blob_fed = λ pair alg. blob_by-IsFed pair.key_type pair.private_key alg;
    sign_fed = λ pair sd alg. sign_by-IsFed pair.key_type pair.private_key sd alg;
  }
