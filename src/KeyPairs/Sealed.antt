-- ===== src/KeyPairs/Sealed.antt =====
-- Private keys that are encrypted with a passphrase.
use mathlib.Core.Path.{subst}
use ssh_rs.Base.{◌≡◌, ◌≢◌, refl, ap, ◌∙◌, sym, Bool, true, none, bytes_eq, length, take, if-cases}
use ssh_rs.Error.{ok, panic, >>=-eq-ok}
use ssh_rs.Data.{Bytes}
use ssh_rs.Text.{trim}
use ssh_rs.Algorithm.{PubKey, ssh_ed25519, ssh_rsa, rsa_sha2_256, rsa_sha2_512, ssh_dss}
use ssh_rs.Config.{KeyPair, KeyType, pem_rsa}
use ssh_rs.Config
use ssh_rs.Auth.{unwrap}
use ssh_rs.KeyPairs.{
  KeyCrates, OpensshAlgorithm, openssh_rsa, openssh_ed25519, openssh_other, parsed, unwrap_parsed,
  key_type_of, rsa_scheme, openssh_type, key_type, key_file_magic_start, from_str, blob_by,
  get_blob, sign_with, openssh_key, sign_by, sign,
}

-- What is documented of the crate ssh_key: which keys are encrypted, and that such a key has the data
-- of no kind of key and does not sign.
pub record SealedLaws {R O : Type 0} (crates : KeyCrates R O) : Type 0 where
  pub is_encrypted : O → Bool
  pub no_rsa : (o : O) → is_encrypted o ≡ true → crates.openssh_rsa_public o ≡ none
  pub no_ed25519 : (o : O) → is_encrypted o ≡ true → crates.openssh_ed25519_public o ≡ none
  pub no_signature : (o : O) (d : Bytes) → is_encrypted o ≡ true → crates.try_sign o d ≡ none

module _ {R O : Type 0} (crates : KeyCrates R O) (laws : SealedLaws crates) where
  -- The type of a key in an OpenSSH file is never that of a PEM file.
  key_type_of-ne-pem :
      (a : OpensshAlgorithm) (type : KeyType) → key_type_of a ≡ ok type → type ≢ pem_rsa
  unfolding key_type_of
  key_type_of-ne-pem openssh_rsa type h p = cc
  key_type_of-ne-pem openssh_ed25519 type h p = cc
  key_type_of-ne-pem (openssh_other x) type h p = cc

  key_type-ne-pem :
      (key : Bytes) (o : O) (type : KeyType)
      → crates.from_openssh key ≡ parsed o
      → key_type crates none key ≡ ok type
      → type ≢ pem_rsa
  unfolding key_type openssh_type
  key_type-ne-pem key o type e h =
      if-cases (λ r. r ≡ ok type → type ≢ pem_rsa)
        (bytes_eq (take (length key_file_magic_start) key) key_file_magic_start) _ _
        (λ m k. key_type_of-ne-pem (crates.algorithm o) type (ap (openssh_type crates) (sym e) ∙ k))
        (λ m k. cc) h

  -- Without a key to sign with there is a panic, for each algorithm.
  sign_with-panic : (sd : Bytes) (alg : PubKey) → sign_with crates panic sd alg ≡ panic
  unfolding sign_with rsa_scheme
  sign_with-panic sd ssh_ed25519 = refl
  sign_with-panic sd ssh_rsa = refl
  sign_with-panic sd rsa_sha2_256 = refl
  sign_with-panic sd rsa_sha2_512 = refl
  sign_with-panic sd ssh_dss = refl

  -- Each use of the key panics.
  abbrev Panics : KeyType → Bytes → Bytes → PubKey → Type 0
  Panics type key sd alg =
      (blob_by crates type key alg ≡ panic) × (sign_by crates type key sd alg ≡ panic)

  openssh_key-panic :
      (key : Bytes) (o : O)
      → crates.from_openssh key ≡ parsed o
      → laws.is_encrypted o ≡ true
      → openssh_key crates key ≡ panic
  unfolding openssh_key unwrap_parsed unwrap
  openssh_key-panic key o e sealed = rw e (rw (laws.no_rsa o sealed) refl)

  sealed-Panics :
      (type : KeyType) (key sd : Bytes) (alg : PubKey) (o : O)
      → type ≢ pem_rsa
      → crates.from_openssh key ≡ parsed o
      → laws.is_encrypted o ≡ true
      → Panics type key sd alg
  unfolding blob_by sign_by unwrap_parsed unwrap
  sealed-Panics pem_rsa key sd alg o not_pem e sealed = absurd (not_pem refl)
  sealed-Panics Config.ssh_rsa key sd alg o not_pem e sealed = (
    rw e (rw (laws.no_rsa o sealed) refl),
    ap (λ r. sign_with crates r sd alg) (openssh_key-panic key o e sealed) ∙ sign_with-panic sd alg,
  )
  sealed-Panics Config.ssh_ed25519 key sd alg o not_pem e sealed =
      (rw e (rw (laws.no_ed25519 o sealed) refl), rw e (rw (laws.no_signature o sd sealed) refl))

  -- Given what is documented of ssh_key: if a private key was read without an error, and it is a key in the OpenSSH format that is
  -- encrypted with a passphrase, then both making its blob and signing with it panic, of whatever kind
  -- it is, for each algorithm and all data.
  pub from_str-Panics :
      (s sd : Bytes) (alg : PubKey) (pair : KeyPair) (o : O)
      → from_str crates s ≡ ok pair
      → crates.from_pkcs1_pem (trim s) ≡ none
      → crates.from_openssh (trim s) ≡ parsed o
      → laws.is_encrypted o ≡ true
      → (get_blob crates pair alg ≡ panic) × (sign crates pair sd alg ≡ panic)
  unfolding from_str get_blob sign
  from_str-Panics s sd alg pair o h no_pem e sealed =
      let (type, t, k) =
        >>=-eq-ok (key_type crates (crates.from_pkcs1_pem (trim s)) (trim s)) _ h in
      let made : KeyPair = record { private_key = trim s; key_type = type } in
      let same : made ≡ pair = cc in
      let not_pem : type ≢ pem_rsa =
        key_type-ne-pem (trim s) o type e (ap (λ p. key_type crates p (trim s)) (sym no_pem) ∙ t) in
      subst (λ p. (get_blob crates p alg ≡ panic) × (sign crates p sd alg ≡ panic)) same
        (sealed-Panics type (trim s) sd alg o not_pem e sealed)
