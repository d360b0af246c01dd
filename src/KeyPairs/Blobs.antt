-- ===== src/KeyPairs/Blobs.antt =====
-- The blobs of RSA keys, as the verification of signatures reads them.
use ssh_rs.Base.{
  ℕ, ◌+◌, ◌^◌, ◌<◌, ◌≤◌, ◌≡◌, refl, sym, ap, ◌∙◌, [], ◌∷◌, ◌++◌, Bool, length, append_assoc,
  append-nil, arith, ltb, if◌then◌else◌, IsByte, u32_be,
}
use ssh_rs.Error.{SshResult, ok, and_then}
use ssh_rs.Data.{Bytes, put_u8s, put_str, put_mpint, skip, drain}
use ssh_rs.Data.RoundTrip.{get_u8s-put_u8s, put_u8s-front, put_str-eq-put_u8s}
use ssh_rs.Data.Mpint.{value, payload_lem}
use ssh_rs.Algorithm.{
  PubKey, ssh_ed25519, ssh_rsa, rsa_sha2_256, rsa_sha2_512, ssh_dss, pub_key_name,
}
use ssh_rs.Auth.{unwrap}
use ssh_rs.HostKeys.{RsaHash, SignatureCrates, key_data, number, verify_rsa}
use ssh_rs.KeyPairs.{rsa_blob}

-- The payload of an mpint with a first byte.
abbrev signed : Bytes → Bytes
signed [] = []
signed (b ∷ v) = if ltb b 128 then b ∷ v else 0 ∷ b ∷ v

value-signed : (b : ℕ) (v : Bytes) → value (signed (b ∷ v)) ≡ value (b ∷ v)
value-signed b v = ground arith

length-signed : (b : ℕ) (v : Bytes) → length (signed (b ∷ v)) ≤ length v + 2
length-signed b v = ground arith

-- Three strings, one behind the other.
abbrev three : Bytes → Bytes → Bytes → Bytes
three name e n = put_u8s [] name ++ (put_u8s [] e ++ put_u8s [] n)

behind : (name e n : Bytes) → put_u8s (put_u8s (put_str [] name) e) n ≡ three name e n
behind name e n =
    put_u8s-front (put_u8s (put_str [] name) e) n
    ∙ ap (λ d. d ++ put_u8s [] n) (put_u8s-front (put_str [] name) e)
    ∙ append_assoc (put_str [] name) (put_u8s [] e) (put_u8s [] n)
    ∙ ap (λ d. d ++ (put_u8s [] e ++ put_u8s [] n)) (put_str-eq-put_u8s [] name)

rsa_blob-three :
    (alg : PubKey) (b c : ℕ) (v w : Bytes)
    → IsByte b
    → IsByte c
    → rsa_blob alg (b ∷ v, c ∷ w) ≡ ok (three (pub_key_name alg) (signed (b ∷ v)) (signed (c ∷ w)))
unfolding rsa_blob put_mpint
rsa_blob-three alg b c v w hb hc = rw (payload_lem b v hb) (
    rw (payload_lem c w hc)
      (ap (λ d. ok d) (behind (pub_key_name alg) (signed (b ∷ v)) (signed (c ∷ w)))))

skip-put_u8s : (v : Bytes) → skip 4 (put_u8s [] v) ≡ ok v
unfolding skip drain put_u8s u32_be
skip-put_u8s v = ground arith

name_short : (alg : PubKey) → length (pub_key_name alg) < 2 ^ 32
name_short ssh_ed25519 = omega arith
name_short ssh_rsa = omega arith
name_short rsa_sha2_256 = omega arith
name_short rsa_sha2_512 = omega arith
name_short ssh_dss = omega arith

module _ {R D V G : Type 0} (crates : SignatureCrates R D V G) where
  number-put_u8s :
      (v rest : Bytes)
      → length v < 2 ^ 32
      → number crates (put_u8s [] v ++ rest) ≡ ok (crates.from_bytes_be v, rest)
  unfolding number
  number-put_u8s v rest h = rw (get_u8s-put_u8s v rest h) refl

  key_data-three :
      (name e n : Bytes)
      → length name < 2 ^ 32
      → key_data (put_u8s [] (three name e n)) ≡ ok (put_u8s [] e ++ put_u8s [] n)
  unfolding key_data
  key_data-three name e n h =
      rw (skip-put_u8s (three name e n), get_u8s-put_u8s name (put_u8s [] e ++ put_u8s [] n) h) refl

  -- What the verification comes to with the numbers of the key.
  abbrev pub verdict_with : RsaHash → ℕ → ℕ → Bytes → Bytes → SshResult Bool
  verdict_with hash e n message sig =
      and_then (unwrap (crates.rsa_public_key n e))
        λ key. ok (crates.rsa_verify hash key (crates.digest hash message) sig)

  verify_rsa-three :
      (hash : RsaHash) (name e n message sig : Bytes)
      → length name < 2 ^ 32
      → length e < 2 ^ 32
      → length n < 2 ^ 32
      → verify_rsa crates hash (put_u8s [] (three name e n)) message sig
        ≡ verdict_with hash (crates.from_bytes_be e) (crates.from_bytes_be n) message sig
  unfolding verify_rsa
  verify_rsa-three hash name e n message sig hm he hn =
      rw (key_data-three name e n hm)
        (rw (number-put_u8s e (put_u8s [] n) he) (rw (number-of_last n hn) refl))
    where
      number-of_last :
          (n : Bytes)
          → length n < 2 ^ 32
          → number crates (put_u8s [] n) ≡ ok (crates.from_bytes_be n, [])
      number-of_last n h =
          ap (λ d. number crates d) (sym (append-nil (put_u8s [] n))) ∙ number-put_u8s n [] h

  -- The blob of an RSA key, for any algorithm name, is verified with the numbers of that key: the
  -- exponent `b ∷ v` and the modulus `c ∷ w`, bytes with the highest first, if reading bytes as a
  -- number does so and the bytes are short enough for a length of 32 bits.
  pub verify_rsa-rsa_blob :
      ((v : Bytes) → crates.from_bytes_be v ≡ value v)
      → (alg : PubKey) (b c : ℕ) (v w : Bytes) → IsByte b
      → IsByte c
      → length v + 2 < 2 ^ 32
      → length w + 2 < 2 ^ 32
      → (blob : Bytes) × (rsa_blob alg (b ∷ v, c ∷ w) ≡ ok blob)
        × ((hash : RsaHash) (message sig : Bytes)
            → verify_rsa crates hash (put_u8s [] blob) message sig
              ≡ verdict_with hash (value (b ∷ v)) (value (c ∷ w)) message sig)
  verify_rsa-rsa_blob reads alg b c v w hb hc hv hw = (
    three (pub_key_name alg) (signed (b ∷ v)) (signed (c ∷ w)),
    rsa_blob-three alg b c v w hb hc,
    (λ hash message sig.
        verify_rsa-three hash (pub_key_name alg) (signed (b ∷ v)) (signed (c ∷ w)) message sig
          (name_short alg) (short b v hv) (short c w hw)
        ∙ rw (reads (signed (b ∷ v)), reads (signed (c ∷ w)), value-signed b v, value-signed c w)
            refl),
  )
    where
      short : (b : ℕ) (v : Bytes) → length v + 2 < 2 ^ 32 → length (signed (b ∷ v)) < 2 ^ 32
      short b v h = omega (arith, length-signed b v)
