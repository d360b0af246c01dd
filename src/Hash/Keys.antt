-- ===== src/Hash/Keys.antt =====
-- The keys of RFC 4253, section 7.2, as `mix_ek` and `mix_ik` make them.
use ssh_rs.Base.{
  ℕ, zero, suc, ◌+◌, ◌≤◌, ◌<◌, ◌≡◌, ◌∙◌, ◌⊎◌, ◌++◌, arith, length, length-append, ltb, Bool-cases,
  inl, inr,
}
use ssh_rs.Error.{SshResult, ok}
use ssh_rs.Data.{Bytes}
use ssh_rs.Hash.{Ring, Hash, HashType, none, sha1, sha256, digest, extend, mix_loop, mix_ek, mix_ik}

-- The digests are not empty.
pub record HasOutput (ring : Ring) : Type 0 where
  pub sha1_long : (b : Bytes) → 0 < length (ring.sha1_digest b)
  pub sha256_long : (b : Bytes) → 0 < length (ring.sha256_digest b)

module _ (ring : Ring) where
  -- K1 || K2 || K3 .., where K1 is the given key and each further part is the digest of K, H and all
  -- the parts before it: this many parts more.
  unfoldable pub key_parts : Hash → ℕ → Bytes → Bytes
  key_parts hash zero key = key
  key_parts hash (suc n) key = key_parts hash n (key ++ extend ring hash key)

  -- The pair of keys, from the first parts: as few as make the first key long enough.
  unfoldable pub KeysFor : Hash → ℕ → Bytes → Bytes → SshResult (Bytes × Bytes) → Type 0
  KeysFor hash key_size ck sk r =
      (n : ℕ) × (r ≡ ok (key_parts hash n ck, key_parts hash n sk))
      × (key_size ≤ length (key_parts hash n ck))
      × ((m : ℕ) → m < n → length (key_parts hash m ck) < key_size)

  digest_long : HasOutput ring → (bytes : Bytes) (t : HashType) → 0 < length (digest ring bytes t)
  unfolding digest
  digest_long out bytes none = out.sha1_long bytes
  digest_long out bytes sha1 = out.sha1_long bytes
  digest_long out bytes sha256 = out.sha256_long bytes

  extend_long : HasOutput ring → (hash : Hash) (key : Bytes) → 0 < length (extend ring hash key)
  unfolding extend
  extend_long out hash key = digest_long out _ hash.hash_type

  pub mix_loop-stop :
      (fuel : ℕ) (hash : Hash) (key_size : ℕ) (ck sk : Bytes)
      → key_size ≤ length ck
      → mix_loop ring (suc fuel) hash key_size ck sk ≡ ok (ck, sk)
  unfolding mix_loop
  mix_loop-stop fuel hash key_size ck sk h = ground arith

  pub mix_loop-extend :
      (fuel : ℕ) (hash : Hash) (key_size : ℕ) (ck sk : Bytes)
      → length ck < key_size
      → mix_loop ring (suc fuel) hash key_size ck sk
        ≡ mix_loop ring fuel hash key_size (ck ++ extend ring hash ck) (sk ++ extend ring hash sk)
  unfolding mix_loop
  mix_loop-extend fuel hash key_size ck sk h = ground arith

  one_more :
      (fuel : ℕ) (hash : Hash) (key_size : ℕ) (ck sk : Bytes)
      → length ck < key_size
      → KeysFor hash key_size
          (ck ++ extend ring hash ck)
          (sk ++ extend ring hash sk)
          (mix_loop ring fuel hash key_size (ck ++ extend ring hash ck) (sk ++ extend ring hash sk))
      → KeysFor hash key_size ck sk (mix_loop ring (suc fuel) hash key_size ck sk)
  unfolding KeysFor key_parts
  one_more fuel hash key_size ck sk h (n, e, long, least) =
      (suc n, mix_loop-extend fuel hash key_size ck sk h ∙ e, long, fewer)
    where
      fewer : (m : ℕ) → m < suc n → length (key_parts hash m ck) < key_size
      fewer zero p = h
      fewer (suc m) p = least m (omega arith)

  at_once :
      (fuel : ℕ) (hash : Hash) (key_size : ℕ) (ck sk : Bytes)
      → key_size ≤ length ck
      → KeysFor hash key_size ck sk (mix_loop ring (suc fuel) hash key_size ck sk)
  unfolding KeysFor key_parts
  at_once fuel hash key_size ck sk h =
      (0, mix_loop-stop fuel hash key_size ck sk h, h, λ m p. absurd (omega arith))

  mix_loop-KeysFor :
      HasOutput ring
      → (fuel : ℕ) (hash : Hash) (key_size : ℕ) (ck sk : Bytes) → key_size ≤ length ck + fuel
      → KeysFor hash key_size ck sk (mix_loop ring (suc fuel) hash key_size ck sk)
  mix_loop-KeysFor out zero hash key_size ck sk h = at_once 0 hash key_size ck sk (omega arith)
  mix_loop-KeysFor out (suc fuel) hash key_size ck sk h = elim (leb-cases key_size (length ck)) [
    | inl short ↦ at_once (suc fuel) hash key_size ck sk short
    | inr long ↦ one_more (suc fuel) hash key_size ck sk long (
        mix_loop-KeysFor out fuel hash key_size _ _
          (longer (length-append ck (extend ring hash ck)) (extend_long out hash ck)))
  ]
    where
      leb-cases : (a b : ℕ) → (a ≤ b) ⊎ (b < a)
      leb-cases a b = elim (Bool-cases (ltb b a)) [
        | inl e ↦ inr (ground arith)
        | inr e ↦ inl (ground arith)
      ]

      longer : {l k : ℕ} → l ≡ length ck + k → 0 < k → key_size ≤ l + fuel
      longer e p = omega arith

  -- The encryption keys are made from their first parts.
  pub mix_ek-KeysFor :
      HasOutput ring
      → (hash : Hash) (key_size : ℕ)
      → KeysFor hash key_size hash.ek_c_s hash.ek_s_c (mix_ek ring hash key_size)
  unfolding mix_ek
  mix_ek-KeysFor out hash key_size =
      mix_loop-KeysFor out key_size hash key_size hash.ek_c_s hash.ek_s_c (omega arith)

  -- The integrity keys are made in the same way from their own two first parts.
  pub mix_ik-KeysFor :
      HasOutput ring
      → (hash : Hash) (key_size : ℕ)
      → KeysFor hash key_size hash.ik_c_s hash.ik_s_c (mix_ik ring hash key_size)
  unfolding mix_ik
  mix_ik-KeysFor out hash key_size =
      mix_loop-KeysFor out key_size hash key_size hash.ik_c_s hash.ik_s_c (omega arith)
