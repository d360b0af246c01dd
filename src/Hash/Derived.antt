-- ===== src/Hash/Derived.antt =====
-- The keys of a key exchange as RFC 4253, section 7.2, describes them, and that the code makes them.
use mathlib.Core.Path.{subst}
use ssh_rs.Base.{ℕ, zero, suc, ◌≤◌, ◌<◌, ◌≡◌, refl, ap, ◌∙◌, ◌∷◌, ◌++◌, length}
use ssh_rs.Error.{SshResult, ok}
use ssh_rs.Data.{Bytes}
use ssh_rs.Hash
use ssh_rs.Hash.{Ring, Hash, HashCtx, HashType, sha256, digest, extend, mix, mix_ek, as_bytes}
use ssh_rs.Hash.Keys.{HasOutput, KeysFor, key_parts, mix_ek-KeysFor}

module _ (ring : Ring) where
  -- HASH of the RFC, by the hash of the exchange.
  unfoldable pub hash_of : HashType → Bytes → Bytes
  hash_of sha256 m = ring.sha256_digest m
  hash_of _ m = ring.sha1_digest m

  -- H, the exchange hash of RFC 4253, section 8.
  unfoldable pub exchange_hash : HashType → HashCtx → Bytes
  exchange_hash t c =
      hash_of t (c.v_c ++ (c.v_s ++ (c.i_c ++ (c.i_s ++ (c.k_s ++ (c.e ++ (c.f ++ c.k)))))))

  -- K1 || .. || Kn with n parts after the first: K1 = HASH(K || H || letter || session_id), and each
  -- further part is HASH(K || H || K1 || .. ), over the parts before it.
  unfoldable pub rfc_key : HashType → HashCtx → Bytes → ℕ → ℕ → Bytes
  rfc_key t c session_id letter zero =
      hash_of t (c.k ++ (exchange_hash t c ++ (letter ∷ session_id)))
  rfc_key t c session_id letter (suc n) =
      let before = rfc_key t c session_id letter n in
      before ++ hash_of t (c.k ++ (exchange_hash t c ++ before))

  pub digest-hash_of : (t : HashType) (m : Bytes) → digest ring m t ≡ hash_of t m
  unfolding digest hash_of
  digest-hash_of Hash.none m = refl
  digest-hash_of Hash.sha1 m = refl
  digest-hash_of sha256 m = refl

  -- The parts may be added at either end.
  key_parts-last :
      (h : Hash) (n : ℕ) (key : Bytes)
      → key_parts ring h (suc n) key
        ≡ key_parts ring h n key ++ extend ring h (key_parts ring h n key)
  unfolding key_parts
  key_parts-last h zero key = refl
  key_parts-last h (suc n) key = key_parts-last h n (key ++ extend ring h key)

  module _ (c : HashCtx) (session_id : Bytes) (t : HashType) where
    abbrev made : Hash
    made = Hash.new ring c session_id t

    extend-eq : (key : Bytes) → extend ring made key ≡ hash_of t (c.k ++ (exchange_hash t c ++ key))
    unfolding extend Hash.new exchange_hash as_bytes
    extend-eq key = rw (digest-hash_of t (as_bytes c)) (digest-hash_of t _)

    mix-eq :
        (letter : ℕ)
        → mix ring c.k (digest ring (as_bytes c) t) letter session_id t
          ≡ rfc_key t c session_id letter 0
    unfolding mix rfc_key exchange_hash as_bytes
    mix-eq letter = rw (digest-hash_of t (as_bytes c)) (digest-hash_of t _)

    key_parts-eq :
        (letter n : ℕ) (key : Bytes)
        → key ≡ rfc_key t c session_id letter 0
        → key_parts ring made n key ≡ rfc_key t c session_id letter n
    unfolding key_parts rfc_key
    key_parts-eq letter zero key e = e
    key_parts-eq letter (suc n) key e =
        key_parts-last made n key
        ∙ rw (key_parts-eq letter n key e)
            (ap (λ x. rfc_key t c session_id letter n ++ x) (extend-eq _))

    -- The two encryption keys with this many parts after the first, as few as the cipher's key
    -- size asks for.
    abbrev pub Derived : ℕ → SshResult (Bytes × Bytes) → Type 0
    Derived key_size r =
        (n : ℕ) × (r ≡ ok (rfc_key t c session_id 67 n, rfc_key t c session_id 68 n))
        × (key_size ≤ length (rfc_key t c session_id 67 n))
        × ((m : ℕ) → m < n → length (rfc_key t c session_id 67 m) < key_size)

    -- If digests are not empty, then from the hash of an exchange the two encryption keys are those that RFC 4253, section 7.2,
    -- describes for the letters C and D: K1 || K2 || .., over K, H and the session id, of as few
    -- parts as make the first at least as long as the key size, which are always found.
    pub mix_ek-Derived :
        HasOutput ring → (key_size : ℕ) → Derived key_size (mix_ek ring made key_size)
    unfolding KeysFor Hash.new
    mix_ek-Derived out key_size =
        let (n, e, long, least) = mix_ek-KeysFor ring out made key_size in
        let first : (m : ℕ) → key_parts ring made m made.ek_c_s ≡ rfc_key t c session_id 67 m =
          λ m. key_parts-eq 67 m made.ek_c_s (mix-eq 67) in
        let second : key_parts ring made n made.ek_s_c ≡ rfc_key t c session_id 68 n =
          key_parts-eq 68 n made.ek_s_c (mix-eq 68) in
        (
          n,
          e ∙ rw (first n, second) refl,
          subst (λ k. key_size ≤ length k) (first n) long,
          λ m p. subst (λ k. length k < key_size) (first m) (least m p),
        )
