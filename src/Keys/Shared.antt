-- ===== src/Keys/Shared.antt =====
-- The two ends of a connection take the same keys from the hash, each with its own for the client
-- and the server exchanged.
use ssh_rs.Base.{
  ℕ, zero, suc, ◌≤◌, ◌≡◌, refl, ◌∙◌, sym, ap, ◌++◌, ltb, length, length-append, take, Bool-cases,
  inl, inr, arith,
}
use ssh_rs.Error.{SshResult, ok, map_ok}
use ssh_rs.Data.{Bytes}
use ssh_rs.Hash
use ssh_rs.Hash.{
  Ring, Hash, HashCtx, HashType, none, sha1, sha256, digest, extend, mix_loop, mix_ek, mix_ik, mix,
}
use ssh_rs.Hash.Keys.{HasOutput, key_parts, mix_ek-KeysFor, mix_ik-KeysFor}
use ssh_rs.Hmac.{MacBox, bsize, slice}
use ssh_rs.Hmac.Tags.{KeyFits}
use ssh_rs.Keys.{Keys, keys_from}

-- A digest has the length that its function gives.
pub record RingSizes (ring : Ring) : Type 0 where
  pub sha1_size : (b : Bytes) → length (ring.sha1_digest b) ≡ 20
  pub sha256_size : (b : Bytes) → length (ring.sha256_digest b) ≡ 32

-- The hash as the server has it, which takes the keys of the client for those of its peer.
abbrev pub other_end : Hash → Hash
other_end h = record h {
  iv_c_s = h.iv_s_c;
  iv_s_c = h.iv_c_s;
  ek_c_s = h.ek_s_c;
  ek_s_c = h.ek_c_s;
  ik_c_s = h.ik_s_c;
  ik_s_c = h.ik_c_s;
}

abbrev pub mirror : Keys → Keys
mirror k = record {
  ckey = k.skey;
  skey = k.ckey;
  civ = k.siv;
  siv = k.civ;
  extend = record { mac = k.extend.mac; ik_c_s = k.extend.ik_s_c; ik_s_c = k.extend.ik_c_s };
}

abbrev swapped : SshResult (Bytes × Bytes) → SshResult (Bytes × Bytes)
swapped r = map_ok (λ p. (p.1, p.0)) r

abbrev pub digest_size : HashType → ℕ
digest_size sha256 = 32
digest_size _ = 20

digest_size-ge : (t : HashType) → 20 ≤ digest_size t
digest_size-ge none = omega arith
digest_size-ge sha1 = omega arith
digest_size-ge sha256 = omega arith

pub slice-ok : (n : ℕ) (v : Bytes) → n ≤ length v → slice n v ≡ ok (take n v)
unfolding slice
slice-ok n v h = ground arith

module _ (ring : Ring) (sizes : RingSizes ring) where
  pub length-digest : (b : Bytes) (t : HashType) → length (digest ring b t) ≡ digest_size t
  unfolding digest
  length-digest b none = sizes.sha1_size b
  length-digest b sha1 = sizes.sha1_size b
  length-digest b sha256 = sizes.sha256_size b

  pub has_output : HasOutput ring
  has_output = record {
    sha1_long = λ b. omega (arith, sizes.sha1_size b);
    sha256_long = λ b. omega (arith, sizes.sha256_size b);
  }

  pub length-extend :
      (h : Hash) (key : Bytes) → length (extend ring h key) ≡ digest_size h.hash_type
  unfolding extend
  length-extend h key = length-digest _ h.hash_type

  grown :
      (h : Hash) (ck sk : Bytes)
      → length ck ≡ length sk
      → length (ck ++ extend ring h ck) ≡ length (sk ++ extend ring h sk)
  grown h ck sk e = omega (
    arith,
    length-append ck (extend ring h ck),
    length-append sk (extend ring h sk),
    length-extend h ck,
    length-extend h sk,
  )

  length-key_parts :
      (h : Hash) (n : ℕ) (ck sk : Bytes)
      → length ck ≡ length sk
      → length (key_parts ring h n ck) ≡ length (key_parts ring h n sk)
  unfolding key_parts
  length-key_parts h zero ck sk e = e
  length-key_parts h (suc n) ck sk e = length-key_parts h n _ _ (grown h ck sk e)

  mix_loop-other_end :
      (fuel : ℕ) (h : Hash) (key_size : ℕ) (ck sk : Bytes)
      → length ck ≡ length sk
      → mix_loop ring fuel (other_end h) key_size sk ck
        ≡ swapped (mix_loop ring fuel h key_size ck sk)
  unfolding mix_loop extend
  mix_loop-other_end zero h key_size ck sk e = refl
  mix_loop-other_end (suc fuel) h key_size ck sk e = elim (Bool-cases (ltb (length ck) key_size)) [
    | inl less ↦ rw (less, sym e, less) (mix_loop-other_end fuel h key_size _ _ (grown h ck sk e))
    | inr more ↦ rw (more, sym e, more) refl
  ]

  abbrev IsDigest : HashType → Bytes → Type 0
  IsDigest t b = length b ≡ digest_size t

  -- The parts of a hash are digests.
  pub record IsDerived (h : Hash) : Type 0 where
    pub iv_c : IsDigest h.hash_type h.iv_c_s
    pub iv_s : IsDigest h.hash_type h.iv_s_c
    pub ek_c : IsDigest h.hash_type h.ek_c_s
    pub ek_s : IsDigest h.hash_type h.ek_s_c
    pub ik_c : IsDigest h.hash_type h.ik_c_s
    pub ik_s : IsDigest h.hash_type h.ik_s_c

  pub new-IsDerived :
      (ctx : HashCtx) (session_id : Bytes) (t : HashType)
      → IsDerived (Hash.new ring ctx session_id t)
  unfolding Hash.new mix
  new-IsDerived ctx session_id t = record {
    iv_c = length-digest _ t;
    iv_s = length-digest _ t;
    ek_c = length-digest _ t;
    ek_s = length-digest _ t;
    ik_c = length-digest _ t;
    ik_s = length-digest _ t;
  }

  -- What both ends have of a hash.
  pub record SharedKeys (key_size iv_size : ℕ) (h : Hash) (mac : MacBox) (n : ℕ) : Type 0 where
    pub client : Keys
    pub client_made : keys_from ring key_size iv_size h mac ≡ ok client
    pub server_made : keys_from ring key_size iv_size (other_end h) mac ≡ ok (mirror client)
    pub client_fits : KeyFits client.extend.mac n client.extend.ik_c_s
    pub server_fits : KeyFits client.extend.mac n client.extend.ik_s_c

  keys_from-eq :
      (key_size iv_size n : ℕ) (h : Hash) (mac : MacBox) (ck sk ic is' : Bytes)
      → mix_ek ring h key_size ≡ ok (ck, sk)
      → mix_ik ring h n ≡ ok (ic, is')
      → bsize mac ≡ ok n
      → key_size ≤ length ck
      → key_size ≤ length sk
      → iv_size ≤ length h.iv_c_s
      → iv_size ≤ length h.iv_s_c
      → keys_from ring key_size iv_size h mac
        ≡ ok (record {
          ckey = take key_size ck;
          skey = take key_size sk;
          civ = take iv_size h.iv_c_s;
          siv = take iv_size h.iv_s_c;
          extend = record { mac = mac; ik_c_s = ic; ik_s_c = is' };
        })
  unfolding keys_from
  keys_from-eq key_size iv_size n h mac ck sk ic is' e i m a b c d = rw (
    e,
    slice-ok key_size ck a,
    slice-ok key_size sk b,
    slice-ok iv_size h.iv_c_s c,
    slice-ok iv_size h.iv_s_c d,
    m,
    i,
  )

  pub keys_from-SharedKeys :
      (key_size iv_size n : ℕ) (h : Hash) (mac : MacBox)
      → IsDerived h
      → iv_size ≤ 20
      → bsize mac ≡ ok n
      → SharedKeys key_size iv_size h mac n
  unfolding mix_ek mix_ik Hash.Keys.KeysFor
  keys_from-SharedKeys key_size iv_size n h mac d small m =
      let (p, e, long, least) = mix_ek-KeysFor ring has_output h key_size in
      let (q, i, keyed, least') = mix_ik-KeysFor ring has_output h n in
      let ck = key_parts ring h p h.ek_c_s in
      let sk = key_parts ring h p h.ek_s_c in
      let ic = key_parts ring h q h.ik_c_s in
      let is' = key_parts ring h q h.ik_s_c in
      let same : length ck ≡ length sk = length-key_parts h p _ _ (d.ek_c ∙ sym d.ek_s) in
      let same' : length ic ≡ length is' = length-key_parts h q _ _ (d.ik_c ∙ sym d.ik_s) in
      let e' =
        mix_loop-other_end (suc key_size) h key_size h.ek_c_s h.ek_s_c (d.ek_c ∙ sym d.ek_s)
        ∙ ap swapped e in
      let i' =
        mix_loop-other_end (suc n) h n h.ik_c_s h.ik_s_c (d.ik_c ∙ sym d.ik_s) ∙ ap swapped i in
      let size = digest_size-ge h.hash_type in
      let iv1 : iv_size ≤ length h.iv_c_s = omega (arith, d.iv_c) in
      let iv2 : iv_size ≤ length h.iv_s_c = omega (arith, d.iv_s) in
      let long' : key_size ≤ length sk = omega arith in
      record {
        client = record {
          ckey = take key_size ck;
          skey = take key_size sk;
          civ = take iv_size h.iv_c_s;
          siv = take iv_size h.iv_s_c;
          extend = record { mac = mac; ik_c_s = ic; ik_s_c = is' };
        };
        client_made = keys_from-eq key_size iv_size n h mac ck sk ic is' e i m long long' iv1 iv2;
        server_made =
            keys_from-eq key_size iv_size n (other_end h) mac sk ck is' ic e' i' m long' long iv2
              iv1;
        client_fits = (m, keyed);
        server_fits = (m, omega arith);
      }
