-- ===== src/Ciphers/Ends.antt =====
-- The ciphers that the two ends of a connection make after a key exchange.
use ssh_rs.Base.{
  ℕ, zero, suc, ◌+◌, ◌*◌, ◌≡◌, refl, ap, ◌∙◌, ◌++◌, arith, false, length, length-append, ◌==◌,
}
use ssh_rs.Error.{SshResult, ok, panic, map_ok}
use ssh_rs.Data.{Bytes}
use ssh_rs.Algorithm.{
  Enc, Mac, chacha20_poly1305_openssh, aes128_ctr, aes192_ctr, aes256_ctr, aes128_cbc, aes192_cbc,
  aes256_cbc, triple_des_cbc,
}
use ssh_rs.Hash
use ssh_rs.Hash.{Ring, Hash, HashCtx, HashType, none, sha1, sha256, extend, mix_loop, mix_ek}
use ssh_rs.Hash.Keys.{KeysFor, key_parts, mix_ek-KeysFor, mix_loop-stop, mix_loop-extend}
use ssh_rs.Hmac
use ssh_rs.Hmac.{HmacRing, MacBox, bsize}
use ssh_rs.Hmac.Tags.{from_fits}
use ssh_rs.Keys.Shared.{
  RingSizes, other_end, mirror, IsDerived, new-IsDerived, SharedKeys, keys_from-SharedKeys,
  has_output, length-extend, digest_size,
}
use ssh_rs.Ctr
use ssh_rs.Ctr.{StreamCipher, Ctr}
use ssh_rs.Cbc
use ssh_rs.Cbc.{BlockModes, Cbc}
use ssh_rs.Cbc.Blocks.{BlockLaws}
use ssh_rs.Des
use ssh_rs.ChaCha
use ssh_rs.ChaCha.{ChaChaKeys, ChaCha20Poly1305, exact}
use ssh_rs.ChaCha.Pairs.{ChaChaLaws, exact-ok}
use ssh_rs.Ciphers.{ctr, cbc, des, cha_cha, from}
use ssh_rs.Ciphers.Pairs.{InStep, CipherLaws}

-- Both ends make an object, and each opens what the other seals.
pub record Agree {T : Type 0} (P : T → T → Type 0) (client server : SshResult T) : Type 0 where
  pub ours : T
  pub theirs : T
  pub ours_made : client ≡ ok ours
  pub theirs_made : server ≡ ok theirs
  pub to_server : P ours theirs
  pub to_client : P theirs ours

Agree-boxed :
    {S T : Type 0} (P : S → S → Type 0) (Q : T → T → Type 0) (box : S → T)
    (client server : SshResult S)
    → ((s r : S) → P s r → Q (box s) (box r))
    → Agree P client server
    → Agree Q (map_ok box client) (map_ok box server)
Agree-boxed P Q box client server keep a = record {
  ours = box a.ours;
  theirs = box a.theirs;
  ours_made = rw a.ours_made;
  theirs_made = rw a.theirs_made;
  to_server = keep a.ours a.theirs a.to_server;
  to_client = keep a.theirs a.ours a.to_client;
}

module _ (ring : Ring) (sizes : RingSizes ring) (h : Hash) (d : IsDerived ring sizes h) where
  ctr-Agree :
      {K : Type 0} (aes : StreamCipher K) (hmac : HmacRing) (key_size n : ℕ) (mac : MacBox)
      → bsize mac ≡ ok n
      → Agree Ctr.Pairs.InStep
          (Ctr.new aes hmac ring key_size h mac)
          (Ctr.new aes hmac ring key_size (other_end h) mac)
  unfolding Ctr.new
  ctr-Agree aes hmac key_size n mac m =
      let k = keys_from-SharedKeys ring sizes key_size 16 n h mac d (omega arith) m in
      record {
        ours = Ctr.from_keys aes k.client;
        theirs = Ctr.from_keys aes (mirror k.client);
        ours_made = rw k.client_made;
        theirs_made = rw k.server_made;
        to_server = record {
          streams = refl;
          macs = refl;
          codes = refl;
          code_size = n;
          fits = k.client_fits;
        };
        to_client = record {
          streams = refl;
          macs = refl;
          codes = refl;
          code_size = n;
          fits = k.server_fits;
        };
      }

  keys-Agree :
      {E D : Type 0} (modes : BlockModes E D) (size : ℕ) (R : E → D → Type 0)
      (laws : BlockLaws modes size R) (key_size iv_size n : ℕ) (mac : MacBox)
      (k : SharedKeys ring sizes key_size iv_size h mac n)
      → Agree
          (Cbc.Pairs.InStep R)
          (ok (Cbc.from_keys modes k.client))
          (ok (Cbc.from_keys modes (mirror k.client)))
  keys-Agree modes size R laws key_size iv_size n mac k = record {
    ours = Cbc.from_keys modes k.client;
    theirs = Cbc.from_keys modes (mirror k.client);
    ours_made = refl;
    theirs_made = refl;
    to_server = record {
      modes = laws.started k.client.ckey k.client.civ;
      macs = refl;
      codes = refl;
      code_size = n;
      fits = k.client_fits;
    };
    to_client = record {
      modes = laws.started k.client.skey k.client.siv;
      macs = refl;
      codes = refl;
      code_size = n;
      fits = k.server_fits;
    };
  }

  cbc-Agree :
      {E D : Type 0} (modes : BlockModes E D) (R : E → D → Type 0) (laws : BlockLaws modes 16 R)
      (key_size n : ℕ) (mac : MacBox)
      → bsize mac ≡ ok n
      → Agree
          (Cbc.Pairs.InStep R)
          (Cbc.new modes ring key_size h mac)
          (Cbc.new modes ring key_size (other_end h) mac)
  unfolding Cbc.new
  cbc-Agree modes R laws key_size n mac m =
      let k = keys_from-SharedKeys ring sizes key_size 16 n h mac d (omega arith) m in
      rw (k.client_made, k.server_made) (keys-Agree modes 16 R laws key_size 16 n mac k)

  des-Agree :
      {E D : Type 0} (modes : BlockModes E D) (hmac : HmacRing) (R : E → D → Type 0)
      (laws : BlockLaws modes 8 R) (n : ℕ) (mac : MacBox)
      → bsize mac ≡ ok n
      → Agree
          (Cbc.Pairs.InStep R)
          (Des.new modes hmac ring h mac)
          (Des.new modes hmac ring (other_end h) mac)
  unfolding Des.new
  des-Agree modes hmac R laws n mac m =
      let k = keys_from-SharedKeys ring sizes 24 8 n h mac d (omega arith) m in
      rw (k.client_made, k.server_made) (keys-Agree modes 8 R laws 24 8 n mac k)

  -- With SHA-256 two digests are the 64 bytes of a key.
  mix_ek_two :
      h.hash_type ≡ sha256
      → mix_ek ring h 64
        ≡ ok (h.ek_c_s ++ extend ring h h.ek_c_s, h.ek_s_c ++ extend ring h h.ek_s_c)
  unfolding mix_ek
  mix_ek_two t =
      mix_loop-extend ring 64 h 64 h.ek_c_s h.ek_s_c (omega (arith, d.ek_c, ap digest_size t))
      ∙ mix_loop-stop ring 63 h 64 (h.ek_c_s ++ extend ring h h.ek_c_s)
          (h.ek_s_c ++ extend ring h h.ek_s_c)
          (omega (
            arith,
            d.ek_c,
            ap digest_size t,
            length-append h.ek_c_s (extend ring h h.ek_c_s),
            length-extend ring sizes h h.ek_c_s,
          ))

cha_cha-new :
    {F G : Type 0} (cha : ChaChaKeys F G) (ring : Ring) (h : Hash) (mac : MacBox) (ck sk : Bytes)
    → mix_ek ring h 64 ≡ ok (ck, sk)
    → length ck ≡ 64
    → length sk ≡ 64
    → ChaCha.new cha ring h mac
      ≡ ok (record { client_key = cha.sealing_key ck; server_key = cha.opening_key sk })
unfolding ChaCha.new
cha_cha-new cha ring h mac ck sk e c s = rw (e, exact-ok 64 ck c, exact-ok 64 sk s)

module _ (ring : Ring) (sizes : RingSizes ring) where
  two_digests :
      (h : Hash) (key : Bytes)
      → h.hash_type ≡ sha256
      → length key ≡ digest_size h.hash_type
      → length (key ++ extend ring h key) ≡ 64
  two_digests h key t e = omega (
    arith,
    length-append key (extend ring h key),
    length-extend ring sizes h key,
    ap digest_size t,
  )

  other_end-IsDerived : (h : Hash) → IsDerived ring sizes h → IsDerived ring sizes (other_end h)
  other_end-IsDerived h d = record {
    iv_c = d.iv_s;
    iv_s = d.iv_c;
    ek_c = d.ek_s;
    ek_s = d.ek_c;
    ik_c = d.ik_s;
    ik_s = d.ik_c;
  }

  cha_cha-Agree :
      {F G : Type 0} (cha : ChaChaKeys F G) (S : F → G → Type 0) (laws : ChaChaLaws cha S)
      (h : Hash) (mac : MacBox)
      → IsDerived ring sizes h
      → h.hash_type ≡ sha256
      → Agree
          (ChaCha.Pairs.InStep S)
          (ChaCha.new cha ring h mac)
          (ChaCha.new cha ring (other_end h) mac)
  unfolding extend
  cha_cha-Agree cha S laws h mac d t =
      let ck = h.ek_c_s ++ extend ring h h.ek_c_s in
      let sk = h.ek_s_c ++ extend ring h h.ek_s_c in
      let c : length ck ≡ 64 = two_digests h h.ek_c_s t d.ek_c in
      let s : length sk ≡ 64 = two_digests h h.ek_s_c t d.ek_s in
      record {
        ours = record { client_key = cha.sealing_key ck; server_key = cha.opening_key sk };
        theirs = record { client_key = cha.sealing_key sk; server_key = cha.opening_key ck };
        ours_made = cha_cha-new cha ring h mac ck sk (mix_ek_two ring sizes h d t) c s;
        theirs_made =
            cha_cha-new cha ring (other_end h) mac sk ck
              (mix_ek_two ring sizes (other_end h) (other_end-IsDerived h d) t) s c;
        to_server = laws.started ck;
        to_client = laws.started sk;
      }

  -- Without SHA-256 the keys are made of parts of 20 bytes, of which none are 64.
  length-key_parts_sha1 :
      (h : Hash) (n : ℕ) (key : Bytes)
      → digest_size h.hash_type ≡ 20
      → length (key_parts ring h n key) ≡ length key + 20 * n
  unfolding key_parts
  length-key_parts_sha1 h zero key e = omega arith
  length-key_parts_sha1 h (suc n) key e = omega (
    arith,
    length-key_parts_sha1 h n (key ++ extend ring h key) e,
    length-append key (extend ring h key),
    length-extend ring sizes h key,
  )

  cha_cha-new_sha1 :
      {F G : Type 0} (cha : ChaChaKeys F G) (h : Hash) (mac : MacBox)
      → IsDerived ring sizes h
      → digest_size h.hash_type ≡ 20
      → ChaCha.new cha ring h mac ≡ panic
  unfolding ChaCha.new exact KeysFor
  cha_cha-new_sha1 cha h mac d e =
      let (n, made, long, least) = mix_ek-KeysFor ring (has_output ring sizes) h 64 in
      let ck = key_parts ring h n h.ek_c_s in
      let other : (length ck == 64) ≡ false =
        ground (arith, length-key_parts_sha1 h n h.ek_c_s e, d.ek_c) in
      rw (made, other)

-- The hash that a cipher can be made with: ChaCha20 takes keys of 64 bytes from SHA-256 only.
abbrev pub Serves : Enc → HashType → Type 0
Serves chacha20_poly1305_openssh t = t ≡ sha256
Serves _ t = Unit {0}

module _ {K E D E' D' F G : Type 0} (aes : StreamCipher K) (aes_cbc : BlockModes E D)
    (tdes : BlockModes E' D') (cha : ChaChaKeys F G) (hmac : HmacRing) (ring : Ring)
    (sizes : RingSizes ring) where
  -- What the two ends make of an exchange.
  abbrev pub Ends :
      (E → D → Type 0) → (E' → D' → Type 0) → (F → G → Type 0) → Enc → Hash → MacBox → Type 0
  Ends R R' S cipher h mac =
      Agree (InStep aes aes_cbc tdes cha hmac R R' S)
        (from aes aes_cbc tdes cha hmac ring cipher h mac)
        (from aes aes_cbc tdes cha hmac ring cipher (other_end h) mac)

  from-Agree :
      (R : E → D → Type 0) (R' : E' → D' → Type 0) (S : F → G → Type 0)
      (laws : CipherLaws aes aes_cbc tdes cha hmac R R' S) (cipher : Enc) (h : Hash) (mac : MacBox)
      (n : ℕ)
      → IsDerived ring sizes h
      → bsize mac ≡ ok n
      → Serves cipher h.hash_type
      → Ends R R' S cipher h mac
  unfolding from
  from-Agree R R' S laws chacha20_poly1305_openssh h mac n d m t =
      Agree-boxed (ChaCha.Pairs.InStep S) _ cha_cha _ _ (λ s r q. q)
        (cha_cha-Agree ring sizes cha S laws.packets h mac d t)
  from-Agree R R' S laws aes128_ctr h mac n d m t =
      Agree-boxed Ctr.Pairs.InStep _ ctr _ _ (λ s r q. q)
        (ctr-Agree ring sizes h d aes hmac 16 n mac m)
  from-Agree R R' S laws aes192_ctr h mac n d m t =
      Agree-boxed Ctr.Pairs.InStep _ ctr _ _ (λ s r q. q)
        (ctr-Agree ring sizes h d aes hmac 24 n mac m)
  from-Agree R R' S laws aes256_ctr h mac n d m t =
      Agree-boxed Ctr.Pairs.InStep _ ctr _ _ (λ s r q. q)
        (ctr-Agree ring sizes h d aes hmac 32 n mac m)
  from-Agree R R' S laws aes128_cbc h mac n d m t =
      Agree-boxed (Cbc.Pairs.InStep R) _ cbc _ _ (λ s r q. q)
        (cbc-Agree ring sizes h d aes_cbc R laws.aes_blocks 16 n mac m)
  from-Agree R R' S laws aes192_cbc h mac n d m t =
      Agree-boxed (Cbc.Pairs.InStep R) _ cbc _ _ (λ s r q. q)
        (cbc-Agree ring sizes h d aes_cbc R laws.aes_blocks 24 n mac m)
  from-Agree R R' S laws aes256_cbc h mac n d m t =
      Agree-boxed (Cbc.Pairs.InStep R) _ cbc _ _ (λ s r q. q)
        (cbc-Agree ring sizes h d aes_cbc R laws.aes_blocks 32 n mac m)
  from-Agree R R' S laws triple_des_cbc h mac n d m t =
      Agree-boxed (Cbc.Pairs.InStep R') _ des _ _ (λ s r q. q)
        (des-Agree ring sizes h d tdes hmac R' laws.des_blocks n mac m)

  -- From the hash of a key exchange, with any MAC, the client and a server that has the two
  -- directions exchanged make ciphers that are in step both ways: each opens what the other seals.
  -- ChaCha20 needs an exchange with SHA-256.
  pub from-Ends :
      (R : E → D → Type 0) (R' : E' → D' → Type 0) (S : F → G → Type 0)
      (laws : CipherLaws aes aes_cbc tdes cha hmac R R' S) (cipher : Enc) (mac : Mac)
      (ctx : HashCtx) (session_id : Bytes) (t : HashType)
      → Serves cipher t
      → Ends R R' S cipher (Hash.new ring ctx session_id t) (Hmac.from mac)
  unfolding Hash.new
  from-Ends R R' S laws cipher mac ctx session_id t serves =
      let (n, m) = from_fits mac in
      from-Agree R R' S laws cipher (Hash.new ring ctx session_id t) (Hmac.from mac) n
        (new-IsDerived ring sizes ctx session_id t) m serves

  -- With SHA-1 the client cannot be made to use ChaCha20: where these two are agreed on, making the
  -- cipher panics, whatever keys the exchange gives.
  pub from_cha_cha_sha1 :
      (ctx : HashCtx) (session_id : Bytes) (mac : MacBox)
      → from aes aes_cbc tdes cha hmac ring chacha20_poly1305_openssh
          (Hash.new ring ctx session_id sha1)
          mac
        ≡ panic
  unfolding from Hash.new
  from_cha_cha_sha1 ctx session_id mac = rw (
      cha_cha-new_sha1 ring sizes cha (Hash.new ring ctx session_id sha1) mac
        (new-IsDerived ring sizes ctx session_id sha1) refl)
