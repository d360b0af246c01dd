-- ===== src/Ctr/Pairs.antt =====
-- Two ends with a stream cipher understand each other.
use ssh_rs.Base.{
  ℕ, ◌+◌, ◌-◌, ◌^◌, ◌≤◌, ◌<◌, ◌≡◌, refl, sym, ap, ◌∙◌, ◌++◌, inr, false, arith, length,
  length-append, length-take, take, take_front, take_in, drop_front, take_whole, bytes_eq_refl, u32,
}
use ssh_rs.Error.{ok}
use ssh_rs.Data.{Bytes, get_u32}
use ssh_rs.Frame.{get_align, frame}
use ssh_rs.Frame.Measure.{take-frame-Measured, length-frame-ge}
use ssh_rs.Hmac.{HmacRing, bsize, sign, slice}
use ssh_rs.Hmac.Tags.{HmacSizes, KeyFits, sign-HasTag}
use ssh_rs.Keys.{opened}
use ssh_rs.Keys.Shared.{slice-ok}
use ssh_rs.Packet.Paired.{Opens, CipherPair}
use ssh_rs.Ctr.{
  StreamCipher, Ctr, client_apply, server_apply, server_back, encrypt, packet_len, decrypt,
  data_len, encryption_ctr,
}

-- A stream cipher adds a key stream to the text. It does the same in both directions, and can be
-- set back.
pub record StreamLaws {K : Type 0} (aes : StreamCipher K) : Type 0 where
  pub size : (k : K) (b : Bytes) → length (aes.apply_keystream k b).0 ≡ length b
  pub twice : (k : K) (b : Bytes) → (aes.apply_keystream k (aes.apply_keystream k b).0).0 ≡ b
  pub front :
      (k : K) (n : ℕ) (b : Bytes)
      → take n (aes.apply_keystream k b).0 ≡ (aes.apply_keystream k (take n b)).0
  pub step :
      (k : K) (a b : Bytes)
      → length a ≡ length b
      → (aes.apply_keystream k a).1 ≡ (aes.apply_keystream k b).1
  pub position :
      (k : K) (b : Bytes)
      → aes.current_pos (aes.apply_keystream k b).1 ≡ aes.current_pos k + length b
  pub back : (k : K) (b : Bytes) → aes.seek (aes.apply_keystream k b).1 (aes.current_pos k) ≡ k

-- What the client's cipher `s` seals is for the server's cipher `r`.
pub record InStep {K : Type 0} (s r : Ctr K) : Type 0 where
  pub streams : s.client_key ≡ r.server_key
  pub macs : s.extend.mac ≡ r.extend.mac
  pub codes : s.extend.ik_c_s ≡ r.extend.ik_s_c
  pub code_size : ℕ
  pub fits : KeyFits s.extend.mac code_size s.extend.ik_c_s

module _ {K : Type 0} (aes : StreamCipher K) (laws : StreamLaws aes) (hmac : HmacRing)
    (sizes : HmacSizes hmac) where
  abbrev stream : K → Bytes → Bytes
  stream k b = (aes.apply_keystream k b).0

  abbrev after : K → Bytes → K
  after k b = (aes.apply_keystream k b).1

  encrypt-eq :
      (c : Ctr K) (seq : ℕ) (buf tag : Bytes)
      → sign hmac c.extend.mac c.extend.ik_c_s seq buf ≡ ok tag
      → encrypt aes hmac seq buf c
        ≡ (ok (stream c.client_key buf ++ tag), record c { client_key = after c.client_key buf })
  unfolding encrypt client_apply
  encrypt-eq c seq buf tag e = rw e

  rewound :
      (k : K) (first : Bytes)
      → length first ≡ 16
      → aes.seek (after k first) (aes.current_pos (after k first) - 16) ≡ k
  rewound k first e =
      let at : aes.current_pos (after k first) - 16 ≡ aes.current_pos k =
        omega (arith, laws.position k first) in
      rw at (laws.back k first)

  -- The length is read ahead: the cipher stays where it is.
  packet_len-eq :
      (c : Ctr K) (buf first rest : Bytes) (n : ℕ)
      → slice 16 buf ≡ ok first
      → length first ≡ 16
      → get_u32 (stream c.server_key first) ≡ ok (n, rest)
      → packet_len aes hmac buf c ≡ (ok (u32 (n + 4)), c)
  unfolding packet_len server_apply server_back
  packet_len-eq c buf first rest n e long g =
      rw (e, g) (ap (λ k. (ok (u32 (n + 4)), record c { server_key = k })) (rewound _ first long))

  data_len-eq :
      (c : Ctr K) (buf : Bytes) (pl n : ℕ)
      → packet_len aes hmac buf c ≡ (ok pl, c)
      → bsize c.extend.mac ≡ ok n
      → data_len aes hmac buf c ≡ (ok (pl + n), c)
  unfolding data_len
  data_len-eq c buf pl n e m = rw (e, m)

  decrypt-eq :
      (c : Ctr K) (seq n : ℕ) (x tag plain : Bytes)
      → packet_len aes hmac (x ++ tag) c ≡ (ok (length x), c)
      → bsize c.extend.mac ≡ ok n
      → length tag ≡ n
      → stream c.server_key x ≡ plain
      → sign hmac c.extend.mac c.extend.ik_s_c seq plain ≡ ok tag
      → decrypt aes hmac seq (x ++ tag) c
        ≡ (ok plain, record c { server_key = after c.server_key x })
  unfolding decrypt server_apply opened
  decrypt-eq c seq n x tag plain e m long p s = rw (
    e,
    m,
    slice-ok (length x + n) (x ++ tag) (omega (arith, length-append x tag)),
    take_whole (x ++ tag) (length x + n) (omega (arith, length-append x tag)),
    take_front x tag (length x) refl,
    drop_front x tag (length x) refl,
    p,
    s,
    bytes_eq_refl tag,
  )

  -- The receiver, with a packet that its own key stream has sealed.
  measured :
      (r : Ctr K) (body buf : Bytes)
      → length body < 2 ^ 32 - 64
      → take 16 buf ≡ take 16 (stream r.server_key (frame 16 false body))
      → 16 ≤ length buf
      → packet_len aes hmac buf r ≡ (ok (length (frame 16 false body)), r)
  measured r body buf h same long =
      let f = frame 16 false body in
      let m = take-frame-Measured 12 16 false body (inr refl) h in
      let opens : stream r.server_key (take 16 buf) ≡ take 16 f =
        rw (same, laws.front r.server_key 16 f) (laws.twice r.server_key (take 16 f)) in
      packet_len-eq r buf (take 16 buf) m.rest m.field (slice-ok 16 buf long)
        (omega (arith, length-take 16 buf)) (rw opens m.reads)
      ∙ ap (λ n. (ok n, r)) (omega (arith, m.whole, m.small))

  ctr-Opens :
      (s r : Ctr K) (seq : ℕ) (body : Bytes)
      → InStep s r
      → length body < 2 ^ 32 - 64
      → Opens (encryption_ctr aes hmac) InStep s r seq body
  unfolding get_align
  ctr-Opens s r seq body p h =
      let f = frame 16 false body in
      let x = stream r.server_key f in
      let t = sign-HasTag hmac s.extend.mac p.code_size s.extend.ik_c_s seq f sizes p.fits in
      let signs : sign hmac r.extend.mac r.extend.ik_s_c seq f ≡ ok t.tag =
        sym (λ i. sign hmac (p.macs i) (p.codes i) seq f) ∙ t.signed in
      let code : bsize r.extend.mac ≡ ok p.code_size = sym (ap bsize p.macs) ∙ p.fits.0 in
      let wide = length-frame-ge 16 false body (inr refl) in
      let long : 16 ≤ length (x ++ t.tag) =
        omega (arith, length-append x t.tag, laws.size r.server_key f) in
      let long' : 16 ≤ length (take 16 (x ++ t.tag)) = omega (arith, length-take 16 (x ++ t.tag)) in
      let whole : length f + p.code_size ≡ length (x ++ t.tag) =
        omega (arith, length-append x t.tag, laws.size r.server_key f, t.size) in
      let head : take 16 (x ++ t.tag) ≡ take 16 x =
        take_in 16 x t.tag (omega (arith, laws.size r.server_key f)) in
      record {
        wire = x ++ t.tag;
        sender = record s { client_key = after s.client_key f };
        between = r;
        after = record r { server_key = after r.server_key x };
        seals =
            encrypt-eq s seq f t.tag t.signed
            ∙ ap (λ k. (ok (stream k f ++ t.tag), record s { client_key = after s.client_key f }))
                p.streams;
        long = long;
        measures =
            data_len-eq r (take 16 (x ++ t.tag)) (length f) p.code_size
              (measured r body (take 16 (x ++ t.tag)) h
                (take_whole (take 16 (x ++ t.tag)) 16 (omega (arith, length-take 16 (x ++ t.tag)))
                  ∙ head)
                long')
              code
            ∙ ap (λ n. (ok n, r)) whole;
        opens =
            decrypt-eq r seq p.code_size x t.tag f
              (measured r body (x ++ t.tag) h head long
                ∙ ap (λ n. (ok n, r)) (sym (laws.size r.server_key f)))
              code t.size (laws.twice r.server_key f) signs;
        still = record {
          streams =
              ap (λ k. after k f) p.streams
              ∙ laws.step r.server_key f x (sym (laws.size r.server_key f));
          macs = p.macs;
          codes = p.codes;
          code_size = p.code_size;
          fits = p.fits;
        };
      }

  -- What one end seals with AES in counter mode and a MAC, the other end opens, packet after packet.
  pub encryption_ctr-CipherPair : CipherPair (encryption_ctr aes hmac) InStep
  unfolding get_align
  encryption_ctr-CipherPair = record {
    aligned = λ s r p. inr refl;
    same_block = λ s r p. refl;
    understood = λ s r p seq body h. ctr-Opens s r seq body p h;
  }
