-- ===== src/Cbc/Pairs.antt =====
-- Two ends with a block cipher in CBC mode understand each other.
use ssh_rs.Base.{
  ℕ, ◌+◌, ◌-◌, ◌*◌, ◌/◌, ◌%◌, ◌^◌, ◌≤◌, ◌<◌, ◌≡◌, refl, sym, ap, ◌∙◌, ◌++◌, inl, inr, false, arith,
  length, length-append, length-take, take, take_front, take_in, drop_front, take_whole,
  bytes_eq_refl, u32,
}
use ssh_rs.Error.{ok}
use ssh_rs.Data.{Bytes, get_u32}
use ssh_rs.Frame.{frame}
use ssh_rs.Frame.Padding.{IsAlign}
use ssh_rs.Frame.Measure.{take-Measured, length-frame-ge, length-frame_blocks, get_align-eq}
use ssh_rs.Hmac.{HmacRing, bsize, sign, slice}
use ssh_rs.Hmac.Tags.{HmacSizes, KeyFits, sign-HasTag}
use ssh_rs.Keys.{opened}
use ssh_rs.Keys.Shared.{slice-ok}
use ssh_rs.Packet.Paired.{Opens, CipherPair}
use ssh_rs.Cbc.{
  BlockModes, Cbc, blocks, client_blocks, server_blocks, encrypt, packet_len, decrypt, data_len,
  encryption_cbc,
}
use ssh_rs.Cbc.Blocks.{BlockLaws, Both, blocks-Both}

-- What the client's cipher `s` seals is for the server's cipher `r`.
pub record InStep {E D : Type 0} (R : E → D → Type 0) (s r : Cbc E D) : Type 0 where
  pub modes : R s.client_key r.server_key
  pub macs : s.extend.mac ≡ r.extend.mac
  pub codes : s.extend.ik_c_s ≡ r.extend.ik_s_c
  pub code_size : ℕ
  pub fits : KeyFits s.extend.mac code_size s.extend.ik_c_s

whole_blocks : (b x : ℕ) → IsAlign b → x % b ≡ 0 → (x ≡ (x / b) * b) × (x / b ≤ x)
whole_blocks b x (inl e) h = let h' : x % 8 ≡ 0 = rw e at h in rw e (omega arith)
whole_blocks b x (inr e) h = let h' : x % 16 ≡ 0 = rw e at h in rw e (omega arith)

IsAlign-ge : (b : ℕ) → IsAlign b → 8 ≤ b
IsAlign-ge b (inl e) = omega arith
IsAlign-ge b (inr e) = omega arith

module _ {E D : Type 0} (modes : BlockModes E D) (hmac : HmacRing) (sizes : HmacSizes hmac)
    (size : ℕ) (align : IsAlign size) (R : E → D → Type 0) (laws : BlockLaws modes size R) where
  encrypt-eq :
      (c : Cbc E D) (seq : ℕ) (buf x tag : Bytes) (k : E)
      → sign hmac c.extend.mac c.extend.ik_c_s seq buf ≡ ok tag
      → blocks modes.encrypt_block size (length buf) buf c.client_key ≡ (ok x, k)
      → encrypt modes hmac size seq buf c ≡ (ok (x ++ tag), record c { client_key = k })
  unfolding encrypt client_blocks
  encrypt-eq c seq buf x tag k e b = rw (e, b)

  packet_len-eq :
      (c : Cbc E D) (buf first rest : Bytes) (n : ℕ)
      → slice size buf ≡ ok first
      → get_u32 (modes.decrypt_block c.server_key first).0 ≡ ok (n, rest)
      → packet_len modes hmac size buf c ≡ (ok (u32 (n + 4)), c)
  unfolding packet_len
  packet_len-eq c buf first rest n e g = rw (e, g)

  data_len-eq :
      (c : Cbc E D) (buf : Bytes) (pl n : ℕ)
      → packet_len modes hmac size buf c ≡ (ok pl, c)
      → bsize c.extend.mac ≡ ok n
      → data_len modes hmac size buf c ≡ (ok (pl + n), c)
  unfolding data_len
  data_len-eq c buf pl n e m = rw (e, m)

  decrypt-eq :
      (c : Cbc E D) (seq n : ℕ) (x tag plain : Bytes) (k : D)
      → packet_len modes hmac size (x ++ tag) c ≡ (ok (length x), c)
      → bsize c.extend.mac ≡ ok n
      → length tag ≡ n
      → blocks modes.decrypt_block size (length x) x c.server_key ≡ (ok plain, k)
      → sign hmac c.extend.mac c.extend.ik_s_c seq plain ≡ ok tag
      → decrypt modes hmac size seq (x ++ tag) c ≡ (ok plain, record c { server_key = k })
  unfolding decrypt server_blocks opened
  decrypt-eq c seq n x tag plain k e m long p s = rw (
    e,
    m,
    slice-ok (length x + n) (x ++ tag) (omega (arith, length-append x tag)),
    take_whole (x ++ tag) (length x + n) (omega (arith, length-append x tag)),
    take_front x tag (length x) refl,
    drop_front x tag (length x) refl,
    p,
    s,
    bytes_eq_refl tag,
  )

  -- The receiver, with the start of a packet that it will open.
  measured :
      (r : Cbc E D) (body buf : Bytes)
      → length body < 2 ^ 32 - 64
      → (modes.decrypt_block r.server_key (take size buf)).0 ≡ take size (frame size false body)
      → size ≤ length buf
      → packet_len modes hmac size buf r ≡ (ok (length (frame size false body)), r)
  measured r body buf h opens long =
      let wide = IsAlign-ge size align in
      let m = take-Measured size size false body (omega arith) align h in
      packet_len-eq r buf (take size buf) m.rest m.field (slice-ok size buf long) (rw opens m.reads)
      ∙ ap (λ n. (ok n, r)) (omega (arith, m.whole, m.small))

  -- The blocks of a packet.
  both :
      (e : E) (d : D) (body : Bytes)
      → length body < 2 ^ 32 - 64
      → R e d
      → Both modes size
          (omega (arith, IsAlign-ge size align))
          R
          laws
          (length (frame size false body) / size)
          (length (frame size false body))
          e
          d
          (frame size false body)
  both e d body h r =
      let f = frame size false body in
      let (whole, less) =
        whole_blocks size (length f) align (length-frame_blocks size body align h) in
      blocks-Both modes size (omega (arith, IsAlign-ge size align)) R laws (length f / size)
        (length f) e d f less whole r

  cbc-Opens :
      (s r : Cbc E D) (seq : ℕ) (body : Bytes)
      → InStep R s r
      → length body < 2 ^ 32 - 64
      → Opens (encryption_cbc modes hmac size) (InStep R) s r seq body
  cbc-Opens s r seq body p h =
      let f = frame size false body in
      let o = both s.client_key r.server_key body h p.modes in
      let x = o.sealed in
      let t = sign-HasTag hmac s.extend.mac p.code_size s.extend.ik_c_s seq f sizes p.fits in
      let signs : sign hmac r.extend.mac r.extend.ik_s_c seq f ≡ ok t.tag =
        sym (λ i. sign hmac (p.macs i) (p.codes i) seq f) ∙ t.signed in
      let code : bsize r.extend.mac ≡ ok p.code_size = sym (ap bsize p.macs) ∙ p.fits.0 in
      let wide = length-frame-ge size false body align in
      let xf : length x ≡ length f = o.as_long in
      let wire = x ++ t.tag in
      let long : size ≤ length wire = omega (arith, length-append x t.tag) in
      let long' : size ≤ length (take size wire) = omega (arith, length-take size wire) in
      let again : take size (take size wire) ≡ take size wire =
        take_whole (take size wire) size (omega (arith, length-take size wire)) in
      let whole : length f + p.code_size ≡ length wire =
        omega (arith, length-append x t.tag, t.size) in
      let head : take size wire ≡ take size x = take_in size x t.tag (omega arith) in
      let shown : (modes.decrypt_block r.server_key (take size wire)).0 ≡ take size f =
        rw head (o.first (omega arith)) in
      let a = get_align-eq size align in
      record {
        wire = wire;
        sender = record s { client_key = o.encryptor };
        between = r;
        after = record r { server_key = o.decryptor };
        seals = rw a (encrypt-eq s seq f x t.tag o.encryptor t.signed o.seals);
        long = rw a long;
        measures = rw a (
            data_len-eq r (take size wire) (length f) p.code_size
              (measured r body (take size wire) h (rw again shown) long') code
            ∙ ap (λ n. (ok n, r)) whole);
        opens = rw a (
            decrypt-eq r seq p.code_size x t.tag f o.decryptor
              (measured r body wire h shown long ∙ ap (λ n. (ok n, r)) (sym xf)) code t.size
              (ap (λ n. blocks modes.decrypt_block size n x r.server_key) xf ∙ o.opens) signs);
        still = record {
          modes = o.still;
          macs = p.macs;
          codes = p.codes;
          code_size = p.code_size;
          fits = p.fits;
        };
      }

  -- What one end seals in CBC mode with a MAC, the other end opens, packet after packet, with AES
  -- and with 3DES.
  pub encryption_cbc-CipherPair : CipherPair (encryption_cbc modes hmac size) (InStep R)
  encryption_cbc-CipherPair = record {
    aligned = λ s r p. rw (get_align-eq size align) align;
    same_block = λ s r p. refl;
    understood = λ s r p seq body h. cbc-Opens s r seq body p h;
  }
