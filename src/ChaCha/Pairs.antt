-- ===== src/ChaCha/Pairs.antt =====
-- Two ends with ChaCha20 and Poly1305 understand each other.
use ssh_rs.Base.{
  ℕ, ◌+◌, ◌-◌, ◌^◌, ◌≤◌, ◌<◌, ◌≡◌, refl, ap, ◌∙◌, ◌++◌, inl, true, some, arith, length,
  length-append, length-take, take, drop, take_front, take_in, take_again, drop_front,
  take-append-drop, u32, ==_refl,
}
use ssh_rs.Error.{ok}
use ssh_rs.Data.{Bytes, get_u32}
use ssh_rs.Frame.{get_align, frame}
use ssh_rs.Frame.Measure.{take-Measured, length-frame-ge}
use ssh_rs.Keys.Shared.{slice-ok}
use ssh_rs.Packet.Paired.{Opens, CipherPair}
use ssh_rs.ChaCha.{
  ChaChaKeys, ChaCha20Poly1305, exact, opened, encrypt, length_field, decrypt, packet_len, data_len,
  encryption_cha_cha,
}

-- What the opening key makes of a packet that the sealing key has sealed.
pub record OpensPacket {E D : Type 0} (keys : ChaChaKeys E D) (e : E) (d : D) (seq : ℕ)
    (buf : Bytes) : Type 0 where
  pub size : length (keys.seal_in_place e seq buf).0 ≡ length buf
  pub tag_size : length (keys.seal_in_place e seq buf).1 ≡ 16
  pub shows :
      keys.decrypt_packet_length d seq (take 4 (keys.seal_in_place e seq buf).0) ≡ take 4 buf
  pub opens :
      keys.open_in_place d seq (keys.seal_in_place e seq buf).0 (keys.seal_in_place e seq buf).1
      ≡ some (drop 4 buf)

pub record ChaChaLaws {E D : Type 0} (keys : ChaChaKeys E D) (R : E → D → Type 0) : Type 0 where
  pub started : (key : Bytes) → R (keys.sealing_key key) (keys.opening_key key)
  pub packet :
      (e : E) (d : D)
      → R e d
      → (seq : ℕ) (buf : Bytes) → 4 ≤ length buf
      → OpensPacket keys e d seq buf

-- What the client's cipher `s` seals is for the server's cipher `r`.
abbrev pub InStep :
    {E D : Type 0} → (E → D → Type 0) → ChaCha20Poly1305 E D → ChaCha20Poly1305 E D → Type 0
InStep R s r = R s.client_key r.server_key

pub exact-ok : (n : ℕ) (v : Bytes) → length v ≡ n → exact n v ≡ ok v
unfolding exact
exact-ok n v h = rw (h, ==_refl n)

module _ {E D : Type 0} (keys : ChaChaKeys E D) (R : E → D → Type 0)
    (laws : ChaChaLaws keys R) where
  -- The length of a packet, from four bytes or more of it.
  length_field-eq :
      (r : ChaCha20Poly1305 E D) (seq : ℕ) (buf len : Bytes)
      → 4 ≤ length buf
      → keys.decrypt_packet_length r.server_key seq (take 4 buf) ≡ len
      → length_field keys r seq buf ≡ ok len
  unfolding length_field
  length_field-eq r seq buf len long e = rw (slice-ok 4 buf long, e)

  data_len-eq :
      (r : ChaCha20Poly1305 E D) (seq n : ℕ) (buf len rest : Bytes)
      → length_field keys r seq buf ≡ ok len
      → get_u32 len ≡ ok (n, rest)
      → data_len keys r seq buf ≡ ok (n + 4 + 16)
  unfolding data_len packet_len
  data_len-eq r seq n buf len rest e g = rw (e, g)

  decrypt-eq :
      (r : ChaCha20Poly1305 E D) (seq n : ℕ) (x tag len plain rest : Bytes)
      → length_field keys r seq (x ++ tag) ≡ ok len
      → get_u32 len ≡ ok (n, rest)
      → u32 (n + 4) ≡ length x
      → length tag ≡ 16
      → keys.open_in_place r.server_key seq x tag ≡ some plain
      → decrypt keys r seq (x ++ tag) ≡ ok (len ++ plain)
  unfolding decrypt opened
  decrypt-eq r seq n x tag len plain rest e g whole size o = rw (
    e,
    g,
    whole,
    slice-ok (length x) (x ++ tag) (omega (arith, length-append x tag)),
    take_front x tag (length x) refl,
    drop_front x tag (length x) refl,
    exact-ok 16 tag size,
    o,
  )

  cha_cha-Opens :
      (s r : ChaCha20Poly1305 E D) (seq : ℕ) (body : Bytes)
      → InStep R s r
      → length body < 2 ^ 32 - 64
      → Opens (encryption_cha_cha keys) (InStep R) s r seq body
  unfolding get_align encrypt
  cha_cha-Opens s r seq body p h =
      let f = frame 8 true body in
      let wide = length-frame-ge 8 true body (inl refl) in
      let o = laws.packet s.client_key r.server_key p seq f (omega arith) in
      let x = (keys.seal_in_place s.client_key seq f).0 in
      let tag = (keys.seal_in_place s.client_key seq f).1 in
      let m = take-Measured 4 8 true body (omega arith) (inl refl) h in
      let wire = x ++ tag in
      let long : 8 ≤ length wire = omega (arith, length-append x tag, o.size) in
      let long' : 4 ≤ length (take 8 wire) = omega (arith, length-take 8 wire) in
      let head : take 4 wire ≡ take 4 x = take_in 4 x tag (omega (arith, o.size)) in
      let head' : take 4 (take 8 wire) ≡ take 4 wire = take_again 4 8 wire (omega arith) in
      let whole : m.field + 4 + 16 ≡ length wire =
        omega (arith, m.whole, length-append x tag, o.size, o.tag_size) in
      record {
        wire = wire;
        sender = s;
        between = r;
        after = r;
        seals = refl;
        long = long;
        measures =
            ap (λ n. (n, r))
              (data_len-eq r seq m.field (take 8 wire) (take 4 f) m.rest
                  (length_field-eq r seq (take 8 wire) (take 4 f) long' (rw (head', head) o.shows))
                  m.reads
                ∙ ap ok whole);
        opens =
            ap (λ n. (n, r))
              (decrypt-eq r seq m.field x tag (take 4 f) (drop 4 f) m.rest
                  (length_field-eq r seq wire (take 4 f) (omega arith) (rw head o.shows)) m.reads
                  (omega (arith, m.whole, m.small, o.size)) o.tag_size o.opens
                ∙ ap ok (take-append-drop 4 f));
        still = p;
      }

  -- What one end seals with ChaCha20 and Poly1305, the other end opens, packet after packet.
  pub encryption_cha_cha-CipherPair : CipherPair (encryption_cha_cha keys) (InStep R)
  unfolding get_align
  encryption_cha_cha-CipherPair = record {
    aligned = λ s r p. inl refl;
    same_block = λ s r p. refl;
    understood = λ s r p seq body h. cha_cha-Opens s r seq body p h;
  }
