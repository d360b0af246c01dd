-- ===== src/Packet/RoundTrip.antt =====
-- What one end writes, the other end reads.
use ssh_rs.Base.{
  ℕ, ◌-◌, ◌^◌, ◌≤◌, ◌<◌, ◌≡◌, refl, sym, ◌∙◌, List, ◌++◌, Option, arith, length, take, drop,
  append_assoc, length-append, append-cancel, take_front, drop_front, take-append-drop, All, true,
  leb, length-take,
}
use ssh_rs.Error.{SshResult, ok}
use ssh_rs.Data.{Bytes}
use ssh_rs.Sequence.{next, get_client, get_server}
use ssh_rs.Stream.{Stream, ReadEvent, read_with_timeout, write_with_timeout}
use ssh_rs.Stream.Reads.{content, IsQuiet, read_with_timeout_lem}
use ssh_rs.Stream.Writes.{output-write_with_timeout}
use ssh_rs.Frame.{get_align, frame, unframe}
use ssh_rs.Frame.Padding.{unframe-frame}
use ssh_rs.Client.{Encryption, Compression, Link}
use ssh_rs.Packet.{
  client_number, server_number, encrypt_with, decrypt_with, data_len_with, compress_with,
  decompress_with, write_out, read_in, block_size, write_stream, read_packet, from_stream,
}
use ssh_rs.Packet.Paired.{Opens, CipherPair, Inflates, CompressorPair}

-- A read for which the bytes are there, as one equation.
exact_read :
    (tm : Option ℕ) (want : ℕ) (es : List ReadEvent) (front rest : Bytes)
    → All (IsQuiet tm) es
    → content es ≡ front ++ rest
    → want ≡ length front
    → (es' : List ReadEvent) × (read_with_timeout tm want es ≡ (ok front, es'))
      × (content es' ≡ rest)
      × All (IsQuiet tm) es'
exact_read tm want es front rest quiet e h =
    let (p, q, s) =
      read_with_timeout_lem tm want es quiet (rw (e, length-append front rest) (omega arith)) in
    let whole : (read_with_timeout tm want es).0 ≡ ok front =
      p ∙ rw e (rw (take_front front rest want h)) in
    (
      (read_with_timeout tm want es).1,
      λ i. (whole i, (read_with_timeout tm want es).1),
      q ∙ rw e (drop_front front rest want h),
      s,
    )

module _ {S C : Type 0} (enc : Encryption S) (comp : Compression C) where
  -- The packet that the sender seals, once its compressor has made `body` of the payload.
  abbrev framed : Link S C → Bytes → Bytes
  framed a body =
      frame (get_align (enc.bsize a.client.encryptor)) (enc.no_pad a.client.encryptor) body

  abbrev written : Link S C → Bytes → SshResult (Unit {0}) × Stream
  written a wire = write_with_timeout a.client.config.timeout wire a.stream

  write_stream-eq :
      (payload body wire : Bytes) (c : C) (s : S) (a : Link S C)
      → comp.compress a.client.compressor payload ≡ (ok body, c)
      → enc.encrypt a.client.encryptor (get_client a.client.sequence).0 (framed a body)
        ≡ (ok wire, s)
      → write_stream enc comp payload a ≡ (
        (written a wire).0,
        record a {
          client = record a.client {
            sequence = (get_client a.client.sequence).1;
            encryptor = s;
            compressor = c;
          };
          stream = (written a wire).1;
        },
      )
  unfolding write_stream compress_with block_size client_number encrypt_with write_out
  write_stream-eq payload body wire c s a e k = rw (e, k)

  -- The receiver's link after a packet.
  abbrev received : Link S C → S → C → List ReadEvent → Link S C
  received b cipher compressor es = record b {
    client = record b.client {
      sequence = (get_server b.client.sequence).1;
      encryptor = cipher;
      compressor = compressor;
    };
    stream = record b.stream { input = es };
  }

  read_in-eq :
      (b : Link S C) (front rest : Bytes) (want : ℕ)
      → All (IsQuiet b.client.config.timeout) b.stream.input
      → content b.stream.input ≡ front ++ rest
      → want ≡ length front
      → (es : List ReadEvent) × (read_in enc comp want b
          ≡ (ok front, record b { stream = record b.stream { input = es } }))
        × (content es ≡ rest)
        × All (IsQuiet b.client.config.timeout) es
  unfolding read_in
  read_in-eq b front rest want quiet e n =
      let (es, r, c, q) =
        exact_read b.client.config.timeout want b.stream.input front rest quiet e n in
      (es, rw r, c, q)

  -- The link with the next number taken and the cipher in a given state.
  abbrev numbered : Link S C → S → Link S C
  numbered b cipher = record b {
    client = record b.client { sequence = (get_server b.client.sequence).1; encryptor = cipher };
  }

  read_packet-eq :
      (b : Link S C) (bsize : ℕ) (front back rest plain body : Bytes) (between after : S)
      → let seq = (get_server b.client.sequence).0 in
        All (IsQuiet b.client.config.timeout) b.stream.input
        → content b.stream.input ≡ back ++ rest
        → bsize ≡ length front
        → enc.data_len b.client.encryptor seq front ≡ (ok (length (front ++ back)), between)
        → enc.decrypt between seq (front ++ back) ≡ (ok plain, after)
        → unframe plain ≡ ok body
        → (es : List ReadEvent) × (read_packet enc comp bsize front b
            ≡ (ok body, record (numbered b after) { stream = record b.stream { input = es } }))
          × (content es ≡ rest)
          × All (IsQuiet b.client.config.timeout) es
  unfolding read_packet server_number data_len_with decrypt_with
  read_packet-eq b bsize front back rest plain body between after quiet e n measures opens un =
      let (es, r, c, q) =
        read_in-eq (numbered b between) back rest (length (front ++ back) - bsize) quiet e
          (omega (arith, length-append front back)) in
      let fits : leb bsize (length (front ++ back)) ≡ true =
        ground (arith, length-append front back) in
      (es, rw (measures, fits, r, opens, un), c, q)

  from_stream-eq :
      (b : Link S C) (wire rest plain body payload : Bytes) (between after : S) (d : C)
      → let bsize = get_align (enc.bsize b.client.encryptor) in
        let seq = (get_server b.client.sequence).0 in
        All (IsQuiet b.client.config.timeout) b.stream.input
        → content b.stream.input ≡ wire ++ rest
        → bsize ≤ length wire
        → enc.data_len b.client.encryptor seq (take bsize wire) ≡ (ok (length wire), between)
        → enc.decrypt between seq wire ≡ (ok plain, after)
        → unframe plain ≡ ok body
        → comp.decompress b.client.compressor body ≡ (ok payload, d)
        → (es : List ReadEvent) × (from_stream enc comp b ≡ (ok payload, received b after d es))
          × (content es ≡ rest)
          × All (IsQuiet b.client.config.timeout) es
  unfolding from_stream block_size decompress_with
  from_stream-eq b wire rest plain body payload between after d quiet e long measures opens un z =
      let bsize = get_align (enc.bsize b.client.encryptor) in
      let front = take bsize wire in
      let back = drop bsize wire in
      let split : front ++ back ≡ wire = take-append-drop bsize wire in
      let whole : content b.stream.input ≡ front ++ (back ++ rest) =
        rw (← append_assoc front back rest, split) e in
      let n : bsize ≡ length front = rw (length-take bsize wire) (omega arith) in
      let (es1, r1, c1, q1) = read_in-eq b front (back ++ rest) bsize quiet whole n in
      let b1 : Link S C = record b { stream = record b.stream { input = es1 } } in
      let (es2, r2, c2, q2) =
        read_packet-eq b1 bsize front back rest plain body between after q1 c1 n (rw split measures)
          (rw split opens) un in
      (es2, rw (r1, r2, z), c2, q2)

  -- The writer `a` and the reader `b` are in step.
  pub record IsPaired (P : S → S → Type 0) (Q : C → C → Type 0) (a b : Link S C) : Type 0 where
    pub ciphers : P a.client.encryptor b.client.encryptor
    pub compressors : Q a.client.compressor b.client.compressor
    pub numbers :
        a.client.sequence.client_sequence_num.num ≡ b.client.sequence.server_sequence_num.num

  same_numbers :
      (a b : Link S C)
      → a.client.sequence.client_sequence_num.num ≡ b.client.sequence.server_sequence_num.num
      → ((get_client a.client.sequence).0 ≡ (get_server b.client.sequence).0)
        × ((get_client a.client.sequence).1.client_sequence_num.num
            ≡ (get_server b.client.sequence).1.server_sequence_num.num)
  unfolding get_client get_server next
  same_numbers a b e = ground arith

  -- What the reader's cipher makes of the packet that the writer seals.
  abbrev Understood : (S → S → Type 0) → Link S C → Link S C → Bytes → Type 0
  Understood P a b body =
      Opens enc P a.client.encryptor b.client.encryptor (get_client a.client.sequence).0 body

  -- The reader's side of the theorem below.
  reads_back :
      (P : S → S → Type 0) (Q : C → C → Type 0) (cp : CipherPair enc P) (payload rest : Bytes)
      (a b : Link S C) (z : Inflates comp Q a.client.compressor b.client.compressor payload)
      (o : Understood P a b z.body)
      → IsPaired P Q a b
      → length z.body < 2 ^ 32 - 64
      → All (IsQuiet b.client.config.timeout) b.stream.input
      → content b.stream.input ≡ o.wire ++ rest
      → (es : List ReadEvent) × (from_stream enc comp b
          ≡ (ok payload, received b o.after z.receiver es))
        × (content es ≡ rest)
        × All (IsQuiet b.client.config.timeout) es
  reads_back P Q cp payload rest a b z o paired fits quiet e =
      let (n, m) = same_numbers a b paired.numbers in
      from_stream-eq b o.wire rest (framed a z.body) z.body payload o.between o.after z.receiver
        quiet e o.long (rw (← n) o.measures) (rw (← n) o.opens)
        (unframe-frame _ _ z.body (cp.aligned a.client.encryptor b.client.encryptor paired.ciphers)
          fits)
        z.inflates

-- Two ends in step understand each other. If one writes a payload below 2 ^ 31 bytes successfully,
-- and the bytes that this adds to its output arrive at the other end in any pieces, with no read
-- that fails or waits past the limit, then the other end reads exactly that payload, leaves what
-- follows it unread, and the two are in step again.
pub from_stream-write_stream :
    {S C : Type 0} (enc : Encryption S) (comp : Compression C) (P : S → S → Type 0)
    (Q : C → C → Type 0) (payload wire rest : Bytes) (a b : Link S C)
    → CipherPair enc P
    → CompressorPair comp Q
    → IsPaired enc comp P Q a b
    → length payload < 2 ^ 31
    → (write_stream enc comp payload a).0 ≡ ok tt
    → (write_stream enc comp payload a).1.stream.output ≡ a.stream.output ++ wire
    → All (IsQuiet b.client.config.timeout) b.stream.input
    → content b.stream.input ≡ wire ++ rest
    → ((from_stream enc comp b).0 ≡ ok payload)
      × (content (from_stream enc comp b).1.stream.input ≡ rest)
      × IsPaired enc comp P Q (write_stream enc comp payload a).1 (from_stream enc comp b).1
from_stream-write_stream enc comp P Q payload wire rest a b cp zp paired short sent out quiet e =
    let z = zp.restored a.client.compressor b.client.compressor paired.compressors payload in
    let o =
      cp.understood a.client.encryptor b.client.encryptor paired.ciphers
        (get_client a.client.sequence).0 z.body (z.fits short) in
    let w = write_stream-eq enc comp payload z.body o.wire z.sender o.sender a z.deflates o.seals in
    let output = output-write_with_timeout a.client.config.timeout o.wire a.stream (rw w at sent) in
    let on_wire : wire ≡ o.wire =
      append-cancel a.stream.output wire _ (sym (rw w at out) ∙ output) in
    let (es, f, c, q) =
      reads_back enc comp P Q cp payload rest a b z o paired (z.fits short) quiet
        (rw (← on_wire) e) in
    let (n, m) = same_numbers enc comp a b paired.numbers in
    rw (f, w) (refl, c, record { ciphers = o.still; compressors = z.still; numbers = m })
