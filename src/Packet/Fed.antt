-- ===== src/Packet/Fed.antt =====
-- Reading a packet ends and takes bytes off the stream, whatever the cipher makes of them.
use ssh_rs.Base.{ℕ, ◌+◌, ◌-◌, ◌≤◌, ◌≡◌, refl, ap, ◌++◌, if-cases, arith, length, leb, u32, ◌^◌}
use ssh_rs.Error.{IsFed, >>=-IsFed, or_return_cases, or_return-IsFed}
use ssh_rs.Data.{Bytes}
use ssh_rs.Data.Fed.{get_u32-IsFed, get_u8-IsFed}
use ssh_rs.Frame.{get_align, unframe}
use ssh_rs.Sequence.{get_server, get_client}
use ssh_rs.Io.{◌>>=◌, Io, lift}
use ssh_rs.Io.Fed.{Paid, next-Paid, Paid-IsFed, Paid-ok, fed-Paid, require-Paid}
use ssh_rs.Client.{Encryption, Compression, Link}
use ssh_rs.Packet.{
  write_stream, from_stream, read_packet, read_in, write_out, data_len_with, decrypt_with,
  compress_with, decompress_with, encrypt_with, client_number, server_number, block_size,
}
use ssh_rs.Stream.Fed.{
  due, read_with_timeout-Paid, write_with_timeout-IsFed, input-write_with_timeout,
}

-- The algorithms end: they are not bounded loops of the model.
pub record AlwaysFed {S C : Type 0} (enc : Encryption S) (comp : Compression C) : Type 0 where
  pub encrypt_fed : (s : S) (seq : ℕ) (b : Bytes) → IsFed (enc.encrypt s seq b).0
  pub decrypt_fed : (s : S) (seq : ℕ) (b : Bytes) → IsFed (enc.decrypt s seq b).0
  pub data_len_fed : (s : S) (seq : ℕ) (b : Bytes) → IsFed (enc.data_len s seq b).0
  pub compress_fed : (c : C) (b : Bytes) → IsFed (comp.compress c b).0
  pub decompress_fed : (c : C) (b : Bytes) → IsFed (comp.decompress c b).0

unframe-IsFed : (plain : Bytes) → IsFed (unframe plain)
unfolding unframe
unframe-IsFed plain = >>=-IsFed _ _ (get_u32-IsFed plain) λ p. >>=-IsFed _ _ (get_u8-IsFed p.1) λ q.
    if-cases (IsFed {A = Bytes}) (leb (u32 (p.0 + 2 ^ 32 + 2 ^ 32 - q.0 - 1)) (length q.1)) _ _
      (λ e. tt) (λ e. tt)

get_align_long : (b : ℕ) → 1 ≤ get_align b
unfolding get_align
get_align_long b = ground arith

module _ {S C : Type 0} (enc : Encryption S) (comp : Compression C) (fed : AlwaysFed enc comp) where
  abbrev pub incoming : Link S C → ℕ
  incoming l = due l.stream.input

  pub write_stream-IsFed :
      (payload : Bytes) (l : Link S C) → IsFed (write_stream enc comp payload l).0
  unfolding write_stream compress_with block_size client_number encrypt_with write_out
  write_stream-IsFed payload l =
      or_return-IsFed (comp.compress l.client.compressor payload).0 _ _ (fed.compress_fed _ payload)
        (λ body.
          or_return-IsFed _ _ _ (fed.encrypt_fed _ _ _) λ sealed. write_with_timeout-IsFed _ _ _)

  pub incoming-write_stream :
      (payload : Bytes) (l : Link S C) → incoming (write_stream enc comp payload l).1 ≡ incoming l
  unfolding write_stream compress_with block_size client_number encrypt_with write_out
  incoming-write_stream payload l =
      or_return_cases (λ p. incoming p.1 ≡ incoming l) (comp.compress l.client.compressor payload).0
        _ _
        (λ body e.
          or_return_cases (λ p. incoming p.1 ≡ incoming l)
            (encrypt_with enc comp (get_client l.client.sequence).0 _
              (client_number enc comp (compress_with enc comp payload l).1).1).0
            _ _ (λ sealed k. ap due (input-write_with_timeout _ _ _)) (λ r f. refl))
        (λ r f. refl)

  opened-Paid :
      (seq m : ℕ) (sealed : Bytes) (l : Link S C)
      → incoming l ≤ m
      → Paid incoming
          (λ v. 0)
          m
          ((decrypt_with enc comp seq sealed >>= (λ plain. lift (unframe plain))) l)
  unfolding decrypt_with
  opened-Paid seq m sealed l h =
      next-Paid incoming (λ v. 0) m (enc.decrypt l.client.encryptor seq sealed).0 _ _
        (fed.decrypt_fed _ _ _)
        λ plain q.
          fed-Paid incoming (λ v. 0) m (unframe plain) (decrypt_with enc comp seq sealed l).1
            (unframe-IsFed plain) (λ v. omega arith)

  -- `read_packet` behind its test.
  abbrev rest_of : ℕ → ℕ → Bytes → Io (Link S C) Bytes
  rest_of seq want first =
      read_in enc comp want
      >>= (λ rest. decrypt_with enc comp seq (first ++ rest) >>= (λ plain. lift (unframe plain)))

  rest_of-Paid :
      (seq want : ℕ) (first : Bytes) (l : Link S C)
      → Paid incoming (λ v. 0) (incoming l) (rest_of seq want first l)
  unfolding read_in
  rest_of-Paid seq want first l =
      let paid = read_with_timeout-Paid l.client.config.timeout want l.stream.input in
      next-Paid incoming (λ v. 0) (incoming l) _ _ _ (Paid-IsFed due _ _ _ paid)
        λ rest r.
          opened-Paid seq (incoming l) (first ++ rest) (read_in enc comp want l).1
            (le_left want (Paid-ok due _ _ _ rest paid r))
    where
      le_left : {a c : ℕ} (b : ℕ) → a + b ≤ c → a ≤ c
      le_left b h = omega arith

  pub read_packet-Paid :
      (bsize : ℕ) (first : Bytes) (l : Link S C)
      → Paid incoming (λ v. 0) (incoming l) (read_packet enc comp bsize first l)
  unfolding read_packet server_number data_len_with
  read_packet-Paid bsize first l =
      let seq = (get_server l.client.sequence).0 in
      next-Paid incoming (λ v. 0) (incoming l) _ _ _ (fed.data_len_fed _ _ _)
        λ len e.
          let l' = (data_len_with enc comp seq first (server_number enc comp l).1).1 in
          require-Paid incoming (λ v. 0) (incoming l) (leb bsize len)
            (rest_of seq (len - bsize) first) l' (rest_of-Paid seq (len - bsize) first l')

  -- A packet that is read has taken at least a byte, and no bounded loop has starved.
  pub from_stream-Paid :
      (l : Link S C) → Paid incoming (λ v. 1) (incoming l) (from_stream enc comp l)
  unfolding from_stream block_size read_in decompress_with
  from_stream-Paid l =
      let bsize = get_align (enc.bsize l.client.encryptor) in
      let paid = read_with_timeout-Paid l.client.config.timeout bsize l.stream.input in
      next-Paid incoming _ (incoming l) _ _ _ (Paid-IsFed due _ _ _ paid) λ first r.
        let paid' = read_packet-Paid bsize first _ in
        next-Paid incoming _ (incoming l) _ _ _ (Paid-IsFed incoming _ _ _ paid') λ payload q.
          fed-Paid incoming _ (incoming l) _ _ (fed.decompress_fed _ _) (λ v. omega (
            arith,
            get_align_long (enc.bsize l.client.encryptor),
            Paid-ok due _ _ _ first paid r,
            Paid-ok incoming _ _ _ payload paid' q,
          ))
