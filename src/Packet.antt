-- ===== src/Packet.antt =====
-- model/packet.rs: the binary packet protocol of RFC 4253. Arithmetic on u32 and i32 wraps, as in
-- a release build.
pub mod Paired
pub mod RoundTrip
pub mod Fed
use ssh_rs.Base.{
  ℕ, ◌+◌, ◌-◌, ◌%◌, ◌^◌, List, [], ◌∷◌, ◌++◌, Bool, Option, none, some, ltb, leb, if◌then◌else◌,
  ◌==◌, length, take, drop, replicate, u32, u32_be,
}
use ssh_rs.Error.{SshResult, ok, err, panic, or_return}
use ssh_rs.Data.{Bytes}
use ssh_rs.Frame.{get_align, frame, unframe}
use ssh_rs.Sequence.{get_client, get_server}
use ssh_rs.Stream.{Stream, read_with_timeout, try_read, write_with_timeout}
use ssh_rs.Io.{Io, pure, lift, gets, require, ◌>>=◌, ◌>>◌}
use ssh_rs.Client.{Client, Encryption, Compression, Link}

module _ {S C : Type 0} (enc : Encryption S) (comp : Compression C) where
  -- The next sequence number of each direction.
  unfoldable pub client_number : Io (Link S C) ℕ
  client_number l =
      let (n, s) = get_client l.client.sequence in
      (ok n, record l { client = record l.client { sequence = s } })

  unfoldable pub server_number : Io (Link S C) ℕ
  server_number l =
      let (n, s) = get_server l.client.sequence in
      (ok n, record l { client = record l.client { sequence = s } })

  -- The methods of the cipher and of the compressor, on the objects that the client holds.
  unfoldable pub encrypt_with : ℕ → Bytes → Io (Link S C) Bytes
  encrypt_with seq buf l =
      let (r, s) = enc.encrypt l.client.encryptor seq buf in
      (r, record l { client = record l.client { encryptor = s } })

  unfoldable pub decrypt_with : ℕ → Bytes → Io (Link S C) Bytes
  decrypt_with seq buf l =
      let (r, s) = enc.decrypt l.client.encryptor seq buf in
      (r, record l { client = record l.client { encryptor = s } })

  unfoldable pub data_len_with : ℕ → Bytes → Io (Link S C) ℕ
  data_len_with seq first l =
      let (r, s) = enc.data_len l.client.encryptor seq first in
      (r, record l { client = record l.client { encryptor = s } })

  unfoldable pub compress_with : Bytes → Io (Link S C) Bytes
  compress_with payload l =
      let (r, c) = comp.compress l.client.compressor payload in
      (r, record l { client = record l.client { compressor = c } })

  unfoldable pub decompress_with : Bytes → Io (Link S C) Bytes
  decompress_with payload l =
      let (r, c) = comp.decompress l.client.compressor payload in
      (r, record l { client = record l.client { compressor = c } })

  unfoldable pub write_out : Bytes → Io (Link S C) (Unit {0})
  write_out buf l =
      let (r, s) = write_with_timeout l.client.config.timeout buf l.stream in
      (r, record l { stream = s })

  unfoldable pub read_in : ℕ → Io (Link S C) Bytes
  read_in want l =
      let (r, es) = read_with_timeout l.client.config.timeout want l.stream.input in
      (r, record l { stream = record l.stream { input = es } })

  unfoldable pub try_read_in : ℕ → Io (Link S C) Bytes
  try_read_in want l =
      let (r, es) = try_read want l.stream.input in
      (r, record l { stream = record l.stream { input = es } })

  unfoldable pub block_size : Io (Link S C) ℕ
  block_size = gets (λ l. get_align (enc.bsize l.client.encryptor))

  unfoldable pub write_stream : Bytes → Io (Link S C) (Unit {0})
  write_stream payload = do
    body ← compress_with payload
    bsize ← block_size
    no_pad ← gets (λ l. enc.no_pad l.client.encryptor)
    seq ← client_number
    sealed ← encrypt_with seq (frame bsize no_pad body)
    write_out sealed

  -- From the first block on: the length of the packet, the rest of it, and its payload.
  unfoldable pub read_packet : ℕ → Bytes → Io (Link S C) Bytes
  read_packet bsize first = do
    seq ← server_number
    len ← data_len_with seq first
    require (leb bsize len)
    rest ← read_in (len - bsize)
    plain ← decrypt_with seq (first ++ rest)
    lift (unframe plain)

  unfoldable pub from_stream : Io (Link S C) Bytes
  from_stream = do
    bsize ← block_size
    first ← read_in bsize
    payload ← read_packet bsize first
    decompress_with payload

  -- What the read did not fill of the block stays zero, and the payload is not decompressed.
  unfoldable pub try_from_stream : Io (Link S C) (Option Bytes)
  try_from_stream = do
    bsize ← block_size
    part ← try_read_in bsize
    if length part == 0 then pure none else do
      payload ← read_packet bsize (part ++ replicate (bsize - length part) 0)
      pure (some payload)
