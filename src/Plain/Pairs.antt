-- ===== src/Plain/Pairs.antt =====
-- Two ends without encryption and compression understand each other.
use ssh_rs.Base.{
  ℕ, ◌+◌, ◌-◌, ◌^◌, ◌<◌, ◌≡◌, refl, ◌++◌, ◌∷◌, inl, arith, length, take, replicate, u32, u32_be,
  false,
}
use ssh_rs.Error.{ok}
use ssh_rs.Data.{Bytes}
use ssh_rs.Data.RoundTrip.{get_u32-u32_be}
use ssh_rs.Frame.{get_align, frame, pad_len}
use ssh_rs.Frame.Padding.{pad_len_bounds, length-frame}
use ssh_rs.Plain.{encryption_none, compress_none, none_data_len, none_packet_len}
use ssh_rs.Packet.Paired.{Opens, CipherPair, CompressorPair}

abbrev pub Always : Unit {0} → Unit {0} → Type 0
Always s r = Unit {0}

-- The length that the first block of a plain packet shows is that of the packet.
none_data_len-frame :
    (body : Bytes)
    → length body < 2 ^ 32 - 64
    → none_data_len (take 8 (frame 8 false body)) ≡ ok (length (frame 8 false body))
unfolding none_data_len none_packet_len frame u32_be
none_data_len-frame body h =
    let pad = pad_len 8 false (u32 (length body)) in
    let bounds = pad_len_bounds 8 false (u32 (length body)) (inl refl) (omega arith) in
    let n = u32 (1 + pad + u32 (length body)) in
    let front = take 3 (body ++ replicate pad 0) in
    ground (arith, get_u32-u32_be n (pad ∷ front) (omega arith), length-frame 8 false body)

none-Opens :
    (seq : ℕ) (body : Bytes)
    → length body < 2 ^ 32 - 64
    → Opens encryption_none Always tt tt seq body
unfolding get_align
none-Opens seq body h = record {
  wire = frame 8 false body;
  sender = tt;
  seals = refl;
  between = tt;
  after = tt;
  long = omega (
    arith,
    length-frame 8 false body,
    pad_len_bounds 8 false (u32 (length body)) (inl refl) (omega arith),
  );
  measures = λ i. (none_data_len-frame body h i, tt);
  opens = refl;
  still = tt;
}

pub encryption_none-CipherPair : CipherPair encryption_none Always
unfolding get_align
encryption_none-CipherPair = record {
  aligned = λ s r p. inl refl;
  same_block = λ s r p. refl;
  understood = λ s r p seq body h. none-Opens seq body h;
}

pub compress_none-CompressorPair : CompressorPair compress_none Always
compress_none-CompressorPair = record {
  restored = λ c d q payload. record {
    body = payload;
    sender = tt;
    receiver = tt;
    deflates = refl;
    inflates = refl;
    fits = λ h. omega arith;
    still = tt;
  };
}
