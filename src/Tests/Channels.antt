-- ===== src/Tests/Channels.antt =====
-- Runs of the key exchange and of a channel, with algorithms that do nothing.
use mathlib.Core.Path.{subst}
use ssh_rs.Base.{
  ℕ, ◌≡◌, ◌≢◌, refl, ap, List, [], ◌∷◌, ◌++◌, Bool, true, false, ◌⊎◌, inl, inr, arith, replicate,
  none, some,
}
use ssh_rs.Error.{ok, starved}
use ssh_rs.Constant.{ascii, local_window_size, newkeys}
use ssh_rs.Data.{Bytes}
use ssh_rs.Hash.{sha256}
use ssh_rs.Stream.{Stream, ReadEvent, chunk}
use ssh_rs.Config.{default_config}
use ssh_rs.Client
use ssh_rs.Client.{Link}
use ssh_rs.Plain.{encryption_none, compress_none, none_data_len, none_packet_len}
use ssh_rs.Data.Fed.{get_u32-IsFed}
use ssh_rs.Error.{IsFed, >>=-IsFed}
use ssh_rs.Frame.{frame}
use ssh_rs.Packet.{from_stream}
use ssh_rs.Packet.Fed.{AlwaysFed}
use ssh_rs.Suite.{KeyExchange, Suite}
use ssh_rs.Kex.Fed.{SuiteFed}
use ssh_rs.Channel
use ssh_rs.Channel.{Channel, closed}
use ssh_rs.Channel.Loops.{recv, recv_to_end, send_data, close}
use ssh_rs.Channel.Steady.{IsAnswered}
use ssh_rs.Channel.Reach.{Reaches, start, call, receives, sends, Reaches-new}
use ssh_rs.Channel.Closing.{closed-close}
use ssh_rs.Channel.Sends.{calls_never_starve}

abbrev pub echo_exchange : KeyExchange
echo_exchange = record {
  get_public_key = 1 ∷ [];
  get_shared_secret = λ qs. ok (9 ∷ qs);
  get_hash_type = sha256;
}

abbrev pub plain_suite : Suite (Unit {0}) (Unit {0})
plain_suite = record {
  enc = encryption_none;
  comp = compress_none;
  ring = record { sha1_digest = λ b. 1 ∷ []; sha256_digest = λ b. 2 ∷ [] };
  cookie = λ n. replicate 16 n;
  key_exchange_from = λ kex n. ok echo_exchange;
  verify_signature = λ pk ks m sig. ok false;
  encryption_from = λ cipher hash mac. ok tt;
  compression_from = λ compress. tt;
}

none_data_len-IsFed : (b : Bytes) → IsFed (none_data_len b)
unfolding none_data_len none_packet_len
none_data_len-IsFed b =
    >>=-IsFed (none_packet_len b) _ (>>=-IsFed _ _ (get_u32-IsFed b) (λ p. tt)) (λ len. tt)

plain-AlwaysFed : AlwaysFed encryption_none compress_none
plain-AlwaysFed = record {
  encrypt_fed = λ s seq b. tt;
  decrypt_fed = λ s seq b. tt;
  data_len_fed = λ s seq b. none_data_len-IsFed b;
  compress_fed = λ c b. tt;
  decompress_fed = λ c b. tt;
}

pub plain-SuiteFed : SuiteFed plain_suite
plain-SuiteFed = record {
  packets = plain-AlwaysFed;
  key_exchange_fed = λ kex n. tt;
  secret_fed = λ kex n kx e qs.
      let same : echo_exchange ≡ kx = cc in subst (λ k. IsFed (k.get_shared_secret qs)) same tt;
  encryption_fed = λ cipher hash mac. tt;
  verify_fed = λ pk ks m sig. tt;
}

-- A link whose peer sends these packets and closes the stream.
abbrev pub link_with : List ReadEvent → Link (Unit {0}) (Unit {0})
link_with es = record {
  client = Client.new tt tt default_config;
  stream = record { input = es; sink = []; output = [] };
  draws = 0;
}

-- NEWKEYS in a packet of its own, with a padding of 10 bytes.
abbrev pub newkeys_packet : Bytes
newkeys_packet = 0 ∷ 0 ∷ 0 ∷ 12 ∷ 10 ∷ 21 ∷ replicate 10 0

abbrev pub early_link : Link (Unit {0}) (Unit {0})
early_link = link_with (chunk newkeys_packet ∷ [])

early_read : (from_stream encryption_none compress_none early_link).0 ≡ ok (newkeys ∷ [])
unfolding from_stream ssh_rs.Packet.block_size ssh_rs.Packet.read_in ssh_rs.Stream.read_with_timeout
    ssh_rs.Frame.get_align ssh_rs.Packet.read_packet ssh_rs.Packet.server_number
    ssh_rs.Packet.data_len_with none_data_len none_packet_len ssh_rs.Data.get_u32 ssh_rs.Base.u32_of
    ssh_rs.Packet.decrypt_with ssh_rs.Frame.unframe ssh_rs.Data.get_u8 ssh_rs.Packet.decompress_with
early_read = refl

-- CHANNEL_CLOSE for channel 0, with a padding of 14 bytes.
abbrev close_packet : Bytes
close_packet = 0 ∷ 0 ∷ 0 ∷ 20 ∷ 14 ∷ 97 ∷ 0 ∷ 0 ∷ 0 ∷ 0 ∷ replicate 14 0

abbrev pub channel : Channel (Unit {0}) (Unit {0})
channel = Channel.new 5 0 100 (link_with (chunk close_packet ∷ []))

-- The peer has closed it, and we have not.
abbrev half_closed : Channel (Unit {0}) (Unit {0})
half_closed = record channel { remote_close = true }

close_run : (close plain_suite half_closed).0 ≡ ok tt
unfolding close Channel.send_close Channel.send ssh_rs.Packet.write_stream
    ssh_rs.Packet.compress_with ssh_rs.Packet.block_size ssh_rs.Packet.client_number
    ssh_rs.Packet.encrypt_with ssh_rs.Packet.write_out ssh_rs.Stream.write_with_timeout frame
    ssh_rs.Base.u32_be ssh_rs.Channel.Loops.receive_close
close_run = refl

closed-close_example : closed (close plain_suite half_closed).1 ≡ true
closed-close_example = closed-close plain_suite half_closed close_run

calls_never_starve_example :
    ((recv plain_suite channel).0 ≢ starved)
    × ((recv_to_end plain_suite channel).0 ≢ starved)
    × ((send_data plain_suite (ascii "hi") channel).0 ≢ starved)
    × ((close plain_suite channel).0 ≢ starved)
calls_never_starve_example = calls_never_starve plain_suite plain-SuiteFed channel (ascii "hi")

abbrev two_calls :
    Reaches plain_suite channel (recv plain_suite (send_data plain_suite (ascii "hi") channel).1).1
two_calls =
    call (send_data plain_suite (ascii "hi") channel).1 _
      (call channel _ start (sends (ascii "hi"))) receives

Reaches-new_example :
    ((recv plain_suite (send_data plain_suite (ascii "hi") channel).1).1.flow_control.local_window
      ≡ local_window_size)
    × IsAnswered (recv plain_suite (send_data plain_suite (ascii "hi") channel).1).1
Reaches-new_example =
    Reaches-new plain_suite 5 0 100 (link_with (chunk close_packet ∷ [])) _ two_calls
