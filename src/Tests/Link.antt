-- ===== src/Tests/Link.antt =====
-- Runs of the connection: the stream, the timeout, the counters, the windows, and two plain ends.
use ssh_rs.Base.{
  ℕ, ◌+◌, ◌-◌, ◌*◌, ◌%◌, ◌^◌, ◌≤◌, ◌<◌, ◌≡◌, ◌↔◌, refl, List, [], ◌∷◌, ◌++◌, arith, length, take,
  drop, All, ◌⊎◌, inl, Option, none, some, min, IsU32, u32,
}
use ssh_rs.Error.{ok, err, hang, timeout_error, IsFailure}
use ssh_rs.Constant.{ascii}
use ssh_rs.Data.{Bytes}
use ssh_rs.Timeout
use ssh_rs.Timeout.{Timeout, wait, till_next_tick}
use ssh_rs.Timeout.Laws.{
  IsValid, EndsWithin, HasPassed, IsOpen, wait-IsValid, till_next_tick-eq-err,
}
use ssh_rs.Sequence
use ssh_rs.Sequence.{get_client, get_server}
use ssh_rs.Sequence.Cycle.{client, server, after, take_number-after}
use ssh_rs.FlowControl.{FlowControl}
use ssh_rs.FlowControl.Run.{Action, send, granted, run, total_sent, total_granted, total_sent-le}
use ssh_rs.Stream.{
  ReadEvent, chunk, read_would_block, accepts, write_fails, read_with_timeout, write_with_timeout,
  Stream,
}
use ssh_rs.Stream.Reads.{content, IsQuiet, read_with_timeout_lem}
use ssh_rs.Stream.Rounds.{ReadState, begin, rounds, read_with_timeout_at_end}
use ssh_rs.Stream.Writes.{write_with_timeout-Wrote}
use ssh_rs.Config.{default_config}
use ssh_rs.Client
use ssh_rs.Client.{Link}
use ssh_rs.Plain.{encryption_none, compress_none}
use ssh_rs.Plain.Pairs.{Always, encryption_none-CipherPair, compress_none-CompressorPair}
use ssh_rs.Packet.{write_stream, from_stream}
use ssh_rs.Packet.RoundTrip.{IsPaired, from_stream-write_stream}

fresh_timeout-IsValid : IsValid (Timeout.new (some 5))
fresh_timeout-IsValid = record { positive = omega arith; small = omega arith }

wait-IsValid_example :
    IsValid (wait (Timeout.new (some 5)) 4)
    × ((wait (Timeout.new (some 5)) 4).timeout ≡ some 5)
    × EndsWithin (some 5) 4 (wait (Timeout.new (some 5)) 4).wait_tick
wait-IsValid_example = wait-IsValid (Timeout.new (some 5)) 4 fresh_timeout-IsValid

till_next_tick-eq-err_example :
    ((till_next_tick (Timeout.new (some 5)) 6 6 ≡ err timeout_error) ↔ HasPassed (some 5) 6)
    × ((till_next_tick (Timeout.new (some 5)) 6 6 ≡ ok (wait (Timeout.new (some 5)) 6))
        ↔ IsOpen (some 5) 6)
till_next_tick-eq-err_example = till_next_tick-eq-err (Timeout.new (some 5)) 6 6

take_number-after_example :
    ((get_client (after Sequence.new (client ∷ server ∷ client ∷ []))).0 ≡ 2 % 2 ^ 32)
    × ((get_server (after Sequence.new (client ∷ server ∷ client ∷ []))).0 ≡ 1 % 2 ^ 32)
take_number-after_example = take_number-after (client ∷ server ∷ client ∷ [])

abbrev narrow : FlowControl
narrow = record { local_window = 3; remote_window = 2 }

abbrev two_actions : List Action
two_actions = send (ascii "ping") ∷ granted 4 ∷ send (ascii "ng") ∷ []

total_sent-le_example :
    total_sent narrow two_actions + (run narrow two_actions).remote_window
    ≤ 2 + total_granted two_actions
total_sent-le_example = total_sent-le two_actions narrow

abbrev in_pieces : List ReadEvent
in_pieces = chunk (ascii "pi") ∷ read_would_block 1 2 ∷ chunk (ascii "ng!") ∷ []

in_pieces-IsQuiet : All (IsQuiet (some 5)) in_pieces
in_pieces-IsQuiet = omega arith

read_with_timeout_lem_example :
    let (r, es) = read_with_timeout (some 5) 4 in_pieces in
    (r ≡ ok (take 4 (content in_pieces)))
    × (content es ≡ drop 4 (content in_pieces))
    × All (IsQuiet (some 5)) es
read_with_timeout_lem_example =
    read_with_timeout_lem (some 5) 4 in_pieces in_pieces-IsQuiet (omega arith)

read_with_timeout_at_end_example :
    ((s : ReadState) × (rounds 9 (begin (some 5) 6 in_pieces) ≡ inl s))
    × ((read_with_timeout (some 5) 6 in_pieces).0 ≡ hang)
read_with_timeout_at_end_example =
    read_with_timeout_at_end (some 5) 6 in_pieces 9 in_pieces-IsQuiet (omega arith)

abbrev narrow_stream : Stream
narrow_stream = record { input = []; sink = accepts 2 ∷ write_fails 32 ∷ []; output = ascii ">" }

write_with_timeout-Wrote_example :
    let (r, s) = write_with_timeout none (ascii "ping") narrow_stream in
    (now : Bytes) × (later : Bytes) × (ascii "ping" ≡ now ++ later)
    × (s.output ≡ ascii ">" ++ now)
    × ((later ≡ []) ⊎ IsFailure r)
    × (s.input ≡ [])
write_with_timeout-Wrote_example = write_with_timeout-Wrote none (ascii "ping") narrow_stream

-- The packet for the payload "hi" before the key exchange, with a padding of 9 bytes.
abbrev packet : Bytes
packet = 0 ∷ 0 ∷ 0 ∷ 12 ∷ 9 ∷ (ascii "hi" ++ (0 ∷ 0 ∷ 0 ∷ 0 ∷ 0 ∷ 0 ∷ 0 ∷ 0 ∷ 0 ∷ []))

abbrev sender : Link (Unit {0}) (Unit {0})
sender = record {
  client = Client.new tt tt default_config;
  stream = record { input = []; sink = []; output = ascii ">" };
  draws = 0;
}

abbrev receiver : Link (Unit {0}) (Unit {0})
receiver = record sender {
  stream = record {
    input = chunk (take 3 packet) ∷ chunk (drop 3 packet ++ ascii "!") ∷ [];
    sink = [];
    output = [];
  };
}

plain-IsPaired : IsPaired encryption_none compress_none Always Always sender receiver
plain-IsPaired = record { ciphers = tt; compressors = tt; numbers = refl }

packet_sent : (write_stream encryption_none compress_none (ascii "hi") sender).0 ≡ ok tt
unfolding write_stream ssh_rs.Packet.compress_with ssh_rs.Packet.block_size
    ssh_rs.Packet.client_number ssh_rs.Packet.encrypt_with ssh_rs.Packet.write_out
    write_with_timeout ssh_rs.Frame.frame ssh_rs.Base.u32_be
packet_sent = refl

packet_on_wire :
    (write_stream encryption_none compress_none (ascii "hi") sender).1.stream.output
    ≡ ascii ">" ++ packet
unfolding write_stream ssh_rs.Packet.compress_with ssh_rs.Packet.block_size
    ssh_rs.Packet.client_number ssh_rs.Packet.encrypt_with ssh_rs.Packet.write_out
    write_with_timeout ssh_rs.Frame.frame ssh_rs.Base.u32_be ssh_rs.Frame.pad_len
    ssh_rs.Frame.get_align
packet_on_wire = refl

from_stream-write_stream_example :
    ((from_stream encryption_none compress_none receiver).0 ≡ ok (ascii "hi"))
    × (content (from_stream encryption_none compress_none receiver).1.stream.input ≡ ascii "!")
    × IsPaired encryption_none compress_none Always Always
        (write_stream encryption_none compress_none (ascii "hi") sender).1
        (from_stream encryption_none compress_none receiver).1
from_stream-write_stream_example =
    from_stream-write_stream encryption_none compress_none Always Always (ascii "hi") packet
      (ascii "!") sender receiver encryption_none-CipherPair compress_none-CompressorPair
      plain-IsPaired (omega arith) packet_sent packet_on_wire (omega arith) refl
