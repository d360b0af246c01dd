-- ===== src/Tests/Opening.antt =====
-- The opening of a channel, at a server that first sends a request of its own.
use ssh_rs.Base.{ℕ, ◌≡◌, ◌≢◌, refl, List, [], ◌∷◌, ◌++◌, false, replicate}
use ssh_rs.Error.{ok, starved}
use ssh_rs.Data.{Bytes, put_u32, put_u8}
use ssh_rs.Frame.{frame}
use ssh_rs.Sequence.{u32_iter_default}
use ssh_rs.Stream.{chunk}
use ssh_rs.Channel
use ssh_rs.Channel.{Channel}
use ssh_rs.LocalSession.{LocalSession, open_channel}
use ssh_rs.LocalSession.Opening.{Opened, open_channel-Opened}
use ssh_rs.LocalSession.Fed.{open_channel_never_starves}
use ssh_rs.Tests.Channels.{plain_suite, plain-SuiteFed, link_with}

-- The server's number is 7, and its window is 4096.
abbrev answer : Bytes
answer = put_u32 (put_u32 (put_u32 (put_u32 (91 ∷ []) 0) 7) 4096) 1024

abbrev fresh_session : LocalSession (Unit {0}) (Unit {0})
fresh_session = record {
  link = link_with (chunk (frame 8 false (80 ∷ 0 ∷ [])) ∷ chunk (frame 8 false answer) ∷ []);
  channel_num = u32_iter_default;
}

abbrev opened_channel : Channel (Unit {0}) (Unit {0})
opened_channel = Channel.new 7 0 4096 (open_channel plain_suite fresh_session).1.link

opened_run : (open_channel plain_suite fresh_session).0 ≡ ok opened_channel
unfolding open_channel ssh_rs.LocalSession.ask_channel ssh_rs.LocalSession.send_open_channel
    ssh_rs.Packet.write_stream ssh_rs.Packet.compress_with ssh_rs.Packet.block_size
    ssh_rs.Packet.client_number ssh_rs.Packet.encrypt_with ssh_rs.Packet.write_out
    ssh_rs.Stream.write_with_timeout frame ssh_rs.Base.u32_be
    ssh_rs.LocalSession.receive_open_channel ssh_rs.Io.drive ssh_rs.LocalSession.open_round
    ssh_rs.Packet.from_stream ssh_rs.Packet.read_in ssh_rs.Stream.read_with_timeout
    ssh_rs.Frame.get_align ssh_rs.Frame.pad_len ssh_rs.Packet.read_packet
    ssh_rs.Packet.server_number ssh_rs.Packet.data_len_with ssh_rs.Plain.none_data_len
    ssh_rs.Plain.none_packet_len ssh_rs.Data.get_u32 ssh_rs.Base.u32_of ssh_rs.Packet.decrypt_with
    ssh_rs.Frame.unframe ssh_rs.Data.get_u8 ssh_rs.Packet.decompress_with
    ssh_rs.LocalSession.open_arm put_u32 ssh_rs.OpenReply.confirmation ssh_rs.Sequence.next
opened_run = refl

open_channel-Opened_example : Opened plain_suite fresh_session opened_channel
open_channel-Opened_example =
    open_channel-Opened plain_suite fresh_session opened_channel opened_run

open_channel_never_starves_example : (open_channel plain_suite fresh_session).0 ≢ starved
open_channel_never_starves_example =
    open_channel_never_starves plain_suite plain-SuiteFed fresh_session
