-- ===== src/Tests/Backend.antt =====
-- A channel of a session with a thread, at concrete states.
use ssh_rs.Base.{ℕ, ◌≡◌, refl, List, [], ◌∷◌, ◌++◌, replicate, false, none}
use ssh_rs.Error.{ok}
use ssh_rs.Data.{Bytes}
use ssh_rs.Stream.{chunk}
use ssh_rs.FlowControl
use ssh_rs.ClientLoop.{Polled, request, empty, rqst_open_channel, start, client_loop}
use ssh_rs.ClientLoop.Fine.{IsFine}
use ssh_rs.ClientLoop.Rounds.{client_loop-IsFine}
use ssh_rs.BackendChannel.{BackendChannel, try_send_data}
use ssh_rs.BackendChannel.Sending.{Emptied, try_send_data-Emptied}
use ssh_rs.Tests.Channels.{plain_suite, plain-SuiteFed, link_with}

-- Three bytes are pending, and the peer takes two.
abbrev pending : BackendChannel (Unit {0}) (Unit {0})
pending = record {
  snd = record { sent = []; left = none };
  server_channel_no = 7;
  client_channel_no = 0;
  remote_close = false;
  local_close = false;
  flow_control = FlowControl.new 2;
  pending_send = 1 ∷ 2 ∷ 3 ∷ [];
  link = link_with [];
}

left_run :
    let (r, ch) = try_send_data plain_suite pending in
    (r ≡ ok tt) × (ch.pending_send ≡ 3 ∷ []) × (ch.flow_control.remote_window ≡ 0)
unfolding try_send_data ssh_rs.Io.drive ssh_rs.BackendChannel.send_round FlowControl.can_send
    ssh_rs.BackendChannel.send_chunk ssh_rs.BackendChannel.send ssh_rs.Packet.write_stream
    ssh_rs.Packet.compress_with ssh_rs.Packet.block_size ssh_rs.Packet.client_number
    ssh_rs.Packet.encrypt_with ssh_rs.Packet.write_out ssh_rs.Stream.write_with_timeout
    ssh_rs.Frame.frame ssh_rs.Base.u32_be FlowControl.tune_on_send
left_run = (refl, refl, refl)

try_send_data-Emptied_example : Emptied plain_suite pending (try_send_data plain_suite pending)
try_send_data-Emptied_example = try_send_data-Emptied plain_suite plain-SuiteFed.packets pending

-- The user asks for channel 0.
abbrev polls : List Polled
polls = request (rqst_open_channel 0 (90 ∷ []) (record { sent = []; left = none })) ∷ empty ∷ []

-- The server confirms it, as its channel 7, with a window of 100 bytes.
abbrev confirmation_packet : Bytes
confirmation_packet =
    (0 ∷ 0 ∷ 0 ∷ 28 ∷ 10 ∷ 91 ∷ 0 ∷ 0 ∷ 0 ∷ 0 ∷ 0 ∷ 0 ∷ 0 ∷ 7 ∷ [])
    ++ (0 ∷ 0 ∷ 0 ∷ 100 ∷ 0 ∷ 0 ∷ 0 ∷ 100 ∷ [])
    ++ replicate 10 0

client_loop-IsFine_example :
    IsFine (client_loop plain_suite polls (start (link_with (chunk confirmation_packet ∷ [])))).1
client_loop-IsFine_example =
    client_loop-IsFine plain_suite polls (link_with (chunk confirmation_packet ∷ []))
