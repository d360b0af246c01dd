-- ===== src/Channel.antt =====
-- channel/local/channel.rs: a channel of a session without threads. The channel owns its view of the
-- client and the stream, which the source shares with the session by reference counting.
pub mod Handle
pub mod Loops
pub mod Steady
pub mod Reach
pub mod Fed
pub mod Ends
pub mod Returns
pub mod Sends
pub mod Closing
use ssh_rs.Base.{
  ℕ, ◌+◌, List, [], ◌∷◌, ◌++◌, Bool, true, false, ◌&&◌, zero, suc, ◌⊎◌, inl, inr, ◌==◌, bytes_eq,
  if◌then◌else◌, length, u32,
}
use ssh_rs.Error.{SshResult, ok, err, panic, data_format_error, general_error}
use ssh_rs.Constant.{
  ascii, kexinit, channel_data, channel_extended_data, global_request, request_failure,
  channel_window_adjust, channel_request, channel_failure, channel_close,
}
use ssh_rs.Data.{Bytes, put_u8, put_u32, put_u8s, get_u8, get_u32, get_u8s}
use ssh_rs.Text.{is_utf8}
use ssh_rs.FlowControl
use ssh_rs.FlowControl.{FlowControl, tune_on_recv, tune_on_send, on_recv, on_send, can_send}
use ssh_rs.AlgList.{unpack}
use ssh_rs.Hash.{ctx_new, set_i_s}
use ssh_rs.Io.{Io, pure, lift, gets, modify, ◌>>=◌, ◌>>◌, drive}
use ssh_rs.Client.{Link}
use ssh_rs.Packet.{write_stream, from_stream}
use ssh_rs.Suite.{Suite}
use ssh_rs.Kex.{key_agreement, incoming}

pub data ChannelRead : Type 0 where
  read_data : Bytes → ChannelRead
  read_code : ℕ → ChannelRead

pub record Channel (S C : Type 0) : Type 0 where
  pub server_channel_no : ℕ
  pub client_channel_no : ℕ
  pub remote_close : Bool
  pub local_close : Bool
  pub flow_control : FlowControl
  pub link : Link S C
  pub exit_status : ℕ
  pub terminate_msg : Bytes

abbrev pub new : {S C : Type 0} → ℕ → ℕ → ℕ → Link S C → Channel S C
new server_no client_no remote_window link = record {
  server_channel_no = server_no;
  client_channel_no = client_no;
  remote_close = false;
  local_close = false;
  flow_control = FlowControl.new remote_window;
  link = link;
  exit_status = 0;
  terminate_msg = [];
}

abbrev pub closed : {S C : Type 0} → Channel S C → Bool
closed ch = ch.local_close && ch.remote_close

-- A method of the client and the stream.
abbrev pub on_link {ℓ} : {S C : Type 0} {A : Type ℓ} → Io (Link S C) A → Io (Channel S C) A
on_link m ch = let (r, l) = m ch.link in (r, record ch { link = l })

module _ {S C : Type 0} (su : Suite S C) where
  unfoldable pub send : Bytes → Io (Channel S C) (Unit {0})
  send payload = on_link (write_stream su.enc su.comp payload)

  unfoldable pub send_close : Io (Channel S C) (Unit {0})
  send_close ch =
      if ch.local_close
      then (ok tt, ch)
      else send (put_u32 (put_u8 [] channel_close) ch.server_channel_no)
          (record ch { local_close = true })

  unfoldable pub send_window_adjust : ℕ → Io (Channel S C) (Unit {0})
  send_window_adjust to_add ch =
      send (put_u32 (put_u32 (put_u8 [] channel_window_adjust) ch.server_channel_no) to_add)
        (record ch { flow_control = on_send ch.flow_control to_add })

  unfoldable pub recv_window_adjust : ℕ → Io (Channel S C) (Unit {0})
  recv_window_adjust to_add =
      modify λ ch. record ch { flow_control = on_recv ch.flow_control to_add }
