-- ===== src/Channel/Loops.antt =====
-- The loops of channel/local/channel.rs: receiving, closing, and sending under flow control.
use ssh_rs.Base.{Option, some, none, ℕ, ◌+◌, [], ◌∷◌, ◌++◌, ◌⊎◌, inl, inr, if◌then◌else◌, length}
use ssh_rs.Error.{ok}
use ssh_rs.Constant.{channel_data}
use ssh_rs.Data.{Bytes, put_u8, put_u32, put_u8s}
use ssh_rs.FlowControl.{tune_on_send, can_send}
use ssh_rs.Io.{Io, pure, ◌>>=◌, ◌>>◌, drive}
use ssh_rs.Packet.{try_from_stream}
use ssh_rs.Suite.{Suite}
use ssh_rs.Kex.{incoming}
use ssh_rs.Channel.{ChannelRead, read_data, read_code, Channel, closed, on_link, send, send_close}
use ssh_rs.Channel.Handle.{handle_msg, recv_once}

-- The bytes that are still to come.
abbrev pub waiting : {S C : Type 0} → Channel S C → ℕ
waiting ch = incoming ch.link

module _ {S C : Type 0} (su : Suite S C) where
  -- The loop ends with the bytes of a data packet, and goes on after any other.
  abbrev pub data_or_again : ChannelRead → Unit {0} ⊎ Bytes
  data_or_again (read_data b) = inr b
  data_or_again (read_code code) = inl tt

  unfoldable pub recv_round : Unit {0} → Io (Channel S C) (Unit {0} ⊎ Bytes)
  recv_round u ch =
      if closed ch then (ok (inr []), ch) else (recv_once su >>= λ r. pure (data_or_again r)) ch

  unfoldable pub recv : Io (Channel S C) Bytes
  recv = drive (λ u. waiting) recv_round tt

  abbrev pub data_only : ChannelRead → Option Bytes
  data_only (read_data b) = some b
  data_only (read_code code) = none

  -- What is done with a packet, if there is one.
  abbrev pub try_handle : Option Bytes → Io (Channel S C) (Option Bytes)
  try_handle none = pure none
  try_handle (some payload) = handle_msg su payload >>= λ r. pure (data_only r)

  unfoldable pub try_recv : Io (Channel S C) (Option Bytes)
  try_recv = do packet ← on_link (try_from_stream su.enc su.comp); try_handle packet

  unfoldable pub recv_to_end_round : Bytes → Io (Channel S C) (Bytes ⊎ Bytes)
  recv_to_end_round resp ch =
      if closed ch then (ok (inr resp), ch) else (recv >>= λ b. pure (inl (resp ++ b))) ch

  unfoldable pub recv_to_end : Io (Channel S C) Bytes
  recv_to_end = drive (λ resp. waiting) recv_to_end_round []

  unfoldable pub receive_close : Io (Channel S C) (Unit {0})
  receive_close ch = if ch.remote_close then (ok tt, ch) else (recv_to_end >>= λ b. pure tt) ch

  unfoldable pub close : Io (Channel S C) (Unit {0})
  close = send_close su >> receive_close

  abbrev pub append_data : Bytes → ChannelRead → Bytes
  append_data resp (read_data b) = resp ++ b
  append_data resp (read_code code) = resp

  -- `while !self.flow_control.can_send()`.
  unfoldable pub window_round : Bytes → Io (Channel S C) (Bytes ⊎ Bytes)
  window_round resp ch =
      if can_send ch.flow_control
      then (ok (inr resp), ch)
      else (recv_once su >>= λ r. pure (inl (append_data resp r))) ch

  unfoldable pub await_window : Bytes → Io (Channel S C) Bytes
  await_window resp = drive (λ r. waiting) window_round resp

  -- What is left to send su, and what came while waiting for the window.
  abbrev pub rest_or_done : Bytes → Bytes → Io (Channel S C) ((Bytes × Bytes) ⊎ Bytes)
  rest_or_done [] resp = pure (inr resp)
  rest_or_done (b ∷ rest) resp = await_window resp >>= λ resp'. pure (inl (b ∷ rest, resp'))

  unfoldable pub send_round : Bytes × Bytes → Io (Channel S C) ((Bytes × Bytes) ⊎ Bytes)
  send_round (buf, resp) ch =
      let (fc, now, later) = tune_on_send ch.flow_control buf in
      (send su (put_u8s (put_u32 (put_u8 [] channel_data) ch.server_channel_no) now)
          >> rest_or_done later resp)
        (record ch { flow_control = fc })

  unfoldable pub send_data : Bytes → Io (Channel S C) Bytes
  send_data buf = drive (λ t ch. length t.0 + waiting ch) send_round (buf, [])
