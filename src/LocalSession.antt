-- ===== src/LocalSession.antt =====
-- session/session_local.rs: a session without threads, which opens channels. The session owns the
-- client and the stream; a channel starts from the view of them that the session has.
pub mod Opening
pub mod Fed
use ssh_rs.Base.{ℕ, [], ◌∷◌, ◌++◌, Bool, Option, ◌⊎◌, inl, inr, ◌==◌, if◌then◌else◌}
use ssh_rs.Error.{SshResult, map_ok}
use ssh_rs.OpenReply.{confirmation, refusal}
use ssh_rs.Constant.{
  ascii, session, buf_size, local_window_size, global_request, request_failure, channel_open,
  channel_open_confirmation, channel_open_failure,
}
use ssh_rs.Data.{Bytes, put_u8, put_u32, put_str, get_u8, get_u32, get_u8s}
use ssh_rs.Sequence.{U32Iter, next, u32_iter_default}
use ssh_rs.Terminal.{TerminalSize}
use ssh_rs.Terminal
use ssh_rs.Io.{Io, lift, pure, drive, ◌>>=◌, ◌>>◌}
use ssh_rs.Client
use ssh_rs.Client.{Client, Link}
use ssh_rs.Packet.{write_stream, from_stream}
use ssh_rs.Suite.{Suite}
use ssh_rs.Kex.{incoming}
use ssh_rs.Channel
use ssh_rs.Channel.{Channel}
use ssh_rs.Exec
use ssh_rs.Exec.{ChannelExec}
use ssh_rs.Stream.{Stream}

pub record LocalSession (S C : Type 0) : Type 0 where
  pub link : Link S C
  pub channel_num : U32Iter

-- The numbers that were drawn for the connection are `draws`.
abbrev pub new : {S C : Type 0} → ℕ → Client S C → Stream → LocalSession S C
new draws client stream = record {
  link = record { client = client; stream = stream; draws = draws };
  channel_num = u32_iter_default;
}

abbrev pub set_timeout : {S C : Type 0} → Option ℕ → LocalSession S C → LocalSession S C
set_timeout timeout s = record s {
  link = record s.link { client = Client.set_timeout timeout s.link.client };
}

module _ {S C : Type 0} (su : Suite S C) where
  unfoldable pub send_open_channel : ℕ → Io (Link S C) (Unit {0})
  send_open_channel client_channel_no =
      let d = put_u32 (put_str (put_u8 [] channel_open) session) client_channel_no in
      write_stream su.enc su.comp (put_u32 (put_u32 d local_window_size) buf_size)

  -- A message in the loop: go on, or end with the numbers of the server.
  unfoldable pub open_arm : ℕ → Bytes → Io (Link S C) (Unit {0} ⊎ (ℕ × ℕ))
  open_arm code d =
      if code == channel_open_confirmation
      then lift (map_ok inr (confirmation d))
      else if code == channel_open_failure
      then lift (refusal d)
      else if code == global_request
      then write_stream su.enc su.comp (put_u8 [] request_failure) >> pure (inl tt)
      else pure (inl tt)

  unfoldable pub open_round : Unit {0} → Io (Link S C) (Unit {0} ⊎ (ℕ × ℕ))
  open_round u = do
    payload ← from_stream su.enc su.comp
    (code, d) ← lift (get_u8 payload)
    open_arm code d

  -- Each round takes a packet of what the stream has.
  unfoldable pub receive_open_channel : Io (Link S C) (ℕ × ℕ)
  receive_open_channel = drive (λ u. incoming) open_round tt

  -- The request with the number of the client, and the answer of the server.
  unfoldable pub ask_channel : ℕ → Io (Link S C) (ℕ × ℕ)
  ask_channel client_channel_no = send_open_channel client_channel_no >> receive_open_channel

  unfoldable pub open_channel : Io (LocalSession S C) (Channel S C)
  open_channel s =
      let (client_channel_no, it) = next s.channel_num in
      let (r, l) = ask_channel client_channel_no s.link in
      (
        map_ok (λ a. Channel.new a.0 client_channel_no a.1 l) r,
        record { link = l; channel_num = it },
      )

  unfoldable pub open_exec : Io (LocalSession S C) (ChannelExec S C)
  open_exec s = let (r, s') = open_channel s in (map_ok Exec.open_exec r, s')

  -- A method of a new channel, which shares the client and the stream with the session.
  abbrev pub sharing :
      Io (Channel S C) (Unit {0}) → Channel S C → Io (LocalSession S C) (Channel S C)
  sharing m ch s = let (r, ch') = m ch in (map_ok (λ u. ch') r, record s { link = ch'.link })

  unfoldable pub open_shell_terminal : TerminalSize → Io (LocalSession S C) (Channel S C)
  open_shell_terminal tv = open_channel >>= sharing (Exec.open_shell su tv)

  unfoldable pub open_shell : Io (LocalSession S C) (Channel S C)
  open_shell = open_shell_terminal (Terminal.from 80 24)
