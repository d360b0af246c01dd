-- ===== src/Exec.antt =====
-- channel/local/channel_exec.rs, and the opening of channel/local/channel_shell.rs.
pub mod Once
use ssh_rs.Base.{ℕ, List, [], ◌∷◌, Bool, true, false, if◌then◌else◌}
use ssh_rs.Error.{SshResult, ok, err, general_error, or_return}
use ssh_rs.Constant.{ascii, channel_request, exec, shell, pty_req, xterm_var}
use ssh_rs.Data.{Bytes, put_u8, put_u32, put_str, put_u8s}
use ssh_rs.Io.{Io, ◌>>=◌, ◌>>◌}
use ssh_rs.Terminal.{TerminalSize, fetch}
use ssh_rs.Suite.{Suite}
use ssh_rs.Channel.{Channel, send}
use ssh_rs.Channel.Loops.{recv_to_end, send_data}

pub record ChannelExec (S C : Type 0) : Type 0 where
  pub channel : Channel S C
  pub command_send : Bool

-- `ChannelExec::open`.
abbrev pub open_exec : {S C : Type 0} → Channel S C → ChannelExec S C
open_exec ch = record { channel = ch; command_send = false }

-- A method of the channel inside.
abbrev pub on_channel : {S C : Type 0} {A : Type 0} → Io (Channel S C) A → Io (ChannelExec S C) A
on_channel m x = let (r, ch) = m x.channel in (r, record x { channel = ch })

-- The modes of the terminal: both speeds are 115200.
abbrev pub terminal_modes : Bytes
terminal_modes = 128 ∷ 0 ∷ 1 ∷ 0xc2 ∷ 0 ∷ 129 ∷ 0 ∷ 1 ∷ 0xc2 ∷ 0 ∷ 0 ∷ []

module _ {S C : Type 0} (su : Suite S C) where
  unfoldable pub exec_request : ℕ → Bytes → Bytes
  exec_request recipient command =
      put_str (put_u8 (put_str (put_u32 (put_u8 [] channel_request) recipient) exec) 1) command

  unfoldable pub exec_command : Bytes → Io (ChannelExec S C) (Unit {0})
  exec_command command x =
      if x.command_send
      then (err (general_error (ascii "An exec channle can only send one command")), x)
      else on_channel (send su (exec_request x.channel.server_channel_no command))
          (record x { command_send = true })

  unfoldable pub get_output : Io (ChannelExec S C) Bytes
  get_output = on_channel (recv_to_end su)

  unfoldable pub send_command : Bytes → Io (ChannelExec S C) Bytes
  send_command command = exec_command command >> get_output

  unfoldable pub request_pty : TerminalSize → Io (Channel S C) (Unit {0})
  request_pty tv ch =
      let (columns, rows, width, height) = fetch tv in
      let d1 = put_str (put_u32 (put_u8 [] channel_request) ch.server_channel_no) pty_req in
      let d2 = put_u32 (put_u32 (put_str (put_u8 d1 0) xterm_var) columns) rows in
      send su (put_u8s (put_u32 (put_u32 d2 width) height) terminal_modes) ch

  unfoldable pub get_shell : Io (Channel S C) (Unit {0})
  get_shell ch =
      send su (put_u8 (put_str (put_u32 (put_u8 [] channel_request) ch.server_channel_no) shell) 0)
        ch

  -- `ChannelShell::open`.
  unfoldable pub open_shell : TerminalSize → Io (Channel S C) (Unit {0})
  open_shell tv = request_pty tv >> get_shell

  -- `ChannelShell::write`.
  unfoldable pub write_shell : Bytes → Io (Channel S C) (Unit {0})
  write_shell buf ch =
      let (r, ch') = send_data su buf ch in or_return r (λ response. (ok tt, ch')) ch'
