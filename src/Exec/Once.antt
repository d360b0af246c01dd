-- ===== src/Exec/Once.antt =====
-- An exec channel sends one command.
use ssh_rs.Base.{◌≡◌, true, arith}
use ssh_rs.Error.{err, general_error}
use ssh_rs.Constant.{ascii}
use ssh_rs.Data.{Bytes}
use ssh_rs.Suite.{Suite}
use ssh_rs.Exec.{ChannelExec, exec_command}

module _ {S C : Type 0} (su : Suite S C) where
  spent :
      (command : Bytes) (x : ChannelExec S C)
      → x.command_send ≡ true
      → exec_command su command x
        ≡ (err (general_error (ascii "An exec channle can only send one command")), x)
  unfolding exec_command
  spent command x h = ground arith

  command_send-exec_command :
      (command : Bytes) (x : ChannelExec S C) → (exec_command su command x).1.command_send ≡ true
  unfolding exec_command
  command_send-exec_command command x = ground arith

  -- After a first command, whether it could be sent or not, every further command is an error and
  -- changes nothing: neither is anything written, nor does the channel change.
  pub exec_command_twice :
      (first second : Bytes) (x : ChannelExec S C)
      → exec_command su second (exec_command su first x).1 ≡ (
        err (general_error (ascii "An exec channle can only send one command")),
        (exec_command su first x).1,
      )
  exec_command_twice first second x = spent second _ (command_send-exec_command first x)
