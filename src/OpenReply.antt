-- ===== src/OpenReply.antt =====
-- The answers to CHANNEL_OPEN in session/session_local.rs.
use ssh_rs.Base.{ℕ, ◌++◌, ◌⊎◌, ◌==◌, if◌then◌else◌}
use ssh_rs.Error.{SshResult, ok, err, general_error, ◌>>=◌}
use ssh_rs.Constant.{ascii}
use ssh_rs.Data.{Bytes, get_u32, get_u8s}
use ssh_rs.Text.{is_utf8}

-- `ssh_channel_fail_code`, and the text of the error for it.
unfoldable pub fail_text : ℕ → Bytes → Bytes
fail_text code description =
    if code == 1
    then ascii "ADMINISTRATIVELY_PROHIBITED: " ++ description
    else if code == 2
    then ascii "CONNECT_FAILED: " ++ description
    else if code == 3
    then ascii "UNKNOWN_CHANNEL_TYPE: " ++ description
    else if code == 4
    then ascii "RESOURCE_SHORTAGE: " ++ description
    else description

-- `CHANNEL_OPEN_CONFIRMATION`: the number of the server, and its window.
unfoldable pub confirmation : Bytes → SshResult (ℕ × ℕ)
confirmation d = do
  (recipient, d1) ← get_u32 d
  (server_channel_no, d2) ← get_u32 d1
  (remote_window_size, d3) ← get_u32 d2
  (packet_size, d4) ← get_u32 d3
  ok (server_channel_no, remote_window_size)

-- `CHANNEL_OPEN_FAILURE`: the text of the error that it becomes.
unfoldable pub failure_text : Bytes → SshResult Bytes
failure_text d = do
  (recipient, d1) ← get_u32 d
  (code, d2) ← get_u32 d1
  (description, d3) ← get_u8s d2
  (language, d4) ← get_u8s d3
  ok (fail_text code (if is_utf8 description then description else ascii "error"))

unfoldable pub refusal : Bytes → SshResult (Unit {0} ⊎ (ℕ × ℕ))
refusal d = do text ← failure_text d; err (general_error text)
