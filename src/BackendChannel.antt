-- ===== src/BackendChannel.antt =====
-- channel/backend/channel.rs: the part of a channel that the thread of a session keeps. It answers
-- the user's part over a channel of the standard library.
pub mod Sending
pub mod Flags
use ssh_rs.Base.{
  ℕ, zero, suc, List, [], ◌∷◌, ◌++◌, Bool, true, false, not, ◌&&◌, Option, none, some, ◌⊎◌, inl,
  inr, ◌==◌, bytes_eq, length, u32, if◌then◌else◌,
}
use ssh_rs.Error.{SshResult, ok, err, ipc_error, general_error, map_ok}
use ssh_rs.Constant.{ascii, channel_data, channel_window_adjust}
use ssh_rs.Data.{Bytes, put_u8, put_u32, put_u8s, get_u8, get_u32, get_u8s}
use ssh_rs.Text.{is_utf8}
use ssh_rs.FlowControl
use ssh_rs.FlowControl.{FlowControl, tune_on_recv, tune_on_send, on_recv, on_send, can_send}
use ssh_rs.Io.{Io, pure, lift, gets, modify, ◌>>=◌, ◌>>◌, drive}
use ssh_rs.Client.{Link}
use ssh_rs.Packet.{write_stream}
use ssh_rs.Suite.{Suite}
use ssh_rs.Channel.Handle.{drop_error, signal_line, core_line, message_lines}

-- `BackendResp` of model/backend_msg.rs.
pub data BackendResp : Type 0 where
  resp_ok : ℕ → BackendResp
  resp_fail : Bytes → BackendResp
  resp_data : Bytes → BackendResp
  resp_exit_status : ℕ → BackendResp
  resp_term_msg : Bytes → BackendResp
  resp_close : BackendResp

-- `Sender<BackendResp>`: what was sent, and how many more are taken before the receiver is dropped,
-- if it ever is.
pub record Sender : Type 0 where
  pub sent : List BackendResp
  pub left : Option ℕ

-- `link` is the client and the stream that each call gets.
pub record BackendChannel (S C : Type 0) : Type 0 where
  pub snd : Sender
  pub server_channel_no : ℕ
  pub client_channel_no : ℕ
  pub remote_close : Bool
  pub local_close : Bool
  pub flow_control : FlowControl
  pub pending_send : Bytes
  pub link : Link S C

abbrev pub closed : {S C : Type 0} → BackendChannel S C → Bool
closed ch = ch.local_close && ch.remote_close

unfoldable pub post_by : Option ℕ → BackendResp → Io Sender (Unit {0})
post_by (some zero) resp s = (err (ipc_error (ascii "sending on a closed channel")), s)
post_by (some (suc n)) resp s = (ok tt, record { sent = s.sent ++ (resp ∷ []); left = some n })
post_by none resp s = (ok tt, record { sent = s.sent ++ (resp ∷ []); left = none })

-- `self.snd.send(resp)?`
unfoldable pub post : {S C : Type 0} → BackendResp → Io (BackendChannel S C) (Unit {0})
post resp ch = let (r, s) = post_by ch.snd.left resp ch.snd in (r, record ch { snd = s })

unfoldable pub new : {S C : Type 0} → ℕ → ℕ → ℕ → Sender → Link S C → SshResult (BackendChannel S C)
new server_no client_no remote_window snd link =
    let (r, s) = post_by snd.left (resp_ok server_no) snd in
    map_ok
      (λ u. record {
        snd = s;
        server_channel_no = server_no;
        client_channel_no = client_no;
        remote_close = false;
        local_close = false;
        flow_control = FlowControl.new remote_window;
        pending_send = [];
        link = link;
      })
      r

-- The lines of a message on a signal: what is no text is left out.
abbrev pub line_if_text : (Bytes → Bytes) → Bytes → Bytes
line_if_text line b = if is_utf8 b then line b else []

module _ {S C : Type 0} where
  unfoldable pub handle_exit_status : Bytes → Io (BackendChannel S C) (Unit {0})
  handle_exit_status d = do
    (maybe_false, d1) ← lift (get_u8 d)
    if maybe_false == 0 then (lift (get_u32 d1) >>= λ p. post (resp_exit_status p.0)) else pure tt

  -- The text of the message behind its test.
  unfoldable pub exit_signal_text : Bytes → Io (BackendChannel S C) Bytes
  exit_signal_text d1 = do
    (sig_name, d2) ← lift (get_u8s d1)
    (core, d3) ← lift (get_u8 d2)
    (err_msg, d4) ← lift (get_u8s d3)
    pure (
        line_if_text signal_line sig_name ++ (core_line core ++ line_if_text message_lines err_msg))

  unfoldable pub handle_exit_signal : Bytes → Io (BackendChannel S C) (Unit {0})
  handle_exit_signal d = do
    (maybe_false, d1) ← lift (get_u8 d)
    msg ← (if maybe_false == 0 then exit_signal_text d1 else pure [])
    post (resp_term_msg msg)

  unfoldable pub recv_rqst : Bytes → Io (BackendChannel S C) (Unit {0})
  recv_rqst d = do
    (status, d1) ← lift (get_u8s d)
    if bytes_eq status (ascii "exit-status")
        then drop_error (handle_exit_status d1)
        else if bytes_eq status (ascii "exit-signal")
        then drop_error (handle_exit_signal d1)
        else pure tt

  unfoldable pub on_local_close : Io (BackendChannel S C) (Unit {0})
  on_local_close = modify λ ch. record ch { local_close = true }

  unfoldable pub on_remote_close : Io (BackendChannel S C) (Unit {0})
  on_remote_close ch =
      if ch.local_close
      then (ok tt, record ch { remote_close = true })
      else post resp_close (record ch { remote_close = true })

  unfoldable pub success : Io (BackendChannel S C) (Unit {0})
  success ch = post (resp_ok ch.client_channel_no) ch

  unfoldable pub failed : Io (BackendChannel S C) (Unit {0})
  failed = post (resp_fail [])

module _ {S C : Type 0} (su : Suite S C) where
  unfoldable pub send : Bytes → Io (BackendChannel S C) (Unit {0})
  send payload ch =
      if closed ch
      then (err (general_error (ascii "Send data on a closed channel")), ch)
      else (let (r, l) = write_stream su.enc su.comp payload ch.link in (r, record ch { link = l }))

  -- CHANNEL_DATA with these bytes.
  unfoldable pub send_chunk : Bytes → Io (BackendChannel S C) (Unit {0})
  send_chunk now ch = send (put_u8s (put_u32 (put_u8 [] channel_data) ch.server_channel_no) now) ch

  -- A round of `try_send_data` with bytes that are pending.
  unfoldable pub send_round : Unit {0} → Io (BackendChannel S C) (Unit {0} ⊎ Unit {0})
  send_round u ch =
      if (not (length ch.pending_send == 0)) && can_send ch.flow_control
      then (let (fc, now, later) = tune_on_send ch.flow_control ch.pending_send in
          (send_chunk now >> pure (inl tt)) (record ch { flow_control = fc; pending_send = later }))
      else (ok (inr tt), ch)

  unfoldable pub try_send_data : Io (BackendChannel S C) (Unit {0})
  try_send_data = drive (λ u ch. length ch.pending_send) send_round tt

  unfoldable pub send_data : Bytes → Io (BackendChannel S C) (Unit {0})
  send_data data' ch = try_send_data (record ch { pending_send = ch.pending_send ++ data' })

  unfoldable pub send_window_adjust : ℕ → Io (BackendChannel S C) (Unit {0})
  send_window_adjust to_add ch =
      send (put_u32 (put_u32 (put_u8 [] channel_window_adjust) ch.server_channel_no) to_add)
        (record ch { flow_control = on_send ch.flow_control to_add })

  unfoldable pub recv : Bytes → Io (BackendChannel S C) (Unit {0})
  recv d ch =
      (lift (get_u8s d) >>= λ p ch.
      let (fc, kept) = tune_on_recv ch.flow_control p.0 in
      (send_window_adjust (u32 (length kept)) >> post (resp_data kept))
        (record ch { flow_control = fc }))
        ch

  unfoldable pub recv_window_adjust : ℕ → Io (BackendChannel S C) (Unit {0})
  recv_window_adjust to_add ch =
      let ch' = record ch { flow_control = on_recv ch.flow_control to_add } in
      if length ch.pending_send == 0 then (ok tt, ch') else try_send_data ch'
