-- ===== src/Channel/Handle.antt =====
-- `handle_msg` of channel/local/channel.rs, one arm of its match at a time.
use ssh_rs.Base.{
  ℕ, [], ◌∷◌, ◌++◌, Bool, true, false, zero, suc, ◌==◌, bytes_eq, if◌then◌else◌, length, u32,
}
use ssh_rs.Error.{SshResult, ok, err, data_format_error, general_error}
use ssh_rs.Constant.{
  ascii, kexinit, channel_data, channel_extended_data, global_request, request_failure,
  channel_window_adjust, channel_request, channel_failure, channel_close,
}
use ssh_rs.Data.{Bytes, put_u8, get_u8, get_u32, get_u8s}
use ssh_rs.Text.{is_utf8}
use ssh_rs.FlowControl.{tune_on_recv}
use ssh_rs.AlgList.{unpack}
use ssh_rs.Hash.{ctx_new, set_i_s}
use ssh_rs.Io.{Io, pure, lift, gets, modify, ◌>>=◌, ◌>>◌}
use ssh_rs.Packet.{from_stream}
use ssh_rs.Suite.{Suite}
use ssh_rs.Kex.{key_agreement}
use ssh_rs.Channel.{
  ChannelRead, read_data, read_code, Channel, on_link, send, send_close, send_window_adjust,
  recv_window_adjust,
}

-- The arms of the match on the message code that do something. EOF, CHANNEL_SUCCESS and codes that
-- are not known are `other`: they only return the code.
pub data Arm : Type 0 where
  rekey data_in extended_in global_in window_in request_in failure_in close_in other : Arm

unfoldable pub arm_of : ℕ → Arm
arm_of code =
    if code == kexinit
    then rekey
    else if code == channel_data
    then data_in
    else if code == channel_extended_data
    then extended_in
    else if code == global_request
    then global_in
    else if code == channel_window_adjust
    then window_in
    else if code == channel_request
    then request_in
    else if code == channel_failure
    then failure_in
    else if code == channel_close
    then close_in
    else other

-- `String::from_utf8(..)?`.
abbrev pub utf8_text : Bytes → SshResult Bytes
utf8_text b = if is_utf8 b then ok b else err data_format_error

abbrev pub no_error : SshResult (Unit {0}) → SshResult (Unit {0})
no_error (err e) = ok tt
no_error r = r

-- `let _ = ..`: an error is dropped, a panic is not.
abbrev pub drop_error : {S : Type 0} → Io S (Unit {0}) → Io S (Unit {0})
drop_error m s = let (r, s') = m s in (no_error r, s')

abbrev pub core_dumped : ℕ → Bytes
core_dumped zero = ascii "False"
core_dumped (suc n) = ascii "True"

unfoldable pub signal_line : Bytes → Bytes
signal_line sig_name = ascii "Current request is terminated by signal: " ++ (sig_name ++ (10 ∷ []))

unfoldable pub core_line : ℕ → Bytes
core_line core = ascii "Coredumped: " ++ (core_dumped core ++ (10 ∷ []))

unfoldable pub message_lines : Bytes → Bytes
message_lines err_msg = ascii "Error message:" ++ (10 ∷ (err_msg ++ (10 ∷ [])))

module _ {S C : Type 0} (su : Suite S C) where
  unfoldable pub handle_exit_status : Bytes → Io (Channel S C) (Unit {0})
  handle_exit_status d = do
    (maybe_false, d1) ← lift (get_u8 d)
    if maybe_false == 0
        then (lift (get_u32 d1) >>= λ p. modify λ ch. record ch { exit_status = p.0 })
        else pure tt

  abbrev pub append_msg : Bytes → Io (Channel S C) (Unit {0})
  append_msg text = modify λ ch. record ch { terminate_msg = ch.terminate_msg ++ text }

  -- The body of `handle_exit_signal` behind its test.
  unfoldable pub exit_signal_texts : Bytes → Io (Channel S C) (Unit {0})
  exit_signal_texts d1 = do
    (name, d2) ← lift (get_u8s d1)
    sig_name ← lift (utf8_text name)
    append_msg (signal_line sig_name)
    (core, d3) ← lift (get_u8 d2)
    append_msg (core_line core)
    (message, d4) ← lift (get_u8s d3)
    err_msg ← lift (utf8_text message)
    append_msg (message_lines err_msg)

  unfoldable pub handle_exit_signal : Bytes → Io (Channel S C) (Unit {0})
  handle_exit_signal d = do
    (maybe_false, d1) ← lift (get_u8 d)
    if maybe_false == 0 then exit_signal_texts d1 else pure tt

  unfoldable pub on_rekey : Bytes → Io (Channel S C) ChannelRead
  on_rekey payload = do
    server_algs ← lift (unpack payload)
    digest ← on_link (key_agreement su server_algs (set_i_s payload ctx_new))
    pure (read_code kexinit)

  -- What the window allows of received bytes is kept and answered with an adjustment.
  unfoldable pub accept : Bytes → Io (Channel S C) ChannelRead
  accept buf ch =
      let (fc, kept) = tune_on_recv ch.flow_control buf in
      (send_window_adjust su (u32 (length kept)) >> pure (read_data kept))
        (record ch { flow_control = fc })

  unfoldable pub on_data : Bytes → Io (Channel S C) ChannelRead
  on_data d = do
    (cc, d1) ← lift (get_u32 d)
    ours ← gets (λ ch. ch.client_channel_no)
    if cc == ours then (lift (get_u8s d1) >>= λ p. accept p.0) else pure (read_code channel_data)

  unfoldable pub on_extended_data : Bytes → Io (Channel S C) ChannelRead
  on_extended_data d = do
    (cc, d1) ← lift (get_u32 d)
    ours ← gets (λ ch. ch.client_channel_no)
    if cc == ours
        then (lift (get_u32 d1) >>= λ p. lift (get_u8s p.1) >>= λ q. accept q.0)
        else pure (read_code channel_extended_data)

  unfoldable pub on_global_request : Io (Channel S C) ChannelRead
  on_global_request = do send su (put_u8 [] request_failure); pure (read_code global_request)

  unfoldable pub on_window_adjust : Bytes → Io (Channel S C) ChannelRead
  on_window_adjust d = do
    (recipient, d1) ← lift (get_u32 d)
    (rws, d2) ← lift (get_u32 d1)
    recv_window_adjust su rws
    pure (read_code channel_window_adjust)

  abbrev pub exit_request : Bytes → Bytes → Io (Channel S C) (Unit {0})
  exit_request status d =
      if bytes_eq status (ascii "exit-status")
      then drop_error (handle_exit_status d)
      else if bytes_eq status (ascii "exit-signal")
      then drop_error (handle_exit_signal d)
      else pure tt

  -- A request for our channel, and one for another.
  unfoldable pub request_for : Bool → Bytes → Io (Channel S C) (Unit {0})
  request_for true d = lift (get_u8s d) >>= λ p. exit_request p.0 p.1
  request_for false d = pure tt

  unfoldable pub on_request : Bytes → Io (Channel S C) ChannelRead
  on_request d = do
    (cc, d1) ← lift (get_u32 d)
    ours ← gets (λ ch. ch.client_channel_no)
    request_for (cc == ours) d1
    pure (read_code channel_request)

  -- A close of our channel, and of another.
  unfoldable pub close_for : Bool → Io (Channel S C) (Unit {0})
  close_for true ch = send_close su (record ch { remote_close = true })
  close_for false ch = (ok tt, ch)

  unfoldable pub on_close : Bytes → Io (Channel S C) ChannelRead
  on_close d = do
    (cc, d1) ← lift (get_u32 d)
    ours ← gets (λ ch. ch.client_channel_no)
    close_for (cc == ours)
    pure (read_code channel_close)

  -- The match on the message code.
  unfoldable pub handle_arm : Arm → ℕ → Bytes → Bytes → Io (Channel S C) ChannelRead
  handle_arm rekey code payload d = on_rekey payload
  handle_arm data_in code payload d = on_data d
  handle_arm extended_in code payload d = on_extended_data d
  handle_arm global_in code payload d = on_global_request
  handle_arm window_in code payload d = on_window_adjust d
  handle_arm request_in code payload d = on_request d
  handle_arm failure_in code payload d = lift (err (general_error (ascii "channel failure.")))
  handle_arm close_in code payload d = on_close d
  handle_arm other code payload d = pure (read_code code)

  unfoldable pub handle_msg : Bytes → Io (Channel S C) ChannelRead
  handle_msg payload = do (code, d) ← lift (get_u8 payload); handle_arm (arm_of code) code payload d

  unfoldable pub recv_once : Io (Channel S C) ChannelRead
  recv_once = do payload ← on_link (from_stream su.enc su.comp); handle_msg payload
