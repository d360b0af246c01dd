-- ===== src/BackendChannel/Flags.antt =====
-- What the methods of a channel keep: its number, and whether it is closed on either side.
use ssh_rs.Base.{
  ℕ, ◌≡◌, [], Bool, true, false, not, ◌&&◌, ◌⊎◌, inl, inr, ◌==◌, bytes_eq, if-cases, length,
  if◌then◌else◌,
}
use ssh_rs.Error.{SshResult, ok, err, panic, hang, starved, or_return}
use ssh_rs.Constant.{ascii}
use ssh_rs.Data.{Bytes, get_u8, get_u32, get_u8s}
use ssh_rs.FlowControl.{tune_on_send, can_send, on_recv}
use ssh_rs.Io.{Io, pure, lift, ◌>>=◌}
use ssh_rs.Io.Keeps.{Keeps, bind-Keeps, lift-Keeps, then-Keeps, drive-Keeps}
use ssh_rs.Suite.{Suite}
use ssh_rs.Channel.Handle.{drop_error}
use ssh_rs.BackendChannel.{
  BackendChannel, BackendResp, resp_exit_status, resp_term_msg, closed, post, handle_exit_status,
  exit_signal_text, handle_exit_signal, recv_rqst, send, send_chunk, send_round, try_send_data,
  send_data, send_window_adjust, recv, recv_window_adjust,
}

-- The number and the two flags of a channel.
abbrev pub Has : {S C : Type 0} → ℕ → Bool → Bool → BackendChannel S C → Type 0
Has n a b ch = (ch.client_channel_no ≡ n) × (ch.local_close ≡ a) × (ch.remote_close ≡ b)

module _ {S C : Type 0} (n : ℕ) (a b : Bool) where
  abbrev pub KeepsFlags : {A : Type 0} → Io (BackendChannel S C) A → Type 0
  KeepsFlags = Keeps (Has n a b)

  if-KeepsFlags :
      {A : Type 0} (t : Bool) (x y : Io (BackendChannel S C) A)
      → KeepsFlags x
      → KeepsFlags y
      → KeepsFlags (if t then x else y)
  if-KeepsFlags true x y h k = h
  if-KeepsFlags false x y h k = k

  pub post-KeepsFlags : (resp : BackendResp) → KeepsFlags (post resp)
  unfolding post
  post-KeepsFlags resp ch h = h

  pub drop_error-KeepsFlags :
      (m : Io (BackendChannel S C) (Unit {0})) → KeepsFlags m → KeepsFlags (drop_error m)
  drop_error-KeepsFlags m h ch = h ch

  handle_exit_status-KeepsFlags : (d : Bytes) → KeepsFlags (handle_exit_status d)
  unfolding handle_exit_status
  handle_exit_status-KeepsFlags d = lift-Keeps (Has n a b) (get_u8 d) _ λ q.
      if-KeepsFlags (q.0 == 0) (lift (get_u32 q.1) >>= λ r. post (resp_exit_status r.0)) (pure tt)
        (lift-Keeps (Has n a b) (get_u32 q.1) _ λ r. post-KeepsFlags (resp_exit_status r.0))
        (λ ch h. h)

  exit_signal_text-KeepsFlags : (d : Bytes) → KeepsFlags (exit_signal_text d)
  unfolding exit_signal_text
  exit_signal_text-KeepsFlags d = lift-Keeps (Has n a b) (get_u8s d) _ λ r.
      lift-Keeps (Has n a b) (get_u8 r.1) _ λ s. lift-Keeps (Has n a b) (get_u8s s.1) _ λ t ch h. h

  handle_exit_signal-KeepsFlags : (d : Bytes) → KeepsFlags (handle_exit_signal d)
  unfolding handle_exit_signal
  handle_exit_signal-KeepsFlags d = lift-Keeps (Has n a b) (get_u8 d) _ λ q.
      bind-Keeps (Has n a b) (if q.0 == 0 then exit_signal_text q.1 else pure [])
        (λ msg. post (resp_term_msg msg))
        (if-KeepsFlags (q.0 == 0) (exit_signal_text q.1) (pure []) (exit_signal_text-KeepsFlags q.1)
          (λ ch h. h))
        λ msg. post-KeepsFlags (resp_term_msg msg)

  pub recv_rqst-KeepsFlags : (d : Bytes) → KeepsFlags (recv_rqst d)
  unfolding recv_rqst
  recv_rqst-KeepsFlags d = lift-Keeps (Has n a b) (get_u8s d) _ λ p.
      if-KeepsFlags (bytes_eq p.0 (ascii "exit-status")) (drop_error (handle_exit_status p.1)) _
        (drop_error-KeepsFlags (handle_exit_status p.1) (handle_exit_status-KeepsFlags p.1))
        (if-KeepsFlags (bytes_eq p.0 (ascii "exit-signal")) (drop_error (handle_exit_signal p.1))
          (pure tt)
          (drop_error-KeepsFlags (handle_exit_signal p.1) (handle_exit_signal-KeepsFlags p.1))
          (λ ch h. h))

  module _ (su : Suite S C) where
    pub send-KeepsFlags : (payload : Bytes) → KeepsFlags (send su payload)
    unfolding send
    send-KeepsFlags payload ch h =
        if-cases (λ (p : SshResult (Unit {0}) × BackendChannel S C). Has n a b p.1) (closed ch) _ _
          (λ e. h) (λ e. h)

    again :
        (p : SshResult (Unit {0}) × BackendChannel S C)
        → Has n a b p.1
        → Has n a b (or_return {B = Unit {0} ⊎ Unit {0}} p.0 (λ u. (ok (inl tt), p.1)) p.1).1
    again (ok u, ch) h = h
    again (err e, ch) h = h
    again (panic, ch) h = h
    again (hang, ch) h = h
    again (starved, ch) h = h

    send_round-KeepsFlags : (u : Unit {0}) → KeepsFlags (send_round su u)
    unfolding send_round send_chunk
    send_round-KeepsFlags u ch h =
        let (fc, now, later) = tune_on_send ch.flow_control ch.pending_send in
        let tuned : BackendChannel S C = record ch { flow_control = fc; pending_send = later } in
        if-cases (λ (p : SshResult (Unit {0} ⊎ Unit {0}) × BackendChannel S C). Has n a b p.1)
          ((not (length ch.pending_send == 0)) && can_send ch.flow_control) _ (ok (inr tt), ch)
          (λ e. again (send_chunk su now tuned) (send-KeepsFlags _ tuned h)) (λ e. h)

    try_send_data-KeepsFlags : KeepsFlags (try_send_data su)
    unfolding try_send_data
    try_send_data-KeepsFlags =
        drive-Keeps (Has n a b) (λ u ch. length ch.pending_send) (send_round su) tt
          send_round-KeepsFlags

    pub send_data-KeepsFlags : (d : Bytes) → KeepsFlags (send_data su d)
    unfolding send_data
    send_data-KeepsFlags d ch h = try_send_data-KeepsFlags _ h

    pub recv-KeepsFlags : (d : Bytes) → KeepsFlags (recv su d)
    unfolding recv send_window_adjust
    recv-KeepsFlags d = lift-Keeps (Has n a b) (get_u8s d) _ λ p ch h.
        then-Keeps (Has n a b) (send_window_adjust su _) (post _) (λ ch h. send-KeepsFlags _ _ h)
          (post-KeepsFlags _) _ h

    pub recv_window_adjust-KeepsFlags : (to_add : ℕ) → KeepsFlags (recv_window_adjust su to_add)
    unfolding recv_window_adjust
    recv_window_adjust-KeepsFlags to_add ch h =
        let ch' : BackendChannel S C = record ch {
          flow_control = on_recv ch.flow_control to_add;
        } in
        if-cases (λ (p : SshResult (Unit {0}) × BackendChannel S C). Has n a b p.1)
          (length ch.pending_send == 0) (ok tt, ch') (try_send_data su ch') (λ e. h)
          (λ e. try_send_data-KeepsFlags ch' h)
