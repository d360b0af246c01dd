-- ===== src/Channel/Steady.antt =====
-- What every operation of a channel keeps: the local window and the answer to a close.
use ssh_rs.Base.{
  ℕ, ◌≡◌, Bool, true, false, Bool-cases, ◌⊎◌, inl, inr, ◌==◌, bytes_eq, arith, length, u32, IsU32,
  length-take,
}
use ssh_rs.Error.{SshResult, or_return, or_return_cases}
use ssh_rs.Constant.{ascii}
use ssh_rs.Data.{Bytes, get_u8, get_u32, get_u8s}
use ssh_rs.FlowControl.{FlowControl, tune_on_recv, on_recv, on_send}
use ssh_rs.AlgList.{unpack}
use ssh_rs.Suite.{Suite}
use ssh_rs.Channel.{Channel, send, send_close, send_window_adjust, recv_window_adjust}
use ssh_rs.Channel.Handle.{
  Arm, rekey, data_in, extended_in, global_in, window_in, request_in, failure_in, close_in, other,
  handle_arm, handle_msg, recv_once, on_rekey, accept, on_data, on_extended_data, on_global_request,
  on_window_adjust, on_request, on_close, exit_request, handle_exit_status, handle_exit_signal,
  exit_signal_texts, utf8_text, request_for, close_for, arm_of,
}

-- A channel that the peer has closed is closed on our side too.
abbrev pub IsAnswered : {S C : Type 0} → Channel S C → Type 0
IsAnswered ch = (ch.remote_close ≡ false) ⊎ (ch.local_close ≡ true)

module _ {S C : Type 0} (su : Suite S C) (w : ℕ) (small : IsU32 w) where
  -- The local window is `w`, and a close is answered.
  abbrev pub IsSteady : Channel S C → Type 0
  IsSteady ch = (ch.flow_control.local_window ≡ w) × IsAnswered ch

  -- The state that comes with an outcome is steady.
  abbrev pub Steady {ℓ} : {A : Type ℓ} → SshResult A × Channel S C → Type 0
  Steady p = IsSteady p.1

  pub next-Steady {ℓ κ} :
      {A : Type ℓ} {B : Type κ} (m : SshResult A) (k : A → SshResult B × Channel S C)
      (ch : Channel S C)
      → IsSteady ch
      → ((a : A) → Steady (k a))
      → Steady (or_return m k ch)
  next-Steady m k ch h go = or_return_cases Steady m k ch (λ a e. go a) (λ r f. h)

  pub send-Steady : (payload : Bytes) (ch : Channel S C) → IsSteady ch → Steady (send su payload ch)
  unfolding send
  send-Steady payload ch h = h

  -- After `send_close` our side is closed, even if the message could not be sent.
  pub local_close-send_close : (ch : Channel S C) → (send_close su ch).1.local_close ≡ true
  unfolding send_close send
  local_close-send_close ch = ground arith

  pub send_close-Steady : (ch : Channel S C) → IsSteady ch → Steady (send_close su ch)
  unfolding send_close send
  send_close-Steady ch (h, answered) = elim (Bool-cases ch.local_close) [
    | inl e ↦ (ground (h, arith), inr (local_close-send_close ch))
    | inr e ↦ (ground (h, arith), inr (local_close-send_close ch))
  ]

  -- What is taken off the local window for received bytes is put back.
  window_restored :
      (fc : FlowControl) (buf : Bytes)
      → fc.local_window ≡ w
      → (on_send (tune_on_recv fc buf).0 (u32 (length (tune_on_recv fc buf).1))).local_window ≡ w
  unfolding tune_on_recv on_send
  window_restored fc buf h = ground (arith, length-take fc.local_window buf)

  accept-Steady : (buf : Bytes) (ch : Channel S C) → IsSteady ch → Steady (accept su buf ch)
  unfolding accept send_window_adjust send
  accept-Steady buf ch h =
      let h' : IsSteady (record ch {
        flow_control =
            on_send (tune_on_recv ch.flow_control buf).0
              (u32 (length (tune_on_recv ch.flow_control buf).1));
      }) =
        (window_restored ch.flow_control buf h.0, h.1) in
      next-Steady _ _ _ h' (λ u. h')

  on_rekey-Steady :
      (payload : Bytes) (ch : Channel S C) → IsSteady ch → Steady (on_rekey su payload ch)
  unfolding on_rekey
  on_rekey-Steady payload ch h =
      next-Steady (unpack payload) _ ch h (λ algs. next-Steady _ _ _ h (λ d. h))

  on_data-Steady : (d : Bytes) (ch : Channel S C) → IsSteady ch → Steady (on_data su d ch)
  unfolding on_data
  on_data-Steady d ch h = next-Steady (get_u32 d) _ ch h (λ p.
      elim (Bool-cases (p.0 == ch.client_channel_no)) [
        | inl e ↦ rw e (next-Steady (get_u8s p.1) _ ch h (λ q. accept-Steady q.0 ch h))
        | inr e ↦ rw e h
      ])

  on_extended_data-Steady :
      (d : Bytes) (ch : Channel S C) → IsSteady ch → Steady (on_extended_data su d ch)
  unfolding on_extended_data
  on_extended_data-Steady d ch h = next-Steady (get_u32 d) _ ch h (λ p.
      elim (Bool-cases (p.0 == ch.client_channel_no)) [
        | inl e ↦ rw e (
            next-Steady (get_u32 p.1) _ ch h
              (λ q. next-Steady (get_u8s q.1) _ ch h (λ t. accept-Steady t.0 ch h)))
        | inr e ↦ rw e h
      ])

  on_window_adjust-Steady :
      (d : Bytes) (ch : Channel S C) → IsSteady ch → Steady (on_window_adjust su d ch)
  unfolding on_window_adjust recv_window_adjust on_recv
  on_window_adjust-Steady d ch h =
      next-Steady (get_u32 d) _ ch h (λ p. next-Steady (get_u32 p.1) _ ch h (λ q. h))

  handle_exit_status-Steady :
      (d : Bytes) (ch : Channel S C) → IsSteady ch → Steady (handle_exit_status su d ch)
  unfolding handle_exit_status
  handle_exit_status-Steady d ch h = next-Steady (get_u8 d) _ ch h (λ p.
      elim (Bool-cases (p.0 == 0)) [
        | inl e ↦ rw e (next-Steady (get_u32 p.1) _ ch h (λ q. h))
        | inr e ↦ rw e h
      ])

  exit_signal_texts-Steady :
      (d : Bytes) (ch : Channel S C) → IsSteady ch → Steady (exit_signal_texts su d ch)
  unfolding exit_signal_texts
  exit_signal_texts-Steady d ch h = next-Steady (get_u8s d) _ ch h (λ p.
      next-Steady (utf8_text p.0) _ ch h (λ name. next-Steady (get_u8 p.1) _ _ h (λ q.
        next-Steady (get_u8s q.1) _ _ h (λ t. next-Steady (utf8_text t.0) _ _ h (λ message. h)))))

  handle_exit_signal-Steady :
      (d : Bytes) (ch : Channel S C) → IsSteady ch → Steady (handle_exit_signal su d ch)
  unfolding handle_exit_signal
  handle_exit_signal-Steady d ch h = next-Steady (get_u8 d) _ ch h (λ p.
      elim (Bool-cases (p.0 == 0)) [
        | inl e ↦ rw e (exit_signal_texts-Steady p.1 ch h)
        | inr e ↦ rw e h
      ])

  exit_request-Steady :
      (status d : Bytes) (ch : Channel S C) → IsSteady ch → Steady (exit_request su status d ch)
  exit_request-Steady status d ch h = elim (Bool-cases (bytes_eq status (ascii "exit-status"))) [
    | inl e ↦ rw e (handle_exit_status-Steady d ch h)
    | inr e ↦ rw e (elim (Bool-cases (bytes_eq status (ascii "exit-signal"))) [
      | inl f ↦ rw f (handle_exit_signal-Steady d ch h)
      | inr f ↦ rw f h
    ])
  ]

  request_for-Steady :
      (ours : Bool) (d : Bytes) (ch : Channel S C) → IsSteady ch → Steady (request_for su ours d ch)
  unfolding request_for
  request_for-Steady true d ch h =
      next-Steady (get_u8s d) _ ch h (λ p. exit_request-Steady p.0 p.1 ch h)
  request_for-Steady false d ch h = h

  on_request-Steady : (d : Bytes) (ch : Channel S C) → IsSteady ch → Steady (on_request su d ch)
  unfolding on_request
  on_request-Steady d ch h = next-Steady (get_u32 d) _ ch h (λ p.
      let h' = request_for-Steady (p.0 == ch.client_channel_no) p.1 ch h in
      next-Steady _ _ _ h' (λ u. h'))

  flow_control-send_close : (ch : Channel S C) → (send_close su ch).1.flow_control ≡ ch.flow_control
  unfolding send_close send
  flow_control-send_close ch = elim (Bool-cases ch.local_close) [ inl e ↦ rw e | inr e ↦ rw e ]

  close_for-Steady : (ours : Bool) (ch : Channel S C) → IsSteady ch → Steady (close_for su ours ch)
  unfolding close_for
  close_for-Steady true ch h =
      let closing : Channel S C = record ch { remote_close = true } in
      (cc (flow_control-send_close closing, h.0), inr (local_close-send_close closing))
  close_for-Steady false ch h = h

  on_close-Steady : (d : Bytes) (ch : Channel S C) → IsSteady ch → Steady (on_close su d ch)
  unfolding on_close
  on_close-Steady d ch h = next-Steady (get_u32 d) _ ch h (λ p.
      let h' = close_for-Steady (p.0 == ch.client_channel_no) ch h in
      next-Steady _ _ _ h' (λ u. h'))

  on_global_request-Steady : (ch : Channel S C) → IsSteady ch → Steady (on_global_request su ch)
  unfolding on_global_request send
  on_global_request-Steady ch h = next-Steady _ _ _ h (λ u. h)

  handle_arm-Steady :
      (a : Arm) (code : ℕ) (payload d : Bytes) (ch : Channel S C)
      → IsSteady ch
      → Steady (handle_arm su a code payload d ch)
  unfolding handle_arm
  handle_arm-Steady rekey code payload d ch h = on_rekey-Steady payload ch h
  handle_arm-Steady data_in code payload d ch h = on_data-Steady d ch h
  handle_arm-Steady extended_in code payload d ch h = on_extended_data-Steady d ch h
  handle_arm-Steady global_in code payload d ch h = on_global_request-Steady ch h
  handle_arm-Steady window_in code payload d ch h = on_window_adjust-Steady d ch h
  handle_arm-Steady request_in code payload d ch h = on_request-Steady d ch h
  handle_arm-Steady failure_in code payload d ch h = h
  handle_arm-Steady close_in code payload d ch h = on_close-Steady d ch h
  handle_arm-Steady other code payload d ch h = h

  pub handle_msg-Steady :
      (payload : Bytes) (ch : Channel S C) → IsSteady ch → Steady (handle_msg su payload ch)
  unfolding handle_msg
  handle_msg-Steady payload ch h =
      next-Steady (get_u8 payload) _ ch h (λ p. handle_arm-Steady (arm_of p.0) p.0 payload p.1 ch h)

  pub recv_once-Steady : (ch : Channel S C) → IsSteady ch → Steady (recv_once su ch)
  unfolding recv_once
  recv_once-Steady ch h = next-Steady _ _ _ h (λ payload. handle_msg-Steady payload _ h)
