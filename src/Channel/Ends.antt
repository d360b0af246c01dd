-- ===== src/Channel/Ends.antt =====
-- Every call on a channel comes to an end, if the algorithms do.
use ssh_rs.Base.{ℕ, ◌≤◌, Bool, true, false, if-cases, arith, ◌==◌, bytes_eq}
use ssh_rs.Error.{SshResult, ok, err, panic, hang, starved, IsFed, or_return}
use ssh_rs.Constant.{ascii}
use ssh_rs.Data.{Bytes, get_u8, get_u32, get_u8s}
use ssh_rs.Data.Fed.{get_u8-IsFed, get_u32-IsFed, get_u8s-IsFed}
use ssh_rs.Io.{Io}
use ssh_rs.Io.Fed.{Paid, Paid-weaken, next-Paid, Paid-IsFed, Paid-ok, fed-Paid}
use ssh_rs.Packet.Fed.{from_stream-Paid}
use ssh_rs.Packet.{from_stream}
use ssh_rs.Suite.{Suite}
use ssh_rs.Kex.{incoming}
use ssh_rs.Kex.Fed.{SuiteFed}
use ssh_rs.Channel.{Channel}
use ssh_rs.Channel.Handle.{
  Arm, rekey, data_in, extended_in, global_in, window_in, request_in, failure_in, close_in, other,
  arm_of, utf8_text, handle_arm, handle_msg, recv_once, on_global_request, request_for, on_request,
  close_for, on_close, exit_request, no_error, drop_error, handle_exit_status, handle_exit_signal,
  exit_signal_texts,
}
use ssh_rs.Channel.Loops.{waiting}
use ssh_rs.Channel.Fed.{
  Free, next-Free, step-Free, send-Free, send_close-Free, on_rekey-Free, if-Free, on_data-Free,
  on_extended_data-Free, on_window_adjust-Free, utf8_text-IsFed,
}

module _ {S C : Type 0} (su : Suite S C) (fed : SuiteFed su) where
  -- An outcome of any kind, with no more to come than before.
  abbrev NoMore : {A : Type 0} → Channel S C → SshResult A × Channel S C → Type 0
  NoMore ch (ok a, s) = waiting s ≤ waiting ch
  NoMore ch (err e, s) = waiting s ≤ waiting ch
  NoMore ch (panic, s) = waiting s ≤ waiting ch
  NoMore ch (hang, s) = waiting s ≤ waiting ch
  NoMore ch (starved, s) = ⊥

  NoMore-le :
      {A : Type 0} (ch : Channel S C) (p : SshResult A × Channel S C)
      → NoMore ch p
      → waiting p.1 ≤ waiting ch
  NoMore-le ch (ok a, s) h = h
  NoMore-le ch (err e, s) h = h
  NoMore-le ch (panic, s) h = h
  NoMore-le ch (hang, s) h = h
  NoMore-le ch (starved, s) h = absurd h

  NoMore-IsFed :
      {A : Type 0} (ch : Channel S C) (p : SshResult A × Channel S C) → NoMore ch p → IsFed p.0
  NoMore-IsFed ch (ok a, s) h = tt
  NoMore-IsFed ch (err e, s) h = tt
  NoMore-IsFed ch (panic, s) h = tt
  NoMore-IsFed ch (hang, s) h = tt
  NoMore-IsFed ch (starved, s) h = h

  step-NoMore :
      {A B : Type 0} (start : Channel S C) (m : SshResult A) (k : A → SshResult B × Channel S C)
      (ch : Channel S C)
      → IsFed m
      → waiting ch ≤ waiting start
      → ((a : A) → NoMore start (k a))
      → NoMore start (or_return m k ch)
  step-NoMore start (ok a) k ch f h go = go a
  step-NoMore start (err e) k ch f h go = h
  step-NoMore start panic k ch f h go = h
  step-NoMore start hang k ch f h go = h
  step-NoMore start starved k ch f h go = f

  handle_exit_status-NoMore :
      (d : Bytes) (ch : Channel S C) → NoMore ch (handle_exit_status su d ch)
  unfolding handle_exit_status
  handle_exit_status-NoMore d ch =
      step-NoMore ch (get_u8 d) _ ch (get_u8-IsFed d) (omega arith) λ p.
        if-cases (λ (io : Io (Channel S C) (Unit {0})). NoMore ch (io ch)) (p.0 == 0) _ _
          (λ e.
            step-NoMore ch (get_u32 p.1) _ ch (get_u32-IsFed p.1) (omega arith) λ q. omega arith)
          (λ e. omega arith)

  exit_signal_texts-NoMore : (d : Bytes) (ch : Channel S C) → NoMore ch (exit_signal_texts su d ch)
  unfolding exit_signal_texts
  exit_signal_texts-NoMore d ch =
      step-NoMore ch (get_u8s d) _ ch (get_u8s-IsFed d) (omega arith) λ p.
        step-NoMore ch (utf8_text p.0) _ ch (utf8_text-IsFed p.0) (omega arith) λ name.
          step-NoMore ch (get_u8 p.1) _ _ (get_u8-IsFed p.1) (omega arith) λ q.
            step-NoMore ch (get_u8s q.1) _ _ (get_u8s-IsFed q.1) (omega arith) λ t.
              step-NoMore ch (utf8_text t.0) _ _ (utf8_text-IsFed t.0) (omega arith)
                λ message. omega arith

  handle_exit_signal-NoMore :
      (d : Bytes) (ch : Channel S C) → NoMore ch (handle_exit_signal su d ch)
  unfolding handle_exit_signal
  handle_exit_signal-NoMore d ch =
      step-NoMore ch (get_u8 d) _ ch (get_u8-IsFed d) (omega arith) λ p.
        if-cases (λ (io : Io (Channel S C) (Unit {0})). NoMore ch (io ch)) (p.0 == 0) _ _
          (λ e. exit_signal_texts-NoMore p.1 ch) (λ e. omega arith)

  no_error-IsFed : (r : SshResult (Unit {0})) → IsFed r → IsFed (no_error r)
  no_error-IsFed (ok a) h = tt
  no_error-IsFed (err e) h = tt
  no_error-IsFed panic h = tt
  no_error-IsFed hang h = tt
  no_error-IsFed starved h = h

  drop_error-Free :
      (io : Io (Channel S C) (Unit {0})) (ch : Channel S C)
      → NoMore ch (io ch)
      → Free su fed ch (drop_error io ch)
  drop_error-Free io ch h =
      fed-Paid waiting (λ a. 0) (waiting ch) (no_error (io ch).0) (io ch).1
        (no_error-IsFed _ (NoMore-IsFed ch (io ch) h)) (λ a. omega (arith, NoMore-le ch (io ch) h))

  exit_request-Free :
      (status d : Bytes) (ch : Channel S C) → Free su fed ch (exit_request su status d ch)
  exit_request-Free status d ch =
      if-Free su fed ch (bytes_eq status (ascii "exit-status")) _ _
        (drop_error-Free (handle_exit_status su d) ch (handle_exit_status-NoMore d ch))
        (if-Free su fed ch (bytes_eq status (ascii "exit-signal")) _ _
          (drop_error-Free (handle_exit_signal su d) ch (handle_exit_signal-NoMore d ch))
          (omega arith))

  request_for-Free :
      (ours : Bool) (d : Bytes) (ch : Channel S C) → Free su fed ch (request_for su ours d ch)
  unfolding request_for
  request_for-Free true d ch =
      step-Free su fed ch (get_u8s d) _ ch (get_u8s-IsFed d) λ p. exit_request-Free p.0 p.1 ch
  request_for-Free false d ch = omega arith

  on_request-Free : (d : Bytes) (ch : Channel S C) → Free su fed ch (on_request su d ch)
  unfolding on_request
  on_request-Free d ch = step-Free su fed ch (get_u32 d) _ ch (get_u32-IsFed d) λ p.
      next-Free su fed ch _ _ _ (request_for-Free (p.0 == ch.client_channel_no) p.1 ch)
        λ u le. omega arith

  close_for-Free : (ours : Bool) (ch : Channel S C) → Free su fed ch (close_for su ours ch)
  unfolding close_for
  close_for-Free true ch = send_close-Free su fed (record ch { remote_close = true })
  close_for-Free false ch = omega arith

  on_close-Free : (d : Bytes) (ch : Channel S C) → Free su fed ch (on_close su d ch)
  unfolding on_close
  on_close-Free d ch = step-Free su fed ch (get_u32 d) _ ch (get_u32-IsFed d) λ p.
      next-Free su fed ch _ _ _ (close_for-Free (p.0 == ch.client_channel_no) ch)
        λ u le. omega arith

  on_global_request-Free : (ch : Channel S C) → Free su fed ch (on_global_request su ch)
  unfolding on_global_request
  on_global_request-Free ch = next-Free su fed ch _ _ _ (send-Free su fed _ ch) λ u le. omega arith

  handle_arm-Free :
      (a : Arm) (code : ℕ) (payload d : Bytes) (ch : Channel S C)
      → Free su fed ch (handle_arm su a code payload d ch)
  unfolding handle_arm
  handle_arm-Free rekey code payload d ch = on_rekey-Free su fed payload ch
  handle_arm-Free data_in code payload d ch = on_data-Free su fed d ch
  handle_arm-Free extended_in code payload d ch = on_extended_data-Free su fed d ch
  handle_arm-Free global_in code payload d ch = on_global_request-Free ch
  handle_arm-Free window_in code payload d ch = on_window_adjust-Free su fed d ch
  handle_arm-Free request_in code payload d ch = on_request-Free d ch
  handle_arm-Free failure_in code payload d ch = tt
  handle_arm-Free close_in code payload d ch = on_close-Free d ch
  handle_arm-Free other code payload d ch = omega arith

  handle_msg-Free : (payload : Bytes) (ch : Channel S C) → Free su fed ch (handle_msg su payload ch)
  unfolding handle_msg
  handle_msg-Free payload ch =
      step-Free su fed ch (get_u8 payload) _ ch (get_u8-IsFed payload)
        λ p. handle_arm-Free (arm_of p.0) p.0 payload p.1 ch

  -- A message costs at least a byte.
  pub recv_once-Paid : (ch : Channel S C) → Paid waiting (λ r. 1) (waiting ch) (recv_once su ch)
  unfolding recv_once
  recv_once-Paid ch =
      let paid = from_stream-Paid su.enc su.comp fed.packets ch.link in
      let ch' : Channel S C = record ch { link = (from_stream su.enc su.comp ch.link).1 } in
      next-Paid waiting (λ r. 1) (waiting ch) _ _ _ (Paid-IsFed incoming (λ a. 1) _ _ paid)
        λ payload q.
          let le = Paid-ok incoming (λ a. 1) _ _ payload paid q in
          Paid-weaken waiting (λ a. 0) (λ r. 1) (waiting ch') (waiting ch) _
            (λ b. omega (arith, le)) (handle_msg-Free payload ch')
