-- ===== src/Channel/Returns.antt =====
-- The loops of a channel have enough fuel: every call on a channel comes to an end.
use ssh_rs.Base.{ℕ, ◌+◌, ◌≤◌, ◌<◌, ◌≡◌, [], false, if-cases, ◌⊎◌, inl, inr, arith}
use ssh_rs.Error.{SshResult, ok, err, panic, hang, starved, IsFed, or_return-IsFed}
use ssh_rs.Data.{Bytes}
use ssh_rs.Io.{◌>>=◌, pure}
use ssh_rs.Io.Fed.{Paid, Paid-IsFed, Paid-ok}
use ssh_rs.Suite.{Suite}
use ssh_rs.Kex.Fed.{SuiteFed}
use ssh_rs.Channel.{ChannelRead, read_data, read_code, Channel, closed}
use ssh_rs.Channel.Handle.{recv_once}
use ssh_rs.Channel.Loops.{waiting}
use ssh_rs.FlowControl.{can_send}
use ssh_rs.Io.Fed.{Round, next-Round, drive-Pays, drive-opened}
use ssh_rs.Channel.Loops.{
  data_or_again, recv_round, recv, recv_to_end_round, recv_to_end, receive_close, close,
  window_round, await_window,
}
use ssh_rs.Channel.Fed.{Free, next-Free, send_close-Free}
use ssh_rs.Channel.Ends.{recv_once-Paid}

module _ {S C : Type 0} (su : Suite S C) (fed : SuiteFed su) where
  -- A round of `recv` that did not find the channel closed.
  recv_open-Round :
      (ch : Channel S C)
      → Round waiting
          (λ (u : Unit {0}). waiting)
          (λ (b : Bytes). 1)
          (waiting ch)
          (waiting ch)
          ((recv_once su >>= (λ r. pure (data_or_again su r))) ch)
  recv_open-Round ch =
      let paid = recv_once-Paid su fed ch in
      next-Round waiting (λ u. waiting) (λ b. 1) (waiting ch) (waiting ch) _ _ _
        (Paid-IsFed waiting (λ r. 1) _ _ paid)
        λ r q. data_or_again-Round r (recv_once su ch).1 (Paid-ok waiting (λ r. 1) _ _ r paid q)
    where
      data_or_again-Round :
          (r : ChannelRead) (s : Channel S C)
          → waiting s + 1 ≤ waiting ch
          → Round waiting
              (λ (u : Unit {0}). waiting)
              (λ (b : Bytes). 1)
              (waiting ch)
              (waiting ch)
              (ok (data_or_again su r), s)
      data_or_again-Round (read_data b) s h = h
      data_or_again-Round (read_code code) s h = omega arith

  Round-free :
      {T A : Type 0} (rank : T → Channel S C → ℕ) (m r : ℕ) (p : SshResult (T ⊎ A) × Channel S C)
      → Round waiting rank (λ a. 1) m r p
      → Round waiting rank (λ a. 0) m r p
  Round-free rank m r (ok (inl t), s) h = h
  Round-free rank m r (ok (inr a), s) h = omega arith
  Round-free rank m r (err e, s) h = tt
  Round-free rank m r (panic, s) h = tt
  Round-free rank m r (hang, s) h = tt
  Round-free rank m r (starved, s) h = absurd h

  recv_round-Round :
      (u : Unit {0}) (ch : Channel S C)
      → Round waiting (λ u. waiting) (λ b. 0) (waiting ch) (waiting ch) (recv_round su u ch)
  unfolding recv_round
  recv_round-Round u ch =
      if-cases
        (Round waiting (λ (u : Unit {0}). waiting) (λ (b : Bytes). 0) (waiting ch) (waiting ch))
        (closed ch) _ _ (λ e. omega arith)
        (λ e. Round-free (λ u. waiting) (waiting ch) (waiting ch) _ (recv_open-Round ch))

  pub recv-Free : (ch : Channel S C) → Free su fed ch (recv su ch)
  unfolding recv
  recv-Free = drive-Pays waiting (λ u. waiting) (λ b. 0) (recv_round su) recv_round-Round tt

  pub window_round-Round :
      (resp : Bytes) (ch : Channel S C)
      → Round waiting (λ r. waiting) (λ b. 0) (waiting ch) (waiting ch) (window_round su resp ch)
  unfolding window_round
  window_round-Round resp ch =
      if-cases (Round waiting (λ (r : Bytes). waiting) (λ (b : Bytes). 0) (waiting ch) (waiting ch))
        (can_send ch.flow_control) _ _ (λ e. omega arith)
        (λ e.
          let paid = recv_once-Paid su fed ch in
          next-Round waiting (λ r. waiting) (λ b. 0) (waiting ch) (waiting ch) _ _ _
            (Paid-IsFed waiting (λ r. 1) _ _ paid)
            λ r q. two (Paid-ok waiting (λ r. 1) _ _ r paid q))
    where
      two : {a b : ℕ} → a + 1 ≤ b → (a < b) × (a ≤ b)
      two h = omega arith

  pub await_window-Free :
      (resp : Bytes) (ch : Channel S C) → Free su fed ch (await_window su resp ch)
  unfolding await_window
  await_window-Free resp =
      drive-Pays waiting (λ r. waiting) (λ b. 0) (window_round su) window_round-Round resp

  -- From a channel that is not closed, `recv` takes a message.
  recv-Paid :
      (ch : Channel S C) → closed ch ≡ false → Paid waiting (λ b. 1) (waiting ch) (recv su ch)
  unfolding recv recv_round
  recv-Paid ch e =
      drive-opened waiting (recv_round su) recv_round-Round tt ch (rw e (recv_open-Round ch))

  recv_to_end_round-Round :
      (resp : Bytes) (ch : Channel S C)
      → Round waiting
          (λ r. waiting)
          (λ b. 0)
          (waiting ch)
          (waiting ch)
          (recv_to_end_round su resp ch)
  unfolding recv_to_end_round
  recv_to_end_round-Round resp ch =
      if-cases (Round waiting (λ (r : Bytes). waiting) (λ (b : Bytes). 0) (waiting ch) (waiting ch))
        (closed ch) _ _ (λ e. omega arith)
        (λ e.
          let paid = recv-Paid ch e in
          next-Round waiting (λ r. waiting) (λ b. 0) (waiting ch) (waiting ch) _ _ _
            (Paid-IsFed waiting (λ r. 1) _ _ paid)
            λ r q. two (Paid-ok waiting (λ r. 1) _ _ r paid q))
    where
      two : {a b : ℕ} → a + 1 ≤ b → (a < b) × (a ≤ b)
      two h = omega arith

  pub recv_to_end-Free : (ch : Channel S C) → Free su fed ch (recv_to_end su ch)
  unfolding recv_to_end
  recv_to_end-Free =
      drive-Pays waiting (λ r. waiting) (λ b. 0) (recv_to_end_round su) recv_to_end_round-Round []

  receive_close-Free : (ch : Channel S C) → Free su fed ch (receive_close su ch)
  unfolding receive_close
  receive_close-Free ch =
      if-cases (Free su fed ch) ch.remote_close _ _ (λ e. omega arith)
        (λ e. next-Free su fed ch _ _ _ (recv_to_end-Free ch) λ b le. omega arith)

  pub close-IsFed : (ch : Channel S C) → IsFed (close su ch).0
  unfolding close
  close-IsFed ch =
      or_return-IsFed _ _ _ (Paid-IsFed waiting (λ u. 0) (waiting ch) _ (send_close-Free su fed ch))
        (λ u. Paid-IsFed waiting (λ u. 0) _ _ (receive_close-Free _))
