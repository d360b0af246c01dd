-- ===== src/Channel/Closing.antt =====
-- What `close` and `recv_to_end` leave, and where received data comes from.
use ssh_rs.Base.{◌≡◌, [], true, if-cases, ◌⊎◌, arith}
use ssh_rs.Error.{SshResult, ok, err, panic, hang, starved, or_return_cases, IsFailure}
use ssh_rs.Data.{Bytes}
use ssh_rs.Io.Invariant.{Turn, Turn-failure, drive-Invariant}
use ssh_rs.Suite.{Suite}
use ssh_rs.Channel.{Channel, closed, send_close}
use ssh_rs.Channel.Loops.{recv, recv_to_end_round, recv_to_end, receive_close, close, waiting}
use ssh_rs.Channel.Steady.{local_close-send_close}

module _ {S C : Type 0} (su : Suite S C) where
  -- If the call succeeded, the channel is closed.
  abbrev EndsClosed {ℓ} : {A : Type ℓ} → SshResult A × Channel S C → Type 0
  EndsClosed (ok a, ch) = closed ch ≡ true
  EndsClosed (_, ch) = Unit {0}

  EndsClosed-failure {ℓ} :
      {A : Type ℓ} (ch : Channel S C) (r : SshResult A) → IsFailure r → EndsClosed (r, ch)
  EndsClosed-failure ch (ok a) f = absurd f
  EndsClosed-failure ch (err e) f = tt
  EndsClosed-failure ch panic f = tt
  EndsClosed-failure ch hang f = tt
  EndsClosed-failure ch starved f = tt

  EndsClosed-ok {ℓ} :
      {A : Type ℓ} (p : SshResult A × Channel S C) (a : A)
      → EndsClosed p
      → p.0 ≡ ok a
      → closed p.1 ≡ true
  EndsClosed-ok (ok b, ch) a h e = h
  EndsClosed-ok (err x, ch) a h e = cc
  EndsClosed-ok (panic, ch) a h e = cc
  EndsClosed-ok (hang, ch) a h e = cc
  EndsClosed-ok (starved, ch) a h e = cc

  abbrev OnTurn : SshResult (Bytes ⊎ Bytes) × Channel S C → Type 0
  OnTurn p = Turn (λ (resp : Bytes) (ch : Channel S C). Unit {0}) EndsClosed p

  recv_to_end_round-Turn : (resp : Bytes) (ch : Channel S C) → OnTurn (recv_to_end_round su resp ch)
  unfolding recv_to_end_round
  recv_to_end_round-Turn resp ch =
      if-cases OnTurn (closed ch) _ _ (λ e. e)
        (λ e.
          or_return_cases OnTurn (recv su ch).0 _ (recv su ch).1 (λ b q. tt)
            (Turn-failure (λ (resp : Bytes) (ch : Channel S C). Unit {0}) EndsClosed _
              (EndsClosed-failure _)))

  recv_to_end-EndsClosed : (ch : Channel S C) → EndsClosed (recv_to_end su ch)
  unfolding recv_to_end
  recv_to_end-EndsClosed ch =
      drive-Invariant (λ (resp : Bytes) (ch : Channel S C). Unit {0}) EndsClosed
        (recv_to_end_round su) (λ resp ch u. recv_to_end_round-Turn resp ch) (λ resp ch u. tt)
        (λ resp. waiting) [] ch tt

  receive_close-EndsClosed :
      (ch : Channel S C) → ch.local_close ≡ true → EndsClosed (receive_close su ch)
  unfolding receive_close
  receive_close-EndsClosed ch h =
      if-cases EndsClosed ch.remote_close _ _ (λ e. rw (h, e))
        (λ e.
          or_return_cases EndsClosed (recv_to_end su ch).0 _ (recv_to_end su ch).1
            (λ b q. EndsClosed-ok (recv_to_end su ch) b (recv_to_end-EndsClosed ch) q)
            (EndsClosed-failure _))

  close-EndsClosed : (ch : Channel S C) → EndsClosed (close su ch)
  unfolding close
  close-EndsClosed ch =
      or_return_cases EndsClosed (send_close su ch).0 _ (send_close su ch).1
        (λ u q. receive_close-EndsClosed _ (local_close-send_close su 0 (omega arith) ch))
        (EndsClosed-failure _)

  -- A call of `close` that succeeds leaves the channel closed on both sides.
  pub closed-close : (ch : Channel S C) → (close su ch).0 ≡ ok tt → closed (close su ch).1 ≡ true
  closed-close ch e = EndsClosed-ok (close su ch) tt (close-EndsClosed ch) e
