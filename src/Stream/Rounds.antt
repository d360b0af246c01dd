-- ===== src/Stream/Rounds.antt =====
-- The loop of `read_with_timeout` of model/packet.rs, round by round.
use ssh_rs.Base.{
  ℕ, zero, suc, ◌-◌, ◌<◌, ◌≡◌, refl, sym, ◌∙◌, List, [], ◌∷◌, ◌++◌, Option, ◌⊎◌, inl, inr, arith,
  length, length-append, take, drop, leb, false, All, if◌then◌else◌,
}
use mathlib.Core.Path.{subst}
use ssh_rs.Error.{SshResult, ok, err, panic, hang, starved, io_error}
use ssh_rs.Data.{Bytes}
use ssh_rs.Timeout
use ssh_rs.Timeout.{Timeout, till_next_tick, renew, wait}
use ssh_rs.Stream.{
  ReadEvent, chunk, read_would_block, read_fails, put_back, read_loop, read_with_timeout,
}
use ssh_rs.Stream.Reads.{content, IsQuiet, quiet_tick, timeout-wait, timeout-renew, read_loop-hang}

-- The local variables of the loop: `left` is `want_len - offset`, and `got` is `buf[..offset]`.
pub record ReadState : Type 0 where
  pub timeout : Timeout
  pub left : ℕ
  pub got : Bytes
  pub events : List ReadEvent

-- What a function of the loop returned, and the events that are left.
abbrev pub Returned : Type 0
Returned = SshResult Bytes × List ReadEvent

-- How a round goes on after `timeout.till_next_tick()?`.
unfoldable pub after_tick : SshResult Timeout → ReadState → ReadState ⊎ Returned
after_tick (ok t) s = inl (record s { timeout = t })
after_tick (err e) s = inr (err e, s.events)
after_tick panic s = inr (panic, s.events)
after_tick hang s = inr (hang, s.events)
after_tick starved s = inr (starved, s.events)

-- A round of the loop. After the end of the stream a read returns Ok(0): the offset stays and is not
-- that of the end, so the timeout is renewed and the loop goes on. A read into no buffer returns Ok(0)
-- at once.
unfoldable pub read_round : Timeout → ℕ → Bytes → List ReadEvent → ReadState ⊎ Returned
read_round t zero got es = inr (ok got, es)
read_round t (suc w) got [] =
    inl (record { timeout = renew t; left = suc w; got = got; events = [] })
read_round t (suc w) got (chunk bs ∷ es) =
    if leb (suc w) (length bs)
    then inr (ok (got ++ take (suc w) bs), put_back (drop (suc w) bs) es)
    else inl (record { timeout = renew t; left = suc w - length bs; got = got ++ bs; events = es })
read_round t (suc w) got (read_would_block now used ∷ es) =
    after_tick (till_next_tick t now used)
      (record { timeout = t; left = suc w; got = got; events = es })
read_round t (suc w) got (read_fails code ∷ es) = inr (err (io_error code), es)

-- What comes after a round: what the next ones give, or what it returned.
abbrev pub after_round {ℓ} :
    {R : Type ℓ} → ReadState ⊎ Returned → (ReadState → R) → (Returned → R) → R
after_round (inl s) again done = again s
after_round (inr r) again done = done r

-- So many rounds, unless one of them returns.
unfoldable pub rounds : ℕ → ReadState → ReadState ⊎ Returned
rounds zero s = inl s
rounds (suc n) s =
    after_round (read_round s.timeout s.left s.got s.events) (λ s'. rounds n s') (λ r. inr r)

-- The variables before the loop.
abbrev pub begin : Option ℕ → ℕ → List ReadEvent → ReadState
begin tm want es = record { timeout = Timeout.new tm; left = want; got = []; events = es }

-- What `read_loop` returns from these variables.
abbrev loop_from : ReadState → Returned
loop_from s = read_loop s.timeout s.left s.got s.events

module _ (tm : Option ℕ) where
  -- Too few bytes are still to come, and no read fails or waits past the limit.
  abbrev IsShort : ReadState → Type 0
  IsShort s =
      (s.timeout.timeout ≡ tm) × All (IsQuiet tm) s.events × (length (content s.events) < s.left)

  abbrev GoesOn : ReadState ⊎ Returned → Type 0
  GoesOn (inl s) = IsShort s
  GoesOn (inr r) = ⊥

  read_round-GoesOn :
      (t : Timeout) (want : ℕ) (got : Bytes) (es : List ReadEvent)
      → t.timeout ≡ tm
      → All (IsQuiet tm) es
      → length (content es) < want
      → GoesOn (read_round t want got es)
  unfolding read_round after_tick
  read_round-GoesOn t zero got es e quiet h = absurd (omega arith)
  read_round-GoesOn t (suc w) got [] e quiet h = (timeout-renew t ∙ e, tt, h)
  read_round-GoesOn t (suc w) got (chunk bs ∷ es) e (q, qs) h =
      let len = length-append bs (content es) in
      let few : leb (suc w) (length bs) ≡ false = ground (arith, len) in
      rw few (timeout-renew t ∙ e, qs, omega (arith, len))
  read_round-GoesOn t (suc w) got (read_would_block now used ∷ es) e (q, qs) h =
      rw (quiet_tick t now used (subst (λ o. IsQuiet o (read_would_block now used)) (sym e) q))
        (timeout-wait t used ∙ e, qs, h)
  read_round-GoesOn t (suc w) got (read_fails code ∷ es) e (q, qs) h = absurd q

  rounds-GoesOn : (n : ℕ) (s : ReadState) → IsShort s → (s' : ReadState) × (rounds n s ≡ inl s')
  unfolding rounds
  rounds-GoesOn zero s short = (s, refl)
  rounds-GoesOn (suc n) s (e, quiet, h) =
      after (read_round s.timeout s.left s.got s.events)
        (read_round-GoesOn s.timeout s.left s.got s.events e quiet h)
        (λ s' short. rounds-GoesOn n s' short)
    where
      after :
          (x : ReadState ⊎ Returned)
          → GoesOn x
          → ((s' : ReadState) → IsShort s' → (s'' : ReadState) × (rounds n s' ≡ inl s''))
          → (s'' : ReadState) × (after_round x (λ s'. rounds n s') (λ y. inr y) ≡ inl s'')
      after (inl s') short again = again s' short
      after (inr y) short again = absurd short

  -- If the peer closes the stream before `want` bytes have arrived, and no read fails or waits past
  -- the limit, then no number of rounds of the loop of read_with_timeout returns, whatever the limit
  -- is: the loop goes on for ever, which the outcome `hang` stands for.
  pub read_with_timeout_at_end :
      (want : ℕ) (es : List ReadEvent) (n : ℕ)
      → All (IsQuiet tm) es
      → length (content es) < want
      → ((s : ReadState) × (rounds n (begin tm want es) ≡ inl s))
        × ((read_with_timeout tm want es).0 ≡ hang)
  unfolding read_with_timeout
  read_with_timeout_at_end want es n quiet h = (
    rounds-GoesOn n (begin tm want es) (refl, quiet, h),
    read_loop-hang tm (Timeout.new tm) want [] es refl quiet h,
  )
