-- ===== src/BackendChannel/Sending.antt =====
-- What `try_send_data` sends, and what it leaves pending.
use ssh_rs.Base.{
  ℕ, ◌+◌, ◌<◌, ◌≡◌, refl, sym, ap, ◌∙◌, [], ◌∷◌, ◌++◌, append_assoc, true, false, not, ◌&&◌,
  Bool-cases, ◌⊎◌, inl, inr, ◌==◌, length, length-append, if-cases, arith,
}
use ssh_rs.Error.{SshResult, ok, err, panic, hang, starved, IsFed, or_return}
use ssh_rs.Data.{Bytes}
use ssh_rs.FlowControl.{FlowControl, tune_on_send, can_send}
use ssh_rs.FlowControl.Laws.{tune_on_send_lem}
use ssh_rs.Io.Invariant.{Turn, drive-Invariant}
use ssh_rs.Io.Fed.{Round, next-Round, drive-Pays, Paid-IsFed}
use ssh_rs.Packet.Fed.{AlwaysFed, write_stream-IsFed}
use ssh_rs.Suite.{Suite}
use ssh_rs.BackendChannel.{BackendChannel, closed, send, send_chunk, send_round, try_send_data}

-- Nothing more can be sent: nothing is pending, or the window of the peer is used up.
abbrev pub IsIdle : {S C : Type 0} → BackendChannel S C → Type 0
IsIdle ch = (ch.pending_send ≡ []) ⊎ (ch.flow_control.remote_window ≡ 0)

idle_test :
    (p : Bytes) (fc : FlowControl)
    → ((not (length p == 0)) && can_send fc) ≡ false
    → (p ≡ []) ⊎ (fc.remote_window ≡ 0)
unfolding can_send
idle_test [] fc h = inl refl
idle_test (b ∷ p) fc h = inr (ground arith)

busy_test :
    (p : Bytes) (fc : FlowControl)
    → ((not (length p == 0)) && can_send fc) ≡ true
    → (0 < length p) × (0 < fc.remote_window)
unfolding can_send
busy_test p fc h = ground arith

module _ {S C : Type 0} (su : Suite S C) where
  pending-send :
      (payload : Bytes) (ch : BackendChannel S C)
      → (send su payload ch).1.pending_send ≡ ch.pending_send
  unfolding send
  pending-send payload ch =
      if-cases
        (λ (p : SshResult (Unit {0}) × BackendChannel S C). p.1.pending_send ≡ ch.pending_send)
        (closed ch) _ _ (λ e. refl) (λ e. refl)

  pending-send_chunk :
      (now : Bytes) (ch : BackendChannel S C)
      → (send_chunk su now ch).1.pending_send ≡ ch.pending_send
  unfolding send_chunk
  pending-send_chunk now ch = pending-send _ ch

  -- The channel behind `tune_on_send`, before the message is sent.
  abbrev tuned : BackendChannel S C → BackendChannel S C
  tuned ch =
      let (fc, now, later) = tune_on_send ch.flow_control ch.pending_send in
      record ch { flow_control = fc; pending_send = later }

  abbrev pub chunk : BackendChannel S C → Bytes
  chunk ch = (tune_on_send ch.flow_control ch.pending_send).1

  -- From `ch`, these bytes were sent in messages CHANNEL_DATA, one after the other.
  pub data Sent (ch : BackendChannel S C) : Bytes → BackendChannel S C → Type 0 where
    nothing : Sent ch [] ch
    message :
        (before : Bytes) (mid after : BackendChannel S C)
        → Sent ch before mid
        → send_chunk su (chunk mid) (tuned mid) ≡ (ok tt, after)
        → Sent ch (before ++ chunk mid) after

  -- What was sent and what is pending is what was pending.
  abbrev pub IsSplit : BackendChannel S C → BackendChannel S C → Type 0
  IsSplit ch ch' =
      (bytes : Bytes) × Sent ch bytes ch' × (bytes ++ ch'.pending_send ≡ ch.pending_send)

  -- The outcome of sending all that can be sent.
  abbrev pub Emptied : BackendChannel S C → SshResult (Unit {0}) × BackendChannel S C → Type 0
  Emptied ch (ok u, ch') = IsSplit ch ch' × IsIdle ch'
  Emptied ch (starved, ch') = ⊥
  Emptied ch (_, ch') = Unit {0}

  -- The same, without a word on the bound of the loop.
  abbrev Split : BackendChannel S C → SshResult (Unit {0}) × BackendChannel S C → Type 0
  Split ch (ok u, ch') = IsSplit ch ch' × IsIdle ch'
  Split ch (_, ch') = Unit {0}

  IsSplit-send_chunk :
      (ch mid after : BackendChannel S C)
      → IsSplit ch mid
      → send_chunk su (chunk mid) (tuned mid) ≡ (ok tt, after)
      → IsSplit ch after
  IsSplit-send_chunk ch mid after (before, sent, e) h =
      let kept : after.pending_send ≡ (tuned mid).pending_send =
        ap (λ p. p.1.pending_send) (sym h) ∙ pending-send_chunk (chunk mid) (tuned mid) in
      (
        before ++ chunk mid,
        message before mid after sent h,
        append_assoc before (chunk mid) after.pending_send
            ∙ ap (λ t. before ++ t)
                (ap (λ t. chunk mid ++ t) kept
                  ∙ (tune_on_send_lem mid.flow_control mid.pending_send).0)
            ∙ e,
      )

  sent-Turn :
      (ch mid : BackendChannel S C) (p : SshResult (Unit {0}) × BackendChannel S C)
      → IsSplit ch mid
      → send_chunk su (chunk mid) (tuned mid) ≡ p
      → Turn {A = Unit {0}}
          (λ (u : Unit {0}) ch'. IsSplit ch ch')
          (Split ch)
          (or_return p.0 (λ u. (ok (inl tt), p.1)) p.1)
  sent-Turn ch mid (ok u, after) i h = IsSplit-send_chunk ch mid after i h
  sent-Turn ch mid (err e, after) i h = tt
  sent-Turn ch mid (panic, after) i h = tt
  sent-Turn ch mid (hang, after) i h = tt
  sent-Turn ch mid (starved, after) i h = tt

  try_send_data-Split : (ch : BackendChannel S C) → Split ch (try_send_data su ch)
  unfolding try_send_data send_round
  try_send_data-Split ch =
      drive-Invariant (λ u ch'. IsSplit ch ch') (Split ch) (send_round su)
        (λ u mid i.
          elim (Bool-cases ((not (length mid.pending_send == 0)) && can_send mid.flow_control)) [
            | inl e ↦ rw e (sent-Turn ch mid (send_chunk su (chunk mid) (tuned mid)) i refl)
            | inr e ↦ rw e (i, idle_test mid.pending_send mid.flow_control e)
          ])
        (λ u mid i. tt) (λ u ch'. length ch'.pending_send) tt ch ([], nothing, refl)

  module _ (fed : AlwaysFed su.enc su.comp) where
    send_chunk-IsFed : (now : Bytes) (ch : BackendChannel S C) → IsFed (send_chunk su now ch).0
    unfolding send_chunk send
    send_chunk-IsFed now ch =
        if-cases (λ (p : SshResult (Unit {0}) × BackendChannel S C). IsFed p.0) (closed ch) _ _
          (λ e. tt) (λ e. write_stream-IsFed su.enc su.comp fed _ ch.link)

    shorter :
        (ch : BackendChannel S C)
        → ((not (length ch.pending_send == 0)) && can_send ch.flow_control) ≡ true
        → length (send_chunk su (chunk ch) (tuned ch)).1.pending_send < length ch.pending_send
    shorter ch e =
        let law = tune_on_send_lem ch.flow_control ch.pending_send in
        let (some_pending, some_window) = busy_test ch.pending_send ch.flow_control e in
        let kept = ap length (pending-send_chunk (chunk ch) (tuned ch)) in
        let parts : length (chunk ch) + length (tuned ch).pending_send ≡ length ch.pending_send =
          sym (length-append (chunk ch) (tuned ch).pending_send) ∙ ap length law.0 in
        let taken : 0 < length (chunk ch) = rw law.1 (omega (arith, some_pending, some_window)) in
        omega (arith, kept, parts, taken)

    abbrev OnRound : ℕ → SshResult (Unit {0} ⊎ Unit {0}) × BackendChannel S C → Type 0
    OnRound r p =
        Round (λ ch. 0) (λ (u : Unit {0}) ch. length ch.pending_send) (λ (u : Unit {0}). 0) 0 r p

    send_round-Round :
        (u : Unit {0}) (ch : BackendChannel S C)
        → OnRound (length ch.pending_send) (send_round su u ch)
    unfolding send_round
    send_round-Round u ch =
        if-cases (OnRound (length ch.pending_send))
          ((not (length ch.pending_send == 0)) && can_send ch.flow_control) _ _
          (λ e.
            let after = (send_chunk su (chunk ch) (tuned ch)).1 in
            next-Round (λ ch. 0) (λ (u : Unit {0}) ch. length ch.pending_send) (λ (u : Unit {0}). 0)
              0 (length ch.pending_send) (send_chunk su (chunk ch) (tuned ch)).0
              (λ v. (ok (inl tt), after)) after (send_chunk-IsFed (chunk ch) (tuned ch))
              λ v q. (shorter ch e, omega arith))
          (λ e. omega arith)

    try_send_data-IsFed : (ch : BackendChannel S C) → IsFed (try_send_data su ch).0
    unfolding try_send_data
    try_send_data-IsFed ch =
        Paid-IsFed (λ ch. 0) (λ u. 0) 0 _
          (drive-Pays (λ ch. 0) (λ u ch. length ch.pending_send) (λ u. 0) (send_round su)
            send_round-Round tt ch)

    -- Sending all that can be sent never uses up the bound of its loop, if the cipher and the
    -- compressor do not, and if it ends without an error, then the bytes that were pending are, in
    -- their order, those of the messages that were sent and those that still are pending, and of
    -- these there are none unless the window of the peer is used up.
    pub try_send_data-Emptied : (ch : BackendChannel S C) → Emptied ch (try_send_data su ch)
    try_send_data-Emptied ch =
        both (try_send_data su ch) (try_send_data-IsFed ch) (try_send_data-Split ch)
      where
        both :
            (p : SshResult (Unit {0}) × BackendChannel S C) → IsFed p.0 → Split ch p → Emptied ch p
        both (ok u, ch') f h = h
        both (err e, ch') f h = tt
        both (panic, ch') f h = tt
        both (hang, ch') f h = tt
        both (starved, ch') f h = absurd f
