-- ===== src/LocalSession/Fed.antt =====
-- The wait for the answer to CHANNEL_OPEN ends: it takes a message in each round.
use ssh_rs.Base.{ℕ, [], ◌+◌, ◌≤◌, ◌<◌, ◌≡◌, ◌≢◌, ◌⊎◌, inr, if-cases, arith, ◌==◌}
use ssh_rs.Error.{
  SshResult, ok, err, panic, hang, starved, IsFed, IsFed-ne-starved, or_return-IsFed, >>=-IsFed,
  map_ok, and_then, general_error,
}
use ssh_rs.Constant.{
  channel_open_confirmation, channel_open_failure, global_request, request_failure,
}
use ssh_rs.Data.{Bytes, get_u8, put_u8}
use ssh_rs.Data.Fed.{get_u8-IsFed, get_u32-IsFed, get_u8s-IsFed}
use ssh_rs.Io.{Io}
use ssh_rs.Io.Fed.{Round, next-Round, Paid-IsFed, Paid-ok, drive-Pays}
use ssh_rs.Client.{Link}
use ssh_rs.Packet.{from_stream}
use ssh_rs.Packet.Fed.{write_stream-IsFed, incoming-write_stream, from_stream-Paid}
use ssh_rs.Suite.{Suite}
use ssh_rs.Kex.{incoming}
use ssh_rs.Kex.Fed.{SuiteFed}
use ssh_rs.OpenReply.{confirmation, refusal, failure_text}
use ssh_rs.LocalSession.{
  LocalSession, send_open_channel, open_arm, open_round, receive_open_channel, ask_channel,
  open_channel,
}

confirmation-IsFed : (d : Bytes) → IsFed (confirmation d)
unfolding confirmation
confirmation-IsFed d = >>=-IsFed _ _ (get_u32-IsFed d) λ p.
    >>=-IsFed _ _ (get_u32-IsFed p.1)
      λ q. >>=-IsFed _ _ (get_u32-IsFed q.1) λ r. >>=-IsFed _ _ (get_u32-IsFed r.1) λ s. tt

failure_text-IsFed : (d : Bytes) → IsFed (failure_text d)
unfolding failure_text
failure_text-IsFed d = >>=-IsFed _ _ (get_u32-IsFed d) λ p.
    >>=-IsFed _ _ (get_u32-IsFed p.1)
      λ q. >>=-IsFed _ _ (get_u8s-IsFed q.1) λ r. >>=-IsFed _ _ (get_u8s-IsFed r.1) λ s. tt

refusal-IsFed : (d : Bytes) → IsFed (refusal d)
unfolding refusal
refusal-IsFed d = >>=-IsFed _ _ (failure_text-IsFed d) λ text. tt

module _ {S C : Type 0} (su : Suite S C) (fed : SuiteFed su) where
  abbrev OnRound : ℕ → SshResult (Unit {0} ⊎ (ℕ × ℕ)) × Link S C → Type 0
  OnRound m p = Round incoming (λ (u : Unit {0}). incoming) (λ a. 0) m m p

  -- An outcome in a link that has taken a message.
  done-Round :
      (m : ℕ) (r : SshResult (ℕ × ℕ)) (l : Link S C)
      → incoming l < m
      → IsFed r
      → OnRound m (map_ok inr r, l)
  done-Round m (ok a) l h f = omega arith
  done-Round m (err e) l h f = tt
  done-Round m panic l h f = tt
  done-Round m hang l h f = tt
  done-Round m starved l h f = absurd f

  refusal-Round : (m : ℕ) (d : Bytes) (l : Link S C) → OnRound m (refusal d, l)
  unfolding refusal
  refusal-Round m d l = refused (failure_text d) (failure_text-IsFed d)
    where
      refused :
          (r : SshResult Bytes)
          → IsFed r
          → OnRound m (and_then r (λ text. err (general_error text)), l)
      refused (ok text) f = tt
      refused (err e) f = tt
      refused panic f = tt
      refused hang f = tt
      refused starved f = absurd f

  open_arm-Round :
      (m code : ℕ) (d : Bytes) (l : Link S C) → incoming l < m → OnRound m (open_arm su code d l)
  unfolding open_arm
  open_arm-Round m code d l h =
      if-cases (λ (io : Io (Link S C) (Unit {0} ⊎ (ℕ × ℕ))). OnRound m (io l))
        (code == channel_open_confirmation) _ _
        (λ e. done-Round m (confirmation d) l h (confirmation-IsFed d))
        (λ e.
          if-cases (λ (io : Io (Link S C) (Unit {0} ⊎ (ℕ × ℕ))). OnRound m (io l))
            (code == channel_open_failure) _ _ (λ f. refusal-Round m d l)
            (λ f.
              if-cases (λ (io : Io (Link S C) (Unit {0} ⊎ (ℕ × ℕ))). OnRound m (io l))
                (code == global_request) _ _
                (λ g.
                  next-Round incoming (λ u. incoming) (λ a. 0) m m _ _ _
                    (write_stream-IsFed su.enc su.comp fed.packets _ l)
                    λ u q. both (
                      incoming-write_stream su.enc su.comp fed.packets (put_u8 [] request_failure)
                        l))
                (λ g. omega arith)))
    where
      both : {a : ℕ} → a ≡ incoming l → (a < m) × (a ≤ m)
      both le = omega (arith, h)

  open_round-Round : (u : Unit {0}) (l : Link S C) → OnRound (incoming l) (open_round su u l)
  unfolding open_round
  open_round-Round u l =
      let paid = from_stream-Paid su.enc su.comp fed.packets l in
      let l' = (from_stream su.enc su.comp l).1 in
      next-Round incoming (λ u. incoming) (λ a. 0) (incoming l) (incoming l) _ _ _
        (Paid-IsFed incoming _ _ _ paid)
        λ payload q.
          next-Round incoming (λ u. incoming) (λ a. 0) (incoming l) (incoming l) (get_u8 payload) _
            l' (get_u8-IsFed payload)
            λ p r.
              open_arm-Round (incoming l) p.0 p.1 l' (less (Paid-ok incoming _ _ _ payload paid q))
    where
      less : {a b : ℕ} → a + 1 ≤ b → a < b
      less h = omega arith

  receive_open_channel-IsFed : (l : Link S C) → IsFed (receive_open_channel su l).0
  unfolding receive_open_channel
  receive_open_channel-IsFed l =
      Paid-IsFed incoming (λ a. 0) (incoming l) _
        (drive-Pays incoming (λ u. incoming) (λ a. 0) (open_round su) open_round-Round tt l)

  -- Opening a channel never uses up the bound of the wait for its answer, whatever the server sends,
  -- if the calls of the algorithms do not: each round takes a message off the stream.
  pub open_channel_never_starves : (s : LocalSession S C) → (open_channel su s).0 ≢ starved
  unfolding open_channel ask_channel send_open_channel
  open_channel_never_starves s = IsFed-ne-starved _ (
      >>=-IsFed _ _
        (or_return-IsFed _ _ _ (write_stream-IsFed su.enc su.comp fed.packets _ s.link)
          λ u. receive_open_channel-IsFed _)
        λ a. tt)
