-- ===== src/ClientLoop/Fine.antt =====
-- The channels that the thread of a session keeps are open, and stand under their own numbers.
use mathlib.Core.Path.{subst}
use ssh_rs.Base.{
  ℕ, ◌≡◌, refl, ap, ◌∙◌, [], ◌∷◌, Bool, true, false, ◌&&◌, Bool-cases, Option, none, some, inl, inr,
  ◌==◌, All, if-cases, arith,
}
use ssh_rs.Error.{SshResult, ok, err, panic, hang, starved, or_return, IsFailure}
use ssh_rs.Data.{Bytes, get_u32}
use ssh_rs.Io.{Io, ◌>>◌}
use ssh_rs.Io.Keeps.{Keeps, lift-Keeps, then-Keeps}
use ssh_rs.Client.{Link}
use ssh_rs.Suite.{Suite}
use ssh_rs.BackendChannel
use ssh_rs.BackendChannel.{
  BackendChannel, Sender, closed, post, post_by, on_local_close, on_remote_close, success, failed,
}
use ssh_rs.BackendChannel.Flags.{KeepsFlags, send-KeepsFlags, send_data-KeepsFlags}
use ssh_rs.ClientLoop.{
  BackendRqst, rqst_open_channel, rqst_data, rqst_command, rqst_close_channel, Table, find, remove,
  put, ClientLoop, on_link, insert_pending, on_request, write, for_channel, on_close, on_found,
  on_channel, drop_found, drop_closed,
}

module _ {A : Type 0} (P : ℕ × A → Type 0) where
  remove-All : (k : ℕ) (t : Table A) → All P t → All P (remove k t)
  unfolding remove
  remove-All k [] h = tt
  remove-All k ((j, a) ∷ t) (h, hs) =
      if-cases (All P) (j == k) _ _ (λ e. remove-All k t hs) (λ e. (h, remove-All k t hs))

  pub put-All : (k : ℕ) (a : A) (t : Table A) → P (k, a) → All P t → All P (put k a t)
  unfolding put
  put-All k a t h hs = (h, remove-All k t hs)

  -- What is found is in the table.
  FoundIn : ℕ → Option A → Type 0
  FoundIn k none = Unit {0}
  FoundIn k (some a) = P (k, a)

  find-FoundIn : (k : ℕ) (t : Table A) → All P t → FoundIn k (find k t)
  unfolding find FoundIn
  find-FoundIn k [] h = tt
  find-FoundIn k ((j, a) ∷ t) (h, hs) = elim (Bool-cases (j == k)) [
    | inl e ↦ let same : j ≡ k = ground arith in rw e (subst (λ i. P (i, a)) same h)
    | inr e ↦ rw e (find-FoundIn k t hs)
  ]

  find-put : (k : ℕ) (a : A) (t : Table A) → find k (put k a t) ≡ some a
  unfolding find put
  find-put k a t = ground arith

  remove-put-All : (k : ℕ) (a : A) (t : Table A) → All P t → All P (remove k (put k a t))
  unfolding remove put
  remove-put-All k a t hs =
      if-cases (All P) (k == k) _ _ (λ e. remove-All k _ (remove-All k t hs))
        (λ e. absurd (ground arith))

module _ {S C : Type 0} where
  -- An entry of the table of channels: under its own number, and not closed on both sides.
  abbrev pub IsKept : ℕ × BackendChannel S C → Type 0
  IsKept e = (e.1.client_channel_no ≡ e.0) × (closed e.1 ≡ false)

  abbrev pub IsFine : ClientLoop S C → Type 0
  IsFine s = All IsKept s.channels

  -- A method of a channel that keeps its number and its flags.
  abbrev pub Steady : Io (BackendChannel S C) (Unit {0}) → Type 0
  Steady m = (n : ℕ) (a b : Bool) → KeepsFlags n a b m

  kept :
      (id : ℕ) (m : Io (BackendChannel S C) (Unit {0})) (ch : BackendChannel S C) (l : Link S C)
      → Steady m
      → IsKept (id, ch)
      → IsKept (id, (m (record ch { link = l })).1)
  kept id m ch l steady (own, open_) =
      let (own', same_local, same_remote) =
        steady ch.client_channel_no ch.local_close ch.remote_close (record ch { link = l })
          (refl, refl, refl) in
      (own' ∙ own, rw (same_local, same_remote) open_)

  on_found-IsFine :
      (id : ℕ) (o : Option (BackendChannel S C)) (m : Io (BackendChannel S C) (Unit {0}))
      (s : ClientLoop S C)
      → Steady m
      → FoundIn IsKept id o
      → IsFine s
      → IsFine (on_found id o m s).1
  unfolding on_found FoundIn
  on_found-IsFine id none m s steady f h = h
  on_found-IsFine id (some ch) m s steady f h =
      put-All IsKept id (m (record ch { link = s.link })).1 s.channels
        (kept id m ch s.link steady f) h

  pub on_channel-IsFine :
      (id : ℕ) (m : Io (BackendChannel S C) (Unit {0})) → Steady m → Keeps IsFine (on_channel id m)
  unfolding on_channel
  on_channel-IsFine id m steady s h =
      on_found-IsFine id (find id s.channels) m s steady (find-FoundIn IsKept id s.channels h) h

  -- What a method that closes a side of a channel leaves: if it fails, the channel is still open.
  abbrev StillOpen : BackendChannel S C → SshResult (Unit {0}) × BackendChannel S C → Type 0
  StillOpen ch p =
      (p.1.client_channel_no ≡ ch.client_channel_no) × (IsFailure p.0 → closed p.1 ≡ false)

  abbrev Closes : Io (BackendChannel S C) (Unit {0}) → Type 0
  Closes m = (ch : BackendChannel S C) → closed ch ≡ false → StillOpen ch (m ch)

  dropped-IsFine :
      (id : ℕ) (ch : BackendChannel S C) (s : ClientLoop S C) (l : Link S C)
      → ch.client_channel_no ≡ id
      → IsFine s
      → IsFine (drop_closed id (record s { link = l; channels = put id ch s.channels })).1
  unfolding drop_closed drop_found
  dropped-IsFine id ch s l own h =
      rw (find-put IsKept id ch s.channels) (elim (Bool-cases (closed ch)) [
        | inl e ↦ rw e (remove-put-All IsKept id ch s.channels h)
        | inr e ↦ rw e (put-All IsKept id ch s.channels (own, e) h)
      ])

  after_close :
      (id : ℕ) (r : SshResult (Unit {0})) (ch : BackendChannel S C) (s : ClientLoop S C)
      (l : Link S C)
      → ch.client_channel_no ≡ id
      → (IsFailure r → closed ch ≡ false)
      → IsFine s
      → IsFine
          (or_return r
            (λ u. drop_closed id (record s { link = l; channels = put id ch s.channels }))
            (record s { link = l; channels = put id ch s.channels })).1
  after_close id (ok u) ch s l own open_ h = dropped-IsFine id ch s l own h
  after_close id (err e) ch s l own open_ h = put-All IsKept id ch s.channels (own, open_ tt) h
  after_close id panic ch s l own open_ h = put-All IsKept id ch s.channels (own, open_ tt) h
  after_close id hang ch s l own open_ h = put-All IsKept id ch s.channels (own, open_ tt) h
  after_close id starved ch s l own open_ h = put-All IsKept id ch s.channels (own, open_ tt) h

  close_found-IsFine :
      (id : ℕ) (o : Option (BackendChannel S C)) (m : Io (BackendChannel S C) (Unit {0}))
      (s : ClientLoop S C)
      → Closes m
      → FoundIn IsKept id o
      → IsFine s
      → IsFine ((on_found id o m >> drop_closed id) s).1
  unfolding on_found FoundIn
  close_found-IsFine id none m s closes f h = h
  close_found-IsFine id (some ch) m s closes (own, open_) h =
      let before : BackendChannel S C = record ch { link = s.link } in
      let (own', open') = closes before open_ in
      after_close id (m before).0 (m before).1 s (m before).1.link (own' ∙ own) open' h

  close_channel-IsFine :
      (id : ℕ) (m : Io (BackendChannel S C) (Unit {0}))
      → Closes m
      → Keeps IsFine (on_channel id m >> drop_closed id)
  unfolding on_channel
  close_channel-IsFine id m closes s h =
      close_found-IsFine id (find id s.channels) m s closes (find-FoundIn IsKept id s.channels h) h

  after_send :
      (ch : BackendChannel S C) (p : SshResult (Unit {0}) × BackendChannel S C)
      → p.1.client_channel_no ≡ ch.client_channel_no
      → closed p.1 ≡ false
      → StillOpen ch (or_return p.0 (λ u. on_local_close p.1) p.1)
  unfolding on_local_close
  after_send ch (ok u, ch') own open_ = (own, λ f. absurd f)
  after_send ch (err e, ch') own open_ = (own, λ f. open_)
  after_send ch (panic, ch') own open_ = (own, λ f. open_)
  after_send ch (hang, ch') own open_ = (own, λ f. open_)
  after_send ch (starved, ch') own open_ = (own, λ f. open_)

  on_remote_close-Closes : Closes on_remote_close
  unfolding on_remote_close post
  on_remote_close-Closes ch open_ =
      if-cases (λ p. StillOpen ch p) ch.local_close _ _ (λ e. (refl, λ f. absurd f))
        (λ e. (refl, λ f. ap (λ b. b && true) e))

  module _ (su : Suite S C) where
    local_close-Closes : (d : Bytes) → Closes (BackendChannel.send su d >> on_local_close)
    local_close-Closes d ch open_ =
        let (own, same_local, same_remote) =
          send-KeepsFlags ch.client_channel_no ch.local_close ch.remote_close su d ch
            (refl, refl, refl) in
        after_send ch (BackendChannel.send su d ch) own (rw (same_local, same_remote) open_)

    pub on_link-IsFine : {A : Type 0} (m : Io (Link S C) A) → Keeps IsFine (on_link m)
    on_link-IsFine m s h = h

    insert_pending-IsFine :
        (id : ℕ) (o : Option Sender) (snd : Sender) → Keeps IsFine (insert_pending su id o snd)
    unfolding insert_pending
    insert_pending-IsFine id none snd s h = h
    insert_pending-IsFine id (some old) snd s h = h

    pub on_request-IsFine : (rqst : BackendRqst) → Keeps IsFine (on_request su rqst)
    unfolding on_request write
    on_request-IsFine (rqst_open_channel id d sender) =
        then-Keeps IsFine _ (λ s. insert_pending su id (find id s.pendings) sender s) (λ s h. h)
          (λ s h. insert_pending-IsFine id (find id s.pendings) sender s h)
    on_request-IsFine (rqst_data id d) =
        on_channel-IsFine id (BackendChannel.send_data su d)
          (λ n a b. send_data-KeepsFlags n a b su d)
    on_request-IsFine (rqst_command id d) =
        on_channel-IsFine id (BackendChannel.send su d) (λ n a b. send-KeepsFlags n a b su d)
    on_request-IsFine (rqst_close_channel id d) =
        close_channel-IsFine id (BackendChannel.send su d >> on_local_close) (local_close-Closes d)

    pub for_channel-IsFine :
        (d : Bytes) (m : Bytes → Io (BackendChannel S C) (Unit {0}))
        → ((b : Bytes) → Steady (m b))
        → Keeps IsFine (for_channel su d m)
    unfolding for_channel
    for_channel-IsFine d m steady =
        lift-Keeps IsFine (get_u32 d) _ λ p. on_channel-IsFine p.0 (m p.1) (steady p.1)

    pub on_close-IsFine : (d : Bytes) → Keeps IsFine (on_close su d)
    unfolding on_close
    on_close-IsFine d =
        lift-Keeps IsFine (get_u32 d) _
          λ p. close_channel-IsFine p.0 on_remote_close on_remote_close-Closes
