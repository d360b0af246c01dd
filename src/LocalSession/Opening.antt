-- ===== src/LocalSession/Opening.antt =====
-- Where the numbers of a channel that is opened come from.
use mathlib.Core.Path.{subst}
use ssh_rs.Base.{
  ℕ, ◌≡◌, refl, sym, [], ◌∷◌, ◌++◌, ◌⊎◌, inl, inr, Bool-cases, ◌==◌, leb, length, take, drop,
  if-cases, arith, take-append-drop,
}
use ssh_rs.Error.{
  SshResult, ok, err, panic, hang, starved, or_return, or_return_cases, IsFailure, >>=-eq-ok,
  map_ok, and_then, general_error,
}
use ssh_rs.Constant.{
  channel_open_confirmation, channel_open_failure, global_request, request_failure,
}
use ssh_rs.Data.{Bytes, drain, from_be_bytes, get_u8, get_u32, put_u8}
use ssh_rs.Io.{Io}
use ssh_rs.Io.Invariant.{Turn, drive-Invariant}
use ssh_rs.Sequence.{next}
use ssh_rs.Client.{Link}
use ssh_rs.Packet.{write_stream, from_stream}
use ssh_rs.Suite.{Suite}
use ssh_rs.Kex.{incoming}
use ssh_rs.Channel
use ssh_rs.Channel.{Channel}
use ssh_rs.OpenReply.{confirmation, refusal, failure_text}
use ssh_rs.LocalSession.{
  LocalSession, send_open_channel, open_arm, open_round, receive_open_channel, ask_channel,
  open_channel,
}

-- Four bytes of the message `d`, and what follows them.
abbrev pub Field : Bytes → ℕ → Bytes → Type 0
Field d n rest = (four : Bytes) × (d ≡ four ++ rest) × (from_be_bytes four ≡ ok n)

drain-eq-ok : (n : ℕ) (d front rest : Bytes) → drain n d ≡ ok (front, rest) → d ≡ front ++ rest
unfolding drain
drain-eq-ok n d front rest h = elim (Bool-cases (leb n (length d))) [
  | inl e ↦
      let h' : ◌≡◌ {A = SshResult (Bytes × Bytes)} (ok (take n d, drop n d)) (ok (front, rest)) =
        rw e at h in
      let f : take n d ≡ front = cc in let r : drop n d ≡ rest = cc in cc (take-append-drop n d)
  | inr e ↦ let h' : panic ≡ ok (front, rest) = rw e at h in cc
]

get_u32-Field : (d rest : Bytes) (n : ℕ) → get_u32 d ≡ ok (n, rest) → Field d n rest
unfolding get_u32
get_u32-Field d rest n h =
    let ((four, tail), e1, k1) = >>=-eq-ok (drain 4 d) _ h in
    let (m, e2, k2) = >>=-eq-ok (from_be_bytes four) _ k1 in
    (four, drain-eq-ok 4 d four rest cc, cc)

-- CHANNEL_OPEN_CONFIRMATION with the number and the window of the server: they are the second and the
-- third of its four fields.
abbrev pub Confirms : Bytes → ℕ × ℕ → Type 0
Confirms payload a =
    (d d1 d2 d3 d4 : Bytes) × (payload ≡ channel_open_confirmation ∷ d)
    × ((recipient : ℕ) × Field d recipient d1)
    × Field d1 a.0 d2
    × Field d2 a.1 d3
    × ((packet_size : ℕ) × Field d3 packet_size d4)

confirmation-Confirms :
    (d : Bytes) (a : ℕ × ℕ) → confirmation d ≡ ok a → Confirms (channel_open_confirmation ∷ d) a
unfolding confirmation
confirmation-Confirms d a h =
    let ((r, d1), e1, k1) = >>=-eq-ok (get_u32 d) _ h in
    let ((nr, d2), e2, k2) = >>=-eq-ok (get_u32 d1) _ k1 in
    let ((win, d3), e3, k3) = >>=-eq-ok (get_u32 d2) _ k2 in
    let ((size, d4), e4, k4) = >>=-eq-ok (get_u32 d3) _ k3 in
    let f2 : Field d1 a.0 d2 = get_u32-Field d1 d2 a.0 cc in
    let f3 : Field d2 a.1 d3 = get_u32-Field d2 d3 a.1 cc in
    (
      d,
      d1,
      d2,
      d3,
      d4,
      refl,
      (r, get_u32-Field d d1 r e1),
      f2,
      f3,
      (size, get_u32-Field d3 d4 size e4),
    )

module _ {S C : Type 0} (su : Suite S C) where
  -- The links in which the loop has still to read a message, from the start in `l`.
  pub data Waits (l : Link S C) : Link S C → Type 0 where
    asked : Waits l l
    waits : (l1 l2 : Link S C) → Waits l l1 → open_round su tt l1 ≡ (ok (inl tt), l2) → Waits l l2

  -- The message that the link has next confirms the channel.
  abbrev pub IsConfirmed : Link S C → ℕ × ℕ → Type 0
  IsConfirmed l a =
      (payload : Bytes) × ((from_stream su.enc su.comp l).0 ≡ ok payload) × Confirms payload a

  -- Where a round ends the loop without an error, its numbers are in `P`.
  abbrev Ends : (ℕ × ℕ → Type 0) → SshResult (Unit {0} ⊎ (ℕ × ℕ)) × Link S C → Type 0
  Ends P (ok (inr a), l) = P a
  Ends P (_, l) = Unit {0}

  Ends-failure :
      (P : ℕ × ℕ → Type 0) (l : Link S C) (r : SshResult (Unit {0} ⊎ (ℕ × ℕ)))
      → IsFailure r
      → Ends P (r, l)
  Ends-failure P l (ok a) f = absurd f
  Ends-failure P l (err e) f = tt
  Ends-failure P l panic f = tt
  Ends-failure P l hang f = tt
  Ends-failure P l starved f = tt

  map_ok-Ends :
      (P : ℕ × ℕ → Type 0) (r : SshResult (ℕ × ℕ)) (l : Link S C)
      → ((a : ℕ × ℕ) → r ≡ ok a → P a)
      → Ends P (map_ok inr r, l)
  map_ok-Ends P (ok a) l h = h a refl
  map_ok-Ends P (err e) l h = tt
  map_ok-Ends P panic l h = tt
  map_ok-Ends P hang l h = tt
  map_ok-Ends P starved l h = tt

  refusal-Ends : (P : ℕ × ℕ → Type 0) (d : Bytes) (l : Link S C) → Ends P (refusal d, l)
  unfolding refusal
  refusal-Ends P d l = Ends-failure P l (refusal d) (refused (failure_text d))
    where
      refused :
          (r : SshResult Bytes)
          → IsFailure {A = Unit {0} ⊎ (ℕ × ℕ)} (and_then r (λ text. err (general_error text)))
      refused (ok text) = tt
      refused (err e) = tt
      refused panic = tt
      refused hang = tt
      refused starved = tt

  open_arm-Ends :
      (P : ℕ × ℕ → Type 0) (code : ℕ) (d : Bytes) (l : Link S C)
      → ((a : ℕ × ℕ) → code ≡ channel_open_confirmation → confirmation d ≡ ok a → P a)
      → Ends P (open_arm su code d l)
  unfolding open_arm
  open_arm-Ends P code d l h =
      if-cases (λ (io : Io (Link S C) (Unit {0} ⊎ (ℕ × ℕ))). Ends P (io l))
        (code == channel_open_confirmation) _ _
        (λ e. map_ok-Ends P (confirmation d) l (λ a k. h a (ground arith) k))
        (λ e.
          if-cases (λ (io : Io (Link S C) (Unit {0} ⊎ (ℕ × ℕ))). Ends P (io l))
            (code == channel_open_failure) _ _ (λ f. refusal-Ends P d l)
            (λ f.
              if-cases (λ (io : Io (Link S C) (Unit {0} ⊎ (ℕ × ℕ))). Ends P (io l))
                (code == global_request) _ _
                (λ g.
                  or_return_cases (Ends P)
                    (write_stream su.enc su.comp (put_u8 [] request_failure) l).0 _ _ (λ u k. tt)
                    (Ends-failure P _))
                (λ g. tt)))

  first_message :
      (l : Link S C) (payload d : Bytes) (code : ℕ) (a : ℕ × ℕ)
      → (from_stream su.enc su.comp l).0 ≡ ok payload
      → get_u8 payload ≡ ok (code, d)
      → code ≡ channel_open_confirmation
      → confirmation d ≡ ok a
      → IsConfirmed l a
  unfolding get_u8
  first_message l [] d code a e g c k = cc
  first_message l (b ∷ payload) d code a e g c k =
      let same : b ∷ payload ≡ channel_open_confirmation ∷ d = cc in
      (b ∷ payload, e, subst (λ p. Confirms p a) (sym same) (confirmation-Confirms d a k))

  open_round-Ends : (l : Link S C) → Ends (IsConfirmed l) (open_round su tt l)
  unfolding open_round
  open_round-Ends l =
      or_return_cases (Ends (IsConfirmed l)) (from_stream su.enc su.comp l).0 _
        (from_stream su.enc su.comp l).1
        (λ payload e.
          or_return_cases (Ends (IsConfirmed l)) (get_u8 payload) _ _
            (λ p g.
              open_arm-Ends (IsConfirmed l) p.0 p.1 _
                (λ a c k. first_message l payload p.1 p.0 a e g c k))
            (Ends-failure _ _))
        (Ends-failure _ _)

  -- The numbers come from a message of a link that waited for it.
  abbrev pub Answered : Link S C → SshResult (ℕ × ℕ) × Link S C → Type 0
  Answered l (ok a, l') = (l1 : Link S C) × Waits l l1 × IsConfirmed l1 a
  Answered l (_, l') = Unit {0}

  open_round-Turn :
      (l l1 : Link S C) (p : SshResult (Unit {0} ⊎ (ℕ × ℕ)) × Link S C)
      → open_round su tt l1 ≡ p
      → Waits l l1
      → Ends (IsConfirmed l1) p
      → Turn (λ (u : Unit {0}) l'. Waits l l') (Answered l) p
  open_round-Turn l l1 (ok (inl u), l2) e w h = waits l1 l2 w e
  open_round-Turn l l1 (ok (inr a), l2) e w h = (l1, w, h)
  open_round-Turn l l1 (err x, l2) e w h = tt
  open_round-Turn l l1 (panic, l2) e w h = tt
  open_round-Turn l l1 (hang, l2) e w h = tt
  open_round-Turn l l1 (starved, l2) e w h = tt

  receive_open_channel-Answered : (l : Link S C) → Answered l (receive_open_channel su l)
  unfolding receive_open_channel
  receive_open_channel-Answered l =
      drive-Invariant (λ u l'. Waits l l') (Answered l) (open_round su)
        (λ u l1 w. open_round-Turn l l1 (open_round su tt l1) refl w (open_round-Ends l1))
        (λ u l1 w. tt) (λ u. incoming) tt l asked

  -- What `Opened` says of the request `n` and of the answer.
  abbrev Asked : ℕ → Link S C → ℕ × ℕ → Type 0
  Asked n l a =
      (l1 l2 : Link S C) × (send_open_channel su n l ≡ (ok tt, l1)) × Waits l1 l2 × IsConfirmed l2 a

  abbrev AskedOk : ℕ → Link S C → SshResult (ℕ × ℕ) × Link S C → Type 0
  AskedOk n l (ok a, l') = Asked n l a
  AskedOk n l (_, l') = Unit {0}

  Answered-AskedOk :
      (n : ℕ) (l l1 : Link S C) (p : SshResult (ℕ × ℕ) × Link S C)
      → send_open_channel su n l ≡ (ok tt, l1)
      → Answered l1 p
      → AskedOk n l p
  Answered-AskedOk n l l1 (ok a, l') e (l2, w, k) = (l1, l2, e, w, k)
  Answered-AskedOk n l l1 (err x, l') e h = tt
  Answered-AskedOk n l l1 (panic, l') e h = tt
  Answered-AskedOk n l l1 (hang, l') e h = tt
  Answered-AskedOk n l l1 (starved, l') e h = tt

  sent-AskedOk :
      (n : ℕ) (l : Link S C) (p : SshResult (Unit {0}) × Link S C)
      → send_open_channel su n l ≡ p
      → AskedOk n l (or_return p.0 (λ u. receive_open_channel su p.1) p.1)
  sent-AskedOk n l (ok u, l1) e =
      Answered-AskedOk n l l1 (receive_open_channel su l1) e (receive_open_channel-Answered l1)
  sent-AskedOk n l (err x, l1) e = tt
  sent-AskedOk n l (panic, l1) e = tt
  sent-AskedOk n l (hang, l1) e = tt
  sent-AskedOk n l (starved, l1) e = tt

  Asked-inv :
      (n : ℕ) (l : Link S C) (p : SshResult (ℕ × ℕ) × Link S C) (a : ℕ × ℕ)
      → AskedOk n l p
      → p.0 ≡ ok a
      → Asked n l a
  Asked-inv n l (ok b, l') a h e = let same : b ≡ a = cc in subst (Asked n l) same h
  Asked-inv n l (err x, l') a h e = cc
  Asked-inv n l (panic, l') a h e = cc
  Asked-inv n l (hang, l') a h e = cc
  Asked-inv n l (starved, l') a h e = cc

  -- A channel that is opened: its number is the next of the session, the request was sent, and its
  -- other number and its window are those of the first confirmation after that.
  abbrev pub Opened : LocalSession S C → Channel S C → Type 0
  Opened s ch =
      (l1 l2 : Link S C) × (a : ℕ × ℕ) × (send_open_channel su (next s.channel_num).0 s.link
        ≡ (ok tt, l1))
      × Waits l1 l2
      × IsConfirmed l2 a
      × (ch ≡ Channel.new a.0 (next s.channel_num).0 a.1 (open_channel su s).1.link)

  -- If a channel is opened, then the request has been sent with the next number of the session, the
  -- numbers of the channel's other end are the fields of a CHANNEL_OPEN_CONFIRMATION message, before
  -- which the session has only answered or ignored messages, and the channel starts open with them.
  pub open_channel-Opened :
      (s : LocalSession S C) (ch : Channel S C) → (open_channel su s).0 ≡ ok ch → Opened s ch
  unfolding open_channel ask_channel
  open_channel-Opened s ch h =
      let n = (next s.channel_num).0 in
      let (a, e, k) = >>=-eq-ok (ask_channel su n s.link).0 _ h in
      let (l1, l2, sent, waited, read) =
        Asked-inv n s.link (ask_channel su n s.link) a (sent-AskedOk n s.link _ refl) e in
      (l1, l2, a, sent, waited, read, cc)
