-- ===== src/Channel/Sends.antt =====
-- `send_data` comes to an end: each round sends a byte or takes a message.
use ssh_rs.Base.{ℕ, ◌+◌, ◌≤◌, ◌<◌, ◌≡◌, ◌≢◌, [], ◌∷◌, true, false, inl, inr, arith, length}
use ssh_rs.Error.{starved, IsFed-ne-starved}
use ssh_rs.Data.{Bytes, put_u8, put_u32}
use ssh_rs.Io.Fed.{Paid, Paid-IsFed, Paid-ok}
use ssh_rs.Packet.Fed.{write_stream-IsFed, incoming-write_stream}
use ssh_rs.Packet.{write_stream}
use ssh_rs.Suite.{Suite}
use ssh_rs.Kex.Fed.{SuiteFed}
use ssh_rs.Channel.{Channel, send}
use ssh_rs.Channel.Loops.{waiting}
use ssh_rs.FlowControl.{tune_on_send, can_send_len, can_send}
use ssh_rs.Base.{length-drop, Bool-cases}
use ssh_rs.Io.Fed.{Round, next-Round, drive-Pays, drive-opened}
use ssh_rs.Channel.Loops.{
  recv, recv_to_end, close, window_round, await_window, rest_or_done, send_round, send_data,
}
use ssh_rs.Channel.Fed.{Free}
use ssh_rs.Channel.Ends.{recv_once-Paid}
use ssh_rs.Constant.{channel_data}
use ssh_rs.Data.{put_u8s}
use ssh_rs.FlowControl.{FlowControl}
use ssh_rs.Channel.Returns.{
  window_round-Round, await_window-Free, recv-Free, recv_to_end-Free, close-IsFed,
}

-- What is left after sending is no longer, and it is shorter if the window stays open.
later-le : (fc : FlowControl) (buf : Bytes) → length (tune_on_send fc buf).2 ≤ length buf
unfolding tune_on_send
later-le fc buf = omega (arith, length-drop (can_send_len fc (length buf)) buf)

later-lt :
    (fc : FlowControl) (buf : Bytes)
    → 0 < length (tune_on_send fc buf).2
    → can_send (tune_on_send fc buf).0 ≡ true
    → length (tune_on_send fc buf).2 < length buf
unfolding tune_on_send can_send_len can_send
later-lt fc buf h e = ground (arith, length-drop (can_send_len fc (length buf)) buf)

module _ {S C : Type 0} (su : Suite S C) (fed : SuiteFed su) where
  -- Where the window is shut, waiting for it takes a message.
  await_window-Paid :
      (resp : Bytes) (ch : Channel S C)
      → can_send ch.flow_control ≡ false
      → Paid waiting (λ b. 1) (waiting ch) (await_window su resp ch)
  unfolding await_window window_round
  await_window-Paid resp ch e =
      let paid = recv_once-Paid su fed ch in
      drive-opened waiting (window_round su) (window_round-Round su fed) resp ch (
        rw e (
          next-Round waiting (λ r. waiting) (λ b. 1) (waiting ch) (waiting ch) _ _ _
            (Paid-IsFed waiting (λ r. 1) _ _ paid)
            λ r q. two (Paid-ok waiting (λ r. 1) _ _ r paid q)))
    where
      two : {a b : ℕ} → a + 1 ≤ b → (a < b) × (a ≤ b)
      two h = omega arith

  abbrev left : Bytes × Bytes → Channel S C → ℕ
  left t ch = length t.0 + waiting ch

  rest_or_done-Round :
      (m n : ℕ) (later resp : Bytes) (ch : Channel S C)
      → waiting ch ≤ m
      → length later ≤ n
      → (0 < length later → can_send ch.flow_control ≡ true → length later < n)
      → Round waiting left (λ (b : Bytes). 0) m (n + m) (rest_or_done su later resp ch)
  rest_or_done-Round m n [] resp ch h le lt = omega arith
  rest_or_done-Round m n (b ∷ rest) resp ch h le lt = elim (Bool-cases (can_send ch.flow_control)) [
    | inl e ↦
        let paid = await_window-Free su fed resp ch in
        next-Round waiting left (λ b. 0) m (n + m) _ _ _ (Paid-IsFed waiting (λ b. 0) _ _ paid)
          λ r q. (
            omega (arith, lt (omega arith) e, Paid-ok waiting (λ b. 0) _ _ r paid q),
            omega (arith, Paid-ok waiting (λ b. 0) _ _ r paid q),
          )
    | inr e ↦
        let paid = await_window-Paid resp ch e in
        next-Round waiting left (λ b. 0) m (n + m) _ _ _ (Paid-IsFed waiting (λ b. 1) _ _ paid)
          λ r q. (
            omega (arith, Paid-ok waiting (λ b. 1) _ _ r paid q),
            omega (arith, Paid-ok waiting (λ b. 1) _ _ r paid q),
          )
  ]

  send_round-Round :
      (t : Bytes × Bytes) (ch : Channel S C)
      → Round waiting left (λ b. 0) (waiting ch) (left t ch) (send_round su t ch)
  unfolding send_round send
  send_round-Round (buf, resp) ch =
      let p = tune_on_send ch.flow_control buf in
      let payload = put_u8s (put_u32 (put_u8 [] channel_data) ch.server_channel_no) p.1 in
      let out = write_stream su.enc su.comp payload ch.link in
      let ch' : Channel S C = record ch { flow_control = p.0; link = out.1 } in
      next-Round waiting left (λ b. 0) (waiting ch) (length buf + waiting ch) out.0 _ ch'
        (write_stream-IsFed su.enc su.comp fed.packets payload ch.link)
        λ u q.
          rest_or_done-Round (waiting ch) (length buf) p.2 resp ch'
            (omega (arith, incoming-write_stream su.enc su.comp fed.packets payload ch.link))
            (later-le ch.flow_control buf) (later-lt ch.flow_control buf)

  send_data-Free : (buf : Bytes) (ch : Channel S C) → Free su fed ch (send_data su buf ch)
  unfolding send_data
  send_data-Free buf = drive-Pays waiting left (λ b. 0) (send_round su) send_round-Round (buf, [])

  -- No call on a channel uses up the bound of a loop, whatever the peer sends and whatever the
  -- stream does, if the calls of the algorithms do not: each loop takes a message or sends a byte in
  -- every round.
  pub calls_never_starve :
      (ch : Channel S C) (buf : Bytes)
      → ((recv su ch).0 ≢ starved)
        × ((recv_to_end su ch).0 ≢ starved)
        × ((send_data su buf ch).0 ≢ starved)
        × ((close su ch).0 ≢ starved)
  calls_never_starve ch buf = (
    IsFed-ne-starved _ (Paid-IsFed waiting (λ b. 0) _ _ (recv-Free su fed ch)),
    IsFed-ne-starved _ (Paid-IsFed waiting (λ b. 0) _ _ (recv_to_end-Free su fed ch)),
    IsFed-ne-starved _ (Paid-IsFed waiting (λ b. 0) _ _ (send_data-Free buf ch)),
    IsFed-ne-starved _ (close-IsFed su fed ch),
  )
