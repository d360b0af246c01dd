-- ===== src/Channel/Reach.antt =====
-- The whole life of a channel: each operation that a user calls, in any order and with any outcome.
use ssh_rs.Base.{
  Option, some, none, ℕ, ◌≡◌, refl, [], ◌∷◌, Bool-cases, if-cases, inl, inr, IsU32, arith,
}
use ssh_rs.Data.{Bytes, put_u8, put_u32, put_u8s}
use ssh_rs.FlowControl.{tune_on_send, can_send}
use ssh_rs.Constant.{channel_data, local_window_size}
use ssh_rs.Io.Keeps.{drive-Keeps}
use ssh_rs.Client.{Link}
use ssh_rs.Suite.{Suite}
use ssh_rs.Channel
use ssh_rs.Channel.{ChannelRead, read_data, read_code, Channel, closed, send, send_close}
use ssh_rs.Channel.Handle.{recv_once}
use ssh_rs.Channel.Loops.{
  recv_round, recv, try_handle, try_recv, recv_to_end_round, recv_to_end, receive_close, close,
  window_round, await_window, rest_or_done, send_round, send_data,
}
use ssh_rs.Channel.Steady.{
  IsAnswered, IsSteady, Steady, next-Steady, send-Steady, recv_once-Steady, handle_msg-Steady,
  send_close-Steady,
}

module _ {S C : Type 0} (su : Suite S C) (w : ℕ) (small : IsU32 w) where
  recv_round-Steady :
      (u : Unit {0}) (ch : Channel S C)
      → IsSteady su w small ch
      → Steady su w small (recv_round su u ch)
  unfolding recv_round
  recv_round-Steady u ch h = elim (Bool-cases (closed ch)) [
    | inl e ↦ rw e h
    | inr e ↦
        rw e
          (let h' = recv_once-Steady su w small ch h in next-Steady su w small _ _ _ h' (λ r. h'))
  ]

  recv-Steady : (ch : Channel S C) → IsSteady su w small ch → Steady su w small (recv su ch)
  unfolding recv
  recv-Steady = drive-Keeps (IsSteady su w small) _ (recv_round su) tt (recv_round-Steady)

  recv_to_end_round-Steady :
      (resp : Bytes) (ch : Channel S C)
      → IsSteady su w small ch
      → Steady su w small (recv_to_end_round su resp ch)
  unfolding recv_to_end_round
  recv_to_end_round-Steady resp ch h = elim (Bool-cases (closed ch)) [
    | inl e ↦ rw e h
    | inr e ↦ rw e (let h' = recv-Steady ch h in next-Steady su w small _ _ _ h' (λ r. h'))
  ]

  recv_to_end-Steady :
      (ch : Channel S C) → IsSteady su w small ch → Steady su w small (recv_to_end su ch)
  unfolding recv_to_end
  recv_to_end-Steady =
      drive-Keeps (IsSteady su w small) _ (recv_to_end_round su) [] recv_to_end_round-Steady

  receive_close-Steady :
      (ch : Channel S C) → IsSteady su w small ch → Steady su w small (receive_close su ch)
  unfolding receive_close
  receive_close-Steady ch h =
      if-cases (Steady su w small) ch.remote_close _ _ (λ e. h)
        (λ e. let h' = recv_to_end-Steady ch h in next-Steady su w small _ _ _ h' (λ r. h'))

  close-Steady : (ch : Channel S C) → IsSteady su w small ch → Steady su w small (close su ch)
  unfolding close
  close-Steady ch h =
      let h' = send_close-Steady su w small ch h in
      next-Steady su w small _ _ _ h' (λ u. receive_close-Steady _ h')

  try_recv-Steady : (ch : Channel S C) → IsSteady su w small ch → Steady su w small (try_recv su ch)
  unfolding try_recv
  try_recv-Steady ch h = next-Steady su w small _ _ _ h (λ packet. try_handle-Steady packet _ h)
    where
      try_handle-Steady :
          (packet : Option Bytes) (ch : Channel S C)
          → IsSteady su w small ch
          → Steady su w small (try_handle su packet ch)
      try_handle-Steady none ch h = h
      try_handle-Steady (some payload) ch h =
          let h' = handle_msg-Steady su w small payload ch h in
          next-Steady su w small _ _ _ h' (λ r. h')

  window_round-Steady :
      (resp : Bytes) (ch : Channel S C)
      → IsSteady su w small ch
      → Steady su w small (window_round su resp ch)
  unfolding window_round
  window_round-Steady resp ch h = elim (Bool-cases (can_send ch.flow_control)) [
    | inl e ↦ rw e h
    | inr e ↦
        rw e
          (let h' = recv_once-Steady su w small ch h in next-Steady su w small _ _ _ h' (λ r. h'))
  ]

  await_window-Steady :
      (resp : Bytes) (ch : Channel S C)
      → IsSteady su w small ch
      → Steady su w small (await_window su resp ch)
  unfolding await_window
  await_window-Steady resp =
      drive-Keeps (IsSteady su w small) _ (window_round su) resp window_round-Steady

  rest_or_done-Steady :
      (later resp : Bytes) (ch : Channel S C)
      → IsSteady su w small ch
      → Steady su w small (rest_or_done su later resp ch)
  rest_or_done-Steady [] resp ch h = h
  rest_or_done-Steady (b ∷ rest) resp ch h =
      let h' = await_window-Steady resp ch h in next-Steady su w small _ _ _ h' (λ r. h')

  send_round-Steady :
      (t : Bytes × Bytes) (ch : Channel S C)
      → IsSteady su w small ch
      → Steady su w small (send_round su t ch)
  unfolding send_round tune_on_send
  send_round-Steady (buf, resp) ch h =
      let p = tune_on_send ch.flow_control buf in
      let ch' : Channel S C = record ch { flow_control = p.0 } in
      let payload = put_u8s (put_u32 (put_u8 [] channel_data) ch.server_channel_no) p.1 in
      let h' = send-Steady su w small payload ch' h in
      next-Steady su w small (send su payload ch').0 _ _ h' (λ u. rest_or_done-Steady p.2 resp _ h')

  send_data-Steady :
      (buf : Bytes) (ch : Channel S C)
      → IsSteady su w small ch
      → Steady su w small (send_data su buf ch)
  unfolding send_data
  send_data-Steady buf =
      drive-Keeps (IsSteady su w small) _ (send_round su) (buf, []) send_round-Steady

module _ {S C : Type 0} (su : Suite S C) where
  -- What one call makes of a channel, whatever its outcome is.
  pub data Step (ch : Channel S C) : Channel S C → Type 0 where
    receives : Step ch (recv su ch).1
    tries : Step ch (try_recv su ch).1
    receives_once : Step ch (recv_once su ch).1
    receives_to_end : Step ch (recv_to_end su ch).1
    sends : (buf : Bytes) → Step ch (send_data su buf ch).1
    closes : Step ch (close su ch).1

  pub data Reaches (ch : Channel S C) : Channel S C → Type 0 where
    start : Reaches ch ch
    call : (mid after : Channel S C) → Reaches ch mid → Step mid after → Reaches ch after

  Step-Steady :
      (w : ℕ) (small : IsU32 w) (ch after : Channel S C)
      → Step ch after
      → IsSteady su w small ch
      → IsSteady su w small after
  Step-Steady w small ch after receives h = recv-Steady su w small ch h
  Step-Steady w small ch after tries h = try_recv-Steady su w small ch h
  Step-Steady w small ch after receives_once h = recv_once-Steady su w small ch h
  Step-Steady w small ch after receives_to_end h = recv_to_end-Steady su w small ch h
  Step-Steady w small ch after (sends buf) h = send_data-Steady su w small buf ch h
  Step-Steady w small ch after closes h = close-Steady su w small ch h

  Reaches-Steady :
      (w : ℕ) (small : IsU32 w) (ch after : Channel S C)
      → Reaches ch after
      → IsSteady su w small ch
      → IsSteady su w small after
  Reaches-Steady w small ch after start h = h
  Reaches-Steady w small ch after (call mid end r s) h =
      Step-Steady w small mid after s (Reaches-Steady w small ch mid r h)

  -- From the opening of a channel, after any calls with any outcomes, failures included: the whole
  -- local window is open to the peer, and if the peer has closed the channel, so have we.
  pub Reaches-new :
      (server_no client_no remote : ℕ) (link : Link S C) (ch : Channel S C)
      → Reaches (Channel.new server_no client_no remote link) ch
      → (ch.flow_control.local_window ≡ local_window_size) × IsAnswered ch
  Reaches-new server_no client_no remote link ch r =
      Reaches-Steady local_window_size (omega arith) _ ch r (refl, inl refl)
