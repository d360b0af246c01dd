-- ===== src/ClientLoop/Rounds.antt =====
-- The rounds of the thread of a session keep its table of channels.
use mathlib.Core.Path.{subst}
use ssh_rs.Base.{
  ℕ, ◌≡◌, refl, List, [], ◌∷◌, Bool, true, false, Option, none, some, ◌==◌, if◌then◌else◌,
}
use ssh_rs.Error.{SshResult, ok, err, panic, hang, starved, >>=-eq-ok}
use ssh_rs.Data.{Bytes, get_u8, get_u32}
use ssh_rs.Constant.{
  kexinit, channel_open_confirmation, channel_open_failure, channel_data, channel_extended_data,
  channel_window_adjust, channel_close, global_request, channel_request, channel_success,
  channel_failure,
}
use ssh_rs.FlowControl
use ssh_rs.AlgList.{unpack}
use ssh_rs.Kex.{key_agreement}
use ssh_rs.Hash.{ctx_new, set_i_s}
use ssh_rs.Io.{Io, pure, lift, ◌>>=◌}
use ssh_rs.Io.Keeps.{Keeps, bind-Keeps, lift-Keeps, then-Keeps}
use ssh_rs.Client.{Link}
use ssh_rs.Packet.{try_from_stream}
use ssh_rs.Suite.{Suite}
use ssh_rs.OpenReply.{failure_text}
use ssh_rs.BackendChannel
use ssh_rs.BackendChannel.{
  BackendChannel, Sender, resp_ok, resp_fail, post_by, success, failed, recv_rqst,
}
use ssh_rs.BackendChannel.Flags.{
  recv_rqst-KeepsFlags, recv-KeepsFlags, recv_window_adjust-KeepsFlags, drop_error-KeepsFlags,
}
use ssh_rs.ClientLoop.{
  Polled, disconnected, empty, request, find, ClientLoop, start, on_link, take_found, take_pending,
  insert_new, on_confirmation, on_open_failure, write, on_rekey, channel_arms, on_message,
  on_packet, on_poll, loop_round, client_loop,
}
use ssh_rs.ClientLoop.Fine.{
  put-All, IsKept, IsFine, on_request-IsFine, for_channel-IsFine, on_close-IsFine,
}

module _ {S C : Type 0} where
  take_pending-IsFine : (id : ℕ) → Keeps (IsFine {S = S} {C = C}) (take_pending id)
  unfolding take_pending take_found
  take_pending-IsFine id s h = taken (find id s.pendings)
    where
      taken : (o : Option Sender) → IsFine (take_found id o s).1
      taken none = h
      taken (some snd) = h

  new-IsKept :
      (server_no client_no window : ℕ) (snd : Sender) (l : Link S C) (ch : BackendChannel S C)
      → BackendChannel.new server_no client_no window snd l ≡ ok ch
      → IsKept (client_no, ch)
  unfolding BackendChannel.new
  new-IsKept server_no client_no window snd l ch h =
      let (u, e, k) = >>=-eq-ok (post_by snd.left (resp_ok server_no) snd).0 _ h in
      let made : BackendChannel S C = record {
        snd = (post_by snd.left (resp_ok server_no) snd).1;
        server_channel_no = server_no;
        client_channel_no = client_no;
        remote_close = false;
        local_close = false;
        flow_control = FlowControl.new window;
        pending_send = [];
        link = l;
      } in
      let same : made ≡ ch = cc in subst (λ c. IsKept (client_no, c)) same (refl, refl)

  inserted-IsFine :
      (id : ℕ) (o : Option (BackendChannel S C)) (ch : BackendChannel S C) (s : ClientLoop S C)
      → IsKept (id, ch)
      → IsFine s
      → IsFine (insert_new id o ch s).1
  unfolding insert_new
  inserted-IsFine id none ch s k h = put-All IsKept id ch s.channels k h
  inserted-IsFine id (some old) ch s k h = h

  made-IsFine :
      (id : ℕ) (r : SshResult (BackendChannel S C)) (s : ClientLoop S C)
      → ((ch : BackendChannel S C) → r ≡ ok ch → IsKept (id, ch))
      → IsFine s
      → IsFine ((lift r >>= λ ch. insert_new id (find id s.channels) ch) s).1
  made-IsFine id (ok ch) s k h = inserted-IsFine id (find id s.channels) ch s (k ch refl) h
  made-IsFine id (err e) s k h = h
  made-IsFine id panic s k h = h
  made-IsFine id hang s k h = h
  made-IsFine id starved s k h = h

  on_confirmation-IsFine : (d : Bytes) → Keeps (IsFine {S = S} {C = C}) (on_confirmation d)
  unfolding on_confirmation
  on_confirmation-IsFine d = lift-Keeps IsFine (get_u32 d) _ λ p.
      lift-Keeps IsFine (get_u32 p.1) _ λ q. lift-Keeps IsFine (get_u32 q.1) _ λ r.
        lift-Keeps IsFine (get_u32 r.1) _ λ t.
          bind-Keeps IsFine (take_pending p.0)
            (λ sender s.
              (lift (BackendChannel.new q.0 p.0 r.0 sender s.link) >>= λ ch.
              insert_new p.0 (find p.0 s.channels) ch)
                s)
            (take_pending-IsFine p.0)
            λ sender s h.
              made-IsFine p.0 (BackendChannel.new q.0 p.0 r.0 sender s.link) s
                (λ ch e. new-IsKept q.0 p.0 r.0 sender s.link ch e) h

  on_open_failure-IsFine : (d : Bytes) → Keeps (IsFine {S = S} {C = C}) (on_open_failure d)
  unfolding on_open_failure
  on_open_failure-IsFine d = lift-Keeps IsFine (get_u32 d) _ λ p.
      bind-Keeps IsFine (take_pending p.0) (λ sender. lift (failure_text d) >>= post_failure sender)
        (take_pending-IsFine p.0)
        λ sender. lift-Keeps IsFine (failure_text d) (post_failure sender) λ text s h. h
    where
      post_failure : Sender → Bytes → Io (ClientLoop S C) (Unit {0})
      post_failure sender text s =
          let (r, snd) = post_by sender.left (resp_fail text) sender in
          (r, record s { dropped = snd ∷ s.dropped })

  if-IsFine :
      (t : Bool) (x y : Io (ClientLoop S C) (Unit {0}))
      → Keeps IsFine x
      → Keeps IsFine y
      → Keeps IsFine (if t then x else y)
  if-IsFine true x y h k = h
  if-IsFine false x y h k = k

  module _ (su : Suite S C) where
    on_rekey-IsFine : (payload : Bytes) → Keeps IsFine (on_rekey su payload)
    unfolding on_rekey
    on_rekey-IsFine payload = lift-Keeps IsFine (unpack payload) _ λ algs.
        bind-Keeps IsFine (on_link (key_agreement su algs (set_i_s payload ctx_new)))
          (λ digest. pure tt) (λ s h. h) λ digest s h. h

    -- The arms of the match that hand a message to its channel.
    for_channel_arms-IsFine : (code : ℕ) (d : Bytes) → Keeps IsFine (channel_arms su code d)
    unfolding channel_arms success BackendChannel.post failed
    for_channel_arms-IsFine code d =
        if-IsFine (code == channel_data) _ _
          (for_channel-IsFine su d _ λ b n x y. recv-KeepsFlags n x y su b)
          (if-IsFine (code == channel_extended_data) _ _
            (for_channel-IsFine su d _
              λ b n x y. lift-Keeps _ (get_u32 b) _ λ p. recv-KeepsFlags n x y su p.1)
            (if-IsFine (code == channel_window_adjust) _ _
              (for_channel-IsFine su d _ λ b n x y.
                lift-Keeps _ (get_u32 b) _ λ p. recv_window_adjust-KeepsFlags n x y su p.0)
              (if-IsFine (code == channel_request) _ _
                (for_channel-IsFine su d _ λ b n x y.
                  drop_error-KeepsFlags n x y (recv_rqst b) (recv_rqst-KeepsFlags n x y b))
                (if-IsFine (code == channel_success) _ _
                  (for_channel-IsFine su d (λ b. success) λ b n x y ch h. h)
                  (if-IsFine (code == channel_failure) _ _
                    (for_channel-IsFine su d (λ b. failed) λ b n x y ch h. h) (λ s h. h))))))

    on_message-IsFine :
        (payload : Bytes) (code : ℕ) (d : Bytes) → Keeps IsFine (on_message su payload code d)
    unfolding on_message write
    on_message-IsFine payload code d =
        if-IsFine (code == channel_open_confirmation) _ _ (on_confirmation-IsFine d) (
          if-IsFine (code == channel_open_failure) _ _ (on_open_failure-IsFine d) (
            if-IsFine (code == kexinit) _ _ (on_rekey-IsFine payload) (
              if-IsFine (code == channel_close) _ _ (on_close-IsFine su d) (
                if-IsFine (code == global_request) _ _ (λ s h. h)
                  (for_channel_arms-IsFine code d)))))

    on_packet-IsFine : (o : Option Bytes) → Keeps IsFine (on_packet su o)
    unfolding on_packet
    on_packet-IsFine none s h = h
    on_packet-IsFine (some payload) s h =
        lift-Keeps IsFine (get_u8 payload) (λ p. on_message su payload p.0 p.1)
          (λ p. on_message-IsFine payload p.0 p.1) s h

    on_poll-IsFine : (polled : Polled) → Keeps IsFine (on_poll su polled)
    unfolding on_poll
    on_poll-IsFine (request rqst) s h = on_request-IsFine su rqst s h
    on_poll-IsFine disconnected s h = h
    on_poll-IsFine empty s h = h

    loop_round-IsFine : (polled : Polled) → Keeps IsFine (loop_round su polled)
    unfolding loop_round
    loop_round-IsFine polled =
        then-Keeps IsFine (on_poll su polled)
          (on_link (try_from_stream su.enc su.comp) >>= on_packet su) (on_poll-IsFine polled)
          (bind-Keeps IsFine (on_link (try_from_stream su.enc su.comp)) (on_packet su) (λ s h. h)
            on_packet-IsFine)

    client_loop-Keeps : (polls : List Polled) → Keeps IsFine (client_loop su polls)
    unfolding client_loop
    client_loop-Keeps [] s h = h
    client_loop-Keeps (disconnected ∷ polls) s h = h
    client_loop-Keeps (empty ∷ polls) s h =
        then-Keeps IsFine (loop_round su empty) (client_loop su polls) (loop_round-IsFine empty)
          (client_loop-Keeps polls) s h
    client_loop-Keeps (request rqst ∷ polls) s h =
        then-Keeps IsFine (loop_round su (request rqst)) (client_loop su polls)
          (loop_round-IsFine (request rqst)) (client_loop-Keeps polls) s h

    -- From the start of a session, after any rounds of its thread with any requests, messages and
    -- failures: each channel that the thread keeps stands under its own number, and none of them is
    -- closed on both sides.
    pub client_loop-IsFine :
        (polls : List Polled) (l : Link S C) → IsFine (client_loop su polls (start l)).1
    client_loop-IsFine polls l = client_loop-Keeps polls (start l) tt
