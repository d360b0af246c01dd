-- ===== src/ClientLoop.antt =====
-- `client_loop` of session/session_broker.rs: the thread of a session, which takes the requests of
-- the channels and the messages of the server in turn.
pub mod Fine
pub mod Rounds
use ssh_rs.Base.{
  ℕ, List, [], ◌∷◌, ◌++◌, Bool, true, false, not, Option, none, some, ◌==◌, if◌then◌else◌,
}
use ssh_rs.Error.{SshResult, ok, err, panic, map_ok}
use ssh_rs.Constant.{
  kexinit, channel_open_confirmation, channel_open_failure, channel_data, channel_extended_data,
  channel_window_adjust, channel_close, global_request, request_failure, channel_request,
  channel_success, channel_failure,
}
use ssh_rs.Data.{Bytes, put_u8, get_u8, get_u32}
use ssh_rs.AlgList.{unpack}
use ssh_rs.Hash.{ctx_new, set_i_s}
use ssh_rs.Io.{Io, pure, lift, modify, ◌>>=◌, ◌>>◌}
use ssh_rs.Client
use ssh_rs.Client.{Link}
use ssh_rs.Packet.{write_stream, try_from_stream}
use ssh_rs.Suite.{Suite}
use ssh_rs.Kex.{key_agreement}
use ssh_rs.OpenReply.{failure_text}
use ssh_rs.Channel.Handle.{drop_error}
use ssh_rs.BackendChannel
use ssh_rs.BackendChannel.{BackendChannel, Sender, BackendResp, resp_fail, post_by, closed}

-- `BackendRqst` of model/backend_msg.rs.
pub data BackendRqst : Type 0 where
  rqst_open_channel : ℕ → Bytes → Sender → BackendRqst
  rqst_data : ℕ → Bytes → BackendRqst
  rqst_command : ℕ → Bytes → BackendRqst
  rqst_close_channel : ℕ → Bytes → BackendRqst

-- What `rcv.try_recv()` returns.
pub data Polled : Type 0 where
  disconnected empty : Polled
  request : BackendRqst → Polled

-- A `HashMap<u32, A>`.
abbrev pub Table {ℓ} : Type ℓ → Type ℓ
Table A = List (ℕ × A)

unfoldable pub find {ℓ} : {A : Type ℓ} → ℕ → Table A → Option A
find k [] = none
find k ((j, a) ∷ t) = if j == k then some a else find k t

unfoldable pub remove {ℓ} : {A : Type ℓ} → ℕ → Table A → Table A
remove k [] = []
remove k ((j, a) ∷ t) = let rest = remove k t in if j == k then rest else (j, a) ∷ rest

unfoldable pub put {ℓ} : {A : Type ℓ} → ℕ → A → Table A → Table A
put k a t = (k, a) ∷ remove k t

-- `dropped` are the senders of channels that were removed.
pub record ClientLoop (S C : Type 0) : Type 0 where
  pub link : Link S C
  pub channels : Table (BackendChannel S C)
  pub pendings : Table Sender
  pub dropped : List Sender

-- A method of the client and the stream.
abbrev pub on_link : {S C A : Type 0} → Io (Link S C) A → Io (ClientLoop S C) A
on_link m s = let (r, l) = m s.link in (r, record s { link = l })

-- The start: no channels, and no timeout.
abbrev pub start : {S C : Type 0} → Link S C → ClientLoop S C
start l = record {
  link = record l { client = Client.set_timeout none l.client };
  channels = [];
  pendings = [];
  dropped = [];
}

module _ {S C : Type 0} where
  -- A method of the channel `id`, which there has to be.
  unfoldable pub on_found :
      ℕ
      → Option (BackendChannel S C)
      → Io (BackendChannel S C) (Unit {0})
      → Io (ClientLoop S C) (Unit {0})
  on_found id none m s = (panic, s)
  on_found id (some ch) m s =
      let (r, ch') = m (record ch { link = s.link }) in
      (r, record s { link = ch'.link; channels = put id ch' s.channels })

  unfoldable pub on_channel :
      ℕ → Io (BackendChannel S C) (Unit {0}) → Io (ClientLoop S C) (Unit {0})
  on_channel id m s = on_found id (find id s.channels) m s

  -- A channel that is closed on both sides is removed.
  unfoldable pub drop_found : ℕ → Option (BackendChannel S C) → ClientLoop S C → ClientLoop S C
  drop_found id none s = s
  drop_found id (some ch) s =
      if closed ch
      then record s { channels = remove id s.channels; dropped = ch.snd ∷ s.dropped }
      else s

  unfoldable pub drop_closed : ℕ → Io (ClientLoop S C) (Unit {0})
  drop_closed id = modify λ s. drop_found id (find id s.channels) s

  -- `pendings.remove(&id)`, which has to be there.
  unfoldable pub take_found : ℕ → Option Sender → Io (ClientLoop S C) Sender
  take_found id none s = (panic, s)
  take_found id (some snd) s = (ok snd, record s { pendings = remove id s.pendings })

  unfoldable pub take_pending : ℕ → Io (ClientLoop S C) Sender
  take_pending id s = take_found id (find id s.pendings) s

  -- A new channel, where there must be none of its number.
  unfoldable pub insert_new :
      ℕ → Option (BackendChannel S C) → BackendChannel S C → Io (ClientLoop S C) (Unit {0})
  insert_new id none ch s = (ok tt, record s { channels = put id ch s.channels })
  insert_new id (some old) ch s = (panic, s)

  unfoldable pub on_confirmation : Bytes → Io (ClientLoop S C) (Unit {0})
  on_confirmation d = do
    (client_channel_no, d1) ← lift (get_u32 d)
    (server_channel_no, d2) ← lift (get_u32 d1)
    (remote_window_size, d3) ← lift (get_u32 d2)
    (packet_size, d4) ← lift (get_u32 d3)
    sender ← take_pending client_channel_no
    λ s.
        (lift (
              BackendChannel.new server_channel_no client_channel_no remote_window_size sender
                s.link)
            >>= λ ch. insert_new client_channel_no (find client_channel_no s.channels) ch)
          s

  unfoldable pub on_open_failure : Bytes → Io (ClientLoop S C) (Unit {0})
  on_open_failure d = do
    (id, d1) ← lift (get_u32 d)
    sender ← take_pending id
    err_msg ← lift (failure_text d)
    λ s.
        let (r, snd) = post_by sender.left (resp_fail err_msg) sender in
        (r, record s { dropped = snd ∷ s.dropped })

module _ {S C : Type 0} (su : Suite S C) where
  unfoldable pub write : Bytes → Io (ClientLoop S C) (Unit {0})
  write payload = on_link (write_stream su.enc su.comp payload)

  unfoldable pub insert_pending : ℕ → Option Sender → Sender → Io (ClientLoop S C) (Unit {0})
  insert_pending id none snd s = (ok tt, record s { pendings = put id snd s.pendings })
  insert_pending id (some old) snd s = (panic, s)

  unfoldable pub on_request : BackendRqst → Io (ClientLoop S C) (Unit {0})
  on_request (rqst_open_channel id d sender) =
      write d >> (λ s. insert_pending id (find id s.pendings) sender s)
  on_request (rqst_data id d) = on_channel id (BackendChannel.send_data su d)
  on_request (rqst_command id d) = on_channel id (BackendChannel.send su d)
  on_request (rqst_close_channel id d) =
      on_channel id (BackendChannel.send su d >> BackendChannel.on_local_close) >> drop_closed id

  unfoldable pub on_rekey : Bytes → Io (ClientLoop S C) (Unit {0})
  on_rekey payload = do
    server_algs ← lift (unpack payload)
    digest ← on_link (key_agreement su server_algs (set_i_s payload ctx_new))
    pure tt

  -- A method of the channel whose number stands in front of the bytes.
  unfoldable pub for_channel :
      Bytes → (Bytes → Io (BackendChannel S C) (Unit {0})) → Io (ClientLoop S C) (Unit {0})
  for_channel d m = lift (get_u32 d) >>= λ p. on_channel p.0 (m p.1)

  unfoldable pub on_close : Bytes → Io (ClientLoop S C) (Unit {0})
  on_close d = do
    (id, d1) ← lift (get_u32 d)
    on_channel id BackendChannel.on_remote_close
    drop_closed id

  -- The arms of the match that hand a message to its channel. EOF and codes that are not known are
  -- ignored.
  unfoldable pub channel_arms : ℕ → Bytes → Io (ClientLoop S C) (Unit {0})
  channel_arms code d =
      if code == channel_data
      then for_channel d (BackendChannel.recv su)
      else if code == channel_extended_data
      then for_channel d (λ d1. lift (get_u32 d1) >>= λ p. BackendChannel.recv su p.1)
      else if code == channel_window_adjust
      then for_channel d (λ d1. lift (get_u32 d1) >>= λ p. BackendChannel.recv_window_adjust su p.0)
      else if code == channel_request
      then for_channel d (λ d1. drop_error (BackendChannel.recv_rqst d1))
      else if code == channel_success
      then for_channel d (λ d1. BackendChannel.success)
      else if code == channel_failure
      then for_channel d (λ d1. BackendChannel.failed)
      else pure tt

  -- The match on the code of a message; `payload` is the code and what follows it, `d`.
  unfoldable pub on_message : Bytes → ℕ → Bytes → Io (ClientLoop S C) (Unit {0})
  on_message payload code d =
      if code == channel_open_confirmation
      then on_confirmation d
      else if code == channel_open_failure
      then on_open_failure d
      else if code == kexinit
      then on_rekey payload
      else if code == channel_close
      then on_close d
      else if code == global_request
      then write (put_u8 [] request_failure)
      else channel_arms code d

  unfoldable pub on_packet : Option Bytes → Io (ClientLoop S C) (Unit {0})
  on_packet none = pure tt
  on_packet (some payload) = lift (get_u8 payload) >>= λ p. on_message payload p.0 p.1

  unfoldable pub on_poll : Polled → Io (ClientLoop S C) (Unit {0})
  on_poll (request rqst) = on_request rqst
  on_poll _ = pure tt

  -- A round of the loop, unless the requests have ended.
  unfoldable pub loop_round : Polled → Io (ClientLoop S C) (Unit {0})
  loop_round polled = on_poll polled >> (on_link (try_from_stream su.enc su.comp) >>= on_packet)

  -- The loop over what the polls return; the list ends where the loop has come to.
  unfoldable pub client_loop : List Polled → Io (ClientLoop S C) (Unit {0})
  client_loop [] = pure tt
  client_loop (disconnected ∷ polls) = pure tt
  client_loop (empty ∷ polls) = let rest = client_loop polls in loop_round empty >> rest
  client_loop (request rqst ∷ polls) =
      let rest = client_loop polls in loop_round (request rqst) >> rest
