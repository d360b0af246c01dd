-- ===== src/Tests/Auth.antt =====
-- The theorems on the authentication and on exec channels at concrete inputs.
use ssh_rs.Base.{ℕ, ◌≡◌, ◌≢◌, refl, List, [], ◌∷◌, Bool, true, false, inr, replicate}
use ssh_rs.Error.{ok}
use ssh_rs.Data.{Bytes}
use ssh_rs.Hash.{ctx_new}
use ssh_rs.Client.{Link}
use ssh_rs.Stream.{chunk}
use ssh_rs.AlgList
use ssh_rs.Kex.{Digest}
use ssh_rs.Auth.{KeyOps, do_auth, auth_round}
use ssh_rs.Auth.Fed.{KeysFed}
use ssh_rs.Auth.Success.{ReadSuccess, auth_round-ReadSuccess}
use ssh_rs.Tests.Channels.{plain_suite, echo_exchange, link_with}

abbrev pub no_keys : KeyOps
no_keys = record { get_blob = λ pair alg. ok []; sign = λ pair b alg. ok [] }

pub no_keys-KeysFed : KeysFed no_keys
no_keys-KeysFed = record { blob_fed = λ pair alg. tt; sign_fed = λ pair b alg. tt }

abbrev digest : Digest
digest = record { hash_ctx = ctx_new; key_exchange = echo_exchange }

-- USERAUTH_SUCCESS in a packet of its own, after the algorithms were negotiated.
abbrev success_link : Link (Unit {0}) (Unit {0})
success_link =
    let l = link_with (chunk (0 ∷ 0 ∷ 0 ∷ 12 ∷ 10 ∷ 52 ∷ replicate 10 0) ∷ []) in
    record l { client = record l.client { negotiated = AlgList.client_default } }

success_round : (auth_round plain_suite no_keys digest true success_link).0 ≡ ok (inr tt)
unfolding auth_round ssh_rs.Packet.from_stream ssh_rs.Packet.block_size ssh_rs.Packet.read_in
    ssh_rs.Stream.read_with_timeout ssh_rs.Frame.get_align ssh_rs.Packet.read_packet
    ssh_rs.Packet.server_number ssh_rs.Packet.data_len_with ssh_rs.Plain.none_data_len
    ssh_rs.Plain.none_packet_len ssh_rs.Data.get_u32 ssh_rs.Base.u32_of ssh_rs.Packet.decrypt_with
    ssh_rs.Frame.unframe ssh_rs.Data.get_u8 ssh_rs.Packet.decompress_with ssh_rs.Auth.auth_arm
    ssh_rs.Auth.arm_of ssh_rs.Auth.finish_auth ssh_rs.Data.drain ssh_rs.Data.from_be_bytes
    ssh_rs.Sequence.get_server ssh_rs.Sequence.next ssh_rs.Suite.first
success_round = refl

auth_round-ReadSuccess_example : ReadSuccess plain_suite no_keys success_link
auth_round-ReadSuccess_example =
    auth_round-ReadSuccess plain_suite no_keys digest true success_link success_round
