-- ===== src/Tests/Session.antt =====
-- The theorems on the set-up of a connection at a concrete stream.
use ssh_rs.Base.{ℕ, false, ◌≡◌, ◌≢◌, refl, List, [], ◌∷◌, ◌++◌, replicate}
use ssh_rs.Error.{SshResult, ok}
use ssh_rs.Constant.{ascii}
use ssh_rs.Data.{Bytes}
use ssh_rs.AlgList
use ssh_rs.AlgList.{pack}
use ssh_rs.Frame.{frame}
use ssh_rs.Stream.{Stream, chunk}
use ssh_rs.Config.{default_config, tune_alglist_on_private_key}
use ssh_rs.Session.{SessionState, init, connect_bio}
use ssh_rs.Session.Validated.{Ready, connect_bio-Ready}
use ssh_rs.Tests.Channels.{plain_suite, newkeys_packet}
use ssh_rs.Tests.Auth.{no_keys}

-- A server that sends its version, KEXINIT, NEWKEYS and USERAUTH_SUCCESS.
abbrev pub server_stream : Stream
server_stream = record {
  input =
      chunk (ascii "SSH-2.0-server" ++ (13 ∷ 10 ∷ []))
      ∷ chunk (frame 8 false (pack (replicate 16 7) AlgList.client_default))
      ∷ chunk newkeys_packet
      ∷ chunk (0 ∷ 0 ∷ 0 ∷ 12 ∷ 10 ∷ 52 ∷ replicate 10 0)
      ∷ [];
  sink = [];
  output = [];
}

-- The state of a connection that is set up.
abbrev state_of :
    SshResult (SessionState (Unit {0}) (Unit {0})) → SessionState (Unit {0}) (Unit {0})
state_of (ok s) = s
state_of _ = init default_config server_stream

abbrev server_state : SessionState (Unit {0}) (Unit {0})
server_state = state_of (connect_bio plain_suite no_keys 0 tt tt default_config server_stream)

server_run : connect_bio plain_suite no_keys 0 tt tt default_config server_stream ≡ ok server_state
unfolding connect_bio ssh_rs.Session.connect ssh_rs.Session.connect_version
    ssh_rs.Session.version_exchange ssh_rs.Version.send_our_version ssh_rs.Version.write_once
    ssh_rs.Version.write_event ssh_rs.Version.read_server_version ssh_rs.Version.read_version
    ssh_rs.Version.version_loop ssh_rs.Version.take_bytes ssh_rs.Version.take_byte
    ssh_rs.Version.line_ends ssh_rs.Version.ends_with_crlf ssh_rs.Version.has_magic
    ssh_rs.Version.server_version ssh_rs.Text.is_utf8 ssh_rs.Version.validate
    ssh_rs.Version.contains ssh_rs.Text.trim ssh_rs.Session.connect_auth ssh_rs.Session.authenticate
    ssh_rs.Packet.from_stream ssh_rs.Packet.block_size ssh_rs.Packet.read_in
    ssh_rs.Stream.read_with_timeout ssh_rs.Frame.get_align frame ssh_rs.Base.u32_be pack
    ssh_rs.Data.put_u32 ssh_rs.Data.put_u8 ssh_rs.Data.put_str AlgList.as_i AlgList.to_string
    ssh_rs.Text.join ssh_rs.Frame.pad_len ssh_rs.Packet.read_packet ssh_rs.Packet.server_number
    ssh_rs.Packet.data_len_with ssh_rs.Plain.none_data_len ssh_rs.Plain.none_packet_len
    ssh_rs.Data.get_u32 ssh_rs.Base.u32_of ssh_rs.Packet.decrypt_with ssh_rs.Frame.unframe
    ssh_rs.Data.get_u8 ssh_rs.Packet.decompress_with AlgList.unpack AlgList.from ssh_rs.Data.skip
    AlgList.try_convert ssh_rs.Data.get_u8s AlgList.vec_u8_to_string ssh_rs.Kex.key_agreement
    ssh_rs.Kex.draw ssh_rs.Packet.write_stream ssh_rs.Packet.compress_with
    ssh_rs.Packet.client_number ssh_rs.Packet.encrypt_with ssh_rs.Packet.write_out
    ssh_rs.Stream.write_with_timeout AlgList.match_with AlgList.match_field AlgList.find_common
    tune_alglist_on_private_key AlgList.contains AlgList.try_from ssh_rs.Text.split
    ssh_rs.Algorithm.find_name ssh_rs.Algorithm.Names.Kex-discrete
    ssh_rs.Algorithm.Names.PubKey-discrete ssh_rs.Algorithm.Names.Enc-discrete
    ssh_rs.Algorithm.Names.Mac-discrete ssh_rs.Algorithm.Names.Compress-discrete ssh_rs.Suite.first
    ssh_rs.Kex.send_qc ssh_rs.Kex.verify_signature_and_new_keys ssh_rs.Io.drive
    ssh_rs.Kex.exchange_step ssh_rs.Kex.on_code ssh_rs.Kex.new_keys ssh_rs.Kex.install
    ssh_rs.Auth.do_auth ssh_rs.Auth.auth_round ssh_rs.Auth.auth_arm ssh_rs.Auth.arm_of
    ssh_rs.Auth.finish_auth
server_run = refl

connect_bio-Ready_example :
    Ready (tune_alglist_on_private_key default_config) server_stream server_state
connect_bio-Ready_example =
    connect_bio-Ready plain_suite no_keys 0 tt tt default_config server_stream server_state
      server_run
