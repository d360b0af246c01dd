-- ===== src/Lib.antt =====
-- ssh-rs is an SSH client library. A session owns a client (its configuration, sequence numbers,
-- cipher and compressor) and a byte stream. The packet layer frames, seals and opens payloads; above
-- it the key exchange sets up the cipher and channels exchange messages under flow control.
--
-- Which file models which part:
--   Base, Error, Io, Constant: helpers; src/error.rs and src/constant.rs
--   Data: the wire types (Data of src/model/data.rs)
--   Sequence: U32Iter and Sequence of src/model
--   FlowControl: src/model/flow_control.rs
--   Timeout: src/model/timeout.rs
--   Stream: read_with_timeout, try_read and write_with_timeout of src/model/packet.rs
--   Frame, Packet: SecPacket of src/model/packet.rs: padding, and write_stream, from_stream,
--     try_from_stream
--   Plain: EncryptionNone and CompressNone of src/algorithm
--   Algorithm: the algorithm names (src/algorithm/mod.rs)
--   Text: the text functions of the standard library that the lists use
--   AlgList: src/config/algorithm.rs: the lists, KEXINIT and the negotiation
--   Config: src/config/mod.rs
--   Hash: src/algorithm/hash: exchange hash and key derivation
--   Client: src/client/client.rs: the state of a connection
--   Suite, KexReply, Kex: src/client/client_kex.rs, and the traits of the algorithms that it
--     calls
--   Channel: src/channel/local/channel.rs: messages, flow control, closing
--   Auth: src/client/client_auth.rs, and the signed bytes of src/config/auth.rs
--   Terminal, Exec: src/model/terminal.rs, src/channel/local/channel_exec.rs and
--     channel_shell.rs
--   Version: src/config/version.rs
--   Hmac: src/algorithm/mac
--   Keys, Ctr, Cbc, Des, ChaCha: the ciphers of src/algorithm/encryption: the keys they take,
--     and aes_ctr.rs, aes_cbc.rs, des_cbc.rs and chacha20_poly1305_openssh.rs
--   Ciphers: the objects behind Box<dyn Encryption>, and from of src/algorithm/encryption/mod.rs
--   Session: src/session/mod.rs: connect_bio, and the builder in Session/Builder.antt
--   LocalSession, OpenReply: src/session/session_local.rs: opening a channel, and the answers of
--     the server
--   DhGroups, Dh, Agreements: src/algorithm/key_exchange: the groups and Diffie-Hellman of
--     dh.rs, and the other methods
--   HostKeys: src/algorithm/public_key
--   KeyPairs: src/config/auth.rs
--   Zlib: src/algorithm/compression
--   ClientSuite: the algorithms of src/algorithm put together, as the record that Suite.antt
--     names
--   BackendChannel: src/channel/backend/channel.rs: the part of a channel that the thread of a
--     session keeps
--   ClientLoop: src/session/session_broker.rs: client_loop, the thread of a session
--   Tests: runs of the model
--
-- Conventions. A Rust value of an unsigned type is a natural number below its bound, and arithmetic
-- wraps where it does in a release build. `SshResult` has the errors of the crate, and the outcomes
-- `panic` (an index, assertion or unwrap that fails), `hang` (a loop of the program that never ends)
-- and `starved` (a bounded loop of the model that used up its bound, which is proved not to occur).
-- A method on `&mut self` returns the new state beside its outcome (Io.antt), so changes made before
-- a failure stay. The network is a list of events in Stream.antt: bytes that arrive, reads and
-- writes that would block with the clock readings that follow, and failures. All optional features
-- of the crate are taken to be on.
--
-- Bounds. `read_loop` and `write_loop` recurse on the list of events. `mix_loop` has fuel, one round
-- more than the size of the key, which is enough where digests are not empty. The loops that wait
-- for packets run under `drive` of Io.antt, with fuel for one round more than a rank: the bytes
-- still to come, to which `send_data` adds the bytes left to send. Each round lowers the rank, since
-- a packet takes a block off the stream at least. The loops of zlib run under `drive` too, where the
-- rank is that of the streams of flate2 (Zlib.antt). Stream/Rounds.antt has the loop of
-- `read_with_timeout` round by round, as the ground for its outcome `hang`. `client_loop` recurses
-- on what its polls return, and the list ends where the loop has come to.
--
-- What is outside the model: logging, and the code of other crates. The digests of ring are a
-- parameter (Hash.Ring), as are its HMACs and the block and stream ciphers. Ciphers and compressors
-- are the interfaces Encryption and Compression of Client.antt, whose laws CipherPair and
-- CompressorPair are stated in Packet/Paired.antt and proved in Plain/Pairs.antt for the objects
-- without effect and in Ciphers/Pairs.antt for all ciphers. Suite.antt has the other algorithms that
-- the key exchange calls, as a record, and Auth.KeyOps the use of a private key. The line reader of
-- Version.antt recurses on the list of events and on the bytes of each. A channel of channel/local
-- owns its view of the client and the stream; that several channels of one session share them is not
-- modelled. In ClientLoop.antt the thread owns them, and lends them to the channel whose turn it is.
-- The user's side of that thread, and scp, are not modelled.
pub mod Base
pub mod Error
pub mod Io
pub mod Constant
pub mod Data
pub mod Sequence
pub mod FlowControl
pub mod Timeout
pub mod Stream
pub mod Text
pub mod Algorithm
pub mod AlgList
pub mod Hash
pub mod Config
pub mod Client
pub mod Frame
pub mod Packet
pub mod Plain
pub mod Suite
pub mod KexReply
pub mod Kex
pub mod Channel
pub mod Auth
pub mod Terminal
pub mod Exec
pub mod Version
pub mod Hmac
pub mod Keys
pub mod Ctr
pub mod Cbc
pub mod Des
pub mod ChaCha
pub mod Ciphers
pub mod Session
pub mod OpenReply
pub mod LocalSession
pub mod DhGroups
pub mod Dh
pub mod Agreements
pub mod HostKeys
pub mod KeyPairs
pub mod Zlib
pub mod ClientSuite
pub mod BackendChannel
pub mod ClientLoop
pub mod Tests
