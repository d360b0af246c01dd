-- ===== src/Stream.antt =====
-- The byte stream below a session, and `read_with_timeout`, `try_read` and `write_with_timeout` of
-- model/packet.rs. What the peer and the network do is a list of events; where the list of reads
-- ends, the peer has closed its end, and every further read returns no bytes.
pub mod Reads
pub mod Writes
pub mod Rounds
pub mod Fed
use ssh_rs.Base.{
  ℕ, zero, suc, ◌-◌, List, [], ◌∷◌, ◌++◌, Option, length, take, drop, leb, if◌then◌else◌,
}
use ssh_rs.Error.{SshResult, ok, err, hang, io_error, or_return}
use ssh_rs.Data.{Bytes}
use ssh_rs.Timeout
use ssh_rs.Timeout.{Timeout, till_next_tick, renew}

-- Bytes arrive (a read may take fewer than wanted), or the read would block (with the two readings
-- of the clock that follow), or it fails.
pub data ReadEvent : Type 0 where
  chunk : Bytes → ReadEvent
  read_would_block : ℕ → ℕ → ReadEvent
  read_fails : ℕ → ReadEvent

-- The stream takes at most so many bytes, or the write would block, or it fails. Where the list
-- ends, a write takes all.
pub data WriteEvent : Type 0 where
  accepts : ℕ → WriteEvent
  write_would_block : ℕ → ℕ → WriteEvent
  write_fails : ℕ → WriteEvent

pub record Stream : Type 0 where
  pub input : List ReadEvent
  pub sink : List WriteEvent
  pub output : Bytes

-- What a read leaves of a chunk stays for the next read.
abbrev pub put_back : Bytes → List ReadEvent → List ReadEvent
put_back [] es = es
put_back (b ∷ bs) es = chunk (b ∷ bs) ∷ es

-- The loop of `read_with_timeout` with `want` bytes to go and `got` read. A read into an empty
-- buffer returns at once. At the end of the stream each read returns 0 bytes and the loop goes on.
pub read_loop : Timeout → ℕ → Bytes → List ReadEvent → SshResult Bytes × List ReadEvent
read_loop t zero got es = (ok got, es)
read_loop t (suc w) got [] = (hang, [])
read_loop t (suc w) got (chunk bs ∷ es) =
    let more = read_loop (renew t) (suc w - length bs) (got ++ bs) es in
    if leb (suc w) (length bs)
    then (ok (got ++ take (suc w) bs), put_back (drop (suc w) bs) es)
    else more
read_loop t (suc w) got (read_would_block now used ∷ es) =
    or_return (till_next_tick t now used) (λ t'. read_loop t' (suc w) got es) es
read_loop t (suc w) got (read_fails code ∷ es) = (err (io_error code), es)

unfoldable pub read_with_timeout : Option ℕ → ℕ → List ReadEvent → SshResult Bytes × List ReadEvent
unfolding read_loop
read_with_timeout tm want es = read_loop (Timeout.new tm) want [] es

-- One read into a buffer of `n` bytes; no bytes if it would block.
unfoldable pub try_read : ℕ → List ReadEvent → SshResult Bytes × List ReadEvent
try_read n [] = (ok [], [])
try_read n (chunk bs ∷ es) = (ok (take n bs), put_back (drop n bs) es)
try_read n (read_would_block now used ∷ es) = (ok [], es)
try_read n (read_fails code ∷ es) = (err (io_error code), es)

-- The loop of `write_with_timeout` with the bytes `buf[offset..]` to go.
pub write_loop :
    Timeout → Bytes → List WriteEvent → Bytes → SshResult (Unit {0}) × (List WriteEvent × Bytes)
write_loop t [] es out = (ok tt, (es, out))
write_loop t (b ∷ buf) [] out = (ok tt, ([], out ++ (b ∷ buf)))
write_loop t (b ∷ buf) (accepts n ∷ es) out =
    write_loop (renew t) (drop n (b ∷ buf)) es (out ++ take n (b ∷ buf))
write_loop t (b ∷ buf) (write_would_block now used ∷ es) out =
    or_return (till_next_tick t now used) (λ t'. write_loop t' (b ∷ buf) es out) (es, out)
write_loop t (b ∷ buf) (write_fails code ∷ es) out = (err (io_error code), (es, out))

unfoldable pub write_with_timeout : Option ℕ → Bytes → Stream → SshResult (Unit {0}) × Stream
unfolding write_loop
write_with_timeout tm buf s =
    let (r, after) = write_loop (Timeout.new tm) buf s.sink s.output in
    (r, record s { sink = after.0; output = after.1 })
