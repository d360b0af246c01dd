-- ===== src/Version.antt =====
-- config/version.rs: the exchange of versions.
pub mod Lines
pub mod Skips
pub mod Pieces
use ssh_rs.Base.{
  ℕ, List, [], ◌∷◌, ◌++◌, Bool, true, false, Option, ◌⊎◌, inl, inr, ◌&&◌, ◌||◌, ltb, leb, ◌==◌,
  length, take, bytes_eq, if◌then◌else◌,
}
use ssh_rs.Error.{SshResult, ok, err, io_error, data_format_error, version_dismatch, or_return}
use ssh_rs.Constant.{ascii, client_version, ssh_magic}
use ssh_rs.Data.{Bytes}
use ssh_rs.Timeout
use ssh_rs.Timeout.{Timeout, till_next_tick, renew}
use ssh_rs.Stream.{
  Stream, ReadEvent, chunk, read_would_block, read_fails, put_back, WriteEvent, accepts,
  write_would_block, write_fails,
}
use ssh_rs.Io.{Io}
use ssh_rs.Text.{is_utf8, trim}
use ssh_rs.Config.{SshVersion}

unfoldable pub ends_with_crlf : Bytes → Bool
ends_with_crlf [] = false
ends_with_crlf (a ∷ []) = false
ends_with_crlf (a ∷ b ∷ []) = a == 13 && b == 10
ends_with_crlf (a ∷ b ∷ c ∷ s) = ends_with_crlf (b ∷ c ∷ s)

unfoldable pub has_magic : Bytes → Bool
has_magic s = leb 4 (length s) && bytes_eq (take 4 s) ssh_magic

-- The test for the end of a line.
unfoldable pub line_ends : Bytes → ℕ → Bool
line_ends out b = 10 == b && ltb 1 (length out) && ends_with_crlf out

-- A round of the loop with a byte: the version, or what the next round starts from.
unfoldable pub take_byte : Timeout → Bytes → ℕ → (Timeout × Bytes) ⊎ Bytes
take_byte t got b =
    let out = got ++ (b ∷ []) in
    if line_ends out b then (if has_magic out then inr out else inl (t, [])) else inl (renew t, out)

-- How a loop goes on, or what it ends with.
abbrev pub on_round {ℓ κ μ} : {T : Type ℓ} {A : Type κ} {R : Type μ} → T ⊎ A → (T → R) → (A → R) → R
on_round (inl t) again done = again t
on_round (inr a) again done = done a

-- The rounds that take the bytes of a chunk.
unfoldable pub take_bytes : Timeout → Bytes → Bytes → (Timeout × Bytes) ⊎ (Bytes × Bytes)
take_bytes t got [] = inl (t, got)
take_bytes t got (b ∷ bs) =
    on_round (take_byte t got b) (λ next. take_bytes next.0 next.1 bs) (λ out. inr (out, bs))

-- The loop. A read of no bytes ends it.
unfoldable pub version_loop : Timeout → Bytes → List ReadEvent → SshResult Bytes × List ReadEvent
version_loop t got [] = (ok got, [])
version_loop t got (chunk [] ∷ es) = (ok got, es)
version_loop t got (chunk (b ∷ bs) ∷ es) =
    on_round (take_bytes t got (b ∷ bs)) (λ next. version_loop next.0 next.1 es)
      (λ found. (ok found.0, put_back found.1 es))
version_loop t got (read_would_block now used ∷ es) =
    or_return (till_next_tick t now used) (λ t'. version_loop t' got es) es
version_loop t got (read_fails code ∷ es) = (err (io_error code), es)

unfoldable pub read_version : Option ℕ → List ReadEvent → SshResult Bytes × List ReadEvent
read_version tm es = version_loop (Timeout.new tm) [] es

-- `str::contains`.
unfoldable pub contains : Bytes → Bytes → Bool
contains [] w = bytes_eq [] w
contains (c ∷ s) w = bytes_eq (take (length w) (c ∷ s)) w || contains s w

-- The text of a line; what is no text is an error.
unfoldable pub server_version : SshVersion → Bytes → SshResult SshVersion
server_version v buf =
    if is_utf8 buf then ok (record v { server_ver = trim buf }) else err data_format_error

-- The code of `ErrorKind::WouldBlock`, EAGAIN.
abbrev pub would_block : ℕ
would_block = 11

unfoldable pub validate : SshVersion → SshResult (Unit {0})
validate v =
    if contains v.server_ver (ascii "SSH-2.0")
    then ok tt
    else err (version_dismatch client_version v.server_ver)

-- `SshVersion::read_server_version`. A line without the magic is only logged.
unfoldable pub read_server_version : SshVersion → Option ℕ → Io Stream SshVersion
read_server_version v tm s =
    let (r, es) = read_version tm s.input in
    let s' : Stream = record s { input = es } in or_return r (λ buf. (server_version v buf, s')) s'

-- One call of `Write::write`: how many bytes it took.
unfoldable pub write_event : List WriteEvent → Bytes → Io Stream ℕ
write_event [] buf s = (ok (length buf), record s { output = s.output ++ buf })
write_event (accepts n ∷ es) buf s =
    (ok (length (take n buf)), record s { sink = es; output = s.output ++ take n buf })
write_event (write_would_block now used ∷ es) buf s =
    (err (io_error would_block), record s { sink = es })
write_event (write_fails code ∷ es) buf s = (err (io_error code), record s { sink = es })

unfoldable pub write_once : Bytes → Io Stream ℕ
write_once buf s = write_event s.sink buf s

-- `SshVersion::send_our_version`. What the call did not take is not written.
unfoldable pub send_our_version : SshVersion → Io Stream (Unit {0})
send_our_version v s =
    let (r, s') = write_once (v.client_ver ++ (13 ∷ 10 ∷ [])) s in or_return r (λ n. (ok tt, s')) s'
