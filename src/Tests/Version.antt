-- ===== src/Tests/Version.antt =====
-- The theorems on the version exchange at concrete inputs.
use ssh_rs.Base.{ℕ, ◌≡◌, ◌≢◌, refl, ap, All, arith, List, [], ◌∷◌, ◌++◌, some, ◌⊎◌, true}
use ssh_rs.Error.{ok}
use ssh_rs.Constant.{ascii}
use ssh_rs.Data.{Bytes}
use ssh_rs.Stream.{ReadEvent, chunk, read_would_block}
use ssh_rs.Version.{has_magic, read_version}
use ssh_rs.Version.Lines.{IsVersion, Ends, read_version-IsVersion}
use ssh_rs.Version.Skips.{crlf, NoLf, AllOther}
use ssh_rs.Version.Pieces.{HasBytes, read_version_skips}
use ssh_rs.Stream.Reads.{content, IsQuiet}

abbrev banner : List Bytes
banner = ascii "Hi" ∷ ascii "Ho\r" ∷ []

abbrev server : Bytes
server = ascii "SSH-2.0-a"

banner-AllOther : AllOther banner
unfolding has_magic
banner-AllOther = ((refl, (refl, tt)), refl, ((refl, (refl, (refl, tt))), refl, tt))

server-NoLf : NoLf server
server-NoLf = (refl, (refl, (refl, (refl, (refl, (refl, (refl, (refl, (refl, tt)))))))))

server_magic : has_magic (server ++ crlf) ≡ true
unfolding has_magic
server_magic = refl

-- The lines arrive in three pieces, with a read that would block between them.
abbrev in_pieces : List ReadEvent
in_pieces =
    chunk (ascii "Hi\r")
    ∷ chunk (ascii "\nHo\r\r\nSS")
    ∷ read_would_block 1 2
    ∷ chunk (ascii "H-2.0-a" ++ (13 ∷ 10 ∷ 1 ∷ 2 ∷ []))
    ∷ []

cons_not_nil : (b : ℕ) (s : Bytes) → b ∷ s ≢ []
cons_not_nil b s h = cc

in_pieces-HasBytes : All HasBytes in_pieces
in_pieces-HasBytes = (cons_not_nil _ _, (cons_not_nil _ _, (tt, (cons_not_nil _ _, tt))))

in_pieces-IsQuiet : All (IsQuiet (some 7)) in_pieces
in_pieces-IsQuiet = omega arith

read_version_skips_example :
    ((read_version (some 7) in_pieces).0 ≡ ok (server ++ crlf))
    × (content (read_version (some 7) in_pieces).1 ≡ 1 ∷ 2 ∷ [])
read_version_skips_example =
    read_version_skips (some 7) banner server (1 ∷ 2 ∷ []) in_pieces banner-AllOther server-NoLf
      server_magic in_pieces-IsQuiet in_pieces-HasBytes refl

read_version-IsVersion_example :
    IsVersion (server ++ crlf) ⊎ Ends in_pieces (read_version (some 7) in_pieces).1
read_version-IsVersion_example =
    read_version-IsVersion (some 7) in_pieces (server ++ crlf) (read_version (some 7) in_pieces).1
      (ap (λ r. (r, (read_version (some 7) in_pieces).1)) read_version_skips_example.0)
