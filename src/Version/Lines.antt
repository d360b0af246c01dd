-- ===== src/Version/Lines.antt =====
-- What the line reader returns.
use mathlib.Core.Path.{subst}
use ssh_rs.Base.{ℕ, ◌≡◌, refl, List, [], ◌∷◌, ◌++◌, true, Option, ◌⊎◌, inl, inr, if-cases, arith}
use ssh_rs.Error.{SshResult, ok, err, panic, hang, starved, or_return_cases, IsFailure}
use ssh_rs.Data.{Bytes}
use ssh_rs.Timeout.{Timeout, till_next_tick}
use ssh_rs.Stream.{ReadEvent, chunk, read_would_block, read_fails}
use ssh_rs.Version.{
  ends_with_crlf, has_magic, line_ends, on_round, take_byte, take_bytes, version_loop, read_version,
}

-- A line that starts with "SSH-" and ends with CR LF.
abbrev pub IsVersion : Bytes → Type 0
IsVersion s = (has_magic s ≡ true) × (ends_with_crlf s ≡ true)

-- The peer has closed its end, or a read has returned no bytes.
pub data Ends : List ReadEvent → List ReadEvent → Type 0 where
  at_end : Ends [] []
  read_nothing : (es : List ReadEvent) → Ends (chunk [] ∷ es) es
  later : (e : ReadEvent) (es rest : List ReadEvent) → Ends es rest → Ends (e ∷ es) rest

pub on_round-cases {ℓ κ μ ν} :
    {T : Type ℓ} {A : Type κ} {R : Type μ} (P : R → Type ν) (x : T ⊎ A) (again : T → R)
    (done : A → R)
    → ((t : T) → x ≡ inl t → P (again t))
    → ((a : A) → x ≡ inr a → P (done a))
    → P (on_round x again done)
on_round-cases P (inl t) again done h k = h t refl
on_round-cases P (inr a) again done h k = k a refl

abbrev ByteOk : (Timeout × Bytes) ⊎ Bytes → Type 0
ByteOk (inl next) = Unit {0}
ByteOk (inr out) = IsVersion out

line_ends-crlf : (out : Bytes) (b : ℕ) → line_ends out b ≡ true → ends_with_crlf out ≡ true
unfolding line_ends
line_ends-crlf out b h = ground arith

take_byte-ByteOk : (t : Timeout) (got : Bytes) (b : ℕ) → ByteOk (take_byte t got b)
unfolding take_byte
take_byte-ByteOk t got b =
    if-cases ByteOk (line_ends (got ++ (b ∷ [])) b) _ _
      (λ ends.
        if-cases ByteOk (has_magic (got ++ (b ∷ []))) _ _
          (λ magic. (magic, line_ends-crlf _ b ends)) (λ e. tt))
      (λ e. tt)

abbrev BytesOk : (Timeout × Bytes) ⊎ (Bytes × Bytes) → Type 0
BytesOk (inl next) = Unit {0}
BytesOk (inr found) = IsVersion found.0

take_bytes-BytesOk : (t : Timeout) (got bs : Bytes) → BytesOk (take_bytes t got bs)
unfolding take_bytes
take_bytes-BytesOk t got [] = tt
take_bytes-BytesOk t got (b ∷ bs) =
    on_round-cases BytesOk (take_byte t got b) _ _ (λ next e. take_bytes-BytesOk next.0 next.1 bs)
      (λ out e. subst ByteOk e (take_byte-ByteOk t got b))

-- What the loop returns from these events.
abbrev Read : List ReadEvent → SshResult Bytes × List ReadEvent → Type 0
Read es (ok out, rest) = IsVersion out ⊎ Ends es rest
Read es (_, rest) = Unit {0}

Read-failure : (es rest : List ReadEvent) (r : SshResult Bytes) → IsFailure r → Read es (r, rest)
Read-failure es rest (ok a) f = absurd f
Read-failure es rest (err e) f = tt
Read-failure es rest panic f = tt
Read-failure es rest hang f = tt
Read-failure es rest starved f = tt

Read-later :
    (e : ReadEvent) (es : List ReadEvent) (p : SshResult Bytes × List ReadEvent)
    → Read es p
    → Read (e ∷ es) p
Read-later e es (ok out, rest) (inl v) = inl v
Read-later e es (ok out, rest) (inr h) = inr (later e es rest h)
Read-later e es (err x, rest) h = tt
Read-later e es (panic, rest) h = tt
Read-later e es (hang, rest) h = tt
Read-later e es (starved, rest) h = tt

version_loop-Read :
    (t : Timeout) (got : Bytes) (es : List ReadEvent) → Read es (version_loop t got es)
unfolding version_loop
version_loop-Read t got [] = inr at_end
version_loop-Read t got (chunk [] ∷ es) = inr (read_nothing es)
version_loop-Read t got (chunk (b ∷ bs) ∷ es) =
    on_round-cases (Read (chunk (b ∷ bs) ∷ es)) (take_bytes t got (b ∷ bs)) _ _
      (λ next e. Read-later _ es _ (version_loop-Read next.0 next.1 es))
      (λ found e. inl (subst BytesOk e (take_bytes-BytesOk t got (b ∷ bs))))
version_loop-Read t got (read_would_block now used ∷ es) =
    or_return_cases (Read (read_would_block now used ∷ es)) (till_next_tick t now used) _ es
      (λ t' e. Read-later _ es _ (version_loop-Read t' got es)) (Read-failure _ es)
version_loop-Read t got (read_fails code ∷ es) = tt

-- What the line reader returns is a line that starts with "SSH-" and ends with CR LF, unless the
-- stream has come to its end.
pub read_version-IsVersion :
    (tm : Option ℕ) (es : List ReadEvent) (out : Bytes) (rest : List ReadEvent)
    → read_version tm es ≡ (ok out, rest)
    → IsVersion out ⊎ Ends es rest
unfolding read_version
read_version-IsVersion tm es out rest e = subst (Read es) e (version_loop-Read _ [] es)
