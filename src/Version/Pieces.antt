-- ===== src/Version/Pieces.antt =====
-- The line reader on bytes that arrive in pieces.
use mathlib.Core.Path.{subst, ◌∙◌}
use ssh_rs.Base.{
  ℕ, ◌≡◌, ◌≢◌, refl, sym, ap, List, [], ◌∷◌, ◌++◌, true, Bool-cases, Option, ◌⊎◌, inl, inr, All,
}
use ssh_rs.Error.{SshResult, ok}
use ssh_rs.Data.{Bytes}
use ssh_rs.Timeout
use ssh_rs.Timeout.{Timeout, till_next_tick, renew, wait}
use ssh_rs.Stream.{ReadEvent, chunk, read_would_block, read_fails, put_back}
use ssh_rs.Stream.Reads.{
  content, content-put_back, IsQuiet, quiet_tick, timeout-wait, timeout-renew,
}
use ssh_rs.Version.{
  has_magic, line_ends, on_round, take_byte, take_bytes, version_loop, read_version,
}
use ssh_rs.Version.Skips.{crlf, NoLf, AllOther, with_lines, take_bytes_lines}

-- What a round leaves, without its timeout.
abbrev forget : {A : Type 0} → (Timeout × Bytes) ⊎ A → Bytes ⊎ A
forget (inl next) = inl next.1
forget (inr a) = inr a

forget-inr : {A : Type 0} (x : (Timeout × Bytes) ⊎ A) (a : A) → forget x ≡ inr a → x ≡ inr a
forget-inr (inl next) a h = cc
forget-inr (inr b) a h = let same : b ≡ a = cc in ap inr same

forget-take_byte :
    (t t' : Timeout) (got : Bytes) (b : ℕ)
    → forget (take_byte t got b) ≡ forget (take_byte t' got b)
unfolding take_byte
forget-take_byte t t' got b = elim (Bool-cases (line_ends (got ++ (b ∷ [])) b)) [
  | inl e ↦ elim (Bool-cases (has_magic (got ++ (b ∷ [])))) [
    | inl m ↦ rw (e, m) refl
    | inr m ↦ rw (e, m) refl
  ]
  | inr e ↦ rw e refl
]

-- The timeout does not matter to what is taken.
forget-on_round :
    (bs : Bytes) (x y : (Timeout × Bytes) ⊎ Bytes)
    → forget x ≡ forget y
    → ((t t' : Timeout) (got : Bytes)
        → forget (take_bytes t got bs) ≡ forget (take_bytes t' got bs))
    → forget (on_round x (λ n. take_bytes n.0 n.1 bs) (λ out. inr (out, bs)))
      ≡ forget (on_round y (λ n. take_bytes n.0 n.1 bs) (λ out. inr (out, bs)))
forget-on_round bs (inl (t, got)) (inl (t', got')) e k =
    let same : got ≡ got' = cc in k t t' got ∙ ap (λ g. forget (take_bytes t' g bs)) same
forget-on_round bs (inl n) (inr out) e k = cc
forget-on_round bs (inr out) (inl n) e k = cc
forget-on_round bs (inr out) (inr out') e k =
    let same : out ≡ out' = cc in ap (λ o. inr (o, bs)) same

forget-take_bytes :
    (t t' : Timeout) (got bs : Bytes) → forget (take_bytes t got bs) ≡ forget (take_bytes t' got bs)
unfolding take_bytes
forget-take_bytes t t' got [] = refl
forget-take_bytes t t' got (b ∷ bs) =
    forget-on_round bs (take_byte t got b) (take_byte t' got b) (forget-take_byte t t' got b)
      (λ u u' g. forget-take_bytes u u' g bs)

take_bytes_at_any_time :
    (t t' : Timeout) (got bs : Bytes) (found : Bytes × Bytes)
    → take_bytes t got bs ≡ inr found
    → take_bytes t' got bs ≡ inr found
take_bytes_at_any_time t t' got bs found h =
    forget-inr (take_bytes t' got bs) found (forget-take_bytes t' t got bs ∙ ap forget h)

-- What comes of more bytes.
abbrev and_more : Bytes → (Timeout × Bytes) ⊎ (Bytes × Bytes) → (Timeout × Bytes) ⊎ (Bytes × Bytes)
and_more more x =
    on_round x (λ n. take_bytes n.0 n.1 more) (λ found. inr (found.0, found.1 ++ more))

and_more-on_round :
    (bs more : Bytes) (x : (Timeout × Bytes) ⊎ Bytes)
    → ((t : Timeout) (got : Bytes)
        → take_bytes t got (bs ++ more) ≡ and_more more (take_bytes t got bs))
    → on_round x (λ n. take_bytes n.0 n.1 (bs ++ more)) (λ out. inr (out, bs ++ more))
      ≡ and_more more (on_round x (λ n. take_bytes n.0 n.1 bs) (λ out. inr (out, bs)))
and_more-on_round bs more (inl (t, got)) k = k t got
and_more-on_round bs more (inr out) k = refl

take_bytes-append :
    (t : Timeout) (got bs more : Bytes)
    → take_bytes t got (bs ++ more) ≡ and_more more (take_bytes t got bs)
unfolding take_bytes
take_bytes-append t got [] more = refl
take_bytes-append t got (b ∷ bs) more =
    and_more-on_round bs more (take_byte t got b) (λ u g. take_bytes-append u g bs more)

-- The limit stays.
abbrev Limited : {A : Type 0} → Option ℕ → (Timeout × Bytes) ⊎ A → Type 0
Limited tm (inl next) = next.0.timeout ≡ tm
Limited tm (inr a) = Unit {0}

take_byte-Limited : (t : Timeout) (got : Bytes) (b : ℕ) → Limited t.timeout (take_byte t got b)
unfolding take_byte
take_byte-Limited t got b = elim (Bool-cases (line_ends (got ++ (b ∷ [])) b)) [
  | inl e ↦ elim (Bool-cases (has_magic (got ++ (b ∷ [])))) [
    | inl m ↦ rw (e, m) tt
    | inr m ↦ rw (e, m) refl
  ]
  | inr e ↦ rw e (timeout-renew t)
]

on_round-Limited :
    (tm : Option ℕ) (bs : Bytes) (x : (Timeout × Bytes) ⊎ Bytes)
    → Limited tm x
    → ((t : Timeout) (got : Bytes) → t.timeout ≡ tm → Limited tm (take_bytes t got bs))
    → Limited tm (on_round x (λ n. take_bytes n.0 n.1 bs) (λ out. inr (out, bs)))
on_round-Limited tm bs (inl (t, got)) h k = k t got h
on_round-Limited tm bs (inr out) h k = tt

take_bytes-Limited :
    (tm : Option ℕ) (t : Timeout) (got bs : Bytes)
    → t.timeout ≡ tm
    → Limited tm (take_bytes t got bs)
unfolding take_bytes
take_bytes-Limited tm t got [] h = h
take_bytes-Limited tm t got (b ∷ bs) h =
    on_round-Limited tm bs (take_byte t got b)
      (subst (λ o. Limited o (take_byte t got b)) h (take_byte-Limited t got b))
      (λ u g e. take_bytes-Limited tm u g bs e)

-- No read returns no bytes.
abbrev pub HasBytes : ReadEvent → Type 0
HasBytes (chunk bs) = bs ≢ []
HasBytes _ = Unit {0}

module _ (tm : Option ℕ) where
  -- What the loop returns, if this is found in the content of the events.
  abbrev Found : Bytes × Bytes → SshResult Bytes × List ReadEvent → Type 0
  Found found p = (p.0 ≡ ok found.0) × (content p.1 ≡ found.1)

  -- The end of a chunk.
  chunk-Found :
      (x : (Timeout × Bytes) ⊎ (Bytes × Bytes)) (es : List ReadEvent) (found : Bytes × Bytes)
      → Limited tm x
      → and_more (content es) x ≡ inr found
      → ((t : Timeout) (got : Bytes)
          → t.timeout ≡ tm
          → take_bytes t got (content es) ≡ inr found
          → Found found (version_loop t got es))
      → Found found (on_round x (λ n. version_loop n.0 n.1 es) (λ f. (ok f.0, put_back f.1 es)))
  chunk-Found (inl (t, got)) es found h e k = k t got h e
  chunk-Found (inr f) es found h e k =
      let same : (f.0, f.1 ++ content es) ≡ found = cc in
      (ap (λ p. ok p.0) same, content-put_back f.1 es ∙ ap (λ p. p.1) same)

  version_loop-Found :
      (t : Timeout) (got : Bytes) (es : List ReadEvent) (found : Bytes × Bytes)
      → t.timeout ≡ tm
      → All (IsQuiet tm) es
      → All HasBytes es
      → take_bytes t got (content es) ≡ inr found
      → Found found (version_loop t got es)
  unfolding version_loop take_bytes
  version_loop-Found t got [] found h quiet full e = cc
  version_loop-Found t got (chunk [] ∷ es) found h quiet (f, fs) e = absurd (f refl)
  version_loop-Found t got (chunk (b ∷ bs) ∷ es) found h (q, qs) (f, fs) e =
      chunk-Found (take_bytes t got (b ∷ bs)) es found (take_bytes-Limited tm t got (b ∷ bs) h)
        (sym (take_bytes-append t got (b ∷ bs) (content es)) ∙ e)
        (λ u g k e'. version_loop-Found u g es found k qs fs e')
  version_loop-Found t got (read_would_block now used ∷ es) found h (q, qs) (f, fs) e =
      rw (quiet_tick t now used (subst (λ o. IsQuiet o (read_would_block now used)) (sym h) q)) (
        version_loop-Found (wait t used) got es found (timeout-wait t used ∙ h) qs fs
          (take_bytes_at_any_time t (wait t used) got (content es) found e))
  version_loop-Found t got (read_fails code ∷ es) found h (q, qs) full e = absurd q

  -- Lines that do not start with "SSH-" are skipped: whatever pieces the bytes arrive in, if no read
  -- fails, waits past the limit or returns no bytes, the reader returns the first line that starts
  -- with "SSH-", and leaves all that comes after it in the stream.
  pub read_version_skips :
      (ss : List Bytes) (v tail : Bytes) (es : List ReadEvent)
      → AllOther ss
      → NoLf v
      → has_magic (v ++ crlf) ≡ true
      → All (IsQuiet tm) es
      → All HasBytes es
      → content es ≡ with_lines ss (v ++ (13 ∷ 10 ∷ tail))
      → ((read_version tm es).0 ≡ ok (v ++ crlf)) × (content (read_version tm es).1 ≡ tail)
  unfolding read_version
  read_version_skips ss v tail es others hv magic quiet full arrive =
      version_loop-Found (Timeout.new tm) [] es (v ++ crlf, tail) refl quiet full
        (ap (take_bytes (Timeout.new tm) []) arrive
          ∙ take_bytes_lines (Timeout.new tm) ss v tail others hv magic)
