-- ===== src/Stream/Reads.antt =====
-- `read_with_timeout` cuts the incoming bytes at the length that is wanted, however they arrive.
use mathlib.Core.Path.{subst}
use ssh_rs.Base.{
  Option-cases, ℕ, zero, suc, ◌+◌, ◌-◌, ◌≤◌, ◌<◌, ◌≡◌, refl, sym, ap, ◌∙◌, List, [], ◌∷◌, ◌++◌,
  append_assoc, Option, none, some, arith, length, take, drop, length-append, length-take,
  take-append-drop, leb, Bool-cases, inl, inr, All, take_front, drop_front,
}
use ssh_rs.Error.{SshResult, ok, hang, IsFailure-ne-ok, or_return_cases}
use ssh_rs.Data.{Bytes}
use ssh_rs.Timeout
use ssh_rs.Timeout.{Timeout, till_next_tick, renew, wait}
use ssh_rs.Stream.{
  ReadEvent, chunk, read_would_block, read_fails, put_back, read_loop, read_with_timeout,
}

-- The bytes that arrive in a list of events.
abbrev pub content : List ReadEvent → Bytes
content [] = []
content (chunk bs ∷ es) = bs ++ content es
content (_ ∷ es) = content es

pub content-put_back :
    (bs : Bytes) (es : List ReadEvent) → content (put_back bs es) ≡ bs ++ content es
content-put_back [] es = refl
content-put_back (b ∷ bs) es = refl

-- No read fails, and none waits past the limit.
abbrev pub IsQuiet : Option ℕ → ReadEvent → Type 0
IsQuiet tm (chunk bs) = Unit {0}
IsQuiet none (read_would_block now used) = Unit {0}
IsQuiet (some limit) (read_would_block now used) = now ≤ limit
IsQuiet tm (read_fails code) = ⊥

put_back-IsQuiet :
    (tm : Option ℕ) (bs : Bytes) (es : List ReadEvent)
    → All (IsQuiet tm) es
    → All (IsQuiet tm) (put_back bs es)
put_back-IsQuiet tm [] es h = h
put_back-IsQuiet tm (b ∷ bs) es h = (tt, h)

pub quiet_tick :
    (t : Timeout) (now used : ℕ)
    → IsQuiet t.timeout (read_would_block now used)
    → till_next_tick t now used ≡ ok (wait t used)
unfolding till_next_tick
quiet_tick t now used h = elim (Option-cases t.timeout) [
  | inl e ↦ ground arith
  | inr (limit, e) ↦ ground (arith, subst (λ o. IsQuiet o (read_would_block now used)) e h)
]

pub timeout-wait : (t : Timeout) (used : ℕ) → (wait t used).timeout ≡ t.timeout
unfolding wait
timeout-wait t used = refl

pub timeout-renew : (t : Timeout) → (renew t).timeout ≡ t.timeout
unfolding renew
timeout-renew t = refl

read_loop-chunk_enough :
    (t : Timeout) (w : ℕ) (got bs : Bytes) (es : List ReadEvent)
    → suc w ≤ length bs
    → read_loop t (suc w) got (chunk bs ∷ es)
      ≡ (ok (got ++ take (suc w) bs), put_back (drop (suc w) bs) es)
unfolding read_loop
read_loop-chunk_enough t w got bs es h = ground arith

read_loop-chunk_short :
    (t : Timeout) (w : ℕ) (got bs : Bytes) (es : List ReadEvent)
    → length bs < suc w
    → read_loop t (suc w) got (chunk bs ∷ es)
      ≡ read_loop (renew t) (suc w - length bs) (got ++ bs) es
unfolding read_loop
read_loop-chunk_short t w got bs es h = ground arith

-- What `read_loop` returns is what it had and the next `want` bytes of the content, and what is
-- left of the events holds the rest of the content.
Took : ℕ → Bytes → Bytes → SshResult Bytes × List ReadEvent → Type 0
Took want got bytes (r, es') =
    (v : Bytes) → r ≡ ok v → (got ++ bytes ≡ v ++ content es') × (length v ≡ length got + want)

read_loop-Took :
    (t : Timeout) (want : ℕ) (got : Bytes) (es : List ReadEvent)
    → Took want got (content es) (read_loop t want got es)
unfolding read_loop Took
read_loop-Took t zero got es v e = ground arith
read_loop-Took t (suc w) got [] v e = cc
read_loop-Took t (suc w) got (chunk bs ∷ es) v e = elim (Bool-cases (leb (suc w) (length bs))) [
  | inl enough ↦ ground (
    arith,
    append_assoc got bs (content es),
    append_assoc got (take (suc w) bs) (drop (suc w) bs ++ content es),
    append_assoc (take (suc w) bs) (drop (suc w) bs) (content es),
    content-put_back (drop (suc w) bs) es,
    take-append-drop (suc w) bs,
    length-append got (take (suc w) bs),
    length-take (suc w) bs,
  )
  | inr short ↦ ground (
    arith,
    append_assoc got bs (content es),
    length-append got bs,
    read_loop-Took (renew t) (suc w - length bs) (got ++ bs) es v,
  )
]
read_loop-Took t (suc w) got (read_would_block now used ∷ es) v e =
    or_return_cases (Took (suc w) got (content es)) (till_next_tick t now used) _ es
      (λ t' _. read_loop-Took t' (suc w) got es) (λ r f v e. absurd (IsFailure-ne-ok r f e)) v e
read_loop-Took t (suc w) got (read_fails code ∷ es) v e = cc

module _ (tm : Option ℕ) where
  Returns : SshResult Bytes × List ReadEvent → Type 0
  Returns (r, es') = ((v : Bytes) × (r ≡ ok v)) × All (IsQuiet tm) es'

  read_loop-Returns :
      (t : Timeout) (want : ℕ) (got : Bytes) (es : List ReadEvent)
      → t.timeout ≡ tm
      → All (IsQuiet tm) es
      → want ≤ length (content es)
      → Returns (read_loop t want got es)
  unfolding read_loop Returns
  read_loop-Returns t zero got es e quiet h = ((got, refl), quiet)
  read_loop-Returns t (suc w) got [] e quiet h = absurd (omega arith)
  read_loop-Returns t (suc w) got (chunk bs ∷ es) e (q, qs) h =
      elim (Bool-cases (leb (suc w) (length bs))) [
        | inl enough ↦
            rw enough ((got ++ take (suc w) bs, refl), put_back-IsQuiet tm (drop (suc w) bs) es qs)
        | inr short ↦ rw short (
            read_loop-Returns (renew t) (suc w - length bs) (got ++ bs) es (timeout-renew t ∙ e) qs
              (omega (arith, length-append bs (content es))))
      ]
  read_loop-Returns t (suc w) got (read_would_block now used ∷ es) e (q, qs) h =
      rw (quiet_tick t now used (subst (λ o. IsQuiet o (read_would_block now used)) (sym e) q))
        (read_loop-Returns (wait t used) (suc w) got es (timeout-wait t used ∙ e) qs h)
  read_loop-Returns t (suc w) got (read_fails code ∷ es) e (q, qs) h = absurd q

  -- At the end of the stream the loop does not end.
  pub read_loop-hang :
      (t : Timeout) (want : ℕ) (got : Bytes) (es : List ReadEvent)
      → t.timeout ≡ tm
      → All (IsQuiet tm) es
      → length (content es) < want
      → (read_loop t want got es).0 ≡ hang
  unfolding read_loop
  read_loop-hang t zero got es e quiet h = absurd (omega arith)
  read_loop-hang t (suc w) got [] e quiet h = refl
  read_loop-hang t (suc w) got (chunk bs ∷ es) e (q, qs) h = ground (
    arith,
    length-append bs (content es),
    read_loop-hang (renew t) (suc w - length bs) (got ++ bs) es (timeout-renew t ∙ e) qs,
  )
  read_loop-hang t (suc w) got (read_would_block now used ∷ es) e (q, qs) h =
      rw (quiet_tick t now used (subst (λ o. IsQuiet o (read_would_block now used)) (sym e) q))
        (read_loop-hang (wait t used) (suc w) got es (timeout-wait t used ∙ e) qs h)
  read_loop-hang t (suc w) got (read_fails code ∷ es) e (q, qs) h = absurd q

-- If enough bytes arrive, no read fails and none waits past the limit, the read returns the first
-- `want` bytes of the content, in whatever pieces they arrive, and leaves the rest of the content.
pub read_with_timeout_lem :
    (tm : Option ℕ) (want : ℕ) (es : List ReadEvent)
    → All (IsQuiet tm) es
    → want ≤ length (content es)
    → let (r, es') = read_with_timeout tm want es in
      (r ≡ ok (take want (content es)))
      × (content es' ≡ drop want (content es))
      × All (IsQuiet tm) es'
unfolding read_with_timeout Returns Took
read_with_timeout_lem tm want es quiet h =
    let ((v, e), quiet') = read_loop-Returns tm (Timeout.new tm) want [] es refl quiet h in
    let (p, q) = read_loop-Took (Timeout.new tm) want [] es v e in
    (
      e ∙ ap ok (rw p (sym (take_front v _ want (omega arith)))),
      rw p (sym (drop_front v _ want (omega arith))),
      quiet',
    )
