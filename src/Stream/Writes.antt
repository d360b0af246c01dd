-- ===== src/Stream/Writes.antt =====
-- `write_with_timeout` delivers the bytes in order, however many the stream takes at a time.
use ssh_rs.Base.{
  ℕ, ◌≡◌, refl, sym, ◌⊎◌, inl, inr, List, [], ◌∷◌, ◌++◌, append-nil, append_assoc, Option, take,
  drop, take-append-drop,
}
use ssh_rs.Error.{SshResult, ok, IsFailure, IsFailure-ne-ok, or_return_cases}
use ssh_rs.Data.{Bytes}
use ssh_rs.Timeout
use ssh_rs.Timeout.{Timeout, till_next_tick, renew}
use ssh_rs.Stream.{
  Stream, WriteEvent, accepts, write_would_block, write_fails, write_loop, write_with_timeout,
}

-- What a write left on the wire is a front part of the bytes, and all of them if it succeeded.
abbrev Wrote : Bytes → Bytes → SshResult (Unit {0}) × (List WriteEvent × Bytes) → Type 0
Wrote buf out (r, (sink, out')) =
    (now : Bytes) × (later : Bytes) × (buf ≡ now ++ later)
    × (out' ≡ out ++ now)
    × ((later ≡ []) ⊎ IsFailure r)

write_loop-Wrote :
    (t : Timeout) (es : List WriteEvent) (buf out : Bytes) → Wrote buf out (write_loop t buf es out)
unfolding write_loop
write_loop-Wrote t es [] out = ([], [], refl, sym (append-nil out), inl refl)
write_loop-Wrote t [] (b ∷ buf) out = (b ∷ buf, [], sym (append-nil _), refl, inl refl)
write_loop-Wrote t (accepts n ∷ es) (b ∷ buf) out =
    let part = take n (b ∷ buf) in
    let (now, later, p, q, r) = write_loop-Wrote (renew t) es (drop n (b ∷ buf)) (out ++ part) in
    (
      part ++ now,
      later,
      cc (take-append-drop n (b ∷ buf), append_assoc part now later),
      cc (append_assoc out part now),
      r,
    )
write_loop-Wrote t (write_would_block now used ∷ es) (b ∷ buf) out =
    or_return_cases (Wrote (b ∷ buf) out) (till_next_tick t now used) _ (es, out)
      (λ t' _. write_loop-Wrote t' es (b ∷ buf) out)
      (λ r f. ([], b ∷ buf, refl, sym (append-nil out), inr f))
write_loop-Wrote t (write_fails code ∷ es) (b ∷ buf) out =
    ([], b ∷ buf, refl, sym (append-nil out), inr tt)

-- Whatever the stream does, the wire receives the earlier output and then a front part of the
-- bytes in order, which is the whole of the bytes or the write fails. The input is untouched.
pub write_with_timeout-Wrote :
    (tm : Option ℕ) (buf : Bytes) (s : Stream)
    → let (r, s') = write_with_timeout tm buf s in
      (now : Bytes) × (later : Bytes) × (buf ≡ now ++ later)
      × (s'.output ≡ s.output ++ now)
      × ((later ≡ []) ⊎ IsFailure r)
      × (s'.input ≡ s.input)
unfolding write_with_timeout
write_with_timeout-Wrote tm buf s =
    let (now, later, p, q, r) = write_loop-Wrote (Timeout.new tm) s.sink buf s.output in
    (now, later, p, q, r, refl)

pub output-write_with_timeout :
    (tm : Option ℕ) (buf : Bytes) (s : Stream)
    → (write_with_timeout tm buf s).0 ≡ ok tt
    → (write_with_timeout tm buf s).1.output ≡ s.output ++ buf
output-write_with_timeout tm buf s sent =
    let (now, later, p, q, r, i) = write_with_timeout-Wrote tm buf s in
    elim r [
      | inl whole ↦ cc (p, q, whole, append-nil now)
      | inr f ↦ absurd (IsFailure-ne-ok _ f sent)
    ]
