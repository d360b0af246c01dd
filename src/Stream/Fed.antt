-- ===== src/Stream/Fed.antt =====
-- Reads and writes end, and a read takes as many bytes off the stream as it returns.
use ssh_rs.Base.{
  ℕ, zero, suc, ◌-◌, ◌≡◌, refl, List, [], ◌∷◌, ◌++◌, if-cases, inl, inr, Option-cases, arith,
  length, length-append, length-drop, drop, leb, ltb, Option,
}
use ssh_rs.Error.{IsFed, or_return-IsFed}
use ssh_rs.Data.{Bytes}
use ssh_rs.Timeout
use ssh_rs.Timeout.{Timeout, till_next_tick, renew}
use ssh_rs.Stream.{
  Stream, ReadEvent, chunk, read_would_block, read_fails, WriteEvent, accepts, write_would_block,
  write_fails, read_loop, read_with_timeout, write_loop, write_with_timeout,
}
use ssh_rs.Stream.Reads.{content, content-put_back}
use ssh_rs.Io.Fed.{Paid, Paid-weaken, next-Paid}

-- The bytes in a list of events.
abbrev pub due : List ReadEvent → ℕ
due es = length (content es)

pub till_next_tick-IsFed : (t : Timeout) (now used : ℕ) → IsFed (till_next_tick t now used)
unfolding till_next_tick
till_next_tick-IsFed t now used = elim (Option-cases t.timeout) [
  | inl e ↦ rw e tt
  | inr (limit, e) ↦ rw e (if-cases IsFed (ltb limit now) _ _ (λ f. tt) (λ f. tt))
]

read_loop-Paid :
    (t : Timeout) (want : ℕ) (got : Bytes) (es : List ReadEvent)
    → Paid due (λ v. want) (due es) (read_loop t want got es)
unfolding read_loop
read_loop-Paid t zero got es = omega arith
read_loop-Paid t (suc w) got [] = tt
read_loop-Paid t (suc w) got (chunk bs ∷ es) =
    if-cases (Paid due (λ v. suc w) (length (bs ++ content es))) (leb (suc w) (length bs)) _ _
      (λ e. ground (
        arith,
        content-put_back (drop (suc w) bs) es,
        length-append (drop (suc w) bs) (content es),
        length-append bs (content es),
        length-drop (suc w) bs,
      ))
      (λ e.
        Paid-weaken due (λ v. suc w - length bs) (λ v. suc w) (due es) _ _
          (λ b. ground (arith, length-append bs (content es)))
          (read_loop-Paid (renew t) (suc w - length bs) (got ++ bs) es))
read_loop-Paid t (suc w) got (read_would_block now used ∷ es) =
    next-Paid due _ (due es) (till_next_tick t now used) _ es (till_next_tick-IsFed t now used)
      (λ t' e. read_loop-Paid t' (suc w) got es)
read_loop-Paid t (suc w) got (read_fails code ∷ es) = tt

write_loop-IsFed :
    (t : Timeout) (es : List WriteEvent) (buf out : Bytes) → IsFed (write_loop t buf es out).0
unfolding write_loop
write_loop-IsFed t es [] out = tt
write_loop-IsFed t [] (b ∷ buf) out = tt
write_loop-IsFed t (accepts n ∷ es) (b ∷ buf) out =
    write_loop-IsFed (renew t) es (drop n (b ∷ buf)) _
write_loop-IsFed t (write_would_block now used ∷ es) (b ∷ buf) out =
    or_return-IsFed (till_next_tick t now used) _ (es, out) (till_next_tick-IsFed t now used)
      (λ t'. write_loop-IsFed t' es (b ∷ buf) out)
write_loop-IsFed t (write_fails code ∷ es) (b ∷ buf) out = tt

pub read_with_timeout-Paid :
    (tm : Option ℕ) (want : ℕ) (es : List ReadEvent)
    → Paid due (λ v. want) (due es) (read_with_timeout tm want es)
unfolding read_with_timeout
read_with_timeout-Paid tm want es = read_loop-Paid (Timeout.new tm) want [] es

pub write_with_timeout-IsFed :
    (tm : Option ℕ) (buf : Bytes) (s : Stream) → IsFed (write_with_timeout tm buf s).0
unfolding write_with_timeout
write_with_timeout-IsFed tm buf s = write_loop-IsFed (Timeout.new tm) s.sink buf s.output

pub input-write_with_timeout :
    (tm : Option ℕ) (buf : Bytes) (s : Stream) → (write_with_timeout tm buf s).1.input ≡ s.input
unfolding write_with_timeout
input-write_with_timeout tm buf s = refl
