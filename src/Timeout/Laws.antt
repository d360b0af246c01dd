-- ===== src/Timeout/Laws.antt =====
-- The tick of Timeout stays positive and small, and a sleep does not pass the deadline.
use ssh_rs.Base.{
  ℕ, refl, ◌-◌, ◌*◌, ◌≤◌, ◌<◌, ◌≡◌, ◌↔◌, ◌⊎◌, inl, inr, Bool-cases, Option, Option-cases, none,
  some, arith, ltb,
}
use ssh_rs.Error.{ok, err, timeout_error}
use ssh_rs.Timeout.{Timeout, nanos_per_sec, cut, wait, till_next_tick}

pub record IsValid (t : Timeout) : Type 0 where
  pub positive : 0 < t.wait_tick
  pub small : t.wait_tick < 2 * nanos_per_sec

-- A sleep of `tick` ends by the limit, if there is one that has not passed.
abbrev pub EndsWithin : Option ℕ → ℕ → ℕ → Type 0
EndsWithin none used tick = Unit {0}
EndsWithin (some limit) used tick = (limit ≤ used) ⊎ (tick ≤ limit - used)

EndsWithin-cut : (o : Option ℕ) (used tick : ℕ) → EndsWithin o used (cut o used tick)
unfolding cut
EndsWithin-cut none used tick = tt
EndsWithin-cut (some limit) used tick = elim (Bool-cases (ltb used limit)) [
  | inl e ↦ inr (ground arith)
  | inr e ↦ inl (ground arith)
]

-- After a wait the tick is still positive and below two seconds, so it never wraps; the limit is
-- unchanged; and the next sleep ends within the limit, if there is one that has not passed.
pub wait-IsValid :
    (t : Timeout) (used : ℕ)
    → IsValid t
    → IsValid (wait t used)
      × ((wait t used).timeout ≡ t.timeout)
      × EndsWithin t.timeout used (wait t used).wait_tick
unfolding wait
wait-IsValid t used v = (ground arith, ground arith, EndsWithin-cut t.timeout used _)

-- A limit is set, and has passed at the time `now`.
abbrev pub HasPassed : Option ℕ → ℕ → Type 0
HasPassed none now = ⊥
HasPassed (some limit) now = limit < now

-- There is no limit, or it has not passed.
abbrev pub IsOpen : Option ℕ → ℕ → Type 0
IsOpen none now = Unit {0}
IsOpen (some limit) now = now ≤ limit

-- A tick fails exactly when a limit is set and has passed, and then with a timeout error. Else it
-- waits, also for ever if no limit is set.
pub till_next_tick-eq-err :
    (t : Timeout) (now used : ℕ)
    → ((till_next_tick t now used ≡ err timeout_error) ↔ HasPassed t.timeout now)
      × ((till_next_tick t now used ≡ ok (wait t used)) ↔ IsOpen t.timeout now)
unfolding till_next_tick
till_next_tick-eq-err t now used = elim (Option-cases t.timeout) [
  | inl e ↦ rw e (((λ h. cc), (λ h. absurd h)), ((λ h. tt), (λ h. refl)))
  | inr (limit, e) ↦ rw e (ground arith, ground arith)
]
