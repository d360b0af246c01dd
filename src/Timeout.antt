-- ===== src/Timeout.antt =====
-- model/timeout.rs: the sleeping between two tries on a stream that would block. Times are
-- nanoseconds; a reading of `instant.elapsed()` is an argument.
pub mod Laws
use ssh_rs.Base.{ℕ, ◌-◌, ◌*◌, ◌%◌, ◌^◌, Option, none, some, ◌&&◌, ltb, if◌then◌else◌}
use ssh_rs.Error.{SshResult, ok, err, timeout_error}

abbrev pub nanos_per_sec : ℕ
nanos_per_sec = 1_000_000_000

pub record Timeout : Type 0 where
  pub timeout : Option ℕ
  pub wait_tick : ℕ

abbrev pub new : Option ℕ → Timeout
new tm = record { timeout = tm; wait_tick = 1 }

-- The tick is doubled after the sleep, up to about a second.
unfoldable pub doubled : ℕ → ℕ
doubled tick = if ltb tick nanos_per_sec then tick * 2 % 2 ^ 64 else tick

-- It is cut to what is left before the deadline; `used` is read after the sleep.
unfoldable pub cut : Option ℕ → ℕ → ℕ → ℕ
cut none used tick = tick
cut (some limit) used tick =
    if ltb used limit && ltb (limit - used) tick then (limit - used) % 2 ^ 64 else tick

unfoldable pub wait : Timeout → ℕ → Timeout
unfolding doubled cut
wait t used = record t { wait_tick = cut t.timeout used (doubled t.wait_tick) }

-- `now` is read for the test of the deadline, `used` after the sleep.
unfoldable pub till_next_tick : Timeout → ℕ → ℕ → SshResult Timeout
till_next_tick t now used = elim t.timeout [
  | none ↦ ok (wait t used)
  | some limit ↦ if ltb limit now then err timeout_error else ok (wait t used)
]

unfoldable pub renew : Timeout → Timeout
renew t = record t { wait_tick = 1 }
