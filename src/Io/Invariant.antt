-- ===== src/Io/Invariant.antt =====
-- What holds in each round of a loop holds at its end.
use ssh_rs.Base.{ℕ, zero, suc, ◌⊎◌, inl, inr}
use ssh_rs.Error.{SshResult, ok, err, panic, hang, starved, or_return, IsFailure}
use ssh_rs.Io.{Io, loop, go_on, drive}

module _ {ℓ κ μ ν} {S : Type ℓ} {T : Type κ} {A : Type μ} (I : T → S → Type ν)
    (Q : SshResult A × S → Type ν) where
  -- What a round has to leave: the invariant, if the loop goes on, and else the conclusion.
  abbrev pub Turn : SshResult (T ⊎ A) × S → Type ν
  Turn (ok (inl t), s) = I t s
  Turn (ok (inr a), s) = Q (ok a, s)
  Turn (err e, s) = Q (err e, s)
  Turn (panic, s) = Q (panic, s)
  Turn (hang, s) = Q (hang, s)
  Turn (starved, s) = Q (starved, s)

  Turn-go_on :
      (again : T → Io S A) (p : SshResult (T ⊎ A) × S)
      → Turn p
      → ((t : T) (s : S) → I t s → Q (again t s))
      → Q (or_return p.0 (λ next. go_on again next p.1) p.1)
  Turn-go_on again (ok (inl t), s) h k = k t s h
  Turn-go_on again (ok (inr a), s) h k = h
  Turn-go_on again (err e, s) h k = h
  Turn-go_on again (panic, s) h k = h
  Turn-go_on again (hang, s) h k = h
  Turn-go_on again (starved, s) h k = h

  -- A round that failed leaves the conclusion, if it holds of each failure in that state.
  pub Turn-failure :
      (s : S)
      → ((r : SshResult A) → IsFailure r → Q (r, s))
      → (r : SshResult (T ⊎ A)) → IsFailure r
      → Turn (r, s)
  Turn-failure s h (ok a) f = absurd f
  Turn-failure s h (err e) f = h (err e) tt
  Turn-failure s h panic f = h panic tt
  Turn-failure s h hang f = h hang tt
  Turn-failure s h starved f = h starved tt

  module _ (body : T → Io S (T ⊎ A)) (keeps : (t : T) (s : S) → I t s → Turn (body t s))
      (short : (t : T) (s : S) → I t s → Q (starved, s)) where
    loop-Invariant : (n : ℕ) (t : T) (s : S) → I t s → Q (loop body n t s)
    unfolding loop
    loop-Invariant zero t s i = short t s i
    loop-Invariant (suc n) t s i =
        Turn-go_on (loop body n) (body t s) (keeps t s i) (loop-Invariant n)

    pub drive-Invariant : (rank : T → S → ℕ) (t : T) (s : S) → I t s → Q (drive rank body t s)
    unfolding drive
    drive-Invariant rank t s i = loop-Invariant (suc (rank t s)) t s i
