-- ===== src/Io/Keeps.antt =====
-- Properties of the state that a method keeps, whatever its outcome is.
use ssh_rs.Base.{ℕ, ◌⊎◌, inl, inr}
use ssh_rs.Error.{SshResult, ok, err, panic, hang, starved, or_return}
use ssh_rs.Io.{Io, lift, ◌>>=◌, ◌>>◌, drive}
use ssh_rs.Io.Invariant.{Turn, drive-Invariant}

abbrev pub Keeps {ℓ κ μ} : {S : Type ℓ} {A : Type κ} → (S → Type μ) → Io S A → Type (ℓ ⊔ μ)
Keeps {S = S} P io = (s : S) → P s → P (io s).1

module _ {ℓ κ μ ν} {S : Type ℓ} {A : Type κ} {B : Type μ} (P : S → Type ν) where
  or_return-Keeps :
      (p : SshResult A × S) (k : A → Io S B)
      → P p.1
      → ((a : A) → Keeps P (k a))
      → P (or_return p.0 (λ a. k a p.1) p.1).1
  or_return-Keeps (ok a, s) k h go = go a s h
  or_return-Keeps (err e, s) k h go = h
  or_return-Keeps (panic, s) k h go = h
  or_return-Keeps (hang, s) k h go = h
  or_return-Keeps (starved, s) k h go = h

  pub bind-Keeps :
      (io : Io S A) (k : A → Io S B) → Keeps P io → ((a : A) → Keeps P (k a)) → Keeps P (io >>= k)
  bind-Keeps io k h go s p = or_return-Keeps (io s) k (h s p) go

  pub lift-Keeps :
      (r : SshResult A) (k : A → Io S B) → ((a : A) → Keeps P (k a)) → Keeps P (lift r >>= k)
  lift-Keeps r k go s p = or_return-Keeps (r, s) k p go

module _ {ℓ κ ν} {S : Type ℓ} {B : Type κ} (P : S → Type ν) where
  pub then-Keeps : (io : Io S (Unit {0})) (k : Io S B) → Keeps P io → Keeps P k → Keeps P (io >> k)
  then-Keeps io k h go s p = or_return-Keeps P (io s) (λ u. k) (h s p) (λ u. go)

module _ {ℓ κ μ ν} {S : Type ℓ} {T : Type κ} {A : Type μ} (P : S → Type ν) where
  Turn-Keeps : (p : SshResult (T ⊎ A) × S) → P p.1 → Turn {A = A} (λ t s. P s) (λ q. P q.1) p
  Turn-Keeps (ok (inl t), s) h = h
  Turn-Keeps (ok (inr a), s) h = h
  Turn-Keeps (err e, s) h = h
  Turn-Keeps (panic, s) h = h
  Turn-Keeps (hang, s) h = h
  Turn-Keeps (starved, s) h = h

  pub drive-Keeps :
      (rank : T → S → ℕ) (body : T → Io S (T ⊎ A)) (t : T)
      → ((t : T) → Keeps P (body t))
      → Keeps P (drive rank body t)
  drive-Keeps rank body t keeps s p =
      drive-Invariant (λ t s. P s) (λ q. P q.1) body (λ t s p. Turn-Keeps (body t s) (keeps t s p))
        (λ t s p. p) rank t s p
