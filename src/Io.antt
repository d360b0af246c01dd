-- ===== src/Io.antt =====
-- Methods that change an object and may fail. What was changed before a failure stays changed, so
-- the state comes back beside every outcome.
pub mod Fed
pub mod Invariant
pub mod Keeps
use ssh_rs.Base.{ℕ, zero, suc, ◌≡◌, Bool, true, false, ◌⊎◌, inl, inr}
use ssh_rs.Error.{SshResult, ok, err, panic, hang, starved, or_return}

abbrev pub Io {ℓ κ} : Type ℓ → Type κ → Type (ℓ ⊔ κ)
Io S A = S → SshResult A × S

module _ {ℓ κ} {S : Type ℓ} {A : Type κ} where
  abbrev pub pure : A → Io S A
  pure a s = (ok a, s)

  abbrev pub lift : SshResult A → Io S A
  lift r s = (r, s)

  abbrev pub gets : (S → A) → Io S A
  gets f s = (ok (f s), s)

abbrev pub modify {ℓ} : {S : Type ℓ} → (S → S) → Io S (Unit {0})
modify f s = (ok tt, f s)

infixl 5 ◌>>=◌ ◌>>◌
abbrev pub ◌>>=◌ {ℓ κ μ} : {S : Type ℓ} {A : Type κ} {B : Type μ} → Io S A → (A → Io S B) → Io S B
◌>>=◌ m f s = let (r, s') = m s in or_return r (λ a. f a s') s'

abbrev pub ◌>>◌ {ℓ κ} : {S : Type ℓ} {B : Type κ} → Io S (Unit {0}) → Io S B → Io S B
◌>>◌ m k s = let (r, s') = m s in or_return r (λ _. k s') s'

-- An index or an assertion that must hold.
abbrev pub require {ℓ} : {S : Type ℓ} → Bool → Io S (Unit {0})
require true s = (ok tt, s)
require false s = (panic, s)

module _ {ℓ κ μ} {S : Type ℓ} {A : Type κ} {B : Type μ} where
  pub >>=-ok :
      (m : Io S A) (f : A → Io S B) (s : S) {a : A} {s' : S}
      → m s ≡ (ok a, s')
      → (m >>= f) s ≡ f a s'
  >>=-ok m f s e = rw e

abbrev pub go_on {ℓ κ μ} : {S : Type ℓ} {T : Type κ} {A : Type μ} → (T → Io S A) → T ⊎ A → Io S A
go_on again (inl t) s = again t s
go_on again (inr a) s = (ok a, s)

-- A loop of the program, with fuel: its body goes on with new local variables or ends with a value.
loop {ℓ κ μ} : {S : Type ℓ} {T : Type κ} {A : Type μ} → (T → Io S (T ⊎ A)) → ℕ → T → Io S A
loop body zero t s = (starved, s)
loop body (suc n) t s =
    let (r, s') = body t s in or_return r (λ next. go_on (loop body n) next s') s'

-- The fuel is a rank of the local variables and the state that each further round makes smaller.
unfoldable pub drive {ℓ κ μ} :
    {S : Type ℓ} {T : Type κ} {A : Type μ} → (T → S → ℕ) → (T → Io S (T ⊎ A)) → T → Io S A
unfolding loop
drive rank body t s = loop body (suc (rank t s)) t s

-- A loop whose first round ends it.
pub drive-stop {ℓ κ μ} :
    {S : Type ℓ} {T : Type κ} {A : Type μ} (rank : T → S → ℕ) (body : T → Io S (T ⊎ A)) (t : T)
    (s : S) {a : A} {s' : S}
    → body t s ≡ (ok (inr a), s')
    → drive rank body t s ≡ (ok a, s')
unfolding drive loop
drive-stop rank body t s e = rw e
