-- ===== src/Io/Fed.antt =====
-- Methods whose loops have enough fuel, by what they take off a measure of the state.
use ssh_rs.Base.{
  ℕ, zero, suc, ◌+◌, ◌-◌, ◌≤◌, ◌<◌, ◌≡◌, refl, Bool, true, false, ◌⊎◌, inl, inr, arith,
}
use ssh_rs.Error.{SshResult, ok, err, panic, hang, starved, or_return, IsFed}
use ssh_rs.Io.{Io, require, ◌>>=◌, ◌>>◌, loop, go_on, drive}

-- What an outcome and a state may be, where the measure was `m`: not starved, and on success the
-- measure is at least `cost` smaller, which depends on the value.
abbrev pub Paid {ℓ κ} : {S : Type ℓ} {A : Type κ} → (S → ℕ) → (A → ℕ) → ℕ → SshResult A × S → Type 0
Paid measure cost m (ok a, s) = measure s + cost a ≤ m
Paid measure cost m (starved, s) = ⊥
Paid measure cost m (_, s) = Unit {0}

-- `io` pays from each state.
abbrev pub Pays {ℓ κ} : {S : Type ℓ} {A : Type κ} → (S → ℕ) → (A → ℕ) → Io S A → Type ℓ
Pays {S = S} measure cost io = (s : S) → Paid measure cost (measure s) (io s)

pub Paid-weaken {ℓ κ} :
    {S : Type ℓ} {B : Type κ} (measure : S → ℕ) (cost price : B → ℕ) (m m' : ℕ)
    (p : SshResult B × S)
    → ((b : B) → price b + m ≤ cost b + m')
    → Paid measure cost m p
    → Paid measure price m' p
Paid-weaken measure cost price m m' (ok b, s) h p = omega (arith, h b)
Paid-weaken measure cost price m m' (err e, s) h p = tt
Paid-weaken measure cost price m m' (panic, s) h p = tt
Paid-weaken measure cost price m m' (hang, s) h p = tt
Paid-weaken measure cost price m m' (starved, s) h p = absurd p

module _ {ℓ κ μ} {S : Type ℓ} {A : Type κ} {B : Type μ} (measure : S → ℕ) where
  or_return-Paid :
      (cost : A → ℕ) (price : B → ℕ) (m : ℕ) (p : SshResult A × S) (k : A → Io S B)
      → Paid measure cost m p
      → ((a : A) (s : S) → measure s + cost a ≤ m → Paid measure price m (k a s))
      → Paid measure price m (or_return p.0 (λ a. k a p.1) p.1)
  or_return-Paid cost price m (ok a, s) k p go = go a s p
  or_return-Paid cost price m (err e, s) k p go = tt
  or_return-Paid cost price m (panic, s) k p go = tt
  or_return-Paid cost price m (hang, s) k p go = tt
  or_return-Paid cost price m (starved, s) k p go = absurd p

  pub bind-Pays :
      (cost : A → ℕ) (price : B → ℕ) (io : Io S A) (k : A → Io S B)
      → Pays measure cost io
      → ((a : A) → Pays measure (λ b. price b - cost a) (k a))
      → Pays measure price (io >>= k)
  bind-Pays cost price io k p q s = or_return-Paid cost price (measure s) (io s) k (p s) (λ a s' le.
      Paid-weaken measure (λ b. price b - cost a) price (measure s') (measure s) (k a s')
        (λ b. omega arith) (q a s'))

-- A step that does not touch the measured state.
pub next-Paid {ℓ κ μ} :
    {S : Type ℓ} {A : Type κ} {B : Type μ} (measure : S → ℕ) (price : B → ℕ) (m : ℕ)
    (r : SshResult A) (k : A → SshResult B × S) (s : S)
    → IsFed r
    → ((a : A) → r ≡ ok a → Paid measure price m (k a))
    → Paid measure price m (or_return r k s)
next-Paid measure price m (ok a) k s h go = go a refl
next-Paid measure price m (err e) k s h go = tt
next-Paid measure price m panic k s h go = tt
next-Paid measure price m hang k s h go = tt
next-Paid measure price m starved k s h go = absurd h

-- What one round of a loop has to do: a smaller rank if the loop goes on, or the price.
abbrev pub Round {ℓ κ μ} :
    {S : Type ℓ} {T : Type κ} {A : Type μ}
    → (S → ℕ)
    → (T → S → ℕ)
    → (A → ℕ)
    → ℕ
    → ℕ
    → SshResult (T ⊎ A) × S
    → Type 0
Round measure rank price m r (ok (inl t), s) = (rank t s < r) × (measure s ≤ m)
Round measure rank price m r (ok (inr a), s) = measure s + price a ≤ m
Round measure rank price m r (starved, s) = ⊥
Round measure rank price m r (_, s) = Unit {0}

module _ {ℓ κ μ} {S : Type ℓ} {T : Type κ} {A : Type μ} (measure : S → ℕ) (rank : T → S → ℕ)
    (price : A → ℕ) where
  pub go_on-Paid :
      (m r : ℕ) (again : T → Io S A) (p : SshResult (T ⊎ A) × S)
      → Round measure rank price m r p
      → ((t : T) (s : S) → rank t s < r → Paid measure price (measure s) (again t s))
      → Paid measure price m (or_return p.0 (λ next. go_on again next p.1) p.1)
  go_on-Paid m r again (ok (inl t), s) h k =
      Paid-weaken measure price price (measure s) m (again t s) (λ b. omega arith) (k t s h.0)
  go_on-Paid m r again (ok (inr a), s) h k = h
  go_on-Paid m r again (err e, s) h k = tt
  go_on-Paid m r again (panic, s) h k = tt
  go_on-Paid m r again (hang, s) h k = tt
  go_on-Paid m r again (starved, s) h k = absurd h

  module _ (body : T → Io S (T ⊎ A))
      (rounds : (t : T) (s : S) → Round measure rank price (measure s) (rank t s) (body t s)) where
    loop-Paid :
        (n : ℕ) (t : T) (s : S) → rank t s < n → Paid measure price (measure s) (loop body n t s)
    unfolding loop
    loop-Paid zero t s h = absurd (omega arith)
    loop-Paid (suc n) t s h =
        go_on-Paid (measure s) (rank t s) (loop body n) (body t s) (rounds t s)
          (λ t' s' le. loop-Paid n t' s' (omega arith))

    pub drive-Pays : (t : T) → Pays measure price (drive rank body t)
    unfolding drive
    drive-Pays t s = loop-Paid (suc (rank t s)) t s (omega arith)

module _ {ℓ κ} {S : Type ℓ} {A : Type κ} (measure : S → ℕ) (cost : A → ℕ) (m : ℕ) where
  pub Paid-IsFed : (p : SshResult A × S) → Paid measure cost m p → IsFed p.0
  Paid-IsFed (ok a, s) h = tt
  Paid-IsFed (err e, s) h = tt
  Paid-IsFed (panic, s) h = tt
  Paid-IsFed (hang, s) h = tt
  Paid-IsFed (starved, s) h = absurd h

  pub Paid-ok :
      (p : SshResult A × S) (a : A) → Paid measure cost m p → p.0 ≡ ok a → measure p.1 + cost a ≤ m
  Paid-ok (ok b, s) a h e = let same : b ≡ a = cc in rw (← same) h
  Paid-ok (err x, s) a h e = cc
  Paid-ok (panic, s) a h e = cc
  Paid-ok (hang, s) a h e = cc
  Paid-ok (starved, s) a h e = cc

  -- An outcome without a loop, in a state that has paid.
  pub fed-Paid :
      (r : SshResult A) (s : S)
      → IsFed r
      → ((a : A) → measure s + cost a ≤ m)
      → Paid measure cost m (r, s)
  fed-Paid (ok a) s h le = le a
  fed-Paid (err e) s h le = tt
  fed-Paid panic s h le = tt
  fed-Paid hang s h le = tt
  fed-Paid starved s h le = absurd h

-- A test before the rest of a method costs nothing.
pub require-Paid {ℓ κ} :
    {S : Type ℓ} {B : Type κ} (measure : S → ℕ) (price : B → ℕ) (m : ℕ) (b : Bool) (k : Io S B)
    (s : S)
    → Paid measure price m (k s)
    → Paid measure price m ((require b >> k) s)
require-Paid measure price m true k s h = h
require-Paid measure price m false k s h = tt

pub next-Round {ℓ κ μ ν} :
    {S : Type ℓ} {T : Type κ} {A : Type μ} {B : Type ν} (measure : S → ℕ) (rank : T → S → ℕ)
    (price : A → ℕ) (m r : ℕ) (o : SshResult B) (k : B → SshResult (T ⊎ A) × S) (s : S)
    → IsFed o
    → ((b : B) → o ≡ ok b → Round measure rank price m r (k b))
    → Round measure rank price m r (or_return o k s)
next-Round measure rank price m r (ok b) k s h go = go b refl
next-Round measure rank price m r (err e) k s h go = tt
next-Round measure rank price m r panic k s h go = tt
next-Round measure rank price m r hang k s h go = tt
next-Round measure rank price m r starved k s h go = absurd h

-- A loop that is ranked by the measure pays at least one, if its first round does.
module _ {ℓ κ μ} {S : Type ℓ} {T : Type κ} {A : Type μ} (measure : S → ℕ) (body : T → Io S (T ⊎ A))
    (rounds : (t : T) (s : S)
      → Round measure (λ t. measure) (λ a. 0) (measure s) (measure s) (body t s)) where
  opened :
      (m : ℕ) (again : T → Io S A) (p : SshResult (T ⊎ A) × S)
      → Round measure (λ t. measure) (λ a. 1) m m p
      → ((t : T) (s : S) → measure s < m → Paid measure (λ a. 0) (measure s) (again t s))
      → Paid measure (λ a. 1) m (or_return p.0 (λ next. go_on again next p.1) p.1)
  opened m again (ok (inl t), s) h k =
      Paid-weaken measure (λ a. 0) (λ a. 1) (measure s) m (again t s) (λ b. omega (arith, h.0))
        (k t s h.0)
  opened m again (ok (inr a), s) h k = h
  opened m again (err e, s) h k = tt
  opened m again (panic, s) h k = tt
  opened m again (hang, s) h k = tt
  opened m again (starved, s) h k = absurd h

  pub drive-opened :
      (t : T) (s : S)
      → Round measure (λ t. measure) (λ a. 1) (measure s) (measure s) (body t s)
      → Paid measure (λ a. 1) (measure s) (drive (λ t. measure) body t s)
  unfolding drive loop
  drive-opened t s h =
      opened (measure s) (loop body (measure s)) (body t s) h
        (λ t' s' lt. loop-Paid measure (λ t. measure) (λ a. 0) body rounds (measure s) t' s' lt)
