-- ===== src/Error.antt =====
-- error.rs: the errors of the crate, and the outcome of a call.
use ssh_rs.Base.{ℕ, ◌≡◌, ◌≢◌, refl, List}

-- The payloads that come from other crates are kept as the text or code they are shown with.
pub data SshError : Type 0 where
  version_dismatch : List ℕ → List ℕ → SshError
  kex_error ssh_pub_key_error : List ℕ → SshError
  auth_error timeout_error data_format_error : SshError
  encryption_error compression_error : List ℕ → SshError
  system_time_error parse_int_error invalid_scp_file_path : SshError
  scp_error : List ℕ → SshError
  io_error : ℕ → SshError
  ipc_error general_error : List ℕ → SshError

-- `SshResult`, with the two ways in which a call of the crate does not return: it panics, or it
-- loops for ever. `starved` has no counterpart in the program: a bounded loop of the model ran out
-- of its bound.
pub data SshResult {ℓ} (A : Type ℓ) : Type ℓ where
  ok : A → SshResult A
  err : SshError → SshResult A
  panic hang starved : SshResult A

module _ {ℓ κ} {A : Type ℓ} {B : Type κ} where
  infixl 5 ◌>>=◌
  abbrev pub ◌>>=◌ : SshResult A → (A → SshResult B) → SshResult B
  hang >>= next = hang
  panic >>= next = panic
  starved >>= next = starved
  err why >>= next = err why
  ok value >>= next = next value

  -- Inversion of a successful bind.
  pub >>=-eq-ok :
      {v : B} (first : SshResult A) (next : A → SshResult B)
      → (first >>= next) ≡ ok v
      → (value : A) × (first ≡ ok value) × (next value ≡ ok v)
  >>=-eq-ok (ok value) next e = (value, refl, e)
  >>=-eq-ok (err why) next e = cc
  >>=-eq-ok _ next e = cc

infixl 5 ◌>>◌
abbrev pub ◌>>◌ {κ} : {B : Type κ} → SshResult (Unit {0}) → SshResult B → SshResult B
first >> rest = first >>= (λ done. rest)

abbrev pub IsFailure {ℓ} : {A : Type ℓ} → SshResult A → Type 0
IsFailure (ok a) = ⊥
IsFailure _ = Unit {0}

pub IsFailure-ne-ok {ℓ} : {A : Type ℓ} (r : SshResult A) {a : A} → IsFailure r → r ≢ ok a
IsFailure-ne-ok (ok b) f e = absurd f
IsFailure-ne-ok (err b) f e = cc
IsFailure-ne-ok _ f e = cc

-- `m?` in a function that leaves the state `s` behind when it returns early.
abbrev pub or_return {ℓ κ λ'} :
    {A : Type ℓ} {B : Type κ} {S : Type λ'}
    → SshResult A
    → (A → SshResult B × S)
    → S
    → SshResult B × S
or_return (ok a) k s = k a
or_return (err e) k s = (err e, s)
or_return panic k s = (panic, s)
or_return hang k s = (hang, s)
or_return starved k s = (starved, s)

-- A property of what follows `m?`, from each way on.
pub or_return_cases {ℓ κ λ' μ} :
    {A : Type ℓ} {B : Type κ} {S : Type λ'} (P : SshResult B × S → Type μ) (m : SshResult A)
    (k : A → SshResult B × S) (s : S)
    → ((a : A) → m ≡ ok a → P (k a))
    → ((r : SshResult B) → IsFailure r → P (r, s))
    → P (or_return m k s)
or_return_cases P (ok a) k s go stop = go a refl
or_return_cases P (err e) k s go stop = stop (err e) tt
or_return_cases P panic k s go stop = stop panic tt
or_return_cases P hang k s go stop = stop hang tt
or_return_cases P starved k s go stop = stop starved tt

-- Not `starved`: no bounded loop ran out of its bound.
abbrev pub IsFed {ℓ} : {A : Type ℓ} → SshResult A → Type 0
IsFed starved = ⊥
IsFed _ = Unit {0}

pub >>=-IsFed {ℓ κ} :
    {A : Type ℓ} {B : Type κ} (m : SshResult A) (f : A → SshResult B)
    → IsFed m
    → ((a : A) → IsFed (f a))
    → IsFed (m >>= f)
>>=-IsFed (ok a) f h k = k a
>>=-IsFed (err e) f h k = tt
>>=-IsFed panic f h k = tt
>>=-IsFed hang f h k = tt
>>=-IsFed starved f h k = absurd h

pub or_return-IsFed {ℓ κ μ} :
    {A : Type ℓ} {B : Type κ} {S : Type μ} (m : SshResult A) (k : A → SshResult B × S) (s : S)
    → IsFed m
    → ((a : A) → IsFed (k a).0)
    → IsFed (or_return m k s).0
or_return-IsFed (ok a) k s h go = go a
or_return-IsFed (err e) k s h go = tt
or_return-IsFed panic k s h go = tt
or_return-IsFed hang k s h go = tt
or_return-IsFed starved k s h go = absurd h

pub IsFed-ne-starved {ℓ} : {A : Type ℓ} (r : SshResult A) → IsFed r → r ≢ starved
IsFed-ne-starved (ok a) h e = cc
IsFed-ne-starved (err x) h e = cc
IsFed-ne-starved panic h e = cc
IsFed-ne-starved hang h e = cc
IsFed-ne-starved starved h e = absurd h

abbrev pub map_ok {ℓ κ} : {A : Type ℓ} {B : Type κ} → (A → B) → SshResult A → SshResult B
map_ok f r = r >>= (λ a. ok (f a))

abbrev pub and_then {ℓ κ} :
    {A : Type ℓ} {B : Type κ} → SshResult A → (A → SshResult B) → SshResult B
and_then r next = r >>= next
