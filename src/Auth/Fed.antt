-- ===== src/Auth/Fed.antt =====
-- The authentication ends: each round takes a message.
use ssh_rs.Base.{ℕ, ◌+◌, ◌≤◌, ◌<◌, ◌≢◌, Bool, true, false, Option, none, some, ◌⊎◌, inl, arith}
use ssh_rs.Error.{SshResult, ok, starved, IsFed, or_return, or_return-IsFed, IsFed-ne-starved}
use ssh_rs.Data.{Bytes, get_u8}
use ssh_rs.Data.Fed.{get_u8-IsFed}
use ssh_rs.Algorithm.{PubKey}
use ssh_rs.Config.{KeyPair}
use ssh_rs.Io.Fed.{Paid, Round, next-Paid, next-Round, Paid-IsFed, Paid-ok, fed-Paid, drive-Pays}
use ssh_rs.Client.{Link}
use ssh_rs.Packet.Fed.{write_stream-IsFed, incoming-write_stream, from_stream-Paid}
use ssh_rs.Packet.{from_stream, write_stream}
use ssh_rs.Suite.{Suite, first}
use ssh_rs.Kex.{incoming, Digest}
use ssh_rs.Kex.Fed.{SuiteFed, first-IsFed}
use ssh_rs.Auth.{
  KeyOps, Arm, accepted, refused, key_fine, succeeded, asked, ignored, arm_of, unwrap,
  password_authentication, public_key_authentication, public_key_signature, start_with, fall_back,
  finish_auth, auth_arm, auth_round, do_auth,
}

-- The calls on a private key end.
pub record KeysFed (keys : KeyOps) : Type 0 where
  pub blob_fed : (pair : KeyPair) (alg : PubKey) → IsFed (keys.get_blob pair alg)
  pub sign_fed : (pair : KeyPair) (b : Bytes) (alg : PubKey) → IsFed (keys.sign pair b alg)

pub unwrap-IsFed : {A : Type 0} (o : Option A) → IsFed (unwrap o)
unfolding unwrap
unwrap-IsFed none = tt
unwrap-IsFed (some a) = tt

module _ {S C : Type 0} (su : Suite S C) (fed : SuiteFed su) (keys : KeyOps)
    (keys_fed : KeysFed keys) where
  -- A method that costs nothing.
  abbrev Free : Link S C → SshResult (Unit {0}) × Link S C → Type 0
  Free l p = Paid incoming (λ u. 0) (incoming l) p

  write-Free : (payload : Bytes) (l : Link S C) → Free l (write_stream su.enc su.comp payload l)
  write-Free payload l =
      fed-Paid incoming (λ u. 0) (incoming l) _ _
        (write_stream-IsFed su.enc su.comp fed.packets payload l)
        (λ u. omega (arith, incoming-write_stream su.enc su.comp fed.packets payload l))

  password_authentication-Free : (l : Link S C) → Free l (password_authentication su keys l)
  unfolding password_authentication
  password_authentication-Free l = write-Free _ l

  public_key_authentication-Free : (l : Link S C) → Free l (public_key_authentication su keys l)
  unfolding public_key_authentication
  public_key_authentication-Free l =
      next-Paid incoming (λ u. 0) (incoming l) (first l.client.negotiated.public_key) _ l
        (first-IsFed _)
        λ alg e1.
          next-Paid incoming (λ u. 0) (incoming l) (unwrap l.client.config.auth.key_pair) _ l
            (unwrap-IsFed _)
            λ pair e2.
              next-Paid incoming (λ u. 0) (incoming l) (keys.get_blob pair alg) _ l
                (keys_fed.blob_fed pair alg) λ blob e3. write-Free _ l

  public_key_signature-Free :
      (d : Digest) (l : Link S C) → Free l (public_key_signature su keys d l)
  unfolding public_key_signature
  public_key_signature-Free d l =
      next-Paid incoming (λ u. 0) (incoming l) (first l.client.negotiated.public_key) _ l
        (first-IsFed _)
        λ alg e1.
          next-Paid incoming (λ u. 0) (incoming l) (unwrap l.client.config.auth.key_pair) _ l
            (unwrap-IsFed _)
            λ pair e2.
              next-Paid incoming (λ u. 0) (incoming l) (keys.get_blob pair alg) _ l
                (keys_fed.blob_fed pair alg)
                λ blob e3.
                  next-Paid incoming (λ u. 0) (incoming l) (keys.sign pair _ alg) _ l
                    (keys_fed.sign_fed pair _ alg) λ sig e4. write-Free _ l

  abbrev OnRound : ℕ → SshResult (Bool ⊎ Unit {0}) × Link S C → Type 0
  OnRound m p = Round incoming (λ tried. incoming) (λ u. 0) m m p

  -- A method after which the loop goes on.
  again-Round :
      (m : ℕ) (tried : Bool) (l : Link S C) (p : SshResult (Unit {0}) × Link S C)
      → incoming l < m
      → Free l p
      → OnRound m (or_return p.0 (λ u. (ok (inl tried), p.1)) p.1)
  again-Round m tried l p h paid =
      next-Round incoming (λ tried. incoming) (λ u. 0) m m p.0 _ p.1
        (Paid-IsFed incoming (λ u. 0) (incoming l) p paid)
        λ u q. both (Paid-ok incoming (λ u. 0) (incoming l) p u paid q)
    where
      both : {a : ℕ} → a + 0 ≤ incoming l → (a < m) × (a ≤ m)
      both le = omega (arith, h)

  start_with-Round :
      (m : ℕ) (tried : Bool) (o : Option KeyPair) (l : Link S C)
      → incoming l < m
      → OnRound m (start_with su keys o tried l)
  unfolding start_with
  start_with-Round m tried none l h = again-Round m true l _ h (password_authentication-Free l)
  start_with-Round m tried (some pair) l h =
      again-Round m tried l _ h (public_key_authentication-Free l)

  fall_back-Round :
      (m : ℕ) (tried : Bool) (l : Link S C) → incoming l < m → OnRound m (fall_back su keys tried l)
  unfolding fall_back
  fall_back-Round m false l h = again-Round m true l _ h (password_authentication-Free l)
  fall_back-Round m true l h = tt

  auth_arm-Round :
      (m : ℕ) (d : Digest) (tried : Bool) (a : Arm) (l : Link S C)
      → incoming l < m
      → OnRound m (auth_arm su keys d tried a l)
  unfolding auth_arm finish_auth
  auth_arm-Round m d tried accepted l h = start_with-Round m tried l.client.config.auth.key_pair l h
  auth_arm-Round m d tried refused l h = fall_back-Round m tried l h
  auth_arm-Round m d tried key_fine l h = again-Round m tried l _ h (public_key_signature-Free d l)
  auth_arm-Round m d tried succeeded l h =
      next-Round incoming (λ tried. incoming) (λ u. 0) m m (first l.client.negotiated.c_compress) _
        l (first-IsFed _) λ compress e. omega arith
  auth_arm-Round m d tried asked l h = again-Round m tried l _ h (write-Free _ l)
  auth_arm-Round m d tried ignored l h = omega arith

  auth_round-Round :
      (d : Digest) (tried : Bool) (l : Link S C)
      → OnRound (incoming l) (auth_round su keys d tried l)
  unfolding auth_round
  auth_round-Round d tried l =
      let paid = from_stream-Paid su.enc su.comp fed.packets l in
      let l' = (from_stream su.enc su.comp l).1 in
      next-Round incoming (λ tried. incoming) (λ u. 0) (incoming l) (incoming l) _ _ _
        (Paid-IsFed incoming _ _ _ paid)
        λ payload q.
          next-Round incoming (λ tried. incoming) (λ u. 0) (incoming l) (incoming l)
            (get_u8 payload) _ l' (get_u8-IsFed payload)
            λ p r.
              auth_arm-Round (incoming l) d tried (arm_of p.0) l'
                (less (Paid-ok incoming _ _ _ payload paid q))
    where
      less : {a b : ℕ} → a + 1 ≤ b → a < b
      less h = omega arith

  pub do_auth-IsFed : (d : Digest) (l : Link S C) → IsFed (do_auth su keys d l).0
  unfolding do_auth
  do_auth-IsFed d l = or_return-IsFed _ _ _ (write_stream-IsFed su.enc su.comp fed.packets _ l) λ u.
      Paid-IsFed incoming (λ u. 0) _ _
        (drive-Pays incoming (λ tried. incoming) (λ u. 0) (auth_round su keys d)
          (auth_round-Round d) false _)

  -- The authentication never uses up the bound of its loop, whatever the server sends, if the calls
  -- of the algorithms and on the private key do not: each round takes a message.
  pub do_auth_never_starves : (d : Digest) (l : Link S C) → (do_auth su keys d l).0 ≢ starved
  do_auth_never_starves d l = IsFed-ne-starved _ (do_auth-IsFed d l)
