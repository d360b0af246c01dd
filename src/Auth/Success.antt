-- ===== src/Auth/Success.antt =====
-- Only USERAUTH_SUCCESS ends the authentication without an error.
use ssh_rs.Base.{ℕ, ◌≡◌, refl, [], ◌∷◌, Bool, true, false, Option, none, some, ◌⊎◌, inl, inr, arith}
use ssh_rs.Error.{SshResult, ok, err, panic, hang, starved, or_return, or_return_cases, IsFailure}
use ssh_rs.Constant.{userauth_success}
use ssh_rs.Data.{Bytes, get_u8}
use ssh_rs.Config.{KeyPair}
use ssh_rs.Client.{Link}
use ssh_rs.Packet.{from_stream}
use ssh_rs.Suite.{Suite, first}
use ssh_rs.Kex.{Digest}
use ssh_rs.Auth.{
  KeyOps, Arm, accepted, refused, key_fine, succeeded, asked, ignored, arm_of, start_with,
  fall_back, finish_auth, auth_arm, auth_round,
}

arm_of-succeeded : (code : ℕ) → arm_of code ≡ succeeded → code ≡ userauth_success
unfolding arm_of
arm_of-succeeded code h = ground arith

module _ {S C : Type 0} (su : Suite S C) (keys : KeyOps) where
  -- Where the loop ends without an error, this holds.
  abbrev Ends : Type 0 → SshResult (Bool ⊎ Unit {0}) × Link S C → Type 0
  Ends P (ok (inr u), l) = P
  Ends P (_, l) = Unit {0}

  Ends-failure :
      (P : Type 0) (l : Link S C) (r : SshResult (Bool ⊎ Unit {0})) → IsFailure r → Ends P (r, l)
  Ends-failure P l (ok a) f = absurd f
  Ends-failure P l (err e) f = tt
  Ends-failure P l panic f = tt
  Ends-failure P l hang f = tt
  Ends-failure P l starved f = tt

  -- A method after which the loop goes on.
  again-Ends :
      (P : Type 0) (tried : Bool) (p : SshResult (Unit {0}) × Link S C)
      → Ends P (or_return p.0 (λ u. (ok (inl tried), p.1)) p.1)
  again-Ends P tried p = or_return_cases (Ends P) p.0 _ p.1 (λ u e. tt) (Ends-failure P p.1)

  start_with-Ends :
      (P : Type 0) (tried : Bool) (o : Option KeyPair) (l : Link S C)
      → Ends P (start_with su keys o tried l)
  unfolding start_with
  start_with-Ends P tried none l = again-Ends P true _
  start_with-Ends P tried (some pair) l = again-Ends P tried _

  fall_back-Ends : (P : Type 0) (tried : Bool) (l : Link S C) → Ends P (fall_back su keys tried l)
  unfolding fall_back
  fall_back-Ends P false l = again-Ends P true _
  fall_back-Ends P true l = tt

  auth_arm-Ends :
      (P : Type 0) (d : Digest) (tried : Bool) (a : Arm) (l : Link S C)
      → (a ≡ succeeded → P)
      → Ends P (auth_arm su keys d tried a l)
  unfolding auth_arm finish_auth
  auth_arm-Ends P d tried accepted l h = start_with-Ends P tried l.client.config.auth.key_pair l
  auth_arm-Ends P d tried refused l h = fall_back-Ends P tried l
  auth_arm-Ends P d tried key_fine l h = again-Ends P tried _
  auth_arm-Ends P d tried succeeded l h =
      or_return_cases (Ends P) (first l.client.negotiated.c_compress) _ _ (λ c e. h refl)
        (Ends-failure P _)
  auth_arm-Ends P d tried asked l h = again-Ends P tried _
  auth_arm-Ends P d tried ignored l h = tt

  Ends-inv :
      (P : Type 0) (p : SshResult (Bool ⊎ Unit {0}) × Link S C) → Ends P p → p.0 ≡ ok (inr tt) → P
  Ends-inv P (ok (inr u), l) h e = h
  Ends-inv P (ok (inl t), l) h e = cc
  Ends-inv P (err x, l) h e = cc
  Ends-inv P (panic, l) h e = cc
  Ends-inv P (hang, l) h e = cc
  Ends-inv P (starved, l) h e = cc

  -- The message that a round has read was USERAUTH_SUCCESS.
  abbrev pub ReadSuccess : Link S C → Type 0
  ReadSuccess l = (rest : Bytes) × ((from_stream su.enc su.comp l).0 ≡ ok (userauth_success ∷ rest))

  success_read :
      (l : Link S C) (payload rest : Bytes) (code : ℕ)
      → (from_stream su.enc su.comp l).0 ≡ ok payload
      → get_u8 payload ≡ ok (code, rest)
      → arm_of code ≡ succeeded
      → ReadSuccess l
  unfolding get_u8
  success_read l [] rest code e g a = cc
  success_read l (b ∷ payload) rest code e g a = (payload, cc (arm_of-succeeded code a))

  auth_round-Ends :
      (d : Digest) (tried : Bool) (l : Link S C)
      → Ends (ReadSuccess l) (auth_round su keys d tried l)
  unfolding auth_round
  auth_round-Ends d tried l =
      or_return_cases (Ends (ReadSuccess l)) (from_stream su.enc su.comp l).0 _
        (from_stream su.enc su.comp l).1
        (λ payload e.
          or_return_cases (Ends (ReadSuccess l)) (get_u8 payload) _ _
            (λ p g.
              auth_arm-Ends (ReadSuccess l) d tried (arm_of p.0) _
                (λ a. success_read l payload p.1 p.0 e g a))
            (Ends-failure _ _))
        (Ends-failure _ _)

  -- A round of the authentication ends the loop without an error only if it has read
  -- USERAUTH_SUCCESS from the server.
  pub auth_round-ReadSuccess :
      (d : Digest) (tried : Bool) (l : Link S C)
      → (auth_round su keys d tried l).0 ≡ ok (inr tt)
      → ReadSuccess l
  auth_round-ReadSuccess d tried l e = Ends-inv (ReadSuccess l) _ (auth_round-Ends d tried l) e
