-- ===== src/Config.antt =====
-- config/mod.rs, and the records of config/version.rs and config/auth.rs.
pub mod Tune
use mathlib.Core.Logic.{ite}
use ssh_rs.Base.{ℕ, suc, zero, List, [], ◌∷◌, Option, none, some, Bool, true, false, if◌then◌else◌}
use ssh_rs.Constant.{client_version}
use ssh_rs.Data.{Bytes}
use ssh_rs.Algorithm.{PubKey, rsa_sha2_256, rsa_sha2_512}
use ssh_rs.Algorithm.Names.{PubKey-discrete}
use ssh_rs.AlgList
use ssh_rs.AlgList.{AlgList}

pub record SshVersion : Type 0 where
  pub client_ver : Bytes
  pub server_ver : Bytes

pub data KeyType : Type 0 where
  pem_rsa ssh_rsa ssh_ed25519 : KeyType

pub record KeyPair : Type 0 where
  pub private_key : Bytes
  pub key_type : KeyType

pub record AuthInfo : Type 0 where
  pub username : Bytes
  pub password : Bytes
  pub key_pair : Option KeyPair

-- The timeout is in nanoseconds.
pub record Config : Type 0 where
  pub ver : SshVersion
  pub auth : AuthInfo
  pub algs : AlgList
  pub timeout : Option ℕ
  pub auto_tune : Bool

abbrev pub auth_default : AuthInfo
auth_default = record { username = []; password = []; key_pair = none }

abbrev pub version_default : SshVersion
version_default = record { client_ver = client_version; server_ver = [] }

abbrev pub default_config : Config
default_config = record {
  ver = version_default;
  auth = auth_default;
  algs = AlgList.client_default;
  timeout = some 30_000_000_000;
  auto_tune = true;
}

abbrev pub disable_default : Config
disable_default = record {
  ver = version_default;
  auth = auth_default;
  algs = AlgList.new;
  timeout = some 30_000_000_000;
  auto_tune = false;
}

abbrev pub one_later : Option ℕ → Option ℕ
one_later none = none
one_later (some i) = some (suc i)

-- `iter().position(..)`.
unfoldable pub position : List PubKey → PubKey → Option ℕ
position [] alg = none
position (a ∷ v) alg =
    let later = one_later (position v alg) in ite (PubKey-discrete a alg) (some 0) later

-- The element at `i` and the list with `x` written there; `x` itself past the end.
unfoldable pub exchange : List PubKey → ℕ → PubKey → PubKey × List PubKey
exchange [] i x = (x, [])
exchange (a ∷ v) zero x = (a, x ∷ v)
exchange (a ∷ v) (suc i) x = let (y, w) = exchange v i x in (y, a ∷ w)

-- `v.swap(0, i)`, for an `i` in range.
unfoldable pub swap_first : List PubKey → ℕ → List PubKey
swap_first v zero = v
swap_first [] (suc i) = []
swap_first (a ∷ v) (suc i) = let (y, w) = exchange v i a in y ∷ w

-- The two branches on what `position` found.
abbrev pub place_first : List PubKey → PubKey → Option ℕ → List PubKey
place_first v alg (some i) = swap_first v i
place_first v alg none = alg ∷ v

unfoldable pub insert_or_move_first : List PubKey → PubKey → List PubKey
insert_or_move_first v alg = place_first v alg (position v alg)

unfoldable pub tuned_keys : KeyType → List PubKey → List PubKey
tuned_keys ssh_ed25519 v = insert_or_move_first v PubKey.ssh_ed25519
tuned_keys _ v = insert_or_move_first (insert_or_move_first v rsa_sha2_256) rsa_sha2_512

unfoldable pub tune_alglist_on_private_key : Config → Config
tune_alglist_on_private_key c =
    if c.auto_tune
    then elim c.auth.key_pair as (λ _. Config) [
      | none ↦ c
      | some pair ↦ record c {
        algs = record c.algs { public_key = tuned_keys pair.key_type c.algs.public_key };
      }
    ]
    else c
