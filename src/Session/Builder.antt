-- ===== src/Session/Builder.antt =====
-- session/mod.rs: `SessionBuilder`. The parsing of a private key is a parameter.
use mathlib.Core.Logic.{ite}
use ssh_rs.Base.{ℕ, List, [], ◌∷◌, ◌++◌, Option, some}
use ssh_rs.Error.{SshResult, ok}
use ssh_rs.Data.{Bytes}
use ssh_rs.Algorithm.{Enc, Kex, PubKey, Mac, Compress}
use ssh_rs.Algorithm.Names.{
  Enc-discrete, Kex-discrete, PubKey-discrete, Mac-discrete, Compress-discrete,
}
use ssh_rs.AlgList.{AlgList}
use ssh_rs.Config
use ssh_rs.Config.{Config, KeyPair, default_config}

pub record SessionBuilder : Type 0 where
  pub config : Config

abbrev pub new : SessionBuilder
new = record { config = default_config }

abbrev pub disable_default : SessionBuilder
disable_default = record { config = Config.disable_default }

abbrev pub timeout : Option ℕ → SessionBuilder → SessionBuilder
timeout tm b = record b { config = record b.config { timeout = tm } }

abbrev pub username : Bytes → SessionBuilder → SessionBuilder
username u b = record b {
  config = record b.config { auth = record b.config.auth { username = u } };
}

abbrev pub password : Bytes → SessionBuilder → SessionBuilder
password p b = record b {
  config = record b.config { auth = record b.config.auth { password = p } };
}

-- `AuthInfo::private_key`, whose failure `SessionBuilder::private_key` only logs.
unfoldable pub with_key : SshResult KeyPair → SessionBuilder → SessionBuilder
with_key (ok pair) b = record b {
  config = record b.config { auth = record b.config.auth { key_pair = some pair } };
}
with_key _ b = b

unfoldable pub private_key : (Bytes → SshResult KeyPair) → Bytes → SessionBuilder → SessionBuilder
private_key from_str k b = with_key (from_str k) b

-- `Vec::retain(|x| *x != alg)`
unfoldable pub without : {A : Type 0} → Discrete A → A → List A → List A
without discrete alg [] = []
without discrete alg (x ∷ v) =
    let rest = without discrete alg v in ite (discrete x alg) rest (x ∷ rest)

abbrev on_algs : (AlgList → AlgList) → SessionBuilder → SessionBuilder
on_algs f b = record b { config = record b.config { algs = f b.config.algs } }

unfoldable pub add_kex_algorithms : Kex → SessionBuilder → SessionBuilder
add_kex_algorithms alg = on_algs λ a. record a { key_exchange = a.key_exchange ++ (alg ∷ []) }

unfoldable pub del_kex_algorithms : Kex → SessionBuilder → SessionBuilder
del_kex_algorithms alg =
    on_algs λ a. record a { key_exchange = without Kex-discrete alg a.key_exchange }

unfoldable pub add_pubkey_algorithms : PubKey → SessionBuilder → SessionBuilder
add_pubkey_algorithms alg = on_algs λ a. record a { public_key = a.public_key ++ (alg ∷ []) }

unfoldable pub del_pubkey_algorithms : PubKey → SessionBuilder → SessionBuilder
del_pubkey_algorithms alg =
    on_algs λ a. record a { public_key = without PubKey-discrete alg a.public_key }

unfoldable pub add_enc_algorithms : Enc → SessionBuilder → SessionBuilder
add_enc_algorithms alg = on_algs λ a. record a {
  c_encryption = a.c_encryption ++ (alg ∷ []);
  s_encryption = a.s_encryption ++ (alg ∷ []);
}

unfoldable pub del_enc_algorithms : Enc → SessionBuilder → SessionBuilder
del_enc_algorithms alg = on_algs λ a. record a {
  c_encryption = without Enc-discrete alg a.c_encryption;
  s_encryption = without Enc-discrete alg a.s_encryption;
}

unfoldable pub add_mac_algortihms : Mac → SessionBuilder → SessionBuilder
add_mac_algortihms alg =
    on_algs λ a. record a { c_mac = a.c_mac ++ (alg ∷ []); s_mac = a.s_mac ++ (alg ∷ []) }

unfoldable pub del_mac_algortihms : Mac → SessionBuilder → SessionBuilder
del_mac_algortihms alg = on_algs λ a. record a {
  c_mac = without Mac-discrete alg a.c_mac;
  s_mac = without Mac-discrete alg a.s_mac;
}

unfoldable pub add_compress_algorithms : Compress → SessionBuilder → SessionBuilder
add_compress_algorithms alg = on_algs λ a. record a {
  c_compress = a.c_compress ++ (alg ∷ []);
  s_compress = a.s_compress ++ (alg ∷ []);
}

unfoldable pub del_compress_algorithms : Compress → SessionBuilder → SessionBuilder
del_compress_algorithms alg = on_algs λ a. record a {
  c_compress = without Compress-discrete alg a.c_compress;
  s_compress = without Compress-discrete alg a.s_compress;
}
