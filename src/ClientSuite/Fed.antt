-- ===== src/ClientSuite/Fed.antt =====
-- The algorithms of the client end, and so does setting up a connection with them.
use ssh_rs.Error.{IsFed}
use ssh_rs.Data.{Bytes}
use ssh_rs.Algorithm.{Kex}
use ssh_rs.Hmac
use ssh_rs.Dh
use ssh_rs.Dh.{Dh}
use ssh_rs.Agreements.{AgreementRing, get_shared_secret}
use ssh_rs.Config.{Config}
use ssh_rs.Suite.{KeyExchange}
use ssh_rs.Stream.{Stream}

module _ {K : Type 0} (ring : AgreementRing K) where
  -- An object whose secrets end.
  abbrev Secrets : KeyExchange → Type 0
  Secrets x = (puk : Bytes) → IsFed (x.get_shared_secret puk)
