-- ===== src/Session/Validated.antt =====
-- What a connection that is set up has checked.
use mathlib.Core.Path.{subst}
use ssh_rs.Base.{ℕ, ◌≡◌, refl, ap, ◌∙◌, List, [], ◌∷◌, ◌++◌, true, Bool-cases, ◌⊎◌, inl, inr, sym}
use ssh_rs.Error.{
  SshResult, ok, err, panic, hang, starved, or_return, >>=-eq-ok, or_return_cases, IsFailure,
}
use ssh_rs.Constant.{ascii}
use ssh_rs.Data.{Bytes}
use ssh_rs.Text.{is_utf8, trim}
use ssh_rs.Stream.{Stream, ReadEvent, WriteEvent, accepts, write_would_block, write_fails}
use ssh_rs.Config.{Config, SshVersion, tune_alglist_on_private_key}
use ssh_rs.Version.{
  contains, validate, read_version, server_version, read_server_version, write_event, write_once,
  send_our_version,
}
use ssh_rs.Version.Lines.{IsVersion, Ends, read_version-IsVersion}
use ssh_rs.Client
use ssh_rs.Client.{Client, Link}
use ssh_rs.Suite.{Suite}
use ssh_rs.Auth.{KeyOps}
use ssh_rs.Session.{
  SessionState, connected, version_exchange, authenticate, connect_auth, connect_version, connect,
  connect_bio,
}
use ssh_rs.Session.Keeps.Authentication.{authenticate-Has}

-- A version of the server that the client speaks.
abbrev pub Speaks : SshVersion → Type 0
Speaks v = contains v.server_ver (ascii "SSH-2.0") ≡ true

validate-Speaks : (v : SshVersion) (u : Unit {0}) → validate v ≡ ok u → Speaks v
unfolding validate
validate-Speaks v u h = elim (Bool-cases (contains v.server_ver (ascii "SSH-2.0"))) [
  | inl e ↦ e
  | inr e ↦ let h' = rw e at h in cc
]

-- The configuration after the exchange of versions on a stream. The line reader returned a line for
-- the stream, which is a text; without the white space around it, it is the version of the
-- server; and it contains "SSH-2.0". It starts with "SSH-" and ends with CR LF, unless the stream
-- came to its end. All else is as before.
pub record Versioned (c : Config) (s : Stream) (c' : Config) : Type 0 where
  pub line : Bytes
  pub rest : List ReadEvent
  pub read : read_version c.timeout s.input ≡ (ok line, rest)
  pub text : is_utf8 line ≡ true
  pub config : c' ≡ record c { ver = record c.ver { server_ver = trim line } }
  pub speaks : Speaks (record c.ver { server_ver = trim line })
  pub shape : IsVersion line ⊎ Ends s.input rest

abbrev Exchanged : Config → Stream → SshResult Config × Stream → Type 0
Exchanged c s (ok c', after) = Versioned c s c'
Exchanged c s (_, after) = Unit {0}

Exchanged-failure :
    (c : Config) (s after : Stream) (r : SshResult Config) → IsFailure r → Exchanged c s (r, after)
Exchanged-failure c s after (ok a) f = absurd f
Exchanged-failure c s after (err e) f = tt
Exchanged-failure c s after panic f = tt
Exchanged-failure c s after hang f = tt
Exchanged-failure c s after starved f = tt

server_version-eq-ok :
    (v w : SshVersion) (line : Bytes)
    → server_version v line ≡ ok w
    → (is_utf8 line ≡ true) × (w ≡ record v { server_ver = trim line })
unfolding server_version
server_version-eq-ok v w line h = elim (Bool-cases (is_utf8 line)) [
  | inl e ↦ let h' = rw e at h in (e, cc)
  | inr e ↦ let h' = rw e at h in cc
]

-- Sending our version does not read.
input-send_our_version : (v : SshVersion) (s : Stream) → (send_our_version v s).1.input ≡ s.input
unfolding send_our_version write_once write_event
input-send_our_version v s =
    or_return_cases (λ p. p.1.input ≡ s.input) (write_once text s).0 _ (write_once text s).1
      (λ n e. kept s.sink) (λ r f. kept s.sink)
  where
    text : Bytes
    text = v.client_ver ++ (13 ∷ 10 ∷ [])

    kept : (sink : List WriteEvent) → (write_event sink text s).1.input ≡ s.input
    kept [] = refl
    kept (accepts n ∷ es) = refl
    kept (write_would_block now used ∷ es) = refl
    kept (write_fails code ∷ es) = refl

or_return-eq-ok {ℓ κ λ'} :
    {A : Type ℓ} {B : Type κ} {S : Type λ'} {v : B} (m : SshResult A) (k : A → SshResult B × S)
    (s : S)
    → (or_return m k s).0 ≡ ok v
    → (a : A) × (m ≡ ok a) × ((k a).0 ≡ ok v)
or_return-eq-ok (ok a) k s h = (a, refl, h)
or_return-eq-ok (err e) k s h = cc
or_return-eq-ok _ k s h = cc

-- What reading the version of the server leaves, if the configuration is `c`.
read_server_version-Versioned :
    (c : Config) (s : Stream) (w : SshVersion)
    → (read_server_version c.ver c.timeout s).0 ≡ ok w
    → Speaks w
    → Versioned c s (record c { ver = w })
unfolding read_server_version
read_server_version-Versioned c s w h speaks =
    let p = read_version c.timeout s.input in
    let s' : Stream = record s { input = p.1 } in
    let (line, e, k) = or_return-eq-ok p.0 (λ buf. (server_version c.ver buf, s')) s' h in
    let (text, same) = server_version-eq-ok c.ver w line k in
    let read : p ≡ (ok line, p.1) = ap (λ r. (r, p.1)) e in
    record {
      line = line;
      rest = p.1;
      read = read;
      text = text;
      config = ap (λ v. record c { ver = v }) same;
      speaks = subst Speaks same speaks;
      shape = read_version-IsVersion c.timeout s.input line p.1 read;
    }

version_exchange-Exchanged : (c : Config) (s : Stream) → Exchanged c s (version_exchange c s)
unfolding version_exchange
version_exchange-Exchanged c s =
    let s1 = (send_our_version c.ver s).1 in
    or_return_cases (Exchanged c s) (send_our_version c.ver s).0 _ _
      (λ u e.
        or_return_cases (Exchanged c s) (read_server_version c.ver c.timeout s1).0 _ _
          (λ v f.
            or_return_cases (Exchanged c s) (validate v) _ _
              (λ w g.
                on_input c s1 s v (input-send_our_version c.ver s)
                  (read_server_version-Versioned c s1 v f (validate-Speaks v w g)))
              (Exchanged-failure c s _))
          (Exchanged-failure c s _))
      (Exchanged-failure c s _)
  where
    on_input :
        (c : Config) (s1 s : Stream) (v : SshVersion)
        → s1.input ≡ s.input
        → Versioned c s1 (record c { ver = v })
        → Versioned c s (record c { ver = v })
    on_input c s1 s v e x = record {
      line = x.line;
      rest = x.rest;
      read = ap (read_version c.timeout) (sym e) ∙ x.read;
      text = x.text;
      config = x.config;
      speaks = x.speaks;
      shape = subst (λ es. IsVersion x.line ⊎ Ends es x.rest) e x.shape;
    }

Exchanged-inv :
    (c c' : Config) (s : Stream) (p : SshResult Config × Stream)
    → Exchanged c s p
    → p.0 ≡ ok c'
    → Versioned c s c'
Exchanged-inv c c' s (ok a, after) x e = let same : a ≡ c' = cc in subst (Versioned c s) same x
Exchanged-inv c c' s (err y, after) x e = cc
Exchanged-inv c c' s (panic, after) x e = cc
Exchanged-inv c c' s (hang, after) x e = cc
Exchanged-inv c c' s (starved, after) x e = cc

-- A connection in the state `connected`, over the configuration `c` with the version that the server
-- sent on the stream.
abbrev pub Ready : {S C : Type 0} → Config → Stream → SessionState S C → Type 0
Ready {S} {C} c start s =
    (client : Client S C) × (stream : Stream) × (s ≡ connected client stream)
    × Versioned c start client.config

module _ {S C : Type 0} (su : Suite S C) (keys : KeyOps) where
  connect_auth-Ready :
      (c : Config) (start : Stream) (draws : ℕ) (client : Client S C) (stream : Stream)
      (s : SessionState S C)
      → Versioned c start client.config
      → connect_auth su keys draws client stream ≡ ok s
      → Ready c start s
  unfolding connect_auth
  connect_auth-Ready c start draws client stream s versioned h =
      let l : Link S C = record { client = client; stream = stream; draws = draws } in
      let l' = (authenticate su keys l).1 in
      let (u, e, k) =
        >>=-eq-ok (authenticate su keys l).0 (λ u. ok (connected l'.client l'.stream)) h in
      let same : l'.client.config ≡ client.config = authenticate-Has client.config su keys l refl in
      (l'.client, l'.stream, cc, subst (Versioned c start) (sym same) versioned)

  -- If connecting ends without an error, then the state is `connected`, and the version of the server
  -- in the configuration is the line that read_version returns for the stream, without the white
  -- space around it. That line is a text and contains "SSH-2.0"; it starts with "SSH-" and
  -- ends with CR LF, unless the stream came to its end. Apart from that version the configuration is
  -- the one that the builder had, tuned for its private key.
  pub connect_bio-Ready :
      (draws : ℕ) (cipher : S) (compressor : C) (config : Config) (stream : Stream)
      (s : SessionState S C)
      → connect_bio su keys draws cipher compressor config stream ≡ ok s
      → Ready (tune_alglist_on_private_key config) stream s
  unfolding connect_bio connect connect_version
  connect_bio-Ready draws cipher compressor config stream s h =
      let c = tune_alglist_on_private_key config in
      let p = version_exchange c stream in
      let (c', e, k) =
        >>=-eq-ok p.0 (λ d. connect_auth su keys draws (Client.new cipher compressor d) p.1) h in
      connect_auth-Ready c stream draws (Client.new cipher compressor c') p.1 s
        (Exchanged-inv c c' stream p (version_exchange-Exchanged c stream) e) k
