-- ===== src/Config/Tune.antt =====
-- The key that the user gives decides which public key algorithm is offered first.
use mathlib.Core.Path.{subst}
use mathlib.Core.Logic.{if_pos, if_neg}
use ssh_rs.Base.{
  ℕ, zero, suc, ◌≡◌, refl, ap, List, [], ◌∷◌, Option, none, some, Option-cases, get_elem?, true,
  arith, inl, inr,
}
use ssh_rs.Algorithm.{PubKey, rsa_sha2_256, rsa_sha2_512}
use ssh_rs.Algorithm.Names.{PubKey-discrete, pub_key_named}
use ssh_rs.AlgList.Negotiate.{In}
use ssh_rs.Config.{
  Config, KeyType, KeyPair, one_later, place_first, position, exchange, swap_first,
  insert_or_move_first, tuned_keys, tune_alglist_on_private_key,
}

-- `alg` stands at the front, and what was in the list still is.
pub record IsFirst (alg : PubKey) (before after : List PubKey) : Type 0 where
  pub rest : List PubKey
  pub first : after ≡ alg ∷ rest
  pub kept : (a : PubKey) → In a before → In a after

exchange-kept :
    (v : List PubKey) (i : ℕ) (x a : PubKey)
    → In a v
    → In a ((exchange v i x).0 ∷ (exchange v i x).1)
unfolding exchange
exchange-kept [] i x a h = absurd h
exchange-kept (b ∷ v) zero x a (inl e) = inl e
exchange-kept (b ∷ v) zero x a (inr m) = inr (inr m)
exchange-kept (b ∷ v) (suc i) x a (inl e) = inr (inl e)
exchange-kept (b ∷ v) (suc i) x a (inr m) = elim (exchange-kept v i x a m) [
  | inl e ↦ inl e
  | inr k ↦ inr (inr k)
]

one_later-some :
    (o : Option ℕ) (i : ℕ) → one_later o ≡ some i → (j : ℕ) × (o ≡ some j) × (i ≡ suc j)
one_later-some none i h = cc
one_later-some (some j) i h = (j, refl, ground arith)

-- What `position` found stands there.
position-found :
    (v : List PubKey) (alg : PubKey) (i : ℕ) → position v alg ≡ some i → get_elem? v i ≡ some alg
unfolding position
position-found [] alg i h = cc
position-found (b ∷ v) alg i h = elim (PubKey-discrete b alg) [
  | yes p ↦ let e : i ≡ 0 = cc (rw (if_pos _ p) at h) in rw e (ap some p)
  | no p ↦
      let (j, e, k) = one_later-some (position v alg) i (rw (if_neg _ p) at h) in
      rw k (position-found v alg j e)
]

exchange-found :
    (v : List PubKey) (i : ℕ) (x alg : PubKey) → get_elem? v i ≡ some alg → (exchange v i x).0 ≡ alg
unfolding exchange
exchange-found [] i x alg h = cc
exchange-found (b ∷ v) zero x alg h = cc
exchange-found (b ∷ v) (suc i) x alg h = exchange-found v i x alg h

exchange-written :
    (v : List PubKey) (i : ℕ) (x alg : PubKey) → get_elem? v i ≡ some alg → In x (exchange v i x).1
unfolding exchange
exchange-written [] i x alg h = cc
exchange-written (b ∷ v) zero x alg h = inl refl
exchange-written (b ∷ v) (suc i) x alg h = inr (exchange-written v i x alg h)

swap_first-IsFirst :
    (v : List PubKey) (i : ℕ) (alg : PubKey)
    → get_elem? v i ≡ some alg
    → IsFirst alg v (swap_first v i)
unfolding swap_first
swap_first-IsFirst [] i alg h = cc
swap_first-IsFirst (b ∷ v) zero alg h = record { rest = v; first = cc; kept = λ a m. m }
swap_first-IsFirst (b ∷ v) (suc i) alg h = record {
  rest = (exchange v i b).1;
  first = rw (exchange-found v i b alg h);
  kept = λ a m. elim m [
    | inl e ↦ inr (subst (λ x. In x (exchange v i b).1) e (exchange-written v i b alg h))
    | inr k ↦ exchange-kept v i b a k
  ];
}

pub insert_or_move_first-IsFirst :
    (v : List PubKey) (alg : PubKey) → IsFirst alg v (insert_or_move_first v alg)
unfolding insert_or_move_first
insert_or_move_first-IsFirst v alg = elim (Option-cases (position v alg)) [
  | inl e ↦ rw (e, place_first) (record { rest = v; first = refl; kept = λ a m. inr m })
  | inr (i, e) ↦ rw (e, place_first) (swap_first-IsFirst v i alg (position-found v alg i e))
]

-- The algorithm that a key of each type is offered with.
abbrev pub preferred : KeyType → PubKey
preferred KeyType.ssh_ed25519 = PubKey.ssh_ed25519
preferred _ = rsa_sha2_512

IsFirst-after :
    {alg other : PubKey} (u v w : List PubKey)
    → IsFirst other u v
    → IsFirst alg v w
    → IsFirst alg u w
IsFirst-after u v w f g = record {
  rest = g.rest;
  first = g.first;
  kept = λ a m. g.kept a (f.kept a m);
}

tuned_keys-IsFirst : (t : KeyType) (v : List PubKey) → IsFirst (preferred t) v (tuned_keys t v)
unfolding tuned_keys
tuned_keys-IsFirst KeyType.ssh_ed25519 v = insert_or_move_first-IsFirst v PubKey.ssh_ed25519
tuned_keys-IsFirst _ v =
    IsFirst-after v _ _ (insert_or_move_first-IsFirst v rsa_sha2_256)
      (insert_or_move_first-IsFirst _ rsa_sha2_512)

-- With a key and automatic tuning, the algorithm for the type of the key comes first in the tuned
-- list, every algorithm that was in the list is still there, and nothing else of the configuration
-- changes.
pub tune-IsFirst :
    (c : Config) (pair : KeyPair)
    → c.auto_tune ≡ true
    → c.auth.key_pair ≡ some pair
    → IsFirst
        (preferred pair.key_type)
        c.algs.public_key
        (tune_alglist_on_private_key c).algs.public_key
      × (tune_alglist_on_private_key c ≡ record c {
        algs = record c.algs { public_key = (tune_alglist_on_private_key c).algs.public_key };
      })
unfolding tune_alglist_on_private_key
tune-IsFirst c pair auto key =
    let e : tune_alglist_on_private_key c ≡ record c {
      algs = record c.algs { public_key = tuned_keys pair.key_type c.algs.public_key };
    } =
      ground arith in
    rw e (tuned_keys-IsFirst pair.key_type c.algs.public_key, refl)
