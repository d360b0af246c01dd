-- ===== src/AlgList/Negotiate.antt =====
-- The negotiation picks, in each field, our first algorithm that the server has too.
use mathlib.Core.Logic.{if_pos, if_neg}
use ssh_rs.Base.{ℕ, ◌≡◌, List, [], ◌∷◌, true, some, arith, ◌⊎◌, inl, inr, Bool-cases}
use ssh_rs.Error.{ok, >>=-eq-ok}
use ssh_rs.Algorithm.Names.{Named, enc_named, kex_named, pub_key_named, mac_named, compress_named}
use ssh_rs.AlgList.{AlgList, contains, find_common, match_field, match_with}

module _ {A : Type 0} ⦃n : Named A⦄ where
  abbrev pub In : A → List A → Type 0
  In a [] = ⊥
  In a (b ∷ bs) = (b ≡ a) ⊎ In a bs

  contains→In : (bs : List A) (a : A) → contains bs a ≡ true → In a bs
  unfolding contains
  contains→In [] a h = cc
  contains→In (b ∷ bs) a h = elim (n.discrete b a) [
    | yes p ↦ inl p
    | no p ↦ inr (contains→In bs a (rw (if_neg _ p) at h))
  ]

  In→contains : (bs : List A) (a : A) → In a bs → contains bs a ≡ true
  unfolding contains
  In→contains [] a h = absurd h
  In→contains (b ∷ bs) a h = elim (n.discrete b a) [
    | yes p ↦ rw (if_pos _ p)
    | no p ↦ rw (if_neg _ p) (In→contains bs a (elim h [ inl q ↦ absurd (p q) | inr q ↦ q ]))
  ]

  -- `a` is the first of ours that is among theirs.
  pub data FirstCommon (a : A) (theirs : List A) : List A → Type 0 where
    here : (ours : List A) → In a theirs → FirstCommon a theirs (a ∷ ours)
    later :
        (b : A) (ours : List A)
        → ¬ In b theirs
        → FirstCommon a theirs ours
        → FirstCommon a theirs (b ∷ ours)

  find_common-FirstCommon :
      (ours theirs : List A) (a : A) → find_common ours theirs ≡ some a → FirstCommon a theirs ours
  unfolding find_common
  find_common-FirstCommon [] theirs a h = cc
  find_common-FirstCommon (b ∷ ours) theirs a h = elim (Bool-cases (contains theirs b)) [
    | inl has ↦ let e : b ≡ a = ground arith in rw (← e) (here ours (contains→In theirs b has))
    | inr lacks ↦
        later b ours (λ m. cc (In→contains theirs b m))
          (find_common-FirstCommon ours theirs a (rw lacks at h))
  ]

  find_common-In :
      (ours theirs : List A) (a : A)
      → In a ours
      → In a theirs
      → (b : A) × (find_common ours theirs ≡ some b)
  unfolding find_common
  find_common-In [] theirs a h k = absurd h
  find_common-In (b ∷ ours) theirs a h k = elim (Bool-cases (contains theirs b)) [
    | inl has ↦ (b, rw has)
    | inr lacks ↦ rw lacks (elim h [
      | inl e ↦ absurd (cc (In→contains theirs a k))
      | inr m ↦ find_common-In ours theirs a m k
    ])
  ]

  -- What the negotiation leaves in a field: our first algorithm that the server has too.
  abbrev pub Picks : List A → List A → List A → Type 0
  Picks ours theirs picked = (a : A) × (picked ≡ a ∷ []) × FirstCommon a theirs ours

  -- The two sides have an algorithm in common.
  abbrev pub Agree : List A → List A → Type 0
  Agree ours theirs = (a : A) × In a ours × In a theirs

  match_field-eq-ok :
      (hint : List ℕ) (ours theirs : List A) (a : A)
      → match_field hint ours theirs ≡ ok a
      → FirstCommon a theirs ours
  unfolding match_field
  match_field-eq-ok hint ours theirs a h = find_common-FirstCommon ours theirs a (ground arith)

  match_field-Agree :
      (ours theirs : List A)
      → Agree ours theirs
      → (a : A) × ((hint : List ℕ) → match_field hint ours theirs ≡ ok a)
  unfolding match_field
  match_field-Agree ours theirs (a, m, k) =
      let (b, e) = find_common-In ours theirs a m k in (b, λ hint. ground arith)

pub record Negotiated (our their agreed : AlgList) : Type 0 where
  pub kex : Picks our.key_exchange their.key_exchange agreed.key_exchange
  pub pubkey : Picks our.public_key their.public_key agreed.public_key
  pub c_enc : Picks our.c_encryption their.c_encryption agreed.c_encryption
  pub s_enc : Picks our.s_encryption their.s_encryption agreed.s_encryption
  pub c_mac : Picks our.c_mac their.c_mac agreed.c_mac
  pub s_mac : Picks our.s_mac their.s_mac agreed.s_mac
  pub c_compress : Picks our.c_compress their.c_compress agreed.c_compress
  pub s_compress : Picks our.s_compress their.s_compress agreed.s_compress

pub record AllAgree (our their : AlgList) : Type 0 where
  pub kex : Agree our.key_exchange their.key_exchange
  pub pubkey : Agree our.public_key their.public_key
  pub c_enc : Agree our.c_encryption their.c_encryption
  pub s_enc : Agree our.s_encryption their.s_encryption
  pub c_mac : Agree our.c_mac their.c_mac
  pub s_mac : Agree our.s_mac their.s_mac
  pub c_compress : Agree our.c_compress their.c_compress
  pub s_compress : Agree our.s_compress their.s_compress

-- Where the negotiation succeeds, each field holds one algorithm: the first in our order of
-- preference that the server has in that field too.
pub match_with-Negotiated :
    (our their agreed : AlgList) → match_with our their ≡ ok agreed → Negotiated our their agreed
unfolding match_with
match_with-Negotiated our their agreed h =
    let (kex, e1, h1) = >>=-eq-ok _ _ h in
    let (pubkey, e2, h2) = >>=-eq-ok _ _ h1 in
    let (c_enc, e3, h3) = >>=-eq-ok _ _ h2 in
    let (s_enc, e4, h4) = >>=-eq-ok _ _ h3 in
    let (c_mac, e5, h5) = >>=-eq-ok _ _ h4 in
    let (s_mac, e6, h6) = >>=-eq-ok _ _ h5 in
    let (c_compress, e7, h7) = >>=-eq-ok _ _ h6 in
    let (s_compress, e8, h8) = >>=-eq-ok _ _ h7 in
    record {
      kex = (kex, ground arith, match_field-eq-ok _ _ _ kex e1);
      pubkey = (pubkey, ground arith, match_field-eq-ok _ _ _ pubkey e2);
      c_enc = (c_enc, ground arith, match_field-eq-ok _ _ _ c_enc e3);
      s_enc = (s_enc, ground arith, match_field-eq-ok _ _ _ s_enc e4);
      c_mac = (c_mac, ground arith, match_field-eq-ok _ _ _ c_mac e5);
      s_mac = (s_mac, ground arith, match_field-eq-ok _ _ _ s_mac e6);
      c_compress = (c_compress, ground arith, match_field-eq-ok _ _ _ c_compress e7);
      s_compress = (s_compress, ground arith, match_field-eq-ok _ _ _ s_compress e8);
    }

-- If the two sides have an algorithm in common in each field, the negotiation succeeds.
pub match_with-AllAgree :
    (our their : AlgList)
    → AllAgree our their
    → (agreed : AlgList) × (match_with our their ≡ ok agreed)
unfolding match_with
match_with-AllAgree our their g =
    let (kex, e1) = match_field-Agree our.key_exchange _ g.kex in
    let (pubkey, e2) = match_field-Agree our.public_key _ g.pubkey in
    let (c_enc, e3) = match_field-Agree our.c_encryption _ g.c_enc in
    let (s_enc, e4) = match_field-Agree our.s_encryption _ g.s_enc in
    let (c_mac, e5) = match_field-Agree our.c_mac _ g.c_mac in
    let (s_mac, e6) = match_field-Agree our.s_mac _ g.s_mac in
    let (c_compress, e7) = match_field-Agree our.c_compress _ g.c_compress in
    let (s_compress, e8) = match_field-Agree our.s_compress _ g.s_compress in
    let agreed : AlgList = record {
      key_exchange = kex ∷ [];
      public_key = pubkey ∷ [];
      c_encryption = c_enc ∷ [];
      s_encryption = s_enc ∷ [];
      c_mac = c_mac ∷ [];
      s_mac = s_mac ∷ [];
      c_compress = c_compress ∷ [];
      s_compress = s_compress ∷ [];
    } in
    (agreed, rw (e1, e2, e3, e4, e5, e6, e7, e8))
