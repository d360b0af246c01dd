-- ===== src/Kex/Fed.antt =====
-- The key exchange ends: its loop takes a packet in each round.
use ssh_rs.Base.{
  ℕ, suc, ◌+◌, ◌≤◌, ◌<◌, ◌≡◌, ◌≢◌, List, [], ◌∷◌, Bool, true, false, if-cases, ◌⊎◌, arith, ◌==◌,
}
use ssh_rs.Error.{SshResult, ok, starved, IsFed, IsFed-ne-starved, >>=-IsFed}
use ssh_rs.Constant.{kexdh_init, kexdh_reply, newkeys}
use ssh_rs.Data.{Bytes, put_u8, put_u8s, get_u8}
use ssh_rs.Data.Fed.{get_u8-IsFed, get_u8s-IsFed, put_mpint-IsFed}
use ssh_rs.Algorithm.{PubKey, Kex, Enc, Mac}
use ssh_rs.AlgList.{AlgList, match_with, pack}
use ssh_rs.AlgList.Fed.{match_with-IsFed}
use ssh_rs.Hash.{Hash, HashCtx, set_k}
use ssh_rs.Io.{◌>>=◌, ◌>>◌, Io, pure}
use ssh_rs.Io.Fed.{Paid, Paid-weaken, Round, next-Paid, next-Round, Paid-IsFed, Paid-ok, drive-Pays}
use ssh_rs.Client.{Link}
use ssh_rs.Packet.Fed.{AlwaysFed, write_stream-IsFed, incoming-write_stream, from_stream-Paid}
use ssh_rs.Packet.{from_stream, write_stream}
use ssh_rs.Suite.{KeyExchange, Suite, first}
use ssh_rs.KexReply.{Exchange, generate_signature, on_reply, verdict}
use ssh_rs.Kex.{
  incoming, Digest, send_qc, new_keys, on_code, exchange_step, verify_signature_and_new_keys,
  install, key_agreement, draw,
}

-- The algorithms of a suite end.
pub record SuiteFed {S C : Type 0} (su : Suite S C) : Type 0 where
  pub packets : AlwaysFed su.enc su.comp
  pub key_exchange_fed : (kex : Kex) (n : ℕ) → IsFed (su.key_exchange_from kex n)
  pub secret_fed :
      (kex : Kex) (n : ℕ) (kx : KeyExchange)
      → su.key_exchange_from kex n ≡ ok kx
      → (qs : Bytes) → IsFed (kx.get_shared_secret qs)
  pub encryption_fed :
      (cipher : Enc) (hash : Hash) (mac : Mac) → IsFed (su.encryption_from cipher hash mac)
  pub verify_fed : (pk : PubKey) (ks m sig : Bytes) → IsFed (su.verify_signature pk ks m sig)

set_k-IsFed : (k : Bytes) (h : HashCtx) → IsFed (set_k k h)
unfolding set_k
set_k-IsFed k h = >>=-IsFed _ _ (put_mpint-IsFed [] k) λ d. tt

generate_signature-IsFed :
    (d : Bytes) (h : HashCtx) (kx : KeyExchange)
    → ((qs : Bytes) → IsFed (kx.get_shared_secret qs))
    → IsFed (generate_signature d h kx)
unfolding generate_signature
generate_signature-IsFed d h kx fed = >>=-IsFed _ _ (get_u8s-IsFed d) λ p.
    >>=-IsFed _ _ (get_u8s-IsFed p.1) λ q. >>=-IsFed _ _ (fed q.0) λ secret.
      >>=-IsFed _ _ (set_k-IsFed secret _) λ ctx. >>=-IsFed _ _ (get_u8s-IsFed q.1) λ blob.
        >>=-IsFed _ _ (get_u8s-IsFed blob.0) λ hd. >>=-IsFed _ _ (get_u8s-IsFed hd.1) λ sig. tt

verdict-IsFed : (flag : Bool) (x : Exchange) → IsFed (verdict flag x)
verdict-IsFed true x = tt
verdict-IsFed false x = tt

module _ {S C : Type 0} (su : Suite S C) (fed : SuiteFed su) (pk : PubKey) (kx : KeyExchange)
    (secret_fed : (qs : Bytes) → IsFed (kx.get_shared_secret qs)) where
  on_reply-IsFed : (d : Bytes) (x : Exchange) → IsFed (on_reply su pk kx d x)
  unfolding on_reply
  on_reply-IsFed d x =
      >>=-IsFed _ _ (generate_signature-IsFed d x.ctx kx secret_fed)
        λ p. >>=-IsFed _ _ (fed.verify_fed pk _ _ p.0) λ flag. verdict-IsFed flag _

  -- A round of the loop, in a link that has already taken a packet.
  abbrev OnRound : ℕ → SshResult (Exchange ⊎ Exchange) × Link S C → Type 0
  OnRound m p = Round incoming (λ x. incoming) (λ x. 0) m m p

  on_code-Round :
      (m : ℕ) (x : Exchange) (code : ℕ) (d : Bytes) (l : Link S C)
      → incoming l < m
      → OnRound m (on_code su pk kx x code d l)
  unfolding on_code new_keys
  on_code-Round m x code d l h =
      if-cases (λ (io : Io (Link S C) (Exchange ⊎ Exchange)). OnRound m (io l))
        (code == kexdh_reply) _ _
        (λ e.
          next-Round incoming (λ x. incoming) (λ x. 0) m m (on_reply su pk kx d x) _ l
            (on_reply-IsFed d x) λ y q. (h, omega arith))
        (λ e.
          if-cases (λ (io : Io (Link S C) (Exchange ⊎ Exchange)). OnRound m (io l))
            (code == newkeys) _ _
            (λ f.
              next-Round incoming (λ x. incoming) (λ x. 0) m m _ _ _
                (write_stream-IsFed su.enc su.comp fed.packets _ l)
                λ u q.
                  omega
                    (arith, incoming-write_stream su.enc su.comp fed.packets (put_u8 [] newkeys) l))
            (λ f. tt))

  exchange_step-Round :
      (x : Exchange) (l : Link S C) → OnRound (incoming l) (exchange_step su pk kx x l)
  unfolding exchange_step
  exchange_step-Round x l =
      let paid = from_stream-Paid su.enc su.comp fed.packets l in
      let l' = (from_stream su.enc su.comp l).1 in
      next-Round incoming (λ x. incoming) (λ x. 0) (incoming l) (incoming l) _ _ _
        (Paid-IsFed incoming _ _ _ paid)
        λ payload q.
          next-Round incoming (λ x. incoming) (λ x. 0) (incoming l) (incoming l) (get_u8 payload) _
            l' (get_u8-IsFed payload)
            λ p r.
              on_code-Round (incoming l) x p.0 p.1 l' (less (Paid-ok incoming _ _ _ payload paid q))
    where
      less : {a b : ℕ} → a + 1 ≤ b → a < b
      less h = omega arith

  verify_signature_and_new_keys-Paid :
      (h : HashCtx) (l : Link S C)
      → Paid incoming (λ x. 0) (incoming l) (verify_signature_and_new_keys su pk kx h l)
  unfolding verify_signature_and_new_keys
  verify_signature_and_new_keys-Paid h =
      drive-Pays incoming (λ x. incoming) (λ x. 0) (exchange_step su pk kx) exchange_step-Round _

pub first-IsFed : {A : Type 0} (v : List A) → IsFed (first v)
unfolding first
first-IsFed [] = tt
first-IsFed (a ∷ v) = tt

module _ {S C : Type 0} (su : Suite S C) (fed : SuiteFed su) where
  install-Paid :
      (negotiated : AlgList) (kx : KeyExchange) (x : Exchange) (l : Link S C)
      → Paid incoming (λ u. 0) (incoming l) (install su negotiated kx x l)
  unfolding install
  install-Paid negotiated kx x l =
      next-Paid incoming (λ u. 0) (incoming l) (first negotiated.c_mac) _ l (first-IsFed _)
        λ mac e1.
          next-Paid incoming (λ u. 0) (incoming l) (first negotiated.c_encryption) _ l
            (first-IsFed _)
            λ cipher e2.
              next-Paid incoming (λ u. 0) (incoming l) (su.encryption_from cipher _ mac) _ l
                (fed.encryption_fed cipher _ mac)
                λ encryptor e3.
                  next-Paid incoming (λ u. 0) (incoming l) (first negotiated.c_compress) _ l
                    (first-IsFed _) λ compress e4. omega arith

  -- The end of an exchange, from the point where the method is known.
  abbrev finish : AlgList → HashCtx → KeyExchange → PubKey → Io (Link S C) Digest
  finish negotiated ctx kx pk =
      verify_signature_and_new_keys su pk kx ctx
      >>= (λ x. install su negotiated kx x >> pure (record { hash_ctx = x.ctx; key_exchange = kx }))

  finish-Paid :
      (negotiated : AlgList) (ctx : HashCtx) (kx : KeyExchange) (pk : PubKey) (l : Link S C)
      → ((qs : Bytes) → IsFed (kx.get_shared_secret qs))
      → Paid incoming (λ d. 0) (incoming l) (finish negotiated ctx kx pk l)
  finish-Paid negotiated ctx kx pk l secret_fed =
      let paid = verify_signature_and_new_keys-Paid su fed pk kx secret_fed ctx l in
      let l' = (verify_signature_and_new_keys su pk kx ctx l).1 in
      next-Paid incoming (λ d. 0) (incoming l) _ _ _ (Paid-IsFed incoming _ _ _ paid)
        λ x q.
          let paid' = install-Paid negotiated kx x l' in
          next-Paid incoming (λ d. 0) (incoming l) _ _ _ (Paid-IsFed incoming _ _ _ paid')
            λ u r. omega (arith, Paid-ok incoming _ _ _ x paid q, Paid-ok incoming _ _ _ u paid' r)

  pub key_agreement-Paid :
      (server_algs : AlgList) (h : HashCtx) (l : Link S C)
      → Paid incoming (λ d. 0) (incoming l) (key_agreement su server_algs h l)
  unfolding key_agreement draw send_qc
  key_agreement-Paid server_algs h l =
      let config = l.client.config in
      let l1 : Link S C = record l { draws = suc l.draws } in
      let hello = pack (su.cookie l.draws) config.algs in
      let l2 = (write_stream su.enc su.comp hello l1).1 in
      let l3 : Link S C = record l2 { draws = suc l2.draws } in
      next-Paid incoming (λ d. 0) (incoming l) _ _ l2
        (write_stream-IsFed su.enc su.comp fed.packets hello l1)
        λ u1 e1.
          next-Paid incoming (λ d. 0) (incoming l) (match_with config.algs server_algs) _ l2
            (match_with-IsFed config.algs server_algs)
            λ negotiated e2.
              next-Paid incoming (λ d. 0) (incoming l) (first negotiated.key_exchange) _ l2
                (first-IsFed _)
                λ kex e3.
                  next-Paid incoming (λ d. 0) (incoming l) (su.key_exchange_from kex l2.draws) _ l3
                    (fed.key_exchange_fed kex l2.draws)
                    λ kx e4.
                      let hello2 = put_u8s (put_u8 [] kexdh_init) kx.get_public_key in
                      let l4 = (write_stream su.enc su.comp hello2 l3).1 in
                      next-Paid incoming (λ d. 0) (incoming l) _ _ l4
                        (write_stream-IsFed su.enc su.comp fed.packets hello2 l3)
                        λ u2 e5.
                          next-Paid incoming (λ d. 0) (incoming l) (first negotiated.public_key) _
                            l4 (first-IsFed _)
                            λ pk e6.
                              Paid-weaken incoming (λ d. 0) (λ d. 0) (incoming l4) (incoming l) _
                                (λ b. omega (
                                  arith,
                                  incoming-write_stream su.enc su.comp fed.packets hello l1,
                                  incoming-write_stream su.enc su.comp fed.packets hello2 l3,
                                ))
                                (finish-Paid negotiated _ kx pk l4
                                  (fed.secret_fed kex l2.draws kx e4))

  -- A key exchange never uses up the bound of its loop, whatever the server sends, if the calls of
  -- the algorithms do not: each round takes a message.
  pub key_agreement_never_starves :
      (server_algs : AlgList) (h : HashCtx) (l : Link S C)
      → (key_agreement su server_algs h l).0 ≢ starved
  key_agreement_never_starves server_algs h l =
      IsFed-ne-starved _ (Paid-IsFed incoming (λ d. 0) _ _ (key_agreement-Paid server_algs h l))
