-- ===== src/Session/Keeps/KexStage.antt =====
-- The key exchange keeps the configuration.
use ssh_rs.Base.{ℕ, suc, [], ◌⊎◌, ◌==◌, if-cases}
use ssh_rs.Constant.{kexdh_init, kexdh_reply, newkeys}
use ssh_rs.Data.{Bytes, get_u8, put_u8, put_u8s}
use ssh_rs.AlgList.{AlgList, match_with, pack}
use ssh_rs.Algorithm.{PubKey}
use ssh_rs.Hash.{HashCtx, set_i_c, set_v_s, set_v_c}
use ssh_rs.Config.{Config}
use ssh_rs.Io.{Io, lift, pure, ◌>>=◌, ◌>>◌}
use ssh_rs.Io.Keeps.{drive-Keeps}
use ssh_rs.Client.{Link}
use ssh_rs.Packet.{write_stream, from_stream}
use ssh_rs.Suite.{Suite, KeyExchange, first}
use ssh_rs.KexReply.{Exchange, on_reply}
use ssh_rs.Kex.{
  incoming, Digest, draw, send_qc, new_keys, on_code, exchange_step, verify_signature_and_new_keys,
  install, key_agreement,
}
use ssh_rs.Session.Keeps.{Has, Left, left, same, step, write_stream-Left, from_stream-Left}

module _ {S C : Type 0} (c : Config) where
  module _ (su : Suite S C) where
    on_code-Left :
        (pk : PubKey) (kx : KeyExchange) (x : Exchange) (code : ℕ) (d : Bytes) (l : Link S C)
        → Has c l
        → Left c (on_code su pk kx x code d l)
    unfolding on_code new_keys
    on_code-Left pk kx x code d l h =
        if-cases (λ (io : Io (Link S C) (Exchange ⊎ Exchange)). Left c (io l)) (code == kexdh_reply)
          _ _ (λ e. step c (on_reply su pk kx d x) _ l h λ y. h)
          (λ e.
            if-cases (λ (io : Io (Link S C) (Exchange ⊎ Exchange)). Left c (io l)) (code == newkeys)
              _ _
              (λ f.
                let h' = same c _ (write_stream-Left c su.enc su.comp _ l h) in
                step c (write_stream su.enc su.comp _ l).0 _ _ h' λ u. h')
              (λ f. h))

    exchange_step-Left :
        (pk : PubKey) (kx : KeyExchange) (x : Exchange) (l : Link S C)
        → Has c l
        → Left c (exchange_step su pk kx x l)
    unfolding exchange_step
    exchange_step-Left pk kx x l h =
        let h' = same c _ (from_stream-Left c su.enc su.comp l h) in
        step c (from_stream su.enc su.comp l).0 _ _ h'
          λ payload. step c (get_u8 payload) _ _ h' λ p. on_code-Left pk kx x p.0 p.1 _ h'

    install-Left :
        (negotiated : AlgList) (kx : KeyExchange) (x : Exchange) (l : Link S C)
        → Has c l
        → Left c (install su negotiated kx x l)
    unfolding install
    install-Left negotiated kx x l h = step c (first negotiated.c_mac) _ _ h λ mac.
        step c (first negotiated.c_encryption) _ _ h λ cipher.
          step c (su.encryption_from cipher _ mac) _ _ h
            λ encryptor. step c (first negotiated.c_compress) _ _ h λ compress. h

    verify-Left :
        (pk : PubKey) (kx : KeyExchange) (hash : HashCtx) (l : Link S C)
        → Has c l
        → Left c (verify_signature_and_new_keys su pk kx hash l)
    unfolding verify_signature_and_new_keys
    verify-Left pk kx hash l h = left c _ _ (
        drive-Keeps (Has c) (λ x. incoming) (exchange_step su pk kx) _
          (λ x l h. same c _ (exchange_step-Left pk kx x l h)) l h)

    -- The end of an exchange, from the point where the method is known.
    abbrev finish : AlgList → HashCtx → KeyExchange → PubKey → Io (Link S C) Digest
    finish negotiated ctx kx pk = verify_signature_and_new_keys su pk kx ctx >>= (λ x.
        install su negotiated kx x >> pure (record { hash_ctx = x.ctx; key_exchange = kx }))

    finish-Left :
        (negotiated : AlgList) (ctx : HashCtx) (kx : KeyExchange) (pk : PubKey) (l : Link S C)
        → Has c l
        → Left c (finish negotiated ctx kx pk l)
    finish-Left negotiated ctx kx pk l h =
        let l' = (verify_signature_and_new_keys su pk kx ctx l).1 in
        let h' = same c _ (verify-Left pk kx ctx l h) in
        step c (verify_signature_and_new_keys su pk kx ctx l).0 _ l' h' λ x.
          let h2 = same c _ (install-Left negotiated kx x l' h') in
          step c (install su negotiated kx x l').0 _ (install su negotiated kx x l').1 h2 λ u. h2

    -- The exchange from the point where a method is made, and from the answer to KEXINIT on.
    abbrev after_kex : AlgList → HashCtx → KeyExchange → Io (Link S C) Digest
    after_kex negotiated ctx kx =
        send_qc su kx.get_public_key
        >> (lift (first negotiated.public_key) >>= (λ pk. finish negotiated ctx kx pk))

    abbrev after_hello : AlgList → AlgList → HashCtx → Io (Link S C) Digest
    after_hello ours theirs ctx = lift (match_with ours theirs) >>= (λ negotiated.
        lift (first negotiated.key_exchange) >>= (λ kex.
          draw su
          >>= (λ m. lift (su.key_exchange_from kex m) >>= (λ kx. after_kex negotiated ctx kx))))

    after_kex-Left :
        (negotiated : AlgList) (ctx : HashCtx) (kx : KeyExchange) (l : Link S C)
        → Has c l
        → Left c (after_kex negotiated ctx kx l)
    unfolding send_qc
    after_kex-Left negotiated ctx kx l h =
        let hello = put_u8s (put_u8 [] kexdh_init) kx.get_public_key in
        let l' = (write_stream su.enc su.comp hello l).1 in
        let h' = same c _ (write_stream-Left c su.enc su.comp hello l h) in
        step c (write_stream su.enc su.comp hello l).0 _ l' h' λ u.
          step c (first negotiated.public_key) _ l' h' λ pk. finish-Left negotiated ctx kx pk l' h'

    after_hello-Left :
        (ours theirs : AlgList) (ctx : HashCtx) (l : Link S C)
        → Has c l
        → Left c (after_hello ours theirs ctx l)
    unfolding draw
    after_hello-Left ours theirs ctx l h =
        let l' : Link S C = record l { draws = suc l.draws } in
        step c (match_with ours theirs) _ l h λ negotiated.
          step c (first negotiated.key_exchange) _ l h λ kex.
            step c (su.key_exchange_from kex l.draws) _ l' h
              λ kx. after_kex-Left negotiated ctx kx l' h

    pub key_agreement-Left :
        (server_algs : AlgList) (hash : HashCtx) (l : Link S C)
        → Has c l
        → Left c (key_agreement su server_algs hash l)
    unfolding key_agreement draw
    key_agreement-Left server_algs hash l h =
        let config = l.client.config in
        let l1 : Link S C = record l { draws = suc l.draws } in
        let hello = pack (su.cookie l.draws) config.algs in
        let ctx =
          set_i_c hello (set_v_s config.ver.server_ver (set_v_c config.ver.client_ver hash)) in
        let l2 = (write_stream su.enc su.comp hello l1).1 in
        let h2 = same c _ (write_stream-Left c su.enc su.comp hello l1 h) in
        step c (write_stream su.enc su.comp hello l1).0
          (λ u. after_hello config.algs server_algs ctx l2) l2 h2
          λ u. after_hello-Left config.algs server_algs ctx l2 h2
