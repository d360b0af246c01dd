-- ===== src/Session/Keeps/Authentication.antt =====
-- The authentication keeps the configuration, and so does the whole set-up of a client.
use ssh_rs.Base.{[], Bool, true, false, Option, none, some, ◌⊎◌, inl}
use ssh_rs.Error.{SshResult, ok, err, panic, hang, starved, or_return}
use ssh_rs.Constant.{service_request, ssh_userauth}
use ssh_rs.Data.{get_u8, put_u8, put_str}
use ssh_rs.AlgList.{unpack}
use ssh_rs.Hash.{ctx_new, set_i_s}
use ssh_rs.Config.{Config, KeyPair}
use ssh_rs.Io.Keeps.{drive-Keeps}
use ssh_rs.Client.{Link}
use ssh_rs.Packet.{write_stream, from_stream}
use ssh_rs.Suite.{Suite, first}
use ssh_rs.Kex.{incoming, Digest, key_agreement}
use ssh_rs.Auth.{
  KeyOps, Arm, accepted, refused, key_fine, succeeded, asked, ignored, arm_of, unwrap,
  password_authentication, public_key_authentication, public_key_signature, start_with, fall_back,
  finish_auth, auth_arm, auth_round, do_auth,
}
use ssh_rs.Session.{authenticate}
use ssh_rs.Session.Keeps.{Has, Left, left, same, step, write_stream-Left, from_stream-Left}
use ssh_rs.Session.Keeps.KexStage.{key_agreement-Left}

module _ {S C : Type 0} (c : Config) where
  module _ (su : Suite S C) (keys : KeyOps) where
    -- A method that only writes, and goes on with the loop.
    again-Left :
        (tried : Bool) (p : SshResult (Unit {0}) × Link S C)
        → Left c p
        → Left c {A = Bool ⊎ Unit {0}} (or_return p.0 (λ u. (ok (inl tried), p.1)) p.1)
    again-Left tried (ok u, l) h = h
    again-Left tried (err e, l) h = h
    again-Left tried (panic, l) h = h
    again-Left tried (hang, l) h = h
    again-Left tried (starved, l) h = h

    public_key_authentication-Left :
        (l : Link S C) → Has c l → Left c (public_key_authentication su keys l)
    unfolding public_key_authentication
    public_key_authentication-Left l h = step c (first l.client.negotiated.public_key) _ l h λ alg.
        step c (unwrap l.client.config.auth.key_pair) _ l h λ pair.
          step c (keys.get_blob pair alg) _ l h λ blob. write_stream-Left c su.enc su.comp _ l h

    public_key_signature-Left :
        (d : Digest) (l : Link S C) → Has c l → Left c (public_key_signature su keys d l)
    unfolding public_key_signature
    public_key_signature-Left d l h = step c (first l.client.negotiated.public_key) _ l h λ alg.
        step c (unwrap l.client.config.auth.key_pair) _ l h λ pair.
          step c (keys.get_blob pair alg) _ l h λ blob.
            step c (keys.sign pair _ alg) _ l h λ sig. write_stream-Left c su.enc su.comp _ l h

    start_with-Left :
        (tried : Bool) (o : Option KeyPair) (l : Link S C)
        → Has c l
        → Left c (start_with su keys o tried l)
    unfolding start_with password_authentication
    start_with-Left tried none l h = again-Left true _ (write_stream-Left c su.enc su.comp _ l h)
    start_with-Left tried (some pair) l h = again-Left tried _ (public_key_authentication-Left l h)

    fall_back-Left : (tried : Bool) (l : Link S C) → Has c l → Left c (fall_back su keys tried l)
    unfolding fall_back password_authentication
    fall_back-Left false l h = again-Left true _ (write_stream-Left c su.enc su.comp _ l h)
    fall_back-Left true l h = h

    auth_arm-Left :
        (d : Digest) (tried : Bool) (a : Arm) (l : Link S C)
        → Has c l
        → Left c (auth_arm su keys d tried a l)
    unfolding auth_arm finish_auth
    auth_arm-Left d tried accepted l h = start_with-Left tried l.client.config.auth.key_pair l h
    auth_arm-Left d tried refused l h = fall_back-Left tried l h
    auth_arm-Left d tried key_fine l h = again-Left tried _ (public_key_signature-Left d l h)
    auth_arm-Left d tried succeeded l h =
        step c (first l.client.negotiated.c_compress) _ l h λ compress. h
    auth_arm-Left d tried asked l h = again-Left tried _ (write_stream-Left c su.enc su.comp _ l h)
    auth_arm-Left d tried ignored l h = h

    auth_round-Left :
        (d : Digest) (tried : Bool) (l : Link S C) → Has c l → Left c (auth_round su keys d tried l)
    unfolding auth_round
    auth_round-Left d tried l h =
        let l' = (from_stream su.enc su.comp l).1 in
        let h' = same c _ (from_stream-Left c su.enc su.comp l h) in
        step c (from_stream su.enc su.comp l).0 _ l' h'
          λ payload. step c (get_u8 payload) _ l' h' λ p. auth_arm-Left d tried (arm_of p.0) l' h'

    do_auth-Has : (d : Digest) (l : Link S C) → Has c l → Has c (do_auth su keys d l).1
    unfolding do_auth
    do_auth-Has d l h =
        let hello = put_str (put_u8 [] service_request) ssh_userauth in
        let l' = (write_stream su.enc su.comp hello l).1 in
        let h' = same c _ (write_stream-Left c su.enc su.comp hello l h) in
        let h2 =
          drive-Keeps (Has c) (λ tried. incoming) (auth_round su keys d) false
            (λ tried l h. same c _ (auth_round-Left d tried l h)) l' h' in
        same c _ (step c (write_stream su.enc su.comp hello l).0 _ l' h' λ u. left c _ _ h2)

    pub authenticate-Has : (l : Link S C) → Has c l → Has c (authenticate su keys l).1
    unfolding authenticate
    authenticate-Has l h =
        let l1 = (from_stream su.enc su.comp l).1 in
        let h1 = same c _ (from_stream-Left c su.enc su.comp l h) in
        same c _ (
          step c (from_stream su.enc su.comp l).0 _ l1 h1 λ payload.
            step c (unpack payload) _ l1 h1 λ algs.
              let ctx = set_i_s payload ctx_new in
              let l2 = (key_agreement su algs ctx l1).1 in
              let h2 = same c _ (key_agreement-Left c su algs ctx l1 h1) in
              step c (key_agreement su algs ctx l1).0 _ l2 h2
                λ digest. left c (do_auth su keys digest l2).0 _ (do_auth-Has digest l2 h2))
