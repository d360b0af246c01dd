-- ===== src/Ciphers/Fed.antt =====
-- The methods of the ciphers end.
use ssh_rs.Base.{
  ℕ, zero, suc, ◌+◌, ◌≤◌, [], ◌∷◌, Bool, true, false, Option, none, some, arith, length,
  length-drop, take, drop, leb, ◌==◌, if-cases, u32,
}
use ssh_rs.Error.{IsFed, or_return-IsFed, >>=-IsFed}
use ssh_rs.Data.{Bytes}
use ssh_rs.Data.Fed.{get_u32-IsFed}
use ssh_rs.Algorithm.{
  Enc, chacha20_poly1305_openssh, aes128_ctr, aes192_ctr, aes256_ctr, aes128_cbc, aes192_cbc,
  aes256_cbc, triple_des_cbc,
}
use ssh_rs.Hash.{Ring, Hash, mix_ek, mix_ik}
use ssh_rs.Hash.Keys.{HasOutput, KeysFor, mix_ek-KeysFor, mix_ik-KeysFor}
use ssh_rs.Hmac.{
  HmacRing, MacBox, h_mac_sha1, hmac_sha2_256, hmac_sha2_512, mac_none, bsize, keyed, sign, slice,
}
use ssh_rs.Keys.{keys_from, opened}
use ssh_rs.Plain.{none_data_len, none_packet_len}
use ssh_rs.Ctr
use ssh_rs.Ctr.{StreamCipher, Ctr}
use ssh_rs.Cbc
use ssh_rs.Cbc.{BlockModes, Cbc, blocks}
use ssh_rs.Des
use ssh_rs.ChaCha
use ssh_rs.ChaCha.{ChaChaKeys, ChaCha20Poly1305, exact}
use ssh_rs.Ciphers.{CipherBox, encryption_none, ctr, cbc, des, cha_cha, encryption, from}

slice-IsFed : (n : ℕ) (v : Bytes) → IsFed (slice n v)
unfolding slice
slice-IsFed n v = if-cases (IsFed {A = Bytes}) (leb n (length v)) _ _ (λ e. tt) (λ e. tt)

pub exact-IsFed : (n : ℕ) (v : Bytes) → IsFed (exact n v)
unfolding exact
exact-IsFed n v = if-cases (IsFed {A = Bytes}) (length v == n) _ _ (λ e. tt) (λ e. tt)

bsize-IsFed : (m : MacBox) → IsFed (bsize m)
unfolding bsize
bsize-IsFed h_mac_sha1 = tt
bsize-IsFed hmac_sha2_256 = tt
bsize-IsFed hmac_sha2_512 = tt
bsize-IsFed mac_none = tt

keyed-IsFed :
    (hmac : Bytes → Bytes → Bytes) (size : ℕ) (ik : Bytes) (seq : ℕ) (buf : Bytes)
    → IsFed (keyed hmac size ik seq buf)
unfolding keyed
keyed-IsFed hmac size ik seq buf =
    if-cases (IsFed {A = Bytes}) (leb size (length ik)) _ _ (λ e. tt) (λ e. tt)

sign-IsFed :
    (ring : HmacRing) (m : MacBox) (ik : Bytes) (seq : ℕ) (buf : Bytes)
    → IsFed (sign ring m ik seq buf)
unfolding sign
sign-IsFed ring h_mac_sha1 ik seq buf = keyed-IsFed ring.sha1 20 ik seq buf
sign-IsFed ring hmac_sha2_256 ik seq buf = keyed-IsFed ring.sha256 32 ik seq buf
sign-IsFed ring hmac_sha2_512 ik seq buf = keyed-IsFed ring.sha512 64 ik seq buf
sign-IsFed ring mac_none ik seq buf = tt

opened-IsFed : (same : Bool) (d : Bytes) → IsFed (opened same d)
unfolding opened
opened-IsFed true d = tt
opened-IsFed false d = tt

module _ {K : Type 0} (aes : StreamCipher K) (hmac : HmacRing) (c : Ctr K) where
  ctr_encrypt-IsFed : (seq : ℕ) (buf : Bytes) → IsFed (Ctr.encrypt aes hmac seq buf c).0
  unfolding Ctr.encrypt Ctr.client_apply
  ctr_encrypt-IsFed seq buf = or_return-IsFed _ _ _ (sign-IsFed hmac _ _ seq buf) λ tag. tt

  ctr_packet_len-IsFed : (buf : Bytes) → IsFed (Ctr.packet_len aes hmac buf c).0
  unfolding Ctr.packet_len Ctr.server_apply Ctr.server_back
  ctr_packet_len-IsFed buf =
      or_return-IsFed _ _ _ (slice-IsFed 16 buf)
        λ first. or_return-IsFed _ _ _ (get_u32-IsFed _) λ p. tt

  ctr_data_len-IsFed : (buf : Bytes) → IsFed (Ctr.data_len aes hmac buf c).0
  unfolding Ctr.data_len
  ctr_data_len-IsFed buf =
      or_return-IsFed _ _ _ (ctr_packet_len-IsFed buf)
        λ pl. or_return-IsFed _ _ _ (bsize-IsFed _) λ n. tt

  ctr_decrypt-IsFed : (seq : ℕ) (buf : Bytes) → IsFed (Ctr.decrypt aes hmac seq buf c).0
  unfolding Ctr.decrypt Ctr.server_apply
  ctr_decrypt-IsFed seq buf = or_return-IsFed _ _ _ (ctr_packet_len-IsFed buf) λ pl.
      or_return-IsFed _ _ _ (bsize-IsFed _) λ n.
        or_return-IsFed _ _ _ (slice-IsFed (pl + n) buf)
          λ all. or_return-IsFed _ _ _ (sign-IsFed hmac _ _ seq _) λ tag. opened-IsFed _ _

blocks-IsFed :
    {K : Type 0} (step : K → Bytes → Bytes × K) (size fuel : ℕ) (buf : Bytes) (k : K)
    → 1 ≤ size
    → length buf ≤ fuel
    → IsFed (blocks step size fuel buf k).0
unfolding blocks
blocks-IsFed step size fuel [] k pos h = tt
blocks-IsFed step size zero (b ∷ buf) k pos h = absurd (omega arith)
blocks-IsFed step size (suc fuel) (b ∷ buf) k pos h =
    or_return-IsFed _ _ _ (slice-IsFed size (b ∷ buf)) λ block.
      or_return-IsFed _ _ _
        (blocks-IsFed step size fuel (drop size (b ∷ buf)) (step k block).1 pos
          (omega (arith, length-drop size (b ∷ buf))))
        λ rest. tt

module _ {E D : Type 0} (modes : BlockModes E D) (hmac : HmacRing) (size : ℕ) (pos : 1 ≤ size)
    (c : Cbc E D) where
  cbc_encrypt-IsFed : (seq : ℕ) (buf : Bytes) → IsFed (Cbc.encrypt modes hmac size seq buf c).0
  unfolding Cbc.encrypt Cbc.client_blocks
  cbc_encrypt-IsFed seq buf = or_return-IsFed _ _ _ (sign-IsFed hmac _ _ seq buf) λ tag.
      or_return-IsFed _ _ _
        (blocks-IsFed modes.encrypt_block size (length buf) buf c.client_key pos (omega arith))
        λ sealed. tt

  cbc_packet_len-IsFed : (buf : Bytes) → IsFed (Cbc.packet_len modes hmac size buf c).0
  unfolding Cbc.packet_len
  cbc_packet_len-IsFed buf =
      or_return-IsFed _ _ _ (slice-IsFed size buf)
        λ first. or_return-IsFed _ _ _ (get_u32-IsFed _) λ p. tt

  cbc_data_len-IsFed : (buf : Bytes) → IsFed (Cbc.data_len modes hmac size buf c).0
  unfolding Cbc.data_len
  cbc_data_len-IsFed buf =
      or_return-IsFed _ _ _ (cbc_packet_len-IsFed buf)
        λ pl. or_return-IsFed _ _ _ (bsize-IsFed _) λ n. tt

  cbc_decrypt-IsFed : (seq : ℕ) (buf : Bytes) → IsFed (Cbc.decrypt modes hmac size seq buf c).0
  unfolding Cbc.decrypt Cbc.server_blocks
  cbc_decrypt-IsFed seq buf = or_return-IsFed _ _ _ (cbc_packet_len-IsFed buf) λ pl.
      or_return-IsFed _ _ _ (bsize-IsFed _) λ n.
        or_return-IsFed _ _ _ (slice-IsFed (pl + n) buf) λ all.
          or_return-IsFed _ _ _
            (blocks-IsFed modes.decrypt_block size (length (take pl all)) (take pl all) _ pos
              (omega arith))
            λ d. or_return-IsFed _ _ _ (sign-IsFed hmac _ _ seq _) λ tag. opened-IsFed _ _

module _ {F G : Type 0} (cha : ChaChaKeys F G) (c : ChaCha20Poly1305 F G) (seq : ℕ) where
  length_field-IsFed : (buf : Bytes) → IsFed (ChaCha.length_field cha c seq buf)
  unfolding ChaCha.length_field
  length_field-IsFed buf = >>=-IsFed _ _ (slice-IsFed 4 buf) λ len. tt

  cha_data_len-IsFed : (buf : Bytes) → IsFed (ChaCha.data_len cha c seq buf)
  unfolding ChaCha.data_len ChaCha.packet_len
  cha_data_len-IsFed buf =
      >>=-IsFed _ _
        (>>=-IsFed _ _ (length_field-IsFed buf) λ len. >>=-IsFed _ _ (get_u32-IsFed len) λ p. tt)
        λ n. tt

  result-IsFed : (len : Bytes) (o : Option Bytes) → IsFed (ChaCha.opened len o)
  unfolding ChaCha.opened
  result-IsFed len none = tt
  result-IsFed len (some result) = tt

  cha_decrypt-IsFed : (buf : Bytes) → IsFed (ChaCha.decrypt cha c seq buf)
  unfolding ChaCha.decrypt
  cha_decrypt-IsFed buf = >>=-IsFed _ _ (length_field-IsFed buf) λ len.
      >>=-IsFed _ _ (get_u32-IsFed len) λ p.
        >>=-IsFed _ _ (slice-IsFed (u32 (p.0 + 4)) buf) λ front.
          >>=-IsFed _ _ (exact-IsFed 16 (drop (u32 (p.0 + 4)) buf)) λ tag. result-IsFed len _

none_data_len-IsFed : (b : Bytes) → IsFed (none_data_len b)
unfolding none_data_len none_packet_len
none_data_len-IsFed b =
    >>=-IsFed (none_packet_len b) _ (>>=-IsFed _ _ (get_u32-IsFed b) (λ p. tt)) (λ len. tt)

module _ (ring : Ring) (out : HasOutput ring) where
  mix_ek-IsFed : (h : Hash) (n : ℕ) → IsFed (mix_ek ring h n)
  unfolding KeysFor
  mix_ek-IsFed h n = let (k, e, long, least) = mix_ek-KeysFor ring out h n in rw e tt

  mix_ik-IsFed : (h : Hash) (n : ℕ) → IsFed (mix_ik ring h n)
  unfolding KeysFor
  mix_ik-IsFed h n = let (k, e, long, least) = mix_ik-KeysFor ring out h n in rw e tt

  keys_from-IsFed :
      (key_size iv_size : ℕ) (h : Hash) (mac : MacBox)
      → IsFed (keys_from ring key_size iv_size h mac)
  unfolding keys_from
  keys_from-IsFed key_size iv_size h mac = >>=-IsFed _ _ (mix_ek-IsFed h key_size) λ ek.
      >>=-IsFed _ _ (slice-IsFed key_size ek.0) λ ckey.
        >>=-IsFed _ _ (slice-IsFed key_size ek.1) λ skey.
          >>=-IsFed _ _ (slice-IsFed iv_size h.iv_c_s) λ civ.
            >>=-IsFed _ _ (slice-IsFed iv_size h.iv_s_c)
              λ siv. >>=-IsFed _ _ (bsize-IsFed mac) λ n. >>=-IsFed _ _ (mix_ik-IsFed h n) λ ik. tt

  module _ {K E D E' D' F G : Type 0} (aes : StreamCipher K) (aes_cbc : BlockModes E D)
      (tdes : BlockModes E' D') (cha : ChaChaKeys F G) (hmac : HmacRing) where
    ctr_new-IsFed :
        (key_size : ℕ) (h : Hash) (mac : MacBox) → IsFed (Ctr.new aes hmac ring key_size h mac)
    unfolding Ctr.new
    ctr_new-IsFed key_size h mac = >>=-IsFed _ _ (keys_from-IsFed key_size 16 h mac) λ k. tt

    cbc_new-IsFed :
        (key_size : ℕ) (h : Hash) (mac : MacBox) → IsFed (Cbc.new aes_cbc ring key_size h mac)
    unfolding Cbc.new
    cbc_new-IsFed key_size h mac = >>=-IsFed _ _ (keys_from-IsFed key_size 16 h mac) λ k. tt

    des_new-IsFed : (h : Hash) (mac : MacBox) → IsFed (Des.new tdes hmac ring h mac)
    unfolding Des.new
    des_new-IsFed h mac = >>=-IsFed _ _ (keys_from-IsFed 24 8 h mac) λ k. tt

    cha_new-IsFed : (h : Hash) (mac : MacBox) → IsFed (ChaCha.new cha ring h mac)
    unfolding ChaCha.new
    cha_new-IsFed h mac =
        >>=-IsFed _ _ (mix_ek-IsFed h 64) λ ek.
          >>=-IsFed _ _ (exact-IsFed 64 ek.0) λ ck. >>=-IsFed _ _ (exact-IsFed 64 ek.1) λ sk. tt

    pub from-IsFed :
        (cipher : Enc) (h : Hash) (mac : MacBox)
        → IsFed (from aes aes_cbc tdes cha hmac ring cipher h mac)
    unfolding from
    from-IsFed chacha20_poly1305_openssh h mac = >>=-IsFed _ _ (cha_new-IsFed h mac) λ c. tt
    from-IsFed aes128_ctr h mac = >>=-IsFed _ _ (ctr_new-IsFed 16 h mac) λ c. tt
    from-IsFed aes192_ctr h mac = >>=-IsFed _ _ (ctr_new-IsFed 24 h mac) λ c. tt
    from-IsFed aes256_ctr h mac = >>=-IsFed _ _ (ctr_new-IsFed 32 h mac) λ c. tt
    from-IsFed aes128_cbc h mac = >>=-IsFed _ _ (cbc_new-IsFed 16 h mac) λ c. tt
    from-IsFed aes192_cbc h mac = >>=-IsFed _ _ (cbc_new-IsFed 24 h mac) λ c. tt
    from-IsFed aes256_cbc h mac = >>=-IsFed _ _ (cbc_new-IsFed 32 h mac) λ c. tt
    from-IsFed triple_des_cbc h mac = >>=-IsFed _ _ (des_new-IsFed h mac) λ c. tt

module _ {K E D E' D' F G : Type 0} (aes : StreamCipher K) (aes_cbc : BlockModes E D)
    (tdes : BlockModes E' D') (cha : ChaChaKeys F G) (hmac : HmacRing) where
  pub encrypt-IsFed :
      (c : CipherBox K E D E' D' F G) (seq : ℕ) (buf : Bytes)
      → IsFed ((encryption aes aes_cbc tdes cha hmac).encrypt c seq buf).0
  encrypt-IsFed encryption_none seq buf = tt
  encrypt-IsFed (ctr c) seq buf = ctr_encrypt-IsFed aes hmac c seq buf
  encrypt-IsFed (cbc c) seq buf = cbc_encrypt-IsFed aes_cbc hmac 16 (omega arith) c seq buf
  encrypt-IsFed (des c) seq buf = cbc_encrypt-IsFed tdes hmac 8 (omega arith) c seq buf
  encrypt-IsFed (cha_cha c) seq buf = tt

  pub decrypt-IsFed :
      (c : CipherBox K E D E' D' F G) (seq : ℕ) (buf : Bytes)
      → IsFed ((encryption aes aes_cbc tdes cha hmac).decrypt c seq buf).0
  decrypt-IsFed encryption_none seq buf = tt
  decrypt-IsFed (ctr c) seq buf = ctr_decrypt-IsFed aes hmac c seq buf
  decrypt-IsFed (cbc c) seq buf = cbc_decrypt-IsFed aes_cbc hmac 16 (omega arith) c seq buf
  decrypt-IsFed (des c) seq buf = cbc_decrypt-IsFed tdes hmac 8 (omega arith) c seq buf
  decrypt-IsFed (cha_cha c) seq buf = cha_decrypt-IsFed cha c seq buf

  pub data_len-IsFed :
      (c : CipherBox K E D E' D' F G) (seq : ℕ) (buf : Bytes)
      → IsFed ((encryption aes aes_cbc tdes cha hmac).data_len c seq buf).0
  data_len-IsFed encryption_none seq buf = none_data_len-IsFed buf
  data_len-IsFed (ctr c) seq buf = ctr_data_len-IsFed aes hmac c buf
  data_len-IsFed (cbc c) seq buf = cbc_data_len-IsFed aes_cbc hmac 16 (omega arith) c buf
  data_len-IsFed (des c) seq buf = cbc_data_len-IsFed tdes hmac 8 (omega arith) c buf
  data_len-IsFed (cha_cha c) seq buf = cha_data_len-IsFed cha c seq buf
