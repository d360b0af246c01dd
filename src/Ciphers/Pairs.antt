-- ===== src/Ciphers/Pairs.antt =====
-- Two ends with any of the ciphers understand each other.
use ssh_rs.Base.{ℕ, ◌-◌, ◌^◌, ◌<◌, ◌≡◌, refl, inl, inr, length}
use ssh_rs.Data.{Bytes}
use ssh_rs.Frame.{get_align}
use ssh_rs.Frame.Padding.{IsAlign}
use ssh_rs.Hmac.{HmacRing}
use ssh_rs.Hmac.Tags.{HmacSizes}
use ssh_rs.Client.{Encryption}
use ssh_rs.Packet.Paired.{Opens, CipherPair}
use ssh_rs.Plain
use ssh_rs.Plain.Pairs.{Always, encryption_none-CipherPair}
use ssh_rs.Ctr
use ssh_rs.Ctr.{StreamCipher, Ctr, encryption_ctr}
use ssh_rs.Ctr.Pairs.{StreamLaws, encryption_ctr-CipherPair}
use ssh_rs.Cbc
use ssh_rs.Cbc.{BlockModes, Cbc, encryption_cbc, aes_block_size}
use ssh_rs.Cbc.Blocks.{BlockLaws}
use ssh_rs.Cbc.Pairs.{encryption_cbc-CipherPair}
use ssh_rs.Des
use ssh_rs.ChaCha
use ssh_rs.ChaCha.{ChaChaKeys, ChaCha20Poly1305, encryption_cha_cha}
use ssh_rs.ChaCha.Pairs.{ChaChaLaws, encryption_cha_cha-CipherPair}
use ssh_rs.Ciphers.{CipherBox, encryption_none, ctr, cbc, des, cha_cha, boxed, encryption}

-- The methods of `big` on a box are those of `small` on the object inside.
pub record Boxes {S T : Type 0} (small : Encryption S) (big : Encryption T) (box : S → T)
    : Type 0 where
  pub bsize_lem : (s : S) → big.bsize (box s) ≡ small.bsize s
  pub no_pad_lem : (s : S) → big.no_pad (box s) ≡ small.no_pad s
  pub encrypt_lem :
      (s : S) (seq : ℕ) (b : Bytes) → big.encrypt (box s) seq b ≡ boxed box (small.encrypt s seq b)
  pub decrypt_lem :
      (s : S) (seq : ℕ) (b : Bytes) → big.decrypt (box s) seq b ≡ boxed box (small.decrypt s seq b)
  pub data_len_lem :
      (s : S) (seq : ℕ) (b : Bytes)
      → big.data_len (box s) seq b ≡ boxed box (small.data_len s seq b)

-- What is understood inside the boxes is understood.
Boxes-Opens :
    {S T : Type 0} (small : Encryption S) (big : Encryption T) (box : S → T) (P : S → S → Type 0)
    (Q : T → T → Type 0)
    → Boxes small big box
    → ((s r : S) → P s r → Q (box s) (box r))
    → (s r : S) (seq : ℕ) (body : Bytes) → Opens small P s r seq body
    → Opens big Q (box s) (box r) seq body
Boxes-Opens small big box P Q b keep s r seq body o = record {
  wire = o.wire;
  sender = box o.sender;
  between = box o.between;
  after = box o.after;
  seals = rw (b.bsize_lem s, b.no_pad_lem s, b.encrypt_lem, o.seals);
  long = rw (b.bsize_lem r) o.long;
  measures = rw (b.bsize_lem r, b.data_len_lem, o.measures);
  opens = rw (b.decrypt_lem, o.opens, b.bsize_lem s, b.no_pad_lem s);
  still = keep o.sender o.after o.still;
}

module _ {K E D E' D' F G : Type 0} (aes : StreamCipher K) (aes_cbc : BlockModes E D)
    (tdes : BlockModes E' D') (cha : ChaChaKeys F G) (hmac : HmacRing) where
  -- What the client's cipher seals is for the server's cipher of the same kind.
  abbrev pub InStep :
      (E → D → Type 0)
      → (E' → D' → Type 0)
      → (F → G → Type 0)
      → CipherBox K E D E' D' F G
      → CipherBox K E D E' D' F G
      → Type 0
  InStep R R' S encryption_none encryption_none = Unit {0}
  InStep R R' S (ctr s) (ctr r) = Ctr.Pairs.InStep s r
  InStep R R' S (cbc s) (cbc r) = Cbc.Pairs.InStep R s r
  InStep R R' S (des s) (des r) = Cbc.Pairs.InStep R' s r
  InStep R R' S (cha_cha s) (cha_cha r) = ChaCha.Pairs.InStep S s r
  InStep R R' S _ _ = ⊥

  abbrev big : Encryption (CipherBox K E D E' D' F G)
  big = encryption aes aes_cbc tdes cha hmac

  none-Boxes : Boxes Plain.encryption_none big (λ u. encryption_none)
  none-Boxes = record {
    bsize_lem = λ s. refl;
    no_pad_lem = λ s. refl;
    encrypt_lem = λ s seq b. refl;
    decrypt_lem = λ s seq b. refl;
    data_len_lem = λ s seq b. refl;
  }

  ctr-Boxes : Boxes (encryption_ctr aes hmac) big ctr
  ctr-Boxes = record {
    bsize_lem = λ s. refl;
    no_pad_lem = λ s. refl;
    encrypt_lem = λ s seq b. refl;
    decrypt_lem = λ s seq b. refl;
    data_len_lem = λ s seq b. refl;
  }

  cbc-Boxes : Boxes (encryption_cbc aes_cbc hmac aes_block_size) big cbc
  cbc-Boxes = record {
    bsize_lem = λ s. refl;
    no_pad_lem = λ s. refl;
    encrypt_lem = λ s seq b. refl;
    decrypt_lem = λ s seq b. refl;
    data_len_lem = λ s seq b. refl;
  }

  des-Boxes : Boxes (encryption_cbc tdes hmac Des.block_size) big des
  des-Boxes = record {
    bsize_lem = λ s. refl;
    no_pad_lem = λ s. refl;
    encrypt_lem = λ s seq b. refl;
    decrypt_lem = λ s seq b. refl;
    data_len_lem = λ s seq b. refl;
  }

  cha_cha-Boxes : Boxes (encryption_cha_cha cha) big cha_cha
  cha_cha-Boxes = record {
    bsize_lem = λ s. refl;
    no_pad_lem = λ s. refl;
    encrypt_lem = λ s seq b. refl;
    decrypt_lem = λ s seq b. refl;
    data_len_lem = λ s seq b. refl;
  }

  -- The documented behaviour of the ciphers of other crates.
  pub record CipherLaws (R : E → D → Type 0) (R' : E' → D' → Type 0) (S : F → G → Type 0)
      : Type 0 where
    pub codes : HmacSizes hmac
    pub streams : StreamLaws aes
    pub aes_blocks : BlockLaws aes_cbc 16 R
    pub des_blocks : BlockLaws tdes 8 R'
    pub packets : ChaChaLaws cha S

  module _ (R : E → D → Type 0) (R' : E' → D' → Type 0) (S : F → G → Type 0)
      (laws : CipherLaws R R' S) where
    abbrev P : CipherBox K E D E' D' F G → CipherBox K E D E' D' F G → Type 0
    P = InStep R R' S

    abbrev ctr_pair : CipherPair (encryption_ctr aes hmac) Ctr.Pairs.InStep
    ctr_pair = encryption_ctr-CipherPair aes laws.streams hmac laws.codes

    abbrev cbc_pair : CipherPair (encryption_cbc aes_cbc hmac 16) (Cbc.Pairs.InStep R)
    cbc_pair = encryption_cbc-CipherPair aes_cbc hmac laws.codes 16 (inr refl) R laws.aes_blocks

    abbrev des_pair : CipherPair (encryption_cbc tdes hmac 8) (Cbc.Pairs.InStep R')
    des_pair = encryption_cbc-CipherPair tdes hmac laws.codes 8 (inl refl) R' laws.des_blocks

    abbrev cha_cha_pair : CipherPair (encryption_cha_cha cha) (ChaCha.Pairs.InStep S)
    cha_cha_pair = encryption_cha_cha-CipherPair cha S laws.packets

    understood :
        (s r : CipherBox K E D E' D' F G)
        → P s r
        → (seq : ℕ) (body : Bytes) → length body < 2 ^ 32 - 64
        → Opens big P s r seq body
    understood encryption_none encryption_none p seq body h =
        Boxes-Opens Plain.encryption_none big (λ u. encryption_none) Always P none-Boxes
          (λ s r q. tt) tt tt seq body (encryption_none-CipherPair.understood tt tt tt seq body h)
    understood (ctr s) (ctr r) p seq body h =
        Boxes-Opens (encryption_ctr aes hmac) big ctr Ctr.Pairs.InStep P ctr-Boxes (λ s r q. q) s r
          seq body (ctr_pair.understood s r p seq body h)
    understood (cbc s) (cbc r) p seq body h =
        Boxes-Opens (encryption_cbc aes_cbc hmac 16) big cbc (Cbc.Pairs.InStep R) P cbc-Boxes
          (λ s r q. q) s r seq body (cbc_pair.understood s r p seq body h)
    understood (des s) (des r) p seq body h =
        Boxes-Opens (encryption_cbc tdes hmac 8) big des (Cbc.Pairs.InStep R') P des-Boxes
          (λ s r q. q) s r seq body (des_pair.understood s r p seq body h)
    understood (cha_cha s) (cha_cha r) p seq body h =
        Boxes-Opens (encryption_cha_cha cha) big cha_cha (ChaCha.Pairs.InStep S) P cha_cha-Boxes
          (λ s r q. q) s r seq body (cha_cha_pair.understood s r p seq body h)
    understood _ _ p seq body h = absurd p

    aligned : (s r : CipherBox K E D E' D' F G) → P s r → IsAlign (get_align (big.bsize s))
    unfolding get_align
    aligned encryption_none r p = inl refl
    aligned (ctr s) r p = inr refl
    aligned (cbc s) r p = inr refl
    aligned (des s) r p = inl refl
    aligned (cha_cha s) r p = inl refl

    same_block :
        (s r : CipherBox K E D E' D' F G)
        → P s r
        → get_align (big.bsize s) ≡ get_align (big.bsize r)
    same_block encryption_none encryption_none p = refl
    same_block (ctr s) (ctr r) p = refl
    same_block (cbc s) (cbc r) p = refl
    same_block (des s) (des r) p = refl
    same_block (cha_cha s) (cha_cha r) p = refl
    same_block _ _ p = absurd p

    -- Each cipher keeps the promise of the packet layer: what one end seals with a cipher in step,
    -- the other end measures from its first block and opens, and the two are in step again.
    pub encryption-CipherPair : CipherPair (encryption aes aes_cbc tdes cha hmac) (InStep R R' S)
    encryption-CipherPair = record {
      aligned = aligned;
      same_block = same_block;
      understood = understood;
    }
