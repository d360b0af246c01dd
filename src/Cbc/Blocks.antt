-- ===== src/Cbc/Blocks.antt =====
-- The blocks of a buffer, there and back.
use ssh_rs.Base.{
  ℕ, zero, suc, ◌*◌, ◌≤◌, ◌≡◌, refl, sym, ap, ◌∙◌, [], ◌∷◌, ◌++◌, arith, length, length-append,
  length-take, length-drop, take, drop, take_front, drop_front, take-append-drop,
}
use ssh_rs.Error.{ok}
use ssh_rs.Data.{Bytes}
use ssh_rs.Keys.Shared.{slice-ok}
use ssh_rs.Cbc.{BlockModes, blocks}

-- The decryptor in the state `d` restores the block that the encryptor in the state `e` makes.
pub record Restores {E D : Type 0} (modes : BlockModes E D) (size : ℕ) (R : E → D → Type 0) (e : E)
    (d : D) (b : Bytes) : Type 0 where
  pub size_kept : length (modes.encrypt_block e b).0 ≡ size
  pub restored : (modes.decrypt_block d (modes.encrypt_block e b).0).0 ≡ b
  pub still : R (modes.encrypt_block e b).1 (modes.decrypt_block d (modes.encrypt_block e b).0).1

-- `R e d`: both have the same key and the same block before.
pub record BlockLaws {E D : Type 0} (modes : BlockModes E D) (size : ℕ) (R : E → D → Type 0)
    : Type 0 where
  pub started : (key iv : Bytes) → R (modes.encryptor key iv) (modes.decryptor key iv)
  pub block : (e : E) (d : D) (b : Bytes) → R e d → length b ≡ size → Restores modes size R e d b

module _ {E D : Type 0} (modes : BlockModes E D) (size : ℕ) (pos : 1 ≤ size) (R : E → D → Type 0)
    (laws : BlockLaws modes size R) where
  -- A round of the loop.
  blocks_round :
      {K : Type 0} (step : K → Bytes → Bytes × K) (fuel : ℕ) (x buf out : Bytes) (k k2 : K)
      → length x ≡ size
      → blocks step size fuel buf (step k x).1 ≡ (ok out, k2)
      → blocks step size (suc fuel) (x ++ buf) k ≡ (ok ((step k x).0 ++ out), k2)
  unfolding blocks
  blocks_round step fuel [] buf out k k2 e h = absurd (omega arith)
  blocks_round step fuel (b ∷ x) buf out k k2 e h = rw (
    slice-ok size (b ∷ (x ++ buf)) (omega (arith, length-append x buf)),
    take_front (b ∷ x) buf size (omega arith),
    drop_front (b ∷ x) buf size (omega arith),
    h,
  )

  pub record Both (n fuel : ℕ) (e : E) (d : D) (buf : Bytes) : Type 0 where
    pub sealed : Bytes
    pub encryptor : E
    pub decryptor : D
    pub seals : blocks modes.encrypt_block size fuel buf e ≡ (ok sealed, encryptor)
    pub opens : blocks modes.decrypt_block size fuel sealed d ≡ (ok buf, decryptor)
    pub as_long : length sealed ≡ length buf
    pub first : size ≤ length buf → (modes.decrypt_block d (take size sealed)).0 ≡ take size buf
    pub still : R encryptor decryptor

  -- Whole blocks are restored, with enough rounds for them.
  pub blocks-Both :
      (n fuel : ℕ) (e : E) (d : D) (buf : Bytes)
      → n ≤ fuel
      → length buf ≡ n * size
      → R e d
      → Both n fuel e d buf
  unfolding blocks
  blocks-Both zero fuel e d (b ∷ buf) h long r = absurd (omega arith)
  blocks-Both zero fuel e d [] h long r = record {
    sealed = [];
    encryptor = e;
    decryptor = d;
    seals = refl;
    opens = refl;
    as_long = refl;
    first = λ p. absurd (omega arith);
    still = r;
  }
  blocks-Both (suc n) zero e d buf h long r = absurd (omega arith)
  blocks-Both (suc n) (suc fuel) e d buf h long r =
      let x = take size buf in
      let wide : length x ≡ size = omega (arith, length-take size buf) in
      let o = laws.block e d x r wide in
      let y = (modes.encrypt_block e x).0 in
      let rest =
        blocks-Both n fuel (modes.encrypt_block e x).1 (modes.decrypt_block d y).1 (drop size buf)
          (omega arith) (omega (arith, length-drop size buf)) o.still in
      let whole : x ++ drop size buf ≡ buf = take-append-drop size buf in
      record {
        sealed = y ++ rest.sealed;
        encryptor = rest.encryptor;
        decryptor = rest.decryptor;
        seals =
            ap (λ b. blocks modes.encrypt_block size (suc fuel) b e) (sym whole)
            ∙ blocks_round modes.encrypt_block fuel x (drop size buf) rest.sealed e rest.encryptor
                wide rest.seals;
        opens =
            blocks_round modes.decrypt_block fuel y rest.sealed (drop size buf) d rest.decryptor
              o.size_kept rest.opens
            ∙ ap (λ b. (ok b, rest.decryptor)) (ap (λ z. z ++ drop size buf) o.restored ∙ whole);
        as_long =
            omega
              (arith, length-append y rest.sealed, rest.as_long, o.size_kept, length-drop size buf);
        first = λ p.
            ap (λ z. (modes.decrypt_block d z).0)
              (take_front y rest.sealed size (omega (arith, o.size_kept)))
            ∙ o.restored;
        still = rest.still;
      }
