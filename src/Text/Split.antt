-- ===== src/Text/Split.antt =====
-- Splitting what was joined, and texts of ASCII characters.
use ssh_rs.Base.{
  ℕ, ◌<◌, ◌≡◌, ◌≢◌, refl, List, [], ◌∷◌, ◌++◌, arith, All, All-append, true, append-nil,
}
use ssh_rs.Data.{Bytes}
use ssh_rs.Text.{split, join, push_front, is_utf8}

abbrev pub IsFree : ℕ → ℕ → Type 0
IsFree c b = b ≢ c

-- `w` before the first of the parts.
abbrev before : Bytes → List Bytes → List Bytes
before w [] = w ∷ []
before w (v ∷ vs) = (w ++ v) ∷ vs

push_front-before :
    (b : ℕ) (w : Bytes) (vs : List Bytes) → push_front b (before w vs) ≡ before (b ∷ w) vs
push_front-before b w [] = refl
push_front-before b w (v ∷ vs) = refl

before-push_front : (b : ℕ) (vs : List Bytes) → before [] (push_front b vs) ≡ push_front b vs
before-push_front b [] = refl
before-push_front b (v ∷ vs) = refl

split-append : (c : ℕ) (w s : Bytes) → All (IsFree c) w → split c (w ++ s) ≡ before w (split c s)
unfolding split
split-append c [] [] h = refl
split-append c [] (b ∷ s) h = ground (arith, before-push_front b (split c s))
split-append c (b ∷ w) s (h, hs) =
    ground (arith, split-append c w s hs, push_front-before b w (split c s))

-- Splitting a joined list gives the list back, if it is not empty and no part has the separator.
pub split-join :
    (c : ℕ) (w : Bytes) (ws : List Bytes)
    → All (All (IsFree c)) (w ∷ ws)
    → split c (join c (w ∷ ws)) ≡ w ∷ ws
unfolding split join
split-join c w [] (h, hs) = cc (split-append c w [] h, append-nil w)
split-join c w (v ∷ ws) (h, hs) =
    ground (arith, split-append c w (c ∷ join c (v ∷ ws)) h, split-join c v ws hs, append-nil w)

pub is_utf8-ascii : (w : Bytes) → All (λ b. b < 128) w → is_utf8 w ≡ true
unfolding is_utf8
is_utf8-ascii [] h = refl
is_utf8-ascii (b ∷ w) (h, hs) = ground (arith, is_utf8-ascii w hs)

pub All-join {ℓ} :
    (P : ℕ → Type ℓ) (c : ℕ) (ws : List Bytes) → P c → All (All P) ws → All P (join c ws)
unfolding join
All-join P c [] pc h = tt
All-join P c (w ∷ []) pc (h, hs) = h
All-join P c (w ∷ v ∷ ws) pc (h, hs) =
    All-append P w (c ∷ join c (v ∷ ws)) h (pc, All-join P c (v ∷ ws) pc hs)
