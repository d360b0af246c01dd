-- ===== src/Text.antt =====
-- The parts of the standard library that work on text, over bytes: `String::from_utf8`,
-- `str::split` at one ASCII character, `[String]::join` and `str::trim`.
pub mod Split
use ssh_rs.Base.{
  ℕ, List, [], ◌∷◌, ◌++◌, Bool, true, false, Option, none, some, ◌&&◌, ◌||◌, zero, suc, length,
  drop, ltb, leb, ◌==◌, if◌then◌else◌,
}
use mathlib.Core.List.{reverse}
use ssh_rs.Data.{Bytes}

abbrev pub Range : Type 0
Range = ℕ × ℕ

abbrev pub any_next : Range
any_next = (0x80, 0xbf)

-- The ranges of the bytes that must follow a first byte of a UTF-8 sequence.
unfoldable pub follow : ℕ → Option (List Range)
follow b =
    if ltb b 0x80
    then some []
    else if ltb b 0xc2
    then none
    else if ltb b 0xe0
    then some (any_next ∷ [])
    else if b == 0xe0
    then some ((0xa0, 0xbf) ∷ any_next ∷ [])
    else if b == 0xed
    then some ((0x80, 0x9f) ∷ any_next ∷ [])
    else if ltb b 0xf0
    then some (any_next ∷ any_next ∷ [])
    else if b == 0xf0
    then some ((0x90, 0xbf) ∷ any_next ∷ any_next ∷ [])
    else if ltb b 0xf4
    then some (any_next ∷ any_next ∷ any_next ∷ [])
    else if b == 0xf4
    then some ((0x80, 0x8f) ∷ any_next ∷ any_next ∷ [])
    else none

-- Whether the rest of a text is well formed where bytes of these ranges are due.
pub utf8_from : List Range → Bytes → Bool
utf8_from [] [] = true
utf8_from (r ∷ rs) [] = false
utf8_from (r ∷ rs) (b ∷ bs) = leb r.0 b && leb b r.1 && utf8_from rs bs
utf8_from [] (b ∷ bs) = elim (follow b) [ none ↦ false | some rs ↦ utf8_from rs bs ]

unfoldable pub is_utf8 : Bytes → Bool
unfolding utf8_from follow
is_utf8 bs = utf8_from [] bs

abbrev pub push_front : ℕ → List Bytes → List Bytes
push_front b [] = (b ∷ []) ∷ []
push_front b (w ∷ ws) = (b ∷ w) ∷ ws

unfoldable pub split : ℕ → Bytes → List Bytes
split c [] = [] ∷ []
split c (b ∷ s) = let rest = split c s in if b == c then [] ∷ rest else push_front b rest

unfoldable pub join : ℕ → List Bytes → Bytes
join c [] = []
join c (w ∷ []) = w
join c (w ∷ v ∷ ws) = w ++ (c ∷ join c (v ∷ ws))

-- `str::trim`: the characters with the property White_Space, by the bytes of their encodings.
unfoldable pub is_white : ℕ → Bool
is_white b = b == 32 || (leb 9 b && leb b 13)

unfoldable pub is_white2 : ℕ → ℕ → Bool
is_white2 a b = a == 0xc2 && (b == 0x85 || b == 0xa0)

unfoldable pub is_white3 : ℕ → ℕ → ℕ → Bool
is_white3 a b c =
    (a == 0xe1 && b == 0x9a && c == 0x80)
    || (a == 0xe3 && b == 0x80 && c == 0x80)
    || (a == 0xe2 && b == 0x81 && c == 0x9f)
    || (a == 0xe2 && b == 0x80 && (leb 0x80 c && leb c 0x8a || c == 0xa8 || c == 0xa9 || c == 0xaf))

-- How many bytes the white character takes that a text starts with, and that a reversed text ends
-- with; 0 if there is none.
unfoldable pub white_front : Bytes → ℕ
unfolding is_white is_white2 is_white3
white_front [] = 0
white_front (a ∷ []) = if is_white a then 1 else 0
white_front (a ∷ b ∷ []) = if is_white a then 1 else if is_white2 a b then 2 else 0
white_front (a ∷ b ∷ c ∷ s) =
    if is_white a then 1 else if is_white2 a b then 2 else if is_white3 a b c then 3 else 0

unfoldable pub white_back : Bytes → ℕ
unfolding is_white is_white2 is_white3
white_back [] = 0
white_back (a ∷ []) = if is_white a then 1 else 0
white_back (b ∷ a ∷ []) = if is_white b then 1 else if is_white2 a b then 2 else 0
white_back (c ∷ b ∷ a ∷ s) =
    if is_white c then 1 else if is_white2 b c then 2 else if is_white3 a b c then 3 else 0

-- The characters of a text are no more than its bytes, so that many rounds are enough.
unfoldable pub strip : (Bytes → ℕ) → ℕ → Bytes → Bytes
strip white zero s = s
strip white (suc n) s = elim (white s) [ zero ↦ s | suc k ↦ strip white n (drop (suc k) s) ]

unfoldable pub trim : Bytes → Bytes
unfolding strip white_front white_back
trim s =
    let front = strip white_front (length s) s in
    reverse (strip white_back (length front) (reverse front))
