-- ===== src/Sequence/Cycle.antt =====
-- The sequence numbers count from 0 and wrap at 2 ^ 32.
use ssh_rs.Base.{ℕ, suc, ◌+◌, ◌-◌, ◌%◌, ◌^◌, ◌<◌, ◌≡◌, List, [], ◌∷◌, arith}
use ssh_rs.Sequence.{U32Iter, Sequence, next, get_client, get_server, new}

-- Whose number a packet takes.
pub data Side : Type 0 where
  client server : Side

abbrev pub take_number : Side → Sequence → ℕ × Sequence
take_number client s = get_client s
take_number server s = get_server s

-- The numbers after some packets in both directions.
abbrev pub after : Sequence → List Side → Sequence
after s [] = s
after s (p ∷ ps) = after (take_number p s).1 ps

abbrev pub sent : Side → List Side → ℕ
sent p [] = 0
sent client (client ∷ ps) = suc (sent client ps)
sent client (server ∷ ps) = sent client ps
sent server (client ∷ ps) = sent server ps
sent server (server ∷ ps) = suc (sent server ps)

next-num : (it : U32Iter) → it.num < 2 ^ 32 → (next it).0 ≡ (it.num + 1) % 2 ^ 32
unfolding next
next-num it h = ground arith

-- The number last taken, where `a` is the number taken before the packets of `ps`.
abbrev Counts : Sequence → ℕ → ℕ → Type 0
Counts s a b = (s.client_sequence_num.num ≡ a % 2 ^ 32) × (s.server_sequence_num.num ≡ b % 2 ^ 32)

take_number-Counts-client :
    (s : Sequence) (a b : ℕ) → Counts s a b → Counts (take_number client s).1 (a + 1) b
unfolding get_client next
take_number-Counts-client s a b h = ground arith

take_number-Counts-server :
    (s : Sequence) (a b : ℕ) → Counts s a b → Counts (take_number server s).1 a (b + 1)
unfolding get_server next
take_number-Counts-server s a b h = ground arith

Counts-after :
    (ps : List Side) (s : Sequence) (a b : ℕ)
    → Counts s a b
    → Counts (after s ps) (a + sent client ps) (b + sent server ps)
Counts-after [] s a b h = omega arith
Counts-after (client ∷ ps) s a b h =
    omega (arith, Counts-after ps _ (a + 1) b (take_number-Counts-client s a b h))
Counts-after (server ∷ ps) s a b h =
    omega (arith, Counts-after ps _ a (b + 1) (take_number-Counts-server s a b h))

-- The number of a packet is the count of the earlier packets of its direction, modulo 2 ^ 32,
-- whatever packets went the other way.
pub take_number-after :
    (ps : List Side)
    → ((get_client (after new ps)).0 ≡ sent client ps % 2 ^ 32)
      × ((get_server (after new ps)).0 ≡ sent server ps % 2 ^ 32)
unfolding get_client get_server
take_number-after ps =
    let last = Counts-after ps new (2 ^ 32 - 1) (2 ^ 32 - 1) (omega arith) in
    omega (
      arith,
      last,
      next-num (after new ps).client_sequence_num,
      next-num (after new ps).server_sequence_num,
    )
