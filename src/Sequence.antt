-- ===== src/Sequence.antt =====
-- model/u32iter.rs and model/sequence.rs: the packet sequence numbers.
pub mod Cycle
use ssh_rs.Base.{ℕ, ◌+◌, ◌-◌, ◌^◌, ◌==◌, if◌then◌else◌}

pub record U32Iter : Type 0 where
  pub num : ℕ

unfoldable pub next : U32Iter → ℕ × U32Iter
next it = let n = (if it.num == 2 ^ 32 - 1 then 0 else it.num + 1) in (n, record { num = n })

abbrev pub u32_iter_default : U32Iter
u32_iter_default = record { num = 2 ^ 32 - 1 }

pub record Sequence : Type 0 where
  pub client_sequence_num : U32Iter
  pub server_sequence_num : U32Iter

unfoldable pub get_client : Sequence → ℕ × Sequence
get_client s =
    let (n, it) = next s.client_sequence_num in (n, record s { client_sequence_num = it })

unfoldable pub get_server : Sequence → ℕ × Sequence
get_server s =
    let (n, it) = next s.server_sequence_num in (n, record s { server_sequence_num = it })

abbrev pub new : Sequence
new = record { client_sequence_num = u32_iter_default; server_sequence_num = u32_iter_default }
