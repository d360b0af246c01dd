-- ===== src/Packet/Paired.antt =====
-- The interface between the packet layer and the algorithms: what two ends need of their ciphers
-- and compressors to understand each other.
use ssh_rs.Base.{ℕ, ◌-◌, ◌^◌, ◌≤◌, ◌<◌, ◌≡◌, length, take}
use ssh_rs.Error.{ok}
use ssh_rs.Data.{Bytes}
use ssh_rs.Frame.{get_align, frame}
use ssh_rs.Frame.Padding.{IsAlign}
use ssh_rs.Client.{Encryption, Compression}

-- What the cipher of the receiver makes of a packet that the cipher of the sender has sealed.
pub record Opens {S : Type 0} (enc : Encryption S) (P : S → S → Type 0) (s r : S) (seq : ℕ)
    (body : Bytes) : Type 0 where
  pub wire : Bytes
  pub sender : S
  pub between : S
  pub after : S
  pub seals :
      enc.encrypt s seq (frame (get_align (enc.bsize s)) (enc.no_pad s) body) ≡ (ok wire, sender)
  pub long : get_align (enc.bsize r) ≤ length wire
  pub measures :
      enc.data_len r seq (take (get_align (enc.bsize r)) wire) ≡ (ok (length wire), between)
  pub opens :
      enc.decrypt between seq wire
      ≡ (ok (frame (get_align (enc.bsize s)) (enc.no_pad s) body), after)
  pub still : P sender after

-- `P s r`: the receiver in the state `r` opens what the sender in the state `s` seals.
pub record CipherPair {S : Type 0} (enc : Encryption S) (P : S → S → Type 0) : Type 0 where
  pub aligned : (s r : S) → P s r → IsAlign (get_align (enc.bsize s))
  pub same_block : (s r : S) → P s r → get_align (enc.bsize s) ≡ get_align (enc.bsize r)
  pub understood :
      (s r : S)
      → P s r
      → (seq : ℕ) (body : Bytes) → length body < 2 ^ 32 - 64
      → Opens enc P s r seq body

-- What the receiver's decompressor makes of what the sender's compressor returns.
pub record Inflates {C : Type 0} (comp : Compression C) (Q : C → C → Type 0) (c d : C)
    (payload : Bytes) : Type 0 where
  pub body : Bytes
  pub sender : C
  pub receiver : C
  pub deflates : comp.compress c payload ≡ (ok body, sender)
  pub inflates : comp.decompress d body ≡ (ok payload, receiver)
  pub fits : length payload < 2 ^ 31 → length body < 2 ^ 32 - 64
  pub still : Q sender receiver

pub record CompressorPair {C : Type 0} (comp : Compression C) (Q : C → C → Type 0) : Type 0 where
  pub restored : (c d : C) → Q c d → (payload : Bytes) → Inflates comp Q c d payload
