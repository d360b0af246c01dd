-- ===== src/Channel/Fed.antt =====
-- The loops of a channel end: each round takes a packet.
use ssh_rs.Base.{ℕ, ◌+◌, ◌≤◌, Bool, true, false, if-cases, arith, ◌==◌, if◌then◌else◌}
use ssh_rs.Error.{SshResult, ok, err, panic, hang, starved, IsFed, or_return}
use ssh_rs.Data.{Bytes, get_u32, get_u8s}
use ssh_rs.Data.Fed.{get_u32-IsFed, get_u8s-IsFed}
use ssh_rs.Text.{is_utf8}
use ssh_rs.AlgList.{unpack}
use ssh_rs.AlgList.Fed.{unpack-IsFed}
use ssh_rs.Io.{Io}
use ssh_rs.Io.Fed.{Paid, next-Paid, Paid-IsFed, Paid-ok, fed-Paid}
use ssh_rs.Client.{Link}
use ssh_rs.Packet.Fed.{write_stream-IsFed, incoming-write_stream}
use ssh_rs.Suite.{Suite}
use ssh_rs.Kex.{incoming}
use ssh_rs.Kex.Fed.{SuiteFed, key_agreement-Paid}
use ssh_rs.Channel.{Channel, send, send_close, send_window_adjust, recv_window_adjust}
use ssh_rs.Channel.Handle.{utf8_text, on_rekey, accept, on_data, on_extended_data, on_window_adjust}
use ssh_rs.Channel.Loops.{waiting}

pub utf8_text-IsFed : (b : Bytes) → IsFed (utf8_text b)
utf8_text-IsFed b = if-cases (IsFed {A = Bytes}) (is_utf8 b) _ _ (λ e. tt) (λ e. tt)

module _ {S C : Type 0} (su : Suite S C) (fed : SuiteFed su) where
  -- A method that costs nothing and does not starve, from this state.
  abbrev pub Free {ℓ} : {A : Type ℓ} → Channel S C → SshResult A × Channel S C → Type 0
  Free ch p = Paid waiting (λ a. 0) (waiting ch) p

  pub next-Free {ℓ κ} :
      {A : Type ℓ} {B : Type κ} (start : Channel S C) (m : SshResult A)
      (k : A → SshResult B × Channel S C) (ch : Channel S C)
      → Free start (m, ch)
      → ((a : A) → waiting ch ≤ waiting start → Free start (k a))
      → Free start (or_return m k ch)
  next-Free start m k ch h go =
      next-Paid waiting (λ b. 0) (waiting start) m k ch
        (Paid-IsFed waiting (λ a. 0) (waiting start) (m, ch) h)
        (λ a e. go a (no_cost (Paid-ok waiting (λ a. 0) (waiting start) (m, ch) a h e)))
    where
      no_cost : {a b : ℕ} → a + 0 ≤ b → a ≤ b
      no_cost h = omega arith

  pub relink-Paid :
      {A : Type 0} (cost : A → ℕ) (m : ℕ) (ch : Channel S C) (p : SshResult A × Link S C)
      → Paid incoming cost m p
      → Paid waiting cost m (p.0, record ch { link = p.1 })
  relink-Paid cost m ch (ok a, l) h = h
  relink-Paid cost m ch (err e, l) h = tt
  relink-Paid cost m ch (panic, l) h = tt
  relink-Paid cost m ch (hang, l) h = tt
  relink-Paid cost m ch (starved, l) h = absurd h

  pub send-Free : (payload : Bytes) (ch : Channel S C) → Free ch (send su payload ch)
  unfolding send
  send-Free payload ch =
      fed-Paid waiting (λ a. 0) (waiting ch) _ _
        (write_stream-IsFed su.enc su.comp fed.packets payload ch.link)
        (λ a. omega (arith, incoming-write_stream su.enc su.comp fed.packets payload ch.link))

  pub send_close-Free : (ch : Channel S C) → Free ch (send_close su ch)
  unfolding send_close
  send_close-Free ch = if-cases (Free ch) ch.local_close _ _ (λ e. omega arith) (λ e. send-Free _ _)

  accept-Free : (buf : Bytes) (ch : Channel S C) → Free ch (accept su buf ch)
  unfolding accept send_window_adjust
  accept-Free buf ch = next-Free ch _ _ _ (send-Free _ _) (λ u le. omega arith)

  pub step-Free {ℓ κ} :
      {A : Type ℓ} {B : Type κ} (start : Channel S C) (m : SshResult A)
      (k : A → SshResult B × Channel S C) (ch : Channel S C)
      → IsFed m
      → ((a : A) → Free start (k a))
      → Free start (or_return m k ch)
  step-Free start m k ch h go = next-Paid waiting (λ b. 0) (waiting start) m k ch h (λ a e. go a)

  pub on_rekey-Free : (payload : Bytes) (ch : Channel S C) → Free ch (on_rekey su payload ch)
  unfolding on_rekey
  on_rekey-Free payload ch = step-Free ch (unpack payload) _ _ (unpack-IsFed payload) λ algs.
      next-Free ch _ _ _
        (relink-Paid (λ d. 0) (waiting ch) ch _ (key_agreement-Paid su fed algs _ ch.link))
        λ d le'. omega arith

  -- A test of a condition, and then a method.
  pub if-Free :
      {A : Type 0} (ch : Channel S C) (b : Bool) (x y : Io (Channel S C) A)
      → Free ch (x ch)
      → Free ch (y ch)
      → Free ch ((if b then x else y) ch)
  if-Free ch true x y hx hy = hx
  if-Free ch false x y hx hy = hy

  pub on_data-Free : (d : Bytes) (ch : Channel S C) → Free ch (on_data su d ch)
  unfolding on_data
  on_data-Free d ch = step-Free ch (get_u32 d) _ _ (get_u32-IsFed d) λ p.
      if-Free ch (p.0 == ch.client_channel_no) _ _
        (step-Free ch (get_u8s p.1) _ _ (get_u8s-IsFed p.1) λ q. accept-Free q.0 ch) (omega arith)

  pub on_extended_data-Free : (d : Bytes) (ch : Channel S C) → Free ch (on_extended_data su d ch)
  unfolding on_extended_data
  on_extended_data-Free d ch = step-Free ch (get_u32 d) _ _ (get_u32-IsFed d) λ p.
      if-Free ch (p.0 == ch.client_channel_no) _ _
        (step-Free ch (get_u32 p.1) _ _ (get_u32-IsFed p.1)
          λ q. step-Free ch (get_u8s q.1) _ _ (get_u8s-IsFed q.1) λ t. accept-Free t.0 ch)
        (omega arith)

  pub on_window_adjust-Free : (d : Bytes) (ch : Channel S C) → Free ch (on_window_adjust su d ch)
  unfolding on_window_adjust recv_window_adjust
  on_window_adjust-Free d ch =
      step-Free ch (get_u32 d) _ _ (get_u32-IsFed d)
        λ p. step-Free ch (get_u32 p.1) _ _ (get_u32-IsFed p.1) λ q. omega arith
