-- ===== src/FlowControl.antt =====
-- model/flow_control.rs: the windows of a channel. Additions wrap as in a release build.
pub mod Laws
pub mod Run
use ssh_rs.Base.{ℕ, ◌+◌, ◌-◌, ◌^◌, Bool, ltb, leb, if◌then◌else◌, length, take, drop, u32}
use ssh_rs.Constant.{local_window_size, buf_size}
use ssh_rs.Data.{Bytes}

pub record FlowControl : Type 0 where
  pub local_window : ℕ
  pub remote_window : ℕ

abbrev pub new : ℕ → FlowControl
new remote = record { local_window = local_window_size; remote_window = remote }

-- The new windows, and what is left of the received bytes.
unfoldable pub tune_on_recv : FlowControl → Bytes → FlowControl × Bytes
tune_on_recv fc buf =
    let recv_len = u32 (length buf) in
    if leb recv_len fc.local_window
    then (record fc { local_window = fc.local_window - recv_len }, buf)
    else (record fc { local_window = 0 }, take fc.local_window buf)

-- How many of `want` bytes the window and the buffer size allow.
unfoldable pub can_send_len : FlowControl → ℕ → ℕ
can_send_len fc want =
    let n = (if ltb fc.remote_window want then fc.remote_window else want) in
    if ltb buf_size n then buf_size else n

-- The new windows, the bytes to send, and the bytes that are split off for later.
unfoldable pub tune_on_send : FlowControl → Bytes → FlowControl × Bytes × Bytes
unfolding can_send_len
tune_on_send fc buf =
    let n = can_send_len fc (length buf) in
    (record fc { remote_window = fc.remote_window - u32 n }, take n buf, drop n buf)

unfoldable pub on_recv : FlowControl → ℕ → FlowControl
on_recv fc size = record fc { remote_window = u32 (fc.remote_window + size) }

unfoldable pub on_send : FlowControl → ℕ → FlowControl
on_send fc size = record fc { local_window = u32 (fc.local_window + size) }

unfoldable pub can_send : FlowControl → Bool
can_send fc = ltb 0 fc.remote_window
