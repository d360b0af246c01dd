-- ===== src/FlowControl/Laws.antt =====
-- What one step of flow control does to the bytes and to the windows.
use ssh_rs.Base.{
  ◌+◌, ◌^◌, ◌≤◌, ◌<◌, ◌≡◌, ◌++◌, arith, length, take, take-append-drop, length-take, take_whole,
  min, u32, IsU32,
}
use ssh_rs.Constant.{buf_size}
use ssh_rs.Data.{Bytes}
use ssh_rs.FlowControl.{FlowControl, tune_on_recv, can_send_len, tune_on_send, on_send}

-- Sending splits the bytes in two, within the remote window and the size of one packet, and the
-- remote window shrinks by exactly what is sent. It sends as much as both limits allow.
pub tune_on_send_lem :
    (fc : FlowControl) (buf : Bytes)
    → let (fc', now, later) = tune_on_send fc buf in
      (now ++ later ≡ buf)
      × (length now ≡ min (min (length buf) fc.remote_window) buf_size)
      × (fc'.remote_window + length now ≡ fc.remote_window)
      × (fc'.local_window ≡ fc.local_window)
unfolding tune_on_send
tune_on_send_lem fc buf =
    let n = can_send_len fc (length buf) in
    unfold can_send_len in ground (arith, take-append-drop n buf, length-take n buf)

-- Receiving keeps as many of the bytes as the local window allows, from the front, and the local
-- window shrinks by exactly what is kept, for fewer than 2 ^ 32 bytes.
tune_on_recv_lem :
    (fc : FlowControl) (buf : Bytes)
    → length buf < 2 ^ 32
    → let (fc', kept) = tune_on_recv fc buf in
      (kept ≡ take fc.local_window buf)
      × (fc'.local_window + length kept ≡ fc.local_window)
      × (fc'.remote_window ≡ fc.remote_window)
unfolding tune_on_recv
tune_on_recv_lem fc buf h =
    ground (arith, take_whole buf fc.local_window, length-take fc.local_window buf)

pub local-tune_on_recv :
    (fc : FlowControl) (buf : Bytes)
    → fc.local_window < 2 ^ 32
    → (tune_on_recv fc buf).0.local_window ≤ fc.local_window
unfolding tune_on_recv
local-tune_on_recv fc buf h = ground arith

-- A received message and the window adjustment that answers it leave the local window as it was,
-- for fewer than 2 ^ 32 bytes.
pub on_send-tune_on_recv :
    (fc : FlowControl) (buf : Bytes)
    → length buf < 2 ^ 32
    → IsU32 fc.local_window
    → let (fc', kept) = tune_on_recv fc buf in on_send fc' (u32 (length kept)) ≡ fc
unfolding on_send
on_send-tune_on_recv fc buf h v = ground (arith, tune_on_recv_lem fc buf h)
