-- ===== src/FlowControl/Run.antt =====
-- The windows over the life of a channel: sends and adjustments in any order.
use ssh_rs.Base.{ℕ, ◌+◌, ◌≤◌, List, [], ◌∷◌, arith, length}
use ssh_rs.Data.{Bytes}
use ssh_rs.FlowControl.{FlowControl, tune_on_send, tune_on_recv, on_recv, on_send}
use ssh_rs.FlowControl.Laws.{tune_on_send_lem}

-- Bytes that the client wants to send, a window adjustment from the server, received bytes, and
-- an adjustment that the client sends.
pub data Action : Type 0 where
  send : Bytes → Action
  granted : ℕ → Action
  received : Bytes → Action
  grant : ℕ → Action

unfoldable pub act : FlowControl → Action → FlowControl
act fc (send buf) = (tune_on_send fc buf).0
act fc (granted n) = on_recv fc n
act fc (received buf) = (tune_on_recv fc buf).0
act fc (grant n) = on_send fc n

abbrev pub run : FlowControl → List Action → FlowControl
run fc [] = fc
run fc (a ∷ as') = run (act fc a) as'

-- The bytes that are sent in a run, and what the server granted in it.
abbrev pub sent_in : FlowControl → Action → ℕ
sent_in fc (send buf) = length (tune_on_send fc buf).1
sent_in fc _ = 0

abbrev pub granted_in : Action → ℕ
granted_in (granted n) = n
granted_in _ = 0

abbrev pub total_sent : FlowControl → List Action → ℕ
total_sent fc [] = 0
total_sent fc (a ∷ as') = sent_in fc a + total_sent (act fc a) as'

abbrev pub total_granted : List Action → ℕ
total_granted [] = 0
total_granted (a ∷ as') = granted_in a + total_granted as'

act-remote :
    (fc : FlowControl) (a : Action)
    → (act fc a).remote_window + sent_in fc a ≤ fc.remote_window + granted_in a
unfolding act
act-remote fc (send buf) = omega (arith, tune_on_send_lem fc buf)
act-remote fc (granted n) = unfold on_recv in omega arith
act-remote fc (received buf) = unfold tune_on_recv in ground arith
act-remote fc (grant n) = unfold on_send in omega arith

-- In every run the client sends no more than the first window and what the server granted since.
pub total_sent-le :
    (as' : List Action) (fc : FlowControl)
    → total_sent fc as' + (run fc as').remote_window ≤ fc.remote_window + total_granted as'
total_sent-le [] fc = omega arith
total_sent-le (a ∷ as') fc = omega (arith, act-remote fc a, total_sent-le as' (act fc a))
