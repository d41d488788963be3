-- ===== src/SenderPolling/Examples.antt =====
-- A run of senderpolling.rs: one item waits and is taken, one is given back, one is in progress.
use daqingest.Base.{ℕ, ◌≡◌, refl, none, List, [], ◌∷◌}
use daqingest.SenderPolling.{
  SenderPolling, taken, channel_closed, channel_full, send, is_idle, poll,
}
use daqingest.SenderPolling.Order.{Call, send_call, poll_call, settled, settled-items}

abbrev calls : List (Call ℕ)
calls =
    send_call 1
    ∷ poll_call channel_full
    ∷ poll_call taken
    ∷ send_call 2
    ∷ poll_call channel_closed
    ∷ poll_call taken
    ∷ send_call 3
    ∷ []

abbrev idle : SenderPolling ℕ
idle = record { fut = none; channel = [] }

settled-items_example : settled calls idle ≡ 1 ∷ 2 ∷ 3 ∷ []
unfolding poll send is_idle
settled-items_example = settled-items calls idle (refl, (refl, (refl, tt)))
