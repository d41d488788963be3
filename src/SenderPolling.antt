-- ===== src/SenderPolling.antt =====
-- netfetch/src/senderpolling.rs: a send to a channel that is polled to its end.
pub mod Order
mod Examples
use daqingest.Base.{Bool, true, false, Option, none, some, List, [], ◌∷◌, ◌++◌}

-- What polling the send of the channel gives: the item was taken, the channel is closed and gives
-- it back, or the channel is full.
pub data SendResult : Type 0 where
  taken channel_closed channel_full : SendResult

pub data Reply {ℓ} (A : Type ℓ) : Type ℓ where
  sent pending no_send_in_progress : Reply A
  closed : A → Reply A

-- The send in progress, and what the channel has taken.
pub record SenderPolling {ℓ} (A : Type ℓ) : Type ℓ where
  pub fut : Option A
  pub channel : List A

module _ {ℓ} {A : Type ℓ} where
  unfoldable pub new : List A → SenderPolling A
  new channel = record { fut = none; channel = channel }

  unfoldable pub is_idle : SenderPolling A → Bool
  is_idle s = elim s.fut [ none ↦ true | some _ ↦ false ]

  unfoldable pub is_sending : SenderPolling A → Bool
  is_sending s = elim s.fut [ none ↦ false | some _ ↦ true ]

  -- `send` and `send_pin`
  unfoldable pub send : A → SenderPolling A → SenderPolling A
  send item s = record s { fut = some item }

  poll_fut : SendResult → Option A → List A → Reply A × SenderPolling A
  poll_fut r none channel = (no_send_in_progress, record { fut = none; channel = channel })
  poll_fut taken (some x) channel = (sent, record { fut = none; channel = channel ++ (x ∷ []) })
  poll_fut channel_closed (some x) channel = (closed x, record { fut = none; channel = channel })
  poll_fut channel_full (some x) channel = (pending, record { fut = some x; channel = channel })

  unfoldable pub poll : SendResult → SenderPolling A → Reply A × SenderPolling A
  unfolding poll_fut
  poll r s = poll_fut r s.fut s.channel
