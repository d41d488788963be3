-- ===== src/SenderPolling/Order.antt =====
-- Each item that senderpolling.rs is given is taken by the channel, given back or in progress.
use mathlib.Core.Bool.{false≢true}
use daqingest.Base.{
  ◌≡◌, refl, sym, ap, ◌∙◌, Bool, true, false, Option, none, some, List, [], ◌∷◌, ◌++◌, append-nil,
  append_assoc,
}
use daqingest.SenderPolling.{
  SendResult, taken, channel_closed, channel_full, Reply, sent, closed, SenderPolling, is_idle,
  send, poll, poll_fut,
}

pub data Call {ℓ} (A : Type ℓ) : Type ℓ where
  send_call : A → Call A
  poll_call : SendResult → Call A

module _ {ℓ} {A : Type ℓ} where
  -- what the channel has taken or given back, in the order of its answers
  abbrev pub settled_by : Reply A → Option A → List A
  settled_by sent (some x) = x ∷ []
  settled_by (closed x) _ = x ∷ []
  settled_by _ _ = []

  abbrev pub in_progress : Option A → List A
  in_progress none = []
  in_progress (some x) = x ∷ []

  unfoldable pub settled : List (Call A) → SenderPolling A → List A
  settled [] s = in_progress s.fut
  settled (send_call x ∷ cs) s = settled cs (send x s)
  settled (poll_call r ∷ cs) s = settled_by (poll r s).0 s.fut ++ settled cs (poll r s).1

  -- A client sends only when no send is in progress.
  abbrev pub SendsWhenIdle : List (Call A) → SenderPolling A → Type 0
  SendsWhenIdle [] s = Unit
  SendsWhenIdle (send_call x ∷ cs) s = (is_idle s ≡ true) × SendsWhenIdle cs (send x s)
  SendsWhenIdle (poll_call r ∷ cs) s = SendsWhenIdle cs (poll r s).1

  abbrev pub items : List (Call A) → List A
  items [] = []
  items (send_call x ∷ cs) = x ∷ items cs
  items (poll_call r ∷ cs) = items cs

  poll_fut-settles :
      (r : SendResult) (fut : Option A) (channel : List A)
      → let (reply, s) = poll_fut r fut channel in
        settled_by reply fut ++ in_progress s.fut ≡ in_progress fut
  unfolding poll_fut
  poll_fut-settles r none channel = refl
  poll_fut-settles taken (some x) channel = refl
  poll_fut-settles channel_closed (some x) channel = refl
  poll_fut-settles channel_full (some x) channel = refl

  poll-settles :
      (r : SendResult) (s : SenderPolling A)
      → settled_by (poll r s).0 s.fut ++ in_progress (poll r s).1.fut ≡ in_progress s.fut
  unfolding poll
  poll-settles r s = poll_fut-settles r s.fut s.channel

  no_fut :
      (fut : Option A)
      → (elim fut as (λ _. Bool) [ none ↦ true | some _ ↦ false ]) ≡ true
      → in_progress fut ≡ []
  no_fut none e = refl
  no_fut (some y) e = absurd (false≢true e)

  send-idle : (x : A) (s : SenderPolling A) → is_idle s ≡ true → in_progress s.fut ≡ []
  unfolding is_idle
  send-idle x s e = no_fut s.fut e

  -- When a client sends only while no send is in progress, then over every sequence of sends and
  -- polls, and of answers of the channel, the items that the channel took or gave back, and the
  -- one still in progress, are exactly the items sent, in order, behind the one that was in
  -- progress at the start.
  pub settled-items :
      (cs : List (Call A)) (s : SenderPolling A)
      → SendsWhenIdle cs s
      → settled cs s ≡ in_progress s.fut ++ items cs
  unfolding settled send
  settled-items [] s h = sym (append-nil (in_progress s.fut))
  settled-items (send_call x ∷ cs) s (idle, h) =
      settled-items cs (send x s) h ∙ ap (λ q. q ++ (x ∷ items cs)) (sym (send-idle x s idle))
  settled-items (poll_call r ∷ cs) s h =
      ap (λ q. settled_by (poll r s).0 s.fut ++ q) (settled-items cs (poll r s).1 h)
      ∙ sym (append_assoc (settled_by (poll r s).0 s.fut) (in_progress (poll r s).1.fut) (items cs))
      ∙ ap (λ q. q ++ items cs) (poll-settles r s)
