-- ===== src/Batcher.antt =====
-- batchtools/src/batcher.rs: the task that collects items to batches by size and by time.
pub mod Order
pub mod Sizes
mod Examples
use daqingest.Base.{ℕ, Bool, true, false, List, [], ◌∷◌, ◌++◌, length, ltb, leb, if◌then◌else◌}

-- What `timeout(timeout, rx.recv()).await` gives: an item, the end of the input, or the time is up.
pub data Received {ℓ} (A : Type ℓ) : Type ℓ where
  item : A → Received A
  no_more_input : Received A
  elapsed : Received A

-- The variables of the task, and the batches that the output channel has taken.
pub record Batcher {ℓ} (A : Type ℓ) : Type ℓ where
  pub all : List A
  pub do_emit : Bool
  pub sent : List (List A)

unfoldable pub new {ℓ} : {A : Type ℓ} → Batcher A
new = record { all = []; do_emit = false; sent = [] }

-- `batch_tx.send(batch).await`, which gives the batch back when the output channel is closed
unfoldable pub emit {ℓ} : {A : Type ℓ} → Bool → Batcher A → Batcher A
emit accepted s =
    if s.do_emit
    then (if accepted
        then record { all = []; do_emit = false; sent = s.sent ++ (s.all ∷ []) }
        else record s { do_emit = false })
    else s

module _ {ℓ} {A : Type ℓ} (batch_limit : ℕ) where
  unfoldable pub receive : Received A → Batcher A → Batcher A
  receive (item x) s =
      let all = s.all ++ (x ∷ []) in
      if leb batch_limit (length all)
      then record { all = all; do_emit = true; sent = s.sent }
      else record s { all = all }
  receive no_more_input s = s
  receive elapsed s = if ltb 0 (length s.all) then record s { do_emit = true } else s

  -- The loop, over the answers of the output channel (asked or not) and what is received; it ends
  -- with the input.
  unfoldable pub batch : List (Bool × Received A) → Batcher A → Batcher A
  batch [] s = s
  batch ((accepted, no_more_input) ∷ rs) s = emit accepted s
  batch ((accepted, r) ∷ rs) s = batch rs (receive r (emit accepted s))
