-- ===== src/Batcher/Examples.antt =====
-- A run of batcher.rs: one full batch, one that the time emits, and two items left at the end.
use daqingest.Base.{ℕ, ◌≡◌, refl, Bool, true, false, List, [], ◌∷◌, arith}
use mathlib.Core.Bool.{false≢true}
use daqingest.Batcher.{Received, item, no_more_input, elapsed, Batcher, batch}
use daqingest.Batcher
use daqingest.Batcher.Order.{held, batch-items}
use daqingest.Batcher.Sizes.{Sized, batch-Sized}

abbrev inputs : List (Bool × Received ℕ)
inputs =
    (true, item 1)
    ∷ (true, item 2)
    ∷ (true, item 3)
    ∷ (true, elapsed)
    ∷ (true, item 4)
    ∷ (true, no_more_input)
    ∷ []

abbrev idle : Batcher ℕ
idle = record { all = []; do_emit = false; sent = [] }

-- The last item is in no batch.
batch_test :
    batch 2 inputs idle
    ≡ record { all = 4 ∷ []; do_emit = false; sent = (1 ∷ 2 ∷ []) ∷ (3 ∷ []) ∷ [] }
unfolding batch Batcher.receive Batcher.emit
batch_test = refl

batch-items_example : held (batch 2 inputs idle) ≡ 1 ∷ 2 ∷ 3 ∷ 4 ∷ []
batch-items_example = batch-items 2 inputs idle

batch-Sized_example : Sized 2 (batch 2 inputs idle)
batch-Sized_example =
    batch-Sized 2 inputs idle (omega arith) (refl, (refl, (refl, (refl, (refl, (refl, tt))))))
      (record {
        filled = λ e. absurd (false≢true e);
        below = omega arith;
        unfilled = λ _. omega arith;
        batches = tt;
      })
