-- ===== src/Batcher/Sizes.antt =====
-- The sizes of the batches of batcher.rs.
use daqingest.Base.{
  ℕ, ◌≤◌, ◌<◌, ◌≡◌, refl, sym, Bool, Bool-cases, inl, inr, true, false, List, [], ◌∷◌, ◌++◌, length,
  length-append, leb, leb_false→lt, ltb→lt, ltb, arith,
}
use mathlib.Core.Bool.{false≢true}
use daqingest.Batcher.{Received, item, no_more_input, elapsed, Batcher, emit, receive, batch}

module _ {ℓ} {A : Type ℓ} (batch_limit : ℕ) where
  abbrev pub AllSized : List (List A) → Type 0
  AllSized [] = Unit
  AllSized (b ∷ bs) = ((0 < length b) × (length b ≤ batch_limit)) × AllSized bs

  -- the output channel takes every batch that it is offered
  abbrev pub AllAccepted : List (Bool × Received A) → Type 0
  AllAccepted [] = Unit
  AllAccepted ((accepted, _) ∷ rs) = (accepted ≡ true) × AllAccepted rs

  -- An open batch is below the limit, and one to be emitted has items, at most as many as the limit.
  pub record Sized (s : Batcher A) : Type 0 where
    pub filled : s.do_emit ≡ true → 0 < length s.all
    pub below : length s.all ≤ batch_limit
    pub unfilled : s.do_emit ≡ false → length s.all < batch_limit
    pub batches : AllSized s.sent

  AllSized-append :
      (bs : List (List A)) (b : List A)
      → AllSized bs
      → 0 < length b
      → length b ≤ batch_limit
      → AllSized (bs ++ (b ∷ []))
  AllSized-append [] b h p q = ((p, q), tt)
  AllSized-append (c ∷ cs) b (h, hs) p q = (h, AllSized-append cs b hs p q)

  -- After the sending nothing is to be emitted.
  emit-Sized :
      (s : Batcher A)
      → 0 < batch_limit
      → Sized s
      → Sized (emit true s) × ((emit true s).do_emit ≡ false)
  unfolding emit
  emit-Sized s pos z = elim (Bool-cases s.do_emit) [
    | inl full ↦ rw full (
      record {
        filled = λ e. absurd (false≢true e);
        below = omega arith;
        unfilled = λ _. pos;
        batches = AllSized-append s.sent s.all z.batches (z.filled full) z.below;
      },
      refl,
    )
    | inr idle ↦ rw idle (
      record {
        filled = λ e. absurd (false≢true e);
        below = z.below;
        unfilled = λ _. z.unfilled idle;
        batches = z.batches;
      },
      refl,
    )
  ]

  receive-Sized :
      (r : Received A) (s : Batcher A)
      → s.do_emit ≡ false
      → Sized s
      → Sized (receive batch_limit r s)
  unfolding receive
  receive-Sized (item x) s idle z =
      let size = length-append s.all (x ∷ []) in
      elim (Bool-cases (leb batch_limit (length (s.all ++ (x ∷ []))))) [
        | inl full ↦ rw full record {
          filled = λ _. omega (arith, size);
          below = omega (arith, size, z.unfilled idle);
          unfilled = λ e. absurd (false≢true (sym e));
          batches = z.batches;
        }
        | inr less ↦ rw less record {
          filled = λ _. omega (arith, size);
          below = omega (arith, size, z.unfilled idle);
          unfilled = λ _. leb_false→lt _ _ less;
          batches = z.batches;
        }
      ]
  receive-Sized no_more_input s idle z = z
  receive-Sized elapsed s idle z = elim (Bool-cases (ltb 0 (length s.all))) [
    | inl some_items ↦ rw some_items record {
      filled = λ _. ltb→lt _ _ some_items;
      below = z.below;
      unfilled = λ e. absurd (false≢true (sym e));
      batches = z.batches;
    }
    | inr no_items ↦ rw no_items z
  ]

  -- With a positive limit and an output channel that takes every batch, every batch sent has at
  -- least one item and at most as many as the limit, and an open batch is below it; this holds
  -- after any number of steps from a state in which it holds.
  pub batch-Sized :
      (rs : List (Bool × Received A)) (s : Batcher A)
      → 0 < batch_limit
      → AllAccepted rs
      → Sized s
      → Sized (batch batch_limit rs s)
  unfolding batch
  batch-Sized [] s pos taken z = z
  batch-Sized ((accepted, no_more_input) ∷ rs) s pos (h, taken) z = rw h (emit-Sized s pos z).0
  batch-Sized ((accepted, item x) ∷ rs) s pos (h, taken) z =
      let e = emit-Sized s pos z in
      rw h (
        batch-Sized rs (receive batch_limit (item x) (emit true s)) pos taken
          (receive-Sized (item x) (emit true s) e.1 e.0))
  batch-Sized ((accepted, elapsed) ∷ rs) s pos (h, taken) z =
      let e = emit-Sized s pos z in
      rw h (
        batch-Sized rs (receive batch_limit elapsed (emit true s)) pos taken
          (receive-Sized elapsed (emit true s) e.1 e.0))
