-- ===== src/FindIoc/Pending.antt =====
-- The channels of findioc.rs that are neither found nor given up.
use daqingest.Base.{
  ℕ, zero, suc, min, ◌<◌, ◌≡◌, refl, sym, ap, ◌∙◌, Bool, false, List, [], ◌∷◌, ◌++◌, length,
  replicate, append_assoc, append-nil, le→ltb_false, ◌==◌, if◌then◌else◌, arith,
}
use daqingest.FindIoc.{BTreeMap, map_insert, SearchBatch, FindIocStream}
use daqingest.FindIoc.Batches.{next_id, fill_batch, positions, create_in_flight}

-- the channels of a batch that are not done
abbrev pub undone : List (List ℕ) → List Bool → List (List ℕ)
undone (ch ∷ channels) (d ∷ ds) = if d then undone channels ds else ch ∷ undone channels ds
undone _ _ = []

abbrev pub searched : BTreeMap SearchBatch → List (List ℕ)
searched [] = []
searched ((_, b) ∷ m) = undone b.channels b.done ++ searched m

-- those in flight, in the order of the batches, and those behind them in the queue
abbrev pub pending_channels : FindIocStream → List (List ℕ)
pending_channels s = searched s.in_flight ++ s.channels_input

abbrev pub AllBelow : {A : Type 0} → ℕ → BTreeMap A → Type 0
AllBelow k [] = Unit
AllBelow k ((i, _) ∷ m) = (i < k) × AllBelow k m

map_insert-last :
    {A : Type 0} (k : ℕ) (a : A) (m : BTreeMap A)
    → AllBelow k m
    → map_insert k a m ≡ m ++ ((k, a) ∷ [])
unfolding map_insert
map_insert-last k a [] h = refl
map_insert-last k a ((i, b) ∷ m) (h, hs) =
    let other : (i == k) ≡ false = ground arith in
    rw (other, le→ltb_false k i (omega arith)) (ap (λ r. (i, b) ∷ r) (map_insert-last k a m hs))

searched-append :
    (m : BTreeMap SearchBatch) (k : ℕ) (b : SearchBatch)
    → searched (m ++ ((k, b) ∷ [])) ≡ searched m ++ undone b.channels b.done
searched-append [] k b = append-nil (undone b.channels b.done)
searched-append ((i, c) ∷ m) k b =
    ap (λ r. undone c.channels c.done ++ r) (searched-append m k b)
    ∙ sym (append_assoc (undone c.channels c.done) (searched m) (undone b.channels b.done))

undone-new :
    (channels : List (List ℕ)) → undone channels (replicate (length channels) false) ≡ channels
undone-new [] = refl
undone-new (ch ∷ channels) = ap (λ r. ch ∷ r) (undone-new channels)

-- what the loop of `create_in_flight` takes
pub record Filled (n : ℕ) (input : List (List ℕ)) (s : FindIocStream)
    (r : (List ℕ × List (List ℕ)) × FindIocStream) : Type 0 where
  pub whole : r.0.1 ++ r.1.channels_input ≡ input
  pub taken : length r.0.1 ≡ min n (length input)
  pub sids : length r.0.0 ≡ length r.0.1
  pub in_flight : r.1.in_flight ≡ s.in_flight
  pub out_queue : r.1.out_queue ≡ s.out_queue
  pub per_batch : r.1.channels_per_batch ≡ s.channels_per_batch

pub fill_batch-Filled :
    (n bid : ℕ) (input : List (List ℕ)) (s : FindIocStream)
    → Filled n input s (fill_batch n bid input s)
unfolding fill_batch
fill_batch-Filled zero bid input s = record {
  whole = refl;
  taken = omega arith;
  sids = refl;
  in_flight = refl;
  out_queue = refl;
  per_batch = refl;
}
fill_batch-Filled (suc n) bid [] s = record {
  whole = refl;
  taken = omega arith;
  sids = refl;
  in_flight = refl;
  out_queue = refl;
  per_batch = refl;
}
fill_batch-Filled (suc n) bid (ch ∷ input) s =
    let f = fill_batch-Filled n bid input _ in
    record {
      whole = ap (λ r. ch ∷ r) f.whole;
      taken = omega (arith, f.taken);
      sids = ap suc f.sids;
      in_flight = f.in_flight;
      out_queue = f.out_queue;
      per_batch = f.per_batch;
    }

-- what `create_in_flight` does
pub record Created (now : ℕ) (s s' : FindIocStream) : Type 0 where
  pub batch : SearchBatch
  pub added : s'.in_flight ≡ s.in_flight ++ (((next_id s.batch_id).0, batch) ∷ [])
  pub pending : pending_channels s' ≡ pending_channels s
  pub size : length batch.channels ≡ min s.channels_per_batch (length s.channels_input)
  pub sids : length batch.sids ≡ length batch.channels
  pub fresh : undone batch.channels batch.done ≡ batch.channels
  pub out_queue : s'.out_queue ≡ s.out_queue

-- When the new batch has a greater number than all in flight, it is the last one in flight; it
-- has the first channels of the queue, as many as a batch takes or as there are, each with an
-- identifier and none of them done; the channels searched and queued stay the same sequence, and
-- nothing is reported.
pub create_in_flight-Created :
    (now : ℕ) (s : FindIocStream)
    → AllBelow (next_id s.batch_id).0 s.in_flight
    → Created now s (create_in_flight now s)
unfolding create_in_flight
create_in_flight-Created now s h =
    let bid = (next_id s.batch_id).0 in
    let start = record s { batch_id = (next_id s.batch_id).1 } in
    let r = fill_batch s.channels_per_batch bid s.channels_input start in
    let f = fill_batch-Filled s.channels_per_batch bid s.channels_input start in
    let batch : SearchBatch = record {
      ts_beg = now;
      tgts = positions 0 s.tgts;
      channels = r.0.1;
      sids = r.0.0;
      done = replicate (length r.0.1) false;
    } in
    let added : map_insert bid batch r.1.in_flight ≡ s.in_flight ++ ((bid, batch) ∷ []) =
      ap (λ m. map_insert bid batch m) f.in_flight ∙ map_insert-last bid batch s.in_flight h in
    record {
      batch = batch;
      added = added;
      pending =
          ap (λ m. searched m ++ r.1.channels_input) added
          ∙ ap (λ c. c ++ r.1.channels_input) (searched-append s.in_flight bid batch)
          ∙ append_assoc (searched s.in_flight) (undone batch.channels batch.done)
              r.1.channels_input
          ∙ ap (λ c. searched s.in_flight ++ (c ++ r.1.channels_input)) (undone-new r.0.1)
          ∙ ap (λ c. searched s.in_flight ++ c) f.whole;
      size = f.taken;
      sids = f.sids;
      fresh = undone-new r.0.1;
      out_queue = f.out_queue;
    }
