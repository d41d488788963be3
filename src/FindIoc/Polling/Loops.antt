-- ===== src/FindIoc/Polling/Loops.antt =====
-- The two loops in `poll_next` of findioc.rs end.
use daqingest.Base.{
  is_nil, ℕ, zero, suc, ◌+◌, ◌≤◌, ◌<◌, ◌≡◌, ◌≢◌, refl, ap, ◌∙◌, Bool, true, false, ◌||◌, Bool-cases,
  inl, inr, Option, none, some, List, [], ◌∷◌, length, length-append, get_elem?, ltb, ◌==◌,
  if◌then◌else◌, arith,
}
use daqingest.FindIoc.{SocketAddrV4, BTreeMap, map_get, map_set, SearchBatch, FindIocStream}
use daqingest.FindIoc.Batches.{next_id, fill_batch, create_in_flight}
use daqingest.FindIoc.Pending.{fill_batch-Filled}
use daqingest.FindIoc.Polling.{
  put_target, queue_target, queue_batch, fill_buf, create_batches, total_tgts, send_fuel,
  create_fuel,
}

tgts_size : Option SearchBatch → ℕ
tgts_size none = 0
tgts_size (some b) = length b.tgts

map_set-total :
    (k : ℕ) (b : SearchBatch) (tgt : ℕ) (tgts : List ℕ) (m : BTreeMap SearchBatch)
    → map_get k m ≡ some b
    → b.tgts ≡ tgt ∷ tgts
    → suc (total_tgts (map_set k (record b { tgts = tgts }) m)) ≡ total_tgts m
unfolding map_get map_set tgts_size
map_set-total k b tgt tgts [] h e = ground arith
map_set-total k b tgt tgts ((i, c) ∷ m) h e = elim (Bool-cases (i == k)) [
  | inl same ↦
      let size : length c.tgts ≡ suc (length tgts) = ap tgts_size (rw same at h) ∙ ap length e in
      rw same (omega (arith, size))
  | inr other ↦
      let later = map_set-total k b tgt tgts m (rw other at h) e in rw other (omega (arith, later))
]

-- what is left for the first loop
measure : FindIocStream → ℕ
measure s = length s.batch_send_queue + total_tgts s.in_flight

put_target-measure :
    (x : Option SocketAddrV4) (bytes : List ℕ) (s : FindIocStream)
    → measure (put_target x bytes s) ≡ measure s
unfolding put_target measure
put_target-measure none bytes s = refl
put_target-measure (some _) bytes s = refl

queue_target-measure :
    (bid : ℕ) (batch : SearchBatch) (tgts : List ℕ) (s : FindIocStream)
    → map_get bid s.in_flight ≡ some batch
    → batch.tgts ≡ tgts
    → measure (queue_target bid batch tgts s) ≤ measure s
unfolding queue_target measure
queue_target-measure bid batch [] s h e = omega arith
queue_target-measure bid batch (tgt ∷ tgts) s h e =
    let less = map_set-total bid batch tgt tgts s.in_flight h e in
    rw (put_target-measure (get_elem? s.tgts tgt))
      (omega (arith, less, length-append s.batch_send_queue (bid ∷ [])))

queue_batch-measure :
    (bid : ℕ) (x : Option SearchBatch) (s : FindIocStream)
    → map_get bid s.in_flight ≡ x
    → measure (queue_batch bid x s) ≤ measure s
unfolding queue_batch
queue_batch-measure bid none s h = omega arith
queue_batch-measure bid (some batch) s h = queue_target-measure bid batch batch.tgts s h refl

fill_buf-Ends :
    (fuel : ℕ) (again : Bool) (s : FindIocStream)
    → measure s < fuel
    → fill_buf fuel (again, s) ≢ none
unfolding fill_buf measure
fill_buf-Ends zero again s h = absurd (omega arith)
fill_buf-Ends (suc fuel) again s h = elim (Bool-cases (is_nil s.buf1)) [
  | inl e ↦ rw e (by_queue (λ x t. fill_buf-Ends fuel x t) s.batch_send_queue refl)
  | inr e ↦ rw e (ground arith)
]
  where
    by_queue :
        ((x : Bool) (t : FindIocStream) → measure t < fuel → fill_buf fuel (x, t) ≢ none)
        → (q : List ℕ) → s.batch_send_queue ≡ q
        → ◌≢◌ {A = Option (Bool × FindIocStream)}
            (elim q [
              | [] ↦ some (again, s)
              | bid ∷ queue ↦ fill_buf fuel (
                true,
                queue_batch bid (map_get bid s.in_flight) (record s { batch_send_queue = queue }),
              )
            ])
            none
    by_queue later [] e = ground arith
    by_queue later (bid ∷ queue) e =
        let popped = record s { batch_send_queue = queue } in
        let less = queue_batch-measure bid (map_get bid s.in_flight) popped refl in
        later true (queue_batch bid (map_get bid s.in_flight) popped)
          (omega (arith, less, h, ap length e))

create_in_flight-shorter :
    (now : ℕ) (s : FindIocStream)
    → 1 ≤ s.channels_per_batch
    → 1 ≤ length s.channels_input
    → (length (create_in_flight now s).channels_input < length s.channels_input)
      × ((create_in_flight now s).channels_per_batch ≡ s.channels_per_batch)
unfolding create_in_flight
create_in_flight-shorter now s one some_input =
    let bid = (next_id s.batch_id).0 in
    let start = record s { batch_id = (next_id s.batch_id).1 } in
    let r = fill_batch s.channels_per_batch bid s.channels_input start in
    let f = fill_batch-Filled s.channels_per_batch bid s.channels_input start in
    (
      omega (
        arith,
        f.taken,
        ap length f.whole,
        length-append r.0.1 r.1.channels_input,
        one,
        some_input,
      ),
      f.per_batch,
    )

not_nil : {A : Type 0} (xs : List A) (b : Bool) → (is_nil xs || b) ≡ false → 1 ≤ length xs
not_nil [] b h = ground arith
not_nil (x ∷ xs) b h = omega arith

create_batches-Ends :
    (fuel now : ℕ) (again : Bool) (s : FindIocStream)
    → 1 ≤ s.channels_per_batch
    → length s.channels_input < fuel
    → create_batches fuel now (again, s) ≢ none
unfolding create_batches
create_batches-Ends zero now again s one h = absurd (omega arith)
create_batches-Ends (suc fuel) now again s one h =
    elim (Bool-cases (
      is_nil s.channels_input
      || (if ltb (length s.in_flight) s.in_flight_max then false else true))) [
        | inl c ↦ rw (create_batches, c) (ground arith)
        | inr c ↦
            let less = create_in_flight-shorter now s one (not_nil s.channels_input _ c) in
            rw (create_batches, c)
              (create_batches-Ends fuel now true (create_in_flight now s)
                (omega (arith, less.1, one)) (omega (arith, less.0, h)))
      ]

-- the two loops of a round
pub loops-end :
    (now : ℕ) (again : Bool) (s : FindIocStream)
    → 1 ≤ s.channels_per_batch
    → (fill_buf (send_fuel s) (again, s) ≢ none)
      × (create_batches (create_fuel s) now (again, s) ≢ none)
unfolding send_fuel create_fuel measure
loops-end now again s one = (
  fill_buf-Ends (send_fuel s) again s (omega arith),
  create_batches-Ends (create_fuel s) now again s one (omega arith),
)
