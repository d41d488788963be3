-- ===== src/FindIoc/Batches.antt =====
-- The batches in flight of findioc.rs: `create_in_flight`, `handle_result` and `clear_timed_out`.
use daqingest.Base.{
  ℕ, zero, suc, ◌+◌, ◌-◌, ◌%◌, ◌^◌, Bool, true, false, ◌&&◌, Option, none, some, List, [], ◌∷◌,
  ◌++◌, length, replicate, map, get_elem?, ltb, ◌==◌, if◌then◌else◌, Act, ◌>>=◌, ◌>>◌, pure, get,
  modify, or_panic, Outcome, ok,
}
use mathlib.Core.Option
use daqingest.FindIoc.{
  Error, BTreeMap, map_get, map_insert, map_remove, SocketAddrV4, SearchBatch, FindIocRes,
  FindIocStream,
}

-- `fetch_add(1)` as `u32`: the identifier, and the counter behind it
abbrev pub next_id : ℕ → ℕ × ℕ
next_id n = (n % 2 ^ 32, (n + 1) % 2 ^ 64)

unfoldable pub push : List ℕ → FindIocStream → FindIocStream
push x s = record s { channels_input = s.channels_input ++ (x ∷ []) }

-- The `while` loop, by the number of channels that the batch still takes: the identifiers and the
-- channels that it adds.
unfoldable pub fill_batch :
    ℕ → ℕ → List (List ℕ) → FindIocStream → (List ℕ × List (List ℕ)) × FindIocStream
fill_batch zero bid input s = (([], []), record s { channels_input = input })
fill_batch (suc n) bid [] s = (([], []), record s { channels_input = [] })
fill_batch (suc n) bid (ch ∷ input) s =
    let (sid, search_id2) = next_id s.search_id2 in
    let (added, s') =
      fill_batch n bid input
        (record s { search_id2 = search_id2; bid_by_sid = map_insert sid bid s.bid_by_sid }) in
    ((sid ∷ added.0, ch ∷ added.1), s')

-- the positions of the targets
abbrev pub positions : {A : Type 0} → ℕ → List A → List ℕ
positions i [] = []
positions i (_ ∷ xs) = i ∷ positions (i + 1) xs

unfoldable pub create_in_flight : ℕ → FindIocStream → FindIocStream
create_in_flight now s =
    let (bid, batch_id) = next_id s.batch_id in
    let (added, s') =
      fill_batch s.channels_per_batch bid s.channels_input (record s { batch_id = batch_id }) in
    record s' {
      in_flight =
          map_insert bid
            (record {
              ts_beg = now;
              tgts = positions 0 s.tgts;
              channels = added.1;
              sids = added.0;
              done = replicate (length added.1) false;
            })
            s'.in_flight;
      batch_send_queue = s'.batch_send_queue ++ (bid ∷ []);
    }

-- `batch.done[i2] = true`: `none` is the panic of an index out of range
unfoldable pub set_done : ℕ → List Bool → Option (List Bool)
set_done i [] = none
set_done zero (_ ∷ ds) = some (true ∷ ds)
set_done (suc i) (d ∷ ds) = Option.map (λ ds. d ∷ ds) (set_done i ds)

-- one entry of the batch that has the identifier; without a channel the mistake is logged
unfoldable pub answer_at :
    (List ℕ → FindIocRes) → ℕ → Act (SearchBatch × List FindIocRes) Error Unit
answer_at res i = do
  (batch, out_queue) ← get
  done ← or_panic (set_done i batch.done)
  modify (λ _. (
    record batch { done = done },
    elim (get_elem? batch.channels i) [ some ch ↦ out_queue ++ (res ch ∷ []) | none ↦ out_queue ],
  ))

-- the loop over the identifiers of the batch, from position `i`
unfoldable pub answer_loop :
    (List ℕ → FindIocRes) → ℕ → ℕ → List ℕ → Act (SearchBatch × List FindIocRes) Error Unit
answer_loop res sid i [] = pure tt
answer_loop res sid i (s2 ∷ sids) = do
  if s2 == sid then answer_at res i else pure tt
  answer_loop res sid (i + 1) sids

unfoldable pub all_done : List Bool → Bool
all_done [] = true
all_done (d ∷ ds) = d && all_done ds

-- the batch behind the loop: it leaves when all is done
unfoldable pub put_batch :
    ℕ → Outcome Error Unit × (SearchBatch × List FindIocRes) → Act FindIocStream Error Unit
put_batch bid (r, (batch, out_queue)) s = (
  r,
  record s {
    out_queue = out_queue;
    in_flight =
        if all_done batch.done
        then map_remove bid s.in_flight
        else map_insert bid batch s.in_flight;
    bids_all_done =
        if all_done batch.done then map_insert bid tt s.bids_all_done else s.bids_all_done;
  },
)

-- what is reported of a channel that was found
abbrev pub found_at : ℕ → SocketAddrV4 → SocketAddrV4 → SearchBatch → List ℕ → FindIocRes
found_at now src addr batch ch = record {
  channel = ch;
  response_addr = some src;
  addr = some addr;
  dt = now - batch.ts_beg;
}

-- the match on the batch in flight
unfoldable pub answer_batch :
    ℕ → SocketAddrV4 → ℕ × SocketAddrV4 → ℕ → Option SearchBatch → Act FindIocStream Error Unit
answer_batch now src (sid, addr) bid (some batch) s =
    put_batch bid (answer_loop (found_at now src addr batch) sid 0 batch.sids (batch, s.out_queue))
      s
answer_batch now src (sid, addr) bid none s = (ok tt, s)

-- an identifier that is not known
unfoldable pub count_done : Option (Unit {0}) → FindIocStream → FindIocStream
count_done (some _) s = record s {
  result_for_done_sid_count = (s.result_for_done_sid_count + 1) % 2 ^ 64;
}
count_done none s = s

-- the match on the batch of the identifier: the identifiers to remove
unfoldable pub answer_known :
    ℕ → SocketAddrV4 → ℕ × SocketAddrV4 → Option ℕ → Act FindIocStream Error (List ℕ)
answer_known now src x (some bid) = do
  s ← get
  answer_batch now src x bid (map_get bid s.in_flight)
  pure (x.0 ∷ [])
answer_known now src x none = do s ← get; modify (count_done (map_get x.0 s.sids_done)); pure []

-- one pair of the answer
unfoldable pub handle_one : ℕ → SocketAddrV4 → ℕ × SocketAddrV4 → Act FindIocStream Error (List ℕ)
handle_one now src x = do
  modify (λ s. record s { sids_done = map_insert x.0 tt s.sids_done })
  s ← get
  answer_known now src x (map_get x.0 s.bid_by_sid)

unfoldable pub handle_loop :
    ℕ → SocketAddrV4 → List (ℕ × SocketAddrV4) → Act FindIocStream Error (List ℕ)
handle_loop now src [] = pure []
handle_loop now src (x ∷ res) = do
  removed ← handle_one now src x
  later ← handle_loop now src res
  pure (removed ++ later)

-- `remove` of each key
unfoldable pub remove_keys : {A : Type 0} → List ℕ → BTreeMap A → BTreeMap A
remove_keys [] m = m
remove_keys (k ∷ ks) m = remove_keys ks (map_remove k m)

-- `insert` of each key
unfoldable pub insert_keys : List ℕ → BTreeMap Unit → BTreeMap Unit
insert_keys [] m = m
insert_keys (k ∷ ks) m = insert_keys ks (map_insert k tt m)

unfoldable pub handle_result :
    ℕ → SocketAddrV4 → List (ℕ × SocketAddrV4) → Act FindIocStream Error Unit
handle_result now src res = do
  sids_remove ← handle_loop now src res
  modify (λ s. record s { bid_by_sid = remove_keys sids_remove s.bid_by_sid })

-- the loop over the identifiers of a batch that has timed out: those that are not done, with their
-- channels; `none` is the panic of an index out of range
unfoldable pub not_done : List ℕ → List (List ℕ) → List Bool → Option (List (ℕ × List ℕ))
not_done [] channels ds = some []
not_done (sid ∷ sids) (ch ∷ channels) (true ∷ ds) = not_done sids channels ds
not_done (sid ∷ sids) (ch ∷ channels) (false ∷ ds) =
    Option.map (λ xs. (sid, ch) ∷ xs) (not_done sids channels ds)
not_done (sid ∷ sids) [] (true ∷ ds) = not_done sids [] ds
not_done (sid ∷ sids) [] (false ∷ ds) = none
not_done (sid ∷ sids) channels [] = none

-- the loop over the batches: the timed out ones, and what to report of them
unfoldable pub timed_out : ℕ → ℕ → BTreeMap SearchBatch → Option (List ℕ × List (ℕ × FindIocRes))
timed_out now batch_run_max [] = some ([], [])
timed_out now batch_run_max ((bid, batch) ∷ m) =
    let later = timed_out now batch_run_max m in
    let dt = now - batch.ts_beg in
    if ltb batch_run_max dt
    then (elim (not_done batch.sids batch.channels batch.done) [
      | none ↦ none
      | some xs ↦
          Option.map
            (λ l. (
              bid ∷ l.0,
              map (λ x. (x.0, record { channel = x.1; response_addr = none; addr = none; dt = dt }))
                    xs
                  ++ l.1,
            ))
            later
    ])
    else later

unfoldable pub clear_timed_out : ℕ → Act FindIocStream Error Unit
clear_timed_out now = do
  s ← get
  (bids, reports) ← or_panic (timed_out now s.batch_run_max s.in_flight)
  modify (λ s. record s {
    bids_timed_out = insert_keys bids s.bids_timed_out;
    out_queue = s.out_queue ++ map (λ x. x.1) reports;
    bid_by_sid = remove_keys (map (λ x. x.0) reports) s.bid_by_sid;
    in_flight = remove_keys bids s.in_flight;
  })
