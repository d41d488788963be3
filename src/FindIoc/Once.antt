-- ===== src/FindIoc/Once.antt =====
-- `handle_result` of findioc.rs reports a channel once.
use mathlib.Core.Option
use daqingest.Base.{
  ℕ, zero, suc, ◌+◌, ◌-◌, ◌<◌, ◌≡◌, ◌≢◌, refl, ap, ◌∙◌, Bool, true, false, Option, none, some, List,
  [], ◌∷◌, ◌++◌, length, length-append, get_elem?, ◌==◌, arith, Outcome, ok,
}
use daqingest.FindIoc.{
  Error, BTreeMap, map_get, map_insert, map_remove, SocketAddrV4, SearchBatch, FindIocRes,
  FindIocStream,
}
use daqingest.FindIoc.Batches.{
  set_done, answer_at, answer_loop, put_batch, found_at, answer_batch, count_done, answer_known,
  handle_one, handle_loop, remove_keys, handle_result,
}

-- identifiers other than `sid`
abbrev pub AllOther : ℕ → List ℕ → Type 0
AllOther sid [] = Unit
AllOther sid (s2 ∷ sids) = (s2 ≢ sid) × AllOther sid sids

answer_loop-other :
    (res : List ℕ → FindIocRes) (sid i : ℕ) (sids : List ℕ) (b : SearchBatch × List FindIocRes)
    → AllOther sid sids
    → answer_loop res sid i sids b ≡ (ok tt, b)
unfolding answer_loop
answer_loop-other res sid i [] b h = refl
answer_loop-other res sid i (s2 ∷ sids) b (h, hs) =
    let other : (s2 == sid) ≡ false = ground arith in
    rw other (answer_loop-other res sid (i + 1) sids b hs)

set_done-some :
    (i : ℕ) (ds : List Bool) → i < length ds → (ds' : List Bool) × (set_done i ds ≡ some ds')
unfolding set_done
set_done-some i [] h = absurd (omega arith)
set_done-some zero (d ∷ ds) h = (true ∷ ds, refl)
set_done-some (suc i) (d ∷ ds) h =
    let n = set_done-some i ds (omega arith) in (d ∷ n.0, ap (λ r. Option.map (λ ds. d ∷ ds) r) n.1)

module _ (res : List ℕ → FindIocRes) (sid : ℕ) (b : SearchBatch) (out_queue : List FindIocRes)
    (ch : List ℕ) where
  -- The one identifier that is asked for, at its position.
  answer_loop-at :
      (i : ℕ) (before after : List ℕ)
      → AllOther sid before
      → AllOther sid after
      → i + length before < length b.done
      → get_elem? b.channels (i + length before) ≡ some ch
      → (b' : SearchBatch) × (answer_loop res sid i (before ++ (sid ∷ after)) (b, out_queue)
          ≡ (ok tt, (b', out_queue ++ (res ch ∷ []))))
  unfolding answer_loop answer_at
  answer_loop-at i [] after hb ha inside at =
      let here : (sid == sid) ≡ true = ground arith in
      let at' : get_elem? b.channels i ≡ some ch =
        ap (λ j. get_elem? b.channels j) {y = i + 0} (omega arith) ∙ at in
      let d = set_done-some i b.done (omega arith) in
      let b' = record b { done = d.0 } in
      (
        b',
        rw (here, d.1, at')
            (answer_loop-other res sid (i + 1) after (b', out_queue ++ (res ch ∷ [])) ha),
      )
  answer_loop-at i (s2 ∷ before) after (h, hb) ha inside at =
      let other : (s2 == sid) ≡ false = ground arith in
      let n =
        answer_loop-at (i + 1) before after hb ha (omega arith)
          (ap (λ j. get_elem? b.channels j) {y = i + suc (length before)} (omega arith) ∙ at) in
      (n.0, rw other n.1)

-- A search in flight: the batch has the identifier once, with its channel and its mark.
pub record IsSearched (s : FindIocStream) (sid : ℕ) (ch : List ℕ) : Type 0 where
  pub bid : ℕ
  pub batch : SearchBatch
  pub by_sid : map_get sid s.bid_by_sid ≡ some bid
  pub in_flight : map_get bid s.in_flight ≡ some batch
  pub before : List ℕ
  pub after : List ℕ
  pub sids : batch.sids ≡ before ++ (sid ∷ after)
  pub others : AllOther sid before × AllOther sid after
  pub channel : get_elem? batch.channels (length before) ≡ some ch
  pub marked : length batch.done ≡ length batch.sids

map_get-removed : {A : Type 0} (k : ℕ) (m : BTreeMap A) → map_get k (map_remove k m) ≡ none
unfolding map_get map_remove
map_get-removed k [] = refl
map_get-removed k ((i, a) ∷ m) = let n = map_get-removed k m in ground arith

-- what the answer leaves
pub record Reported (now : ℕ) (src addr : SocketAddrV4) (sid : ℕ) (ch : List ℕ) (s : FindIocStream)
    (r : Outcome Error Unit × FindIocStream) : Type 0 where
  pub after : FindIocStream
  pub reply : r ≡ (ok tt, after)
  pub dt : ℕ
  pub out_queue :
      after.out_queue
      ≡ s.out_queue
        ++ ((record { channel = ch; response_addr = some src; addr = some addr; dt = dt }) ∷ [])
  pub by_sid : after.bid_by_sid ≡ map_remove sid s.bid_by_sid

answer_batch-eq :
    (now : ℕ) (src addr : SocketAddrV4) (sid : ℕ) (ch : List ℕ) {s0 : FindIocStream}
    (h : IsSearched s0 sid ch) (s : FindIocStream)
    → (b' : SearchBatch) × (answer_batch now src (sid, addr) h.bid (some h.batch) s
        ≡ put_batch h.bid (ok tt, (b', s.out_queue ++ (found_at now src addr h.batch ch ∷ []))) s)
unfolding answer_batch
answer_batch-eq now src addr sid ch h s =
    let res = found_at now src addr h.batch in
    let inside : 0 + length h.before < length h.batch.done =
      omega (arith, h.marked, ap length h.sids, length-append h.before (sid ∷ h.after)) in
    let a =
      answer_loop-at res sid h.batch s.out_queue ch 0 h.before h.after h.others.0 h.others.1 inside
        (ap (λ j. get_elem? h.batch.channels j) {y = length h.before} (omega arith) ∙ h.channel) in
    (
      a.0,
      ap (λ r. put_batch h.bid r s)
          (ap (λ l. answer_loop res sid 0 l (h.batch, s.out_queue)) h.sids ∙ a.1),
    )

pub handle_result-Reported :
    (now : ℕ) (src addr : SocketAddrV4) (sid : ℕ) (ch : List ℕ) (s : FindIocStream)
    → IsSearched s sid ch
    → Reported now src addr sid ch s (handle_result now src ((sid, addr) ∷ []) s)
unfolding handle_result handle_loop handle_one answer_known remove_keys put_batch
handle_result-Reported now src addr sid ch s h =
    let s1 = record s { sids_done = map_insert sid tt s.sids_done } in
    let a = answer_batch-eq now src addr sid ch h s1 in
    rw (h.by_sid, h.in_flight, a.1)
      (record {
        after = _;
        reply = refl;
        dt = now - h.batch.ts_beg;
        out_queue = refl;
        by_sid = refl;
      })

handle_result-unknown :
    (now : ℕ) (src addr : SocketAddrV4) (sid : ℕ) (s : FindIocStream)
    → map_get sid s.bid_by_sid ≡ none
    → ((handle_result now src ((sid, addr) ∷ []) s).0 ≡ ok tt)
      × ((handle_result now src ((sid, addr) ∷ []) s).1.out_queue ≡ s.out_queue)
unfolding handle_result handle_loop handle_one answer_known remove_keys count_done
handle_result-unknown now src addr sid s h = rw h (
  refl,
  count_done-out (map_get sid (map_insert sid tt s.sids_done))
      (record s { sids_done = map_insert sid tt s.sids_done }),
)
  where
    count_done-out :
        (x : Option (Unit {0})) (s : FindIocStream) → (count_done x s).out_queue ≡ s.out_queue
    count_done-out none s = refl
    count_done-out (some _) s = refl

-- When a search is in flight, with its identifier once in its batch, beside its channel and a
-- mark, an answer with this identifier reports the channel with the address given, and a second
-- answer with it reports nothing.
pub handle_result-once :
    (now later : ℕ) (src addr src' addr' : SocketAddrV4) (sid : ℕ) (ch : List ℕ) (s : FindIocStream)
    → IsSearched s sid ch
    → let s1 = (handle_result now src ((sid, addr) ∷ []) s).1 in
      let s2 = (handle_result later src' ((sid, addr') ∷ []) s1).1 in
      (dt : ℕ) × (s2.out_queue
        ≡ s.out_queue
          ++ ((record { channel = ch; response_addr = some src; addr = some addr; dt = dt }) ∷ []))
handle_result-once now later src addr src' addr' sid ch s h =
    let r = handle_result-Reported now src addr sid ch s h in
    let gone : map_get sid r.after.bid_by_sid ≡ none =
      ap (λ m. map_get sid m) r.by_sid ∙ map_get-removed sid s.bid_by_sid in
    (
      r.dt,
      ap (λ x. (handle_result later src' ((sid, addr') ∷ []) x.1).1.out_queue) r.reply
          ∙ (handle_result-unknown later src' addr' sid r.after gone).1
          ∙ r.out_queue,
    )
