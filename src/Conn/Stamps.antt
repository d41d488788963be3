-- ===== src/Conn/Stamps.antt =====
-- The partition and the offset that an event of conn.rs is stored at.
use daqingest.Base.{
  ℕ, ◌+◌, ◌*◌, ◌/◌, ◌%◌, ◌^◌, ◌-◌, ◌≤◌, ◌<◌, ◌≡◌, ◌↔◌, refl, ◌∙◌, Bool, true, false, ◌||◌,
  Bool-cases, inl, inr, Option, some, [], ◌∷◌, ◌++◌, leb, ◌==◌, ok, arith,
}
use mathlib.Core.Path.{subst}
use native.Mathlib.Nat.{mod-lt, div-add-mod'}
use daqingest.Ema.{tick}
use daqingest.CaProto.Error.{Shape}
use daqingest.CaProto.Message.{EventAddRes}
use daqingest.CaProto.Convert.{data_value_from}
use daqingest.InsertQueue.Items.{InsertItem, insert}
use daqingest.Conn.{Env, CreatedState}
use daqingest.Conn.Inserts.{
  sub_u64, Insertion, choose_msp, event_add_insert, insert_copies, insert_wait, choose_grid,
  do_event_insert,
}

module _ {B : Type 0} (env : Env B) where
  -- the length of the grid of partitions
  abbrev pub grid : ℕ
  grid = env.proto.sec * 10

  -- The partition stands on the grid, and the next hour fits the numbers.
  pub record IsStamped (last : ℕ) : Type 0 where
    pub index : ℕ
    pub on_grid : last ≡ index * grid
    pub fits : last + env.hour < 2 ^ 64

  -- What is chosen for an event at time `ts`, behind the partition `last`.
  pub record Chosen (ts last : ℕ) (r : (ℕ × Bool) × CreatedState) : Type 0 where
    pub before : r.0.0 ≤ ts
    pub near : ts - r.0.0 < env.hour
    pub kept : r.1.ts_msp_last ≡ r.0.0
    pub index : ℕ
    pub on_grid : r.0.0 ≡ index * grid
    pub bumped : (r.0.1 ≡ true) ↔ ((r.0.0 == last) ≡ false)

  choose_msp-Chosen :
      (ts : ℕ) (st : CreatedState)
      → 0 < env.proto.sec
      → grid ≤ env.hour
      → IsStamped st.ts_msp_last
      → st.ts_msp_last ≤ ts
      → Chosen ts st.ts_msp_last (choose_msp env ts st.ts_msp_last st)
  unfolding choose_msp
  choose_msp-Chosen ts st some_sec wide v ordered =
      let fits : (st.ts_msp_last + env.hour) % 2 ^ 64 ≡ st.ts_msp_last + env.hour =
        omega (arith, v.fits) in
      elim (Bool-cases
        (leb 64000 st.inserted_in_ts_msp || leb ((st.ts_msp_last + env.hour) % 2 ^ 64) ts)) [
          | inl new ↦
              let whole = div-add-mod' ts grid in
              let rest = mod-lt ts {m = grid} (omega (arith, some_sec)) in
              let msp = ts / grid * grid in
              elim (Bool-cases (msp == st.ts_msp_last)) [
                | inl same ↦
                    rw (new, same)
                      (record {
                        before = omega (arith, whole);
                        near = omega (arith, whole, rest, wide);
                        kept = ground (arith, same);
                        index = ts / grid;
                        on_grid = refl;
                        bumped = rw same (ground arith);
                      })
                | inr other ↦
                    rw (new, other)
                      (record {
                        before = omega (arith, whole);
                        near = omega (arith, whole, rest, wide);
                        kept = refl;
                        index = ts / grid;
                        on_grid = refl;
                        bumped = rw other (ground arith);
                      })
              ]
          | inr old ↦ rw old (record {
            before = ordered;
            near = ground (arith, fits, old, ordered);
            kept = refl;
            index = v.index;
            on_grid = v.on_grid;
            bumped = ground arith;
          })
        ]

  -- One item is inserted at the time of the event, and the state is ready for the next.
  pub record Inserted (series scalar_type : ℕ) (shape : Shape) (ts : ℕ) (ev : EventAddRes)
      (c c' : Insertion) : Type 0 where
    pub item : InsertItem
    pub queued : c'.item_queue ≡ c.item_queue ++ insert item ∷ []
    pub at_time : item.ts_msp + item.ts_lsp ≡ ts
    pub near : item.ts_lsp < env.hour
    pub index : ℕ
    pub on_grid : item.ts_msp ≡ index * grid
    pub kept : c'.st.ts_msp_last ≡ item.ts_msp
    pub bumped : (item.msp_bump ≡ true) ↔ ((item.ts_msp == c.st.ts_msp_last) ≡ false)
    pub of_series : item.series ≡ series
    pub of_type : (item.scalar_type ≡ scalar_type) × (item.shape ≡ shape)
    pub value : item.val ≡ data_value_from ev.value.value
    pub unmuted : c'.st.muted_before ≡ 0
    pub counter : c'.inserts_counter ≡ (c.inserts_counter + 1) % 2 ^ 64

  sub_u64-le : (a b : ℕ) → b ≤ a → a < 2 ^ 64 → sub_u64 a b ≡ a - b
  unfolding sub_u64
  sub_u64-le a b h small = omega arith

  choose_grid-keeps :
      (ts : ℕ) (st : CreatedState)
      → ((choose_grid env ts st).1.ts_msp_last ≡ st.ts_msp_last)
        × ((choose_grid env ts st).1.muted_before ≡ st.muted_before)
        × ((choose_grid env ts st).1.insert_next_earliest ≡ st.insert_next_earliest)
  unfolding choose_grid
  choose_grid-keeps ts st = ground arith

  choose_msp-same :
      (ts last : ℕ) (st : CreatedState)
      → ((choose_msp env ts last st).1.muted_before ≡ st.muted_before)
        × ((choose_msp env ts last st).1.insert_next_earliest ≡ st.insert_next_earliest)
  unfolding choose_msp
  choose_msp-same ts last st = ground arith

  -- the state of the channel when the item is made, and the item of the grid
  ticked : ℕ → CreatedState → CreatedState
  ticked tsnow st = record st {
    muted_before = 0;
    insert_item_ivl_ema = tick env.f32 tsnow st.insert_item_ivl_ema;
  }

  on_new_grid : ℕ → ℕ → ℕ → CreatedState → Option ℕ × CreatedState
  on_new_grid ts tsnow earliest st =
      choose_grid env ts (record (ticked tsnow st) { insert_next_earliest = earliest })

  counted_up : Insertion → Insertion
  counted_up d = record d { inserts_counter = (d.inserts_counter + 1) % 2 ^ 64 }

  do_event_insert-eq :
      (series scalar_type : ℕ) (shape : Shape) (ts : ℕ) (ev : EventAddRes) (tsnow mus earliest : ℕ)
      (c : Insertion)
      → env.checked_add tsnow (insert_wait env mus (ticked tsnow c.st)) ≡ some earliest
      → do_event_insert env series scalar_type shape ts ev tsnow mus [] c ≡ (
        ok tt,
        counted_up (
            event_add_insert env series scalar_type shape ts ev c.st.ts_msp_last
              (on_new_grid ts tsnow earliest c.st).0
              (record c { st = (on_new_grid ts tsnow earliest c.st).1 })),
      )
  unfolding do_event_insert insert_copies ticked on_new_grid counted_up
  do_event_insert-eq series scalar_type shape ts ev tsnow mus earliest c added = simp added refl

  on_new_grid-keeps :
      (ts tsnow earliest : ℕ) (st : CreatedState)
      → ((on_new_grid ts tsnow earliest st).1.ts_msp_last ≡ st.ts_msp_last)
        × ((on_new_grid ts tsnow earliest st).1.muted_before ≡ 0)
        × ((on_new_grid ts tsnow earliest st).1.insert_next_earliest ≡ earliest)
  unfolding on_new_grid ticked
  on_new_grid-keeps ts tsnow earliest st = choose_grid-keeps ts _

  event_add_insert-Inserted :
      (series scalar_type : ℕ) (shape : Shape) (ts : ℕ) (ev : EventAddRes) (g : Option ℕ)
      (c : Insertion) (st : CreatedState)
      → 0 < env.proto.sec
      → grid ≤ env.hour
      → IsStamped st.ts_msp_last
      → st.ts_msp_last ≤ ts
      → ts < 2 ^ 64
      → st.ts_msp_last ≡ c.st.ts_msp_last
      → st.muted_before ≡ 0
      → let d = counted_up (
          event_add_insert env series scalar_type shape ts ev st.ts_msp_last g
            (record c { st = st })) in
        (d.st.insert_next_earliest ≡ st.insert_next_earliest)
        × Inserted series scalar_type shape ts ev c d
  unfolding event_add_insert counted_up
  event_add_insert-Inserted series scalar_type shape ts ev g c st some_sec wide v ordered small kept
        unmuted =
      let m = choose_msp env ts st.ts_msp_last st in
      let h = choose_msp-Chosen ts st some_sec wide v ordered in
      let offset = sub_u64-le ts m.0.0 h.before small in
      let same = choose_msp-same ts st.ts_msp_last st in
      (
        same.1,
        record {
          item = _;
          queued = refl;
          at_time = omega (arith, offset, h.before);
          near = omega (arith, offset, h.near);
          index = h.index;
          on_grid = h.on_grid;
          kept = h.kept;
          bumped = subst (λ (x : ℕ). (m.0.1 ≡ true) ↔ ((m.0.0 == x) ≡ false)) kept h.bumped;
          of_series = refl;
          of_type = (refl, refl);
          value = refl;
          unmuted = same.0 ∙ unmuted;
          counter = refl;
        },
      )

  pub do_event_insert-Inserted :
      (series scalar_type : ℕ) (shape : Shape) (ts : ℕ) (ev : EventAddRes) (tsnow mus earliest : ℕ)
      (c : Insertion)
      → 0 < env.proto.sec
      → grid ≤ env.hour
      → IsStamped c.st.ts_msp_last
      → c.st.ts_msp_last ≤ ts
      → ts < 2 ^ 64
      → env.checked_add tsnow (
          insert_wait env mus (record c.st {
            muted_before = 0;
            insert_item_ivl_ema = tick env.f32 tsnow c.st.insert_item_ivl_ema;
          }))
        ≡ some earliest
      → let r = do_event_insert env series scalar_type shape ts ev tsnow mus [] c in
        (r.0 ≡ ok tt)
        × (r.1.st.insert_next_earliest ≡ earliest)
        × Inserted series scalar_type shape ts ev c r.1
  unfolding ticked
  do_event_insert-Inserted series scalar_type shape ts ev tsnow mus earliest c some_sec wide v
        ordered small added =
      let g = on_new_grid ts tsnow earliest c.st in
      let k = on_new_grid-keeps ts tsnow earliest c.st in
      let stamped : IsStamped g.1.ts_msp_last = rw k.0 v in
      let one =
        event_add_insert-Inserted series scalar_type shape ts ev g.0 c g.1 some_sec wide stamped
          (omega (arith, k.0, ordered)) small k.0 k.1 in
      let done = do_event_insert-eq series scalar_type shape ts ev tsnow mus earliest c added in
      let all =
        subst
          (λ (x : ℕ).
            let d =
              counted_up (
                event_add_insert env series scalar_type shape ts ev x g.0
                  (record c { st = g.1 })) in
            (d.st.insert_next_earliest ≡ g.1.insert_next_earliest)
            × Inserted series scalar_type shape ts ev c d)
          k.0 one in
      rw done (refl, all.0 ∙ k.2, all.1)

  -- An event before the partition of the last one, when fewer than 64000 events are in it and
  -- the next hour fits the numbers, is stored with an offset that wraps around 2^64.
  pub event_add_insert-wraps :
      (series scalar_type : ℕ) (shape : Shape) (ts : ℕ) (ev : EventAddRes) (g : Option ℕ)
      (c : Insertion)
      → c.st.inserted_in_ts_msp < 64000
      → ts < c.st.ts_msp_last
      → c.st.ts_msp_last + env.hour < 2 ^ 64
      → (item : InsertItem) × ((event_add_insert env series scalar_type shape ts ev c.st.ts_msp_last
            g c).item_queue
          ≡ c.item_queue ++ insert item ∷ [])
        × (item.ts_msp ≡ c.st.ts_msp_last)
        × (item.ts_lsp ≡ 2 ^ 64 - (c.st.ts_msp_last - ts))
  unfolding event_add_insert choose_msp sub_u64
  event_add_insert-wraps series scalar_type shape ts ev g c few before fits =
      let stays : (leb 64000 c.st.inserted_in_ts_msp
            || leb ((c.st.ts_msp_last + env.hour) % 2 ^ 64) ts)
          ≡ false =
        ground (arith, few, before, fits) in
      simp stays (_, refl, refl, omega (arith, before, fits))
