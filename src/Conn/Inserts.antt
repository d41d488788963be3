-- ===== src/Conn/Inserts.antt =====
-- `event_add_insert` and `do_event_insert` of conn.rs: the items that an event becomes.
use daqingest.Base.{
  ℕ, ◌+◌, ◌*◌, ◌/◌, ◌%◌, ◌^◌, ◌-◌, Bool, true, false, ◌||◌, Option, none, some, List, [], ◌∷◌, ◌++◌,
  leb, ◌==◌, if◌then◌else◌, Act, ◌>>=◌, ◌>>◌, pure, throw, get, modify, or_panic,
}
use daqingest.Ema.{tick}
use daqingest.CaProto.Error.{Shape}
use daqingest.CaProto.Convert.{data_value_from}
use daqingest.CaProto.Message.{EventAddRes}
use daqingest.InsertQueue.Items.{QueryItem, insert}
use daqingest.Conn.{Error, time_overflow, Env, CreatedState}

-- subtraction on `u64`
unfoldable pub sub_u64 : ℕ → ℕ → ℕ
sub_u64 a b = (a + (2 ^ 64 - b)) % 2 ^ 64

-- What the insertion of an event has at hand.
pub record Insertion : Type 0 where
  pub st : CreatedState
  pub item_queue : List QueryItem
  pub inserts_counter : ℕ

module _ {B : Type 0} (env : Env B) where
  -- the partition, whether it is a new one, and the state behind it
  unfoldable pub choose_msp : ℕ → ℕ → CreatedState → (ℕ × Bool) × CreatedState
  choose_msp ts ts_msp_last st =
      if leb 64000 st.inserted_in_ts_msp || leb ((st.ts_msp_last + env.hour) % 2 ^ 64) ts
      then (let div = env.proto.sec * 10 in
          let ts_msp = ts / div * div in
          if ts_msp == st.ts_msp_last
          then ((ts_msp, false), st)
          else ((ts_msp, true), record st { ts_msp_last = ts_msp; inserted_in_ts_msp = 1 }))
      else ((ts_msp_last, false), record st { inserted_in_ts_msp = st.inserted_in_ts_msp + 1 })

  unfoldable pub event_add_insert :
      ℕ → ℕ → Shape → ℕ → EventAddRes → ℕ → Option ℕ → Insertion → Insertion
  event_add_insert series scalar_type shape ts ev ts_msp_last ts_msp_grid c =
      let (msp, st) = choose_msp ts ts_msp_last c.st in
      record c {
        st = st;
        item_queue =
            c.item_queue
            ++ insert (record {
              series = series;
              ts_msp = msp.0;
              ts_lsp = sub_u64 ts msp.0;
              msp_bump = msp.1;
              ts_msp_grid = ts_msp_grid;
              pulse = 0;
              scalar_type = scalar_type;
              shape = shape;
              val = data_value_from ev.value.value;
            })
              ∷ [];
      }

  -- The loop over the copies, which runs from the last one: `i` is the position of the first. A
  -- remainder by 0 is a panic.
  unfoldable pub insert_copies :
      ℕ → ℕ → Shape → ℕ → EventAddRes → ℕ → Option ℕ → ℕ → List (ℕ × ℕ) → Act Insertion Error Unit
  insert_copies series scalar_type shape ts ev ts_msp_last grid i [] = pure tt
  insert_copies series scalar_type shape ts ev ts_msp_last grid i ((m, l) ∷ copies) = do
    insert_copies series scalar_type shape ts ev ts_msp_last grid (i + 1) copies
    c ← get
    r ← or_panic (if m == 0 then none else some (c.inserts_counter % m))
    if r == l
        then modify (λ c.
          event_add_insert series scalar_type shape (sub_u64 (sub_u64 ts 1) i) ev ts_msp_last grid
            c)
        else pure tt

  -- the wait until the next insert, in nanoseconds
  unfoldable pub insert_wait : ℕ → CreatedState → ℕ
  insert_wait insert_ivl_min_mus st =
      let f = env.f32 in
      let ema = st.insert_item_ivl_ema.avg in
      let ivl_min = f.mul (f.from_u64 insert_ivl_min_mus) 0x358637bd in
      let dt = f.div (f.max (f.sub ivl_min ema.ema) 0) ema.k in
      f.to_u64 (f.mul dt 0x49742400) * 1000

  -- the grid position, when it is a new one
  unfoldable pub choose_grid : ℕ → CreatedState → Option ℕ × CreatedState
  choose_grid ts st =
      let grid =
        (ts / env.ts_msp_grid_unit / env.ts_msp_grid_spacing * env.ts_msp_grid_spacing) % 2 ^ 32 in
      if st.ts_msp_grid_last == grid
      then (none, st)
      else (some grid, record st { ts_msp_grid_last = grid })

  unfoldable pub do_event_insert :
      ℕ → ℕ → Shape → ℕ → EventAddRes → ℕ → ℕ → List (ℕ × ℕ) → Act Insertion Error Unit
  do_event_insert series scalar_type shape ts ev tsnow insert_ivl_min_mus copies = do
    modify (λ c. record c {
      st = record c.st {
        muted_before = 0;
        insert_item_ivl_ema = tick env.f32 tsnow c.st.insert_item_ivl_ema;
      };
    })
    c ← get
    earliest ← elim (env.checked_add tsnow (insert_wait insert_ivl_min_mus c.st)) [
      | none ↦ throw time_overflow
      | some t ↦ pure t
    ]
    let (grid, st) = choose_grid ts (record c.st { insert_next_earliest = earliest })
    modify (λ c. record c { st = st })
    insert_copies series scalar_type shape ts ev c.st.ts_msp_last grid 0 copies
    modify (λ d. event_add_insert series scalar_type shape ts ev c.st.ts_msp_last grid d)
    modify (λ d. record d { inserts_counter = (d.inserts_counter + 1) % 2 ^ 64 })
