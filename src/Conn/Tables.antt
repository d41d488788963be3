-- ===== src/Conn/Tables.antt =====
-- The tables of a connection of conn.rs: the names, the identifiers, and the channels.
pub mod Edits
use daqingest.Base.{
  ℕ, ◌+◌, ◌%◌, ◌^◌, ◌≤◌, ◌<◌, ◌≡◌, refl, ap, false, Bool-cases, inl, inr, Option, none, some, List,
  [], ◌∷◌, length, ltb, ◌==◌, arith,
}
use daqingest.Base.Maps.{
  BTreeMap, TextMap, map_get, map_insert, map_remove, text_get, text_insert, text_remove_value,
  text_eq,
}
use daqingest.Base.Maps.Laws.{
  get-insert, get-remove, text_get-insert, text_eq_sound, text_eq_refl, Distinct, TextDistinct,
  map_insert-Distinct, map_remove-Distinct, text_insert-Distinct, text_remove_value-Distinct,
  text_get-kept, text_get-left,
}
use daqingest.Conn.{ChannelState, creating, fetching_series_id, created, error, ended, CaConn, next}
use daqingest.Conn.Channels.{
  cid_by_name_expl, insert_channel, channel_add, channel_remove, ChannelSetOp, add, remove,
  apply_op, apply_channel_ops,
}

-- Every channel has a name.
unfoldable pub Named : BTreeMap (List ℕ) → BTreeMap ChannelState → Type 0
Named names [] = Unit {0}
Named names ((cid, _) ∷ m) = ((n : List ℕ) × (map_get cid names ≡ some n)) × Named names m

abbrev pub is_init : ChannelState → ℕ
is_init (ChannelState.init _) = 1
is_init (creating _ _ _) = 0
is_init (fetching_series_id _) = 0
is_init (created _ _) = 0
is_init error = 0
is_init ended = 0

-- how many channels are yet to be asked for
unfoldable pub init_count : BTreeMap ChannelState → ℕ
init_count [] = 0
init_count ((_, x) ∷ m) = is_init x + init_count m

-- The two tables of names are inverse to each other, and no identifier is above the last.
pub record AreInverse (by_name : TextMap ℕ) (names : BTreeMap (List ℕ)) (store : ℕ) : Type 0 where
  pub to_name : (n : List ℕ) (c : ℕ) → text_get n by_name ≡ some c → map_get c names ≡ some n
  pub to_cid : (c : ℕ) (n : List ℕ) → map_get c names ≡ some n → text_get n by_name ≡ some c
  pub fresh : (c : ℕ) (n : List ℕ) → map_get c names ≡ some n → c ≤ store
  pub distinct : TextDistinct by_name

pub record IsConsistent {B : Type 0} (s : CaConn B) : Type 0 where
  pub inverse : AreInverse s.cid_by_name s.name_by_cid s.cid_store
  pub distinct : Distinct s.channels
  pub named : Named s.name_by_cid s.channels
  pub counted : init_count s.channels ≤ s.init_state_count

some-inj : {A : Type 0} {x y : A} → ◌≡◌ {A = Option A} (some x) (some y) → x ≡ y
some-inj {A} {x} h = ap (λ (o : Option A). elim o [ none ↦ x | some z ↦ z ]) h

pub insert-AreInverse :
    (name : List ℕ) (by_name : TextMap ℕ) (names : BTreeMap (List ℕ)) (store : ℕ)
    → text_get name by_name ≡ none
    → AreInverse by_name names store
    → AreInverse
        (text_insert name (store + 1) by_name)
        (map_insert (store + 1) name names)
        (store + 1)
insert-AreInverse name by_name names store absent v = record {
  to_name = λ n c h. elim (Bool-cases (text_eq name n)) [
    | inl e ↦
        let h' = rw (text_get-insert n name (store + 1) by_name, e) at h in
        rw (get-insert c (store + 1) name names) (ground (arith, h', text_eq_sound name n e))
    | inr e ↦
        let h' = rw (text_get-insert n name (store + 1) by_name, e) at h in
        let old = v.to_name n c h' in
        let low = v.fresh c n old in
        rw (get-insert c (store + 1) name names) (ground (arith, old, low))
  ];
  to_cid = λ c n h. elim (Bool-cases ((store + 1) == c)) [
    | inl e ↦
        let same : name ≡ n = some-inj (rw (get-insert c (store + 1) name names, e) at h) in
        rw (text_get-insert n name (store + 1) by_name) (ground (arith, same, e, text_eq_refl name))
    | inr e ↦
        let old = v.to_cid c n (rw (get-insert c (store + 1) name names, e) at h) in
        rw (text_get-insert n name (store + 1) by_name)
          (ground (arith, old, absent, text_eq_sound name n))
  ];
  fresh = λ c n h. elim (Bool-cases ((store + 1) == c)) [
    | inl e ↦ ground arith
    | inr e ↦
        let low = v.fresh c n (rw (get-insert c (store + 1) name names, e) at h) in
        omega (arith, low)
  ];
  distinct = text_insert-Distinct name (store + 1) by_name absent v.distinct;
}

pub remove-AreInverse :
    (cid : ℕ) (by_name : TextMap ℕ) (names : BTreeMap (List ℕ)) (store : ℕ)
    → AreInverse by_name names store
    → AreInverse (text_remove_value cid by_name) (map_remove cid names) store
remove-AreInverse cid by_name names store v = record {
  to_name = λ n c h.
      let left = text_get-left n cid c by_name v.distinct h in
      let old = v.to_name n c left.0 in rw (get-remove c cid names) (ground (arith, left, old));
  to_cid = λ c n h. elim (Bool-cases (cid == c)) [
    | inl e ↦ absurd (ground (arith, rw (get-remove c cid names, e) at h))
    | inr e ↦
        text_get-kept n cid c by_name (v.to_cid c n (rw (get-remove c cid names, e) at h))
          (ground arith)
  ];
  fresh = λ c n h. elim (Bool-cases (cid == c)) [
    | inl e ↦ absurd (ground (arith, rw (get-remove c cid names, e) at h))
    | inr e ↦ v.fresh c n (rw (get-remove c cid names, e) at h)
  ];
  distinct = text_remove_value-Distinct cid by_name v.distinct;
}

pub Named-insert_name :
    (c : ℕ) (n : List ℕ) (names : BTreeMap (List ℕ)) (m : BTreeMap ChannelState)
    → Named names m
    → Named (map_insert c n names) m
unfolding Named
Named-insert_name c n names [] h = tt
Named-insert_name c n names ((cid, _) ∷ m) h = (
  elim (Bool-cases (c == cid)) [
    | inl e ↦ (n, rw (get-insert cid c n names, e) refl)
    | inr e ↦ (h.0.0, rw (get-insert cid c n names, e) h.0.1)
  ],
  Named-insert_name c n names m h.1,
)

pub Named-insert :
    (cid : ℕ) (n : List ℕ) (x : ChannelState) (names : BTreeMap (List ℕ))
    (m : BTreeMap ChannelState)
    → map_get cid names ≡ some n
    → Named names m
    → Named names (map_insert cid x m)
unfolding Named map_insert
Named-insert cid n x names [] e h = ((n, e), tt)
Named-insert cid n x names ((i, y) ∷ m) e h =
    let rest = Named-insert cid n x names m e h.1 in
    elim (Bool-cases (i == cid)) [
      | inl same ↦ rw (map_insert, same) ((n, e), h.1)
      | inr other ↦ elim (Bool-cases (ltb cid i)) [
        | inl l ↦ rw (map_insert, other, l) ((n, e), h)
        | inr l ↦ rw (map_insert, other, l) (h.0, rest)
      ]
    ]

pub Named-remove :
    (cid : ℕ) (names : BTreeMap (List ℕ)) (m : BTreeMap ChannelState)
    → Named names m
    → Named (map_remove cid names) (map_remove cid m)
unfolding Named map_remove
Named-remove cid names [] h = tt
Named-remove cid names ((i, x) ∷ m) h =
    let rest = Named-remove cid names m h.1 in
    elim (Bool-cases (i == cid)) [
      | inl same ↦ rw same rest
      | inr other ↦
          let apart : (cid == i) ≡ false = ground arith in
          rw other ((h.0.0, rw (get-remove i cid names, apart) h.0.1), rest)
    ]

pub init_count-insert :
    (cid : ℕ) (x : ChannelState) (m : BTreeMap ChannelState)
    → init_count (map_insert cid x m) ≤ is_init x + init_count m
unfolding init_count map_insert
init_count-insert cid x [] = omega arith
init_count-insert cid x ((i, y) ∷ m) = let rest = init_count-insert cid x m in ground arith

pub init_count-remove :
    (cid : ℕ) (m : BTreeMap ChannelState) → init_count (map_remove cid m) ≤ init_count m
unfolding init_count map_remove
init_count-remove cid [] = omega arith
init_count-remove cid ((i, y) ∷ m) = let rest = init_count-remove cid m in ground arith
