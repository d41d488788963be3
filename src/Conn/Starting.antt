-- ===== src/Conn/Starting.antt =====
-- The channels that `check_channels_state_init` of conn.rs asks the server for.
use daqingest.Base.{
  ℕ, ◌+◌, ◌-◌, ◌%◌, ◌^◌, ◌<◌, ◌≡◌, refl, ap, ◌∙◌, false, Bool-cases, inl, inr, Option, none, some,
  List, [], ◌∷◌, ◌++◌, append-nil, append_assoc, ◌==◌, Outcome, ok, and_then, arith,
}
use daqingest.Base.Maps.{BTreeMap, map_get, map_set}
use daqingest.Base.Maps.Laws.{Distinct}
use daqingest.CaProto.Message.{CaMsg, create_chan}
use daqingest.Conn.{
  Error, Clock, ChannelState, creating, fetching_series_id, created, error, ended, CaConn,
}
use daqingest.Conn.Channels.{keys, start_channel, start_channels, check_channels_state_init}
use daqingest.Conn.Tables.{Named, is_init, init_count, IsConsistent}

-- a channel behind the call
unfoldable pub started : Clock → ℕ → ChannelState → ChannelState
started clock cid (ChannelState.init cssid) = creating cssid cid clock.instant
started clock cid (creating a b c) = creating a b c
started clock cid (fetching_series_id st) = fetching_series_id st
started clock cid (created series st) = created series st
started clock cid error = error
started clock cid ended = ended

unfoldable pub all_started : Clock → BTreeMap ChannelState → BTreeMap ChannelState
all_started clock [] = []
all_started clock ((cid, x) ∷ m) = (cid, started clock cid x) ∷ all_started clock m

abbrev pub name_or_empty : Option (List ℕ) → List ℕ
name_or_empty none = []
name_or_empty (some n) = n

-- what a channel is asked for with
abbrev pub request : ℕ → Option (List ℕ) → ChannelState → List CaMsg
request cid name (ChannelState.init _) =
    (record { ty = create_chan (record { cid = cid; channel = name_or_empty name }) }) ∷ []
request cid name (creating _ _ _) = []
request cid name (fetching_series_id _) = []
request cid name (created _ _) = []
request cid name error = []
request cid name ended = []

-- the requests for all channels, in the order of their identifiers
unfoldable pub requests : BTreeMap (List ℕ) → BTreeMap ChannelState → List CaMsg
requests names [] = []
requests names ((cid, x) ∷ m) = request cid (map_get cid names) x ++ requests names m

-- no key of the second map is in the first
Disjoint : {A : Type 0} → BTreeMap A → BTreeMap A → Type 0
Disjoint m [] = Unit {0}
Disjoint m ((k, _) ∷ r) = (map_get k m ≡ none) × Disjoint m r

get-snoc_other :
    {A : Type 0} (j k : ℕ) (a : A) (m : BTreeMap A)
    → (k == j) ≡ false
    → map_get j m ≡ none
    → map_get j (m ++ (k, a) ∷ []) ≡ none
unfolding map_get
get-snoc_other j k a [] other h = ground arith
get-snoc_other j k a ((i, b) ∷ m) other h = elim (Bool-cases (i == j)) [
  | inl e ↦ absurd (ground arith)
  | inr e ↦ let rest = get-snoc_other j k a m other (rw e at h) in ground arith
]

Disjoint-snoc :
    {A : Type 0} (k : ℕ) (a : A) (m r : BTreeMap A)
    → Disjoint m r
    → map_get k r ≡ none
    → Disjoint (m ++ (k, a) ∷ []) r
unfolding Disjoint map_get
Disjoint-snoc k a m [] d h = tt
Disjoint-snoc k a m ((j, b) ∷ r) d h = elim (Bool-cases (j == k)) [
  | inl e ↦ absurd (ground arith)
  | inr e ↦ (get-snoc_other j k a m (ground arith) d.0, Disjoint-snoc k a m r d.1 (rw e at h))
]

Disjoint-nil : {A : Type 0} (r : BTreeMap A) → Disjoint [] r
unfolding Disjoint map_get
Disjoint-nil [] = tt
Disjoint-nil (_ ∷ r) = (refl, Disjoint-nil r)

get-middle :
    {A : Type 0} (k : ℕ) (a : A) (m r : BTreeMap A)
    → map_get k m ≡ none
    → map_get k (m ++ (k, a) ∷ r) ≡ some a
unfolding map_get
get-middle k a [] r h = ground arith
get-middle k a ((i, b) ∷ m) r h = elim (Bool-cases (i == k)) [
  | inl e ↦ absurd (ground arith)
  | inr e ↦ let rest = get-middle k a m r (rw e at h) in ground arith
]

set-middle :
    {A : Type 0} (k : ℕ) (a b : A) (m r : BTreeMap A)
    → map_get k m ≡ none
    → map_set k b (m ++ (k, a) ∷ r) ≡ m ++ (k, b) ∷ r
unfolding map_get map_set
set-middle k a b [] r h = ground arith
set-middle k a b ((i, c) ∷ m) r h = elim (Bool-cases (i == k)) [
  | inl e ↦ absurd (ground arith)
  | inr e ↦ let rest = set-middle k a b m r (rw e at h) in ground arith
]

one :
    {A E : Type 0} {msgs : List A} {e : E} {xs m : List E}
    → (msgs ≡ []) × (xs ≡ m)
    → (msgs ≡ []) × (◌≡◌ {A = List E} (e ∷ xs) (e ∷ m))
one {e} h = (h.0, ap (λ m. e ∷ m) h.1)

none_to_start :
    (clock : Clock) (names : BTreeMap (List ℕ)) (m : BTreeMap ChannelState)
    → init_count m ≡ 0
    → (requests names m ≡ []) × (all_started clock m ≡ m)
unfolding init_count requests all_started started
none_to_start clock names [] h = (refl, refl)
none_to_start clock names ((cid, ChannelState.init c) ∷ m) h = absurd (omega arith)
none_to_start clock names ((cid, creating a b c) ∷ m) h =
    one (none_to_start clock names m (omega (arith, h)))
none_to_start clock names ((cid, fetching_series_id st) ∷ m) h =
    one (none_to_start clock names m (omega (arith, h)))
none_to_start clock names ((cid, created series st) ∷ m) h =
    one (none_to_start clock names m (omega (arith, h)))
none_to_start clock names ((cid, error) ∷ m) h =
    one (none_to_start clock names m (omega (arith, h)))
none_to_start clock names ((cid, ended) ∷ m) h =
    one (none_to_start clock names m (omega (arith, h)))

module _ {B : Type 0} where
  -- the state with the channels `done` behind the call and `rest` before it
  abbrev between : CaConn B → BTreeMap ChannelState → ℕ → CaConn B
  between s channels count = record s { channels = channels; init_state_count = count }

  unchanged :
      (s : CaConn B) (msgs : List CaMsg) {channels : BTreeMap ChannelState} (k : ℕ)
      → ◌≡◌ {A = Outcome Error (List CaMsg) × CaConn B}
          (ok msgs, between s channels (0 + k))
          (ok (msgs ++ []), between s channels k)
  unchanged s msgs k = let same : 0 + k ≡ k = omega arith in rw (same, append-nil msgs) refl

  start_channel-Started :
      (clock : Clock) (cid : ℕ) (x : ChannelState) (msgs : List CaMsg) (s : CaConn B)
      (done rest : BTreeMap ChannelState) (k : ℕ) (n : List ℕ)
      → map_get cid done ≡ none
      → map_get cid s.name_by_cid ≡ some n
      → is_init x + k < 2 ^ 64
      → start_channel clock cid msgs (some x) (between s (done ++ (cid, x) ∷ rest) (is_init x + k))
        ≡ (
          ok (msgs ++ request cid (map_get cid s.name_by_cid) x),
          between s (done ++ (cid, started clock cid x) ∷ rest) k,
        )
  unfolding start_channel started
  start_channel-Started clock cid (ChannelState.init cssid) msgs s done rest k n apart named small =
      let less : (1 + k + (2 ^ 64 - 1)) % 2 ^ 64 ≡ k = omega (arith, small) in
      rw
        (
          start_channel,
          named,
          set-middle cid (ChannelState.init cssid) (creating cssid cid clock.instant) done rest
              apart,
          less,
        )
        refl
  start_channel-Started clock cid (creating a b c) msgs s done rest k n apart named small =
      unchanged s msgs k
  start_channel-Started clock cid (fetching_series_id st) msgs s done rest k n apart named small =
      unchanged s msgs k
  start_channel-Started clock cid (created series st) msgs s done rest k n apart named small =
      unchanged s msgs k
  start_channel-Started clock cid error msgs s done rest k n apart named small = unchanged s msgs k
  start_channel-Started clock cid ended msgs s done rest k n apart named small = unchanged s msgs k

  start_channels-Started :
      (clock : Clock) (msgs : List CaMsg) (s : CaConn B) (done rest : BTreeMap ChannelState) (k : ℕ)
      → Disjoint done rest
      → Distinct rest
      → Named s.name_by_cid rest
      → init_count rest + k < 2 ^ 64
      → start_channels clock (keys rest) msgs (between s (done ++ rest) (init_count rest + k))
        ≡ (ok (msgs ++ requests s.name_by_cid rest), between s (done ++ all_started clock rest) k)
  unfolding start_channels requests all_started init_count Distinct Named Disjoint
  start_channels-Started clock msgs s done [] k apart d named small = unchanged s msgs k
  start_channels-Started clock msgs s done ((cid, x) ∷ rest) k apart d named small =
      let one =
        start_channel-Started clock cid x msgs s done rest (init_count rest + k) named.0.0 apart.0
          named.0.1 (omega (arith, small)) in
      let y = started clock cid x in
      let now = request cid (map_get cid s.name_by_cid) x in
      let later =
        start_channels-Started clock (msgs ++ now) s (done ++ (cid, y) ∷ []) rest k
          (Disjoint-snoc cid y done rest apart.1 d.0) d.1 named.1 (omega (arith, small)) in
      let together : is_init x + init_count rest + k ≡ is_init x + (init_count rest + k) =
        omega arith in
      rw (together, get-middle cid x done rest apart.0)
        (ap (λ r. and_then r (λ msgs. start_channels clock (keys rest) msgs)) one
          ∙ simp (append_assoc) at later)

  -- On a connection with consistent tables, and a count below 2^64, check_channels_state_init
  -- does not fail: it asks for exactly the channels in the state Init, in the order of their
  -- identifiers and by their names, puts exactly those into the state Creating, and takes their
  -- number from the count.
  pub check_channels_state_init-Started :
      (clock : Clock) (s : CaConn B)
      → IsConsistent s
      → s.init_state_count < 2 ^ 64
      → check_channels_state_init clock s ≡ (
        ok (requests s.name_by_cid s.channels),
        record s {
          channels = all_started clock s.channels;
          init_state_count = s.init_state_count - init_count s.channels;
        },
      )
  unfolding check_channels_state_init
  check_channels_state_init-Started clock s v small = elim (Bool-cases (s.init_state_count == 0)) [
    | inl e ↦
        let nothing : init_count s.channels ≡ 0 = ground (arith, v.counted) in
        let idle = none_to_start clock s.name_by_cid s.channels nothing in
        let same : s.init_state_count - init_count s.channels ≡ s.init_state_count =
          ground (arith, nothing) in
        simp (e, idle.0, idle.1, same) refl
    | inr e ↦
        let k = s.init_state_count - init_count s.channels in
        let whole : init_count s.channels + k ≡ s.init_state_count = omega (arith, v.counted) in
        let all =
          start_channels-Started clock [] s [] s.channels k (Disjoint-nil s.channels) v.distinct
            v.named (omega (arith, small, whole)) in
        rw e (rw whole at all)
  ]
