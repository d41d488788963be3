-- ===== src/FindIoc/Timeouts.antt =====
-- `clear_timed_out` of findioc.rs gives up the batches that have run too long.
use mathlib.Core.Option
use daqingest.Base.{
  ℕ, ◌-◌, ◌<◌, ◌≡◌, refl, ap, ◌∙◌, Bool, true, false, Bool-cases, inl, inr, none, some, List, [],
  ◌∷◌, ◌++◌, map, length, ltb, ◌==◌, if◌then◌else◌, arith, Outcome, ok,
}
use daqingest.FindIoc.{Error, BTreeMap, map_remove, SearchBatch, FindIocRes, FindIocStream}
use daqingest.FindIoc.Batches.{not_done, timed_out, remove_keys, clear_timed_out}
use daqingest.FindIoc.Pending.{undone}

abbrev pub AllAbove : {A : Type 0} → ℕ → BTreeMap A → Type 0
AllAbove k [] = Unit
AllAbove k ((i, _) ∷ m) = (k < i) × AllAbove k m

-- The batches stand in the order of their keys, each with as many channels and marks as identifiers.
abbrev pub IsOrdered : BTreeMap SearchBatch → Type 0
IsOrdered [] = Unit
IsOrdered ((k, b) ∷ m) =
    AllAbove k m
    × (length b.channels ≡ length b.sids)
    × (length b.done ≡ length b.sids)
    × IsOrdered m

abbrev pub is_over : ℕ → ℕ → SearchBatch → Bool
is_over now batch_run_max b = ltb batch_run_max (now - b.ts_beg)

-- the batches that stay
abbrev pub still_running : ℕ → ℕ → BTreeMap SearchBatch → BTreeMap SearchBatch
still_running now max [] = []
still_running now max ((k, b) ∷ m) =
    if is_over now max b then still_running now max m else (k, b) ∷ still_running now max m

-- a channel that was not found
abbrev pub given_up : ℕ → List ℕ → FindIocRes
given_up dt ch = record { channel = ch; response_addr = none; addr = none; dt = dt }

-- what is reported of the batches that do not
abbrev pub all_given_up : ℕ → ℕ → BTreeMap SearchBatch → List FindIocRes
all_given_up now max [] = []
all_given_up now max ((k, b) ∷ m) =
    if is_over now max b
    then map (λ ch. given_up (now - b.ts_beg) ch) (undone b.channels b.done)
      ++ all_given_up now max m
    else all_given_up now max m

not_done-some :
    (sids : List ℕ) (channels : List (List ℕ)) (ds : List Bool)
    → length channels ≡ length sids
    → length ds ≡ length sids
    → (xs : List (ℕ × List ℕ)) × (not_done sids channels ds ≡ some xs)
      × (map (λ x. x.1) xs ≡ undone channels ds)
unfolding not_done
not_done-some [] [] [] h g = ([], refl, refl)
not_done-some [] (_ ∷ _) ds h g = absurd (omega arith)
not_done-some [] [] (_ ∷ _) h g = absurd (omega arith)
not_done-some (sid ∷ sids) [] ds h g = absurd (omega arith)
not_done-some (sid ∷ sids) (ch ∷ channels) [] h g = absurd (omega arith)
not_done-some (sid ∷ sids) (ch ∷ channels) (true ∷ ds) h g =
    not_done-some sids channels ds (omega arith) (omega arith)
not_done-some (sid ∷ sids) (ch ∷ channels) (false ∷ ds) h g =
    let n = not_done-some sids channels ds (omega arith) (omega arith) in
    ((sid, ch) ∷ n.0, ap (λ r. Option.map (λ xs. (sid, ch) ∷ xs) r) n.1, ap (λ r. ch ∷ r) n.2)

AllAboveKeys : ℕ → List ℕ → Type 0
AllAboveKeys k [] = Unit
AllAboveKeys k (i ∷ is) = (k < i) × AllAboveKeys k is

map_remove-above : {A : Type 0} (k : ℕ) (m : BTreeMap A) → AllAbove k m → map_remove k m ≡ m
unfolding map_remove
map_remove-above k [] h = refl
map_remove-above k ((i, a) ∷ m) (h, hs) =
    let other : (i == k) ≡ false = ground arith in
    rw other (ap (λ r. (i, a) ∷ r) (map_remove-above k m hs))

remove_keys-skip :
    {A : Type 0} (k : ℕ) (a : A) (ks : List ℕ) (m : BTreeMap A)
    → AllAboveKeys k ks
    → remove_keys ks ((k, a) ∷ m) ≡ (k, a) ∷ remove_keys ks m
unfolding remove_keys map_remove AllAboveKeys
remove_keys-skip k a [] m h = refl
remove_keys-skip k a (i ∷ is) m (h, hs) =
    let other : (k == i) ≡ false = ground arith in
    rw other (remove_keys-skip k a is (map_remove i m) hs)

reports-results :
    (dt : ℕ) (xs : List (ℕ × List ℕ)) (l : List (ℕ × FindIocRes))
    → map (λ x. x.1) (map (λ x. (x.0, given_up dt x.1)) xs ++ l)
      ≡ map (λ ch. given_up dt ch) (map (λ x. x.1) xs) ++ map (λ x. x.1) l
reports-results dt [] l = refl
reports-results dt (x ∷ xs) l = ap (λ r. given_up dt x.1 ∷ r) (reports-results dt xs l)

-- what the loop of `clear_timed_out` finds
record Found (now max : ℕ) (m : BTreeMap SearchBatch) : Type 0 where
  pub bids : List ℕ
  pub reports : List (ℕ × FindIocRes)
  pub reply : timed_out now max m ≡ some (bids, reports)
  pub results : map (λ x. x.1) reports ≡ all_given_up now max m
  pub removed : remove_keys bids m ≡ still_running now max m
  pub above : (k : ℕ) → AllAbove k m → AllAboveKeys k bids

timed_out-Found : (now max : ℕ) (m : BTreeMap SearchBatch) → IsOrdered m → Found now max m
unfolding timed_out remove_keys map_remove AllAboveKeys
timed_out-Found now max [] h = record {
  bids = [];
  reports = [];
  reply = refl;
  results = refl;
  removed = refl;
  above = λ k a. tt;
}
timed_out-Found now max ((k, b) ∷ m) (first, channels, marks, rest) =
    let f = timed_out-Found now max m rest in
    elim (Bool-cases (is_over now max b)) [
      | inl over ↦
          let dt = now - b.ts_beg in
          let n = not_done-some b.sids b.channels b.done channels marks in
          let same : (k == k) ≡ true = ground arith in
          record {
            bids = k ∷ f.bids;
            reports = map (λ x. (x.0, given_up dt x.1)) n.0 ++ f.reports;
            reply = rw (over, n.1, f.reply);
            results = rw over (
                reports-results dt n.0 f.reports
                ∙ ap (λ xs. map (λ ch. given_up dt ch) xs ++ map (λ x. x.1) f.reports) n.2
                ∙ ap (λ r. map (λ ch. given_up dt ch) (undone b.channels b.done) ++ r) f.results);
            removed = rw (over, same, map_remove-above k m first) f.removed;
            above = λ i a. (a.0, f.above i a.1);
          }
      | inr fine ↦ record {
        bids = f.bids;
        reports = f.reports;
        reply = rw (fine, f.reply);
        results = rw fine f.results;
        removed =
            rw fine
              (remove_keys-skip k b f.bids m (f.above k first) ∙ ap (λ r. (k, b) ∷ r) f.removed);
        above = λ i a. f.above i a.1;
      }
    ]

-- what `clear_timed_out` does
pub record Cleared (now : ℕ) (s : FindIocStream) (r : Outcome Error Unit × FindIocStream)
    : Type 0 where
  pub reply : r.0 ≡ ok tt
  pub in_flight : r.1.in_flight ≡ still_running now s.batch_run_max s.in_flight
  pub out_queue : r.1.out_queue ≡ s.out_queue ++ all_given_up now s.batch_run_max s.in_flight
  pub channels_input : r.1.channels_input ≡ s.channels_input

-- When the batches in flight stand in the order of their numbers, each with as many channels and
-- marks as identifiers, clear_timed_out does not panic; of the batches that have run longer than
-- allowed it reports exactly the channels that are not done, in order and without an address,
-- and the other batches stay.
pub clear_timed_out-Cleared :
    (now : ℕ) (s : FindIocStream) → IsOrdered s.in_flight → Cleared now s (clear_timed_out now s)
unfolding clear_timed_out
clear_timed_out-Cleared now s h =
    let f = timed_out-Found now s.batch_run_max s.in_flight h in
    rw f.reply (record {
      reply = refl;
      in_flight = f.removed;
      out_queue = ap (λ xs. s.out_queue ++ xs) f.results;
      channels_input = refl;
    })
