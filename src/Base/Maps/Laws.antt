-- ===== src/Base/Maps/Laws.antt =====
-- The laws of the maps.
use daqingest.Base.{
  ℕ, ◌≡◌, refl, true, false, Bool-cases, inl, inr, none, some, List, [], ◌∷◌, ◌==◌, if◌then◌else◌,
  arith,
}
use daqingest.Base.Maps.{
  BTreeMap, map_get, map_insert, map_remove, map_set, text_eq, text_lt, TextMap, text_get,
  text_insert, text_remove_value,
}

pub get-insert :
    {A : Type 0} (j k : ℕ) (a : A) (m : BTreeMap A)
    → map_get j (map_insert k a m) ≡ (if k == j then some a else map_get j m)
unfolding map_get map_insert
get-insert j k a [] = refl
get-insert j k a ((i, b) ∷ m) = let rest = get-insert j k a m in ground arith

pub get-remove :
    {A : Type 0} (j k : ℕ) (m : BTreeMap A)
    → map_get j (map_remove k m) ≡ (if k == j then none else map_get j m)
unfolding map_get map_remove
get-remove j k [] = ground arith
get-remove j k ((i, b) ∷ m) = let rest = get-remove j k m in ground arith

pub text_eq_sound : (xs ys : List ℕ) → text_eq xs ys ≡ true → xs ≡ ys
unfolding text_eq
text_eq_sound [] [] h = refl
text_eq_sound [] (y ∷ ys) h = absurd (ground arith)
text_eq_sound (x ∷ xs) [] h = absurd (ground arith)
text_eq_sound (x ∷ xs) (y ∷ ys) h = elim (Bool-cases (text_eq xs ys)) [
  | inl e ↦ let rest = text_eq_sound xs ys e in ground arith
  | inr e ↦ ground arith
]

pub text_eq_refl : (xs : List ℕ) → text_eq xs xs ≡ true
unfolding text_eq
text_eq_refl [] = refl
text_eq_refl (x ∷ xs) = let rest = text_eq_refl xs in ground arith

pub text_get-insert :
    {A : Type 0} (j k : List ℕ) (a : A) (m : TextMap A)
    → text_get j (text_insert k a m) ≡ (if text_eq k j then some a else text_get j m)
unfolding text_get text_insert
text_get-insert j k a [] = refl
text_get-insert j k a ((i, b) ∷ m) = elim (Bool-cases (text_eq i k)) [
  | inl e ↦ rw (text_eq_sound i k e, text_eq_refl k) (ground arith)
  | inr e ↦
      let rest = text_get-insert j k a m in
      ground (arith, rest, text_eq_sound i j, text_eq_sound k j, text_eq_refl j)
]

-- No key stands twice.
unfoldable pub Distinct : {A : Type 0} → BTreeMap A → Type 0
Distinct [] = Unit {0}
Distinct ((k, _) ∷ m) = (map_get k m ≡ none) × Distinct m

unfoldable pub TextDistinct : {A : Type 0} → TextMap A → Type 0
TextDistinct [] = Unit {0}
TextDistinct ((k, _) ∷ m) = (text_get k m ≡ none) × TextDistinct m

pub map_insert-Distinct :
    {A : Type 0} (k : ℕ) (a : A) (m : BTreeMap A)
    → map_get k m ≡ none
    → Distinct m
    → Distinct (map_insert k a m)
unfolding Distinct map_insert map_get
map_insert-Distinct k a [] h d = (refl, tt)
map_insert-Distinct k a ((i, b) ∷ m) h d = elim (Bool-cases (i == k)) [
  | inl e ↦ absurd (ground arith)
  | inr e ↦
      let rest = map_insert-Distinct k a m (ground arith) d.1 in
      ground (arith, rest, h, d, get-insert i k a m)
]

pub map_remove-Distinct :
    {A : Type 0} (k : ℕ) (m : BTreeMap A) → Distinct m → Distinct (map_remove k m)
unfolding Distinct map_remove
map_remove-Distinct k [] d = tt
map_remove-Distinct k ((i, b) ∷ m) d =
    let rest = map_remove-Distinct k m d.1 in ground (arith, rest, d, get-remove i k m)

pub text_insert-Distinct :
    {A : Type 0} (k : List ℕ) (a : A) (m : TextMap A)
    → text_get k m ≡ none
    → TextDistinct m
    → TextDistinct (text_insert k a m)
unfolding TextDistinct text_insert text_get
text_insert-Distinct k a [] h d = (refl, tt)
text_insert-Distinct k a ((i, b) ∷ m) h d = elim (Bool-cases (text_eq i k)) [
  | inl e ↦ absurd (ground arith)
  | inr e ↦ elim (Bool-cases (text_lt k i)) [
    | inl l ↦ rw (e, l) (h, d)
    | inr l ↦
        let rest = text_insert-Distinct k a m (rw e at h) d.1 in
        rw (e, l) (ground (arith, text_get-insert i k a m, text_eq_sound k i, text_eq_refl i), rest)
  ]
]

pub text_get-removed_none :
    (k : List ℕ) (v : ℕ) (m : TextMap ℕ)
    → text_get k m ≡ none
    → text_get k (text_remove_value v m) ≡ none
unfolding text_get text_remove_value
text_get-removed_none k v [] h = refl
text_get-removed_none k v ((i, b) ∷ m) h = elim (Bool-cases (text_eq i k)) [
  | inl e ↦ absurd (ground arith)
  | inr e ↦ let rest = text_get-removed_none k v m (rw e at h) in ground arith
]

pub text_remove_value-Distinct :
    (v : ℕ) (m : TextMap ℕ) → TextDistinct m → TextDistinct (text_remove_value v m)
unfolding TextDistinct text_remove_value
text_remove_value-Distinct v [] d = tt
text_remove_value-Distinct v ((i, b) ∷ m) d =
    let rest = text_remove_value-Distinct v m d.1 in
    let none_left = text_get-removed_none i v m d.0 in ground arith

-- The other values stay.
pub text_get-kept :
    (k : List ℕ) (v c : ℕ) (m : TextMap ℕ)
    → text_get k m ≡ some c
    → (c == v) ≡ false
    → text_get k (text_remove_value v m) ≡ some c
unfolding text_get text_remove_value
text_get-kept k v c [] h e = absurd (ground arith)
text_get-kept k v c ((i, b) ∷ m) h e = elim (Bool-cases (text_eq i k)) [
  | inl same ↦ ground arith
  | inr other ↦ let rest = text_get-kept k v c m (rw other at h) e in ground arith
]

pub text_get-left :
    (k : List ℕ) (v c : ℕ) (m : TextMap ℕ)
    → TextDistinct m
    → text_get k (text_remove_value v m) ≡ some c
    → (text_get k m ≡ some c) × ((c == v) ≡ false)
unfolding text_get text_remove_value TextDistinct
text_get-left k v c [] d h = absurd (ground arith)
text_get-left k v c ((i, b) ∷ m) d h = elim (Bool-cases (b == v)) [
  | inl gone ↦
      let left = text_get-left k v c m d.1 (rw gone at h) in
      elim (Bool-cases (text_eq i k)) [
        | inl same ↦ absurd (ground (arith, left, d, text_eq_sound i k same))
        | inr other ↦ rw other left
      ]
  | inr stays ↦ elim (Bool-cases (text_eq i k)) [
    | inl same ↦ ground arith
    | inr other ↦ rw other (text_get-left k v c m d.1 (rw (stays, other) at h))
  ]
]

-- A change of a key that is there.
pub get-set_same :
    {A : Type 0} (k : ℕ) (a b : A) (m : BTreeMap A)
    → map_get k m ≡ some b
    → map_get k (map_set k a m) ≡ some a
unfolding map_get map_set
get-set_same k a b [] h = absurd (ground arith)
get-set_same k a b ((i, c) ∷ m) h = elim (Bool-cases (i == k)) [
  | inl e ↦ ground arith
  | inr e ↦ let rest = get-set_same k a b m (rw e at h) in ground arith
]
