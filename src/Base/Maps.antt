-- ===== src/Base/Maps.antt =====
-- `BTreeMap`, by its entries in the order of the keys, which are numbers or texts.
pub mod Laws
use daqingest.Base.{
  ℕ, Bool, true, false, ◌&&◌, ◌||◌, Option, none, some, List, [], ◌∷◌, ltb, ◌==◌, if◌then◌else◌,
}

abbrev pub BTreeMap : Type 0 → Type 0
BTreeMap A = List (ℕ × A)

unfoldable pub map_get : {A : Type 0} → ℕ → BTreeMap A → Option A
map_get k [] = none
map_get k ((i, a) ∷ m) = if i == k then some a else map_get k m

unfoldable pub map_insert : {A : Type 0} → ℕ → A → BTreeMap A → BTreeMap A
map_insert k a [] = (k, a) ∷ []
map_insert k a ((i, b) ∷ m) =
    if i == k
    then (k, a) ∷ m
    else if ltb k i
    then (k, a) ∷ (i, b) ∷ m
    else (i, b) ∷ map_insert k a m

unfoldable pub map_remove : {A : Type 0} → ℕ → BTreeMap A → BTreeMap A
map_remove k [] = []
map_remove k ((i, b) ∷ m) = let rest = map_remove k m in if i == k then rest else (i, b) ∷ rest

-- a change through `get_mut`
unfoldable pub map_set : {A : Type 0} → ℕ → A → BTreeMap A → BTreeMap A
map_set k a [] = []
map_set k a ((i, b) ∷ m) = let rest = map_set k a m in if i == k then (k, a) ∷ m else (i, b) ∷ rest

-- texts, which are ordered by their bytes
unfoldable pub text_eq : List ℕ → List ℕ → Bool
text_eq [] [] = true
text_eq [] (_ ∷ _) = false
text_eq (_ ∷ _) [] = false
text_eq (x ∷ xs) (y ∷ ys) = x == y && text_eq xs ys

unfoldable pub text_lt : List ℕ → List ℕ → Bool
text_lt [] [] = false
text_lt [] (_ ∷ _) = true
text_lt (_ ∷ _) [] = false
text_lt (x ∷ xs) (y ∷ ys) = ltb x y || (x == y && text_lt xs ys)

abbrev pub TextMap : Type 0 → Type 0
TextMap A = List (List ℕ × A)

unfoldable pub text_get : {A : Type 0} → List ℕ → TextMap A → Option A
text_get k [] = none
text_get k ((i, a) ∷ m) = if text_eq i k then some a else text_get k m

unfoldable pub text_insert : {A : Type 0} → List ℕ → A → TextMap A → TextMap A
text_insert k a [] = (k, a) ∷ []
text_insert k a ((i, b) ∷ m) =
    let rest = text_insert k a m in
    if text_eq i k then (k, a) ∷ m else if text_lt k i then (k, a) ∷ (i, b) ∷ m else (i, b) ∷ rest

-- `remove` for all the keys of one value
unfoldable pub text_remove_value : ℕ → TextMap ℕ → TextMap ℕ
text_remove_value v [] = []
text_remove_value v ((i, b) ∷ m) =
    let rest = text_remove_value v m in if b == v then rest else (i, b) ∷ rest
