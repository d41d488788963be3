-- ===== src/Base/Lists.antt =====
-- Lists measured and cut by native numbers, under the library's names.
use Prim.Native.Nat.{ℕ, zero, suc, ◌+◌, ◌-◌, ◌≤◌, ◌<◌, min}
use mathlib.Core.Path.{◌≡◌, refl, ap, sym, ◌∙◌}
use mathlib.Core.Bool.{Bool, true, false}
use mathlib.Core.List.{List, [], ◌∷◌, ◌++◌}
use mathlib.Core.Option.{Option, none, some}
use native.Mathlib.Omega.{arith}

module _ {ℓ} {A : Type ℓ} where
  abbrev pub length : List A → ℕ
  length [] = 0
  length (x ∷ xs) = suc (length xs)

  abbrev pub nil : List A
  nil = []

  abbrev pub take : ℕ → List A → List A
  take zero xs = []
  take (suc n) [] = []
  take (suc n) (x ∷ xs) = x ∷ take n xs

  abbrev pub drop : ℕ → List A → List A
  drop zero xs = xs
  drop (suc n) [] = []
  drop (suc n) (x ∷ xs) = drop n xs

  abbrev pub replicate : ℕ → A → List A
  replicate zero a = []
  replicate (suc n) a = a ∷ replicate n a

  abbrev pub get_elem? : List A → ℕ → Option A
  get_elem? [] i = none
  get_elem? (x ∷ xs) zero = some x
  get_elem? (x ∷ xs) (suc i) = get_elem? xs i

  pub length-append : (xs ys : List A) → length (xs ++ ys) ≡ length xs + length ys
  length-append [] ys = omega arith
  length-append (x ∷ xs) ys = omega (arith, length-append xs ys)

  pub length-take : (n : ℕ) (xs : List A) → length (take n xs) ≡ min n (length xs)
  length-take zero xs = omega arith
  length-take (suc n) [] = omega arith
  length-take (suc n) (x ∷ xs) = omega (arith, length-take n xs)

  pub length-drop : (n : ℕ) (xs : List A) → length (drop n xs) ≡ length xs - n
  length-drop zero xs = omega arith
  length-drop (suc n) [] = omega arith
  length-drop (suc n) (x ∷ xs) = omega (arith, length-drop n xs)

  pub length-replicate : (n : ℕ) (a : A) → length (replicate n a) ≡ n
  length-replicate zero a = refl
  length-replicate (suc n) a = ap suc (length-replicate n a)

  pub take-append-drop : (n : ℕ) (xs : List A) → take n xs ++ drop n xs ≡ xs
  take-append-drop zero xs = refl
  take-append-drop (suc n) [] = refl
  take-append-drop (suc n) (x ∷ xs) = ap (λ r. x ∷ r) (take-append-drop n xs)

  -- A cut at the length of the left part.
  pub take-append_left : (xs ys : List A) → take (length xs) (xs ++ ys) ≡ xs
  take-append_left [] ys = refl
  take-append_left (x ∷ xs) ys = ap (λ r. x ∷ r) (take-append_left xs ys)

  pub drop-append_left : (xs ys : List A) → drop (length xs) (xs ++ ys) ≡ ys
  drop-append_left [] ys = refl
  drop-append_left (x ∷ xs) ys = drop-append_left xs ys

  pub take-append_le : (n : ℕ) (xs ys : List A) → n ≤ length xs → take n (xs ++ ys) ≡ take n xs
  take-append_le zero xs ys h = refl
  take-append_le (suc n) [] ys h = absurd (omega arith)
  take-append_le (suc n) (x ∷ xs) ys h = ap (λ r. x ∷ r) (take-append_le n xs ys (omega arith))

  pub drop-append_le :
      (n : ℕ) (xs ys : List A) → n ≤ length xs → drop n (xs ++ ys) ≡ drop n xs ++ ys
  drop-append_le zero xs ys h = refl
  drop-append_le (suc n) [] ys h = absurd (omega arith)
  drop-append_le (suc n) (x ∷ xs) ys h = drop-append_le n xs ys (omega arith)

  pub take-all : (n : ℕ) (xs : List A) → length xs ≤ n → take n xs ≡ xs
  take-all zero [] h = refl
  take-all zero (x ∷ xs) h = absurd (omega arith)
  take-all (suc n) [] h = refl
  take-all (suc n) (x ∷ xs) h = ap (λ r. x ∷ r) (take-all n xs (omega arith))

  drop-nil : (n : ℕ) → drop n nil ≡ nil
  drop-nil zero = refl
  drop-nil (suc n) = refl

  take-nil : (n : ℕ) → take n nil ≡ nil
  take-nil zero = refl
  take-nil (suc n) = refl

  pub drop-drop : (m n : ℕ) (xs : List A) → drop m (drop n xs) ≡ drop (n + m) xs
  drop-drop m zero xs = ap (λ k. drop k xs) (omega arith)
  drop-drop m (suc n) [] = drop-nil m ∙ sym (drop-nil (suc n + m))
  drop-drop m (suc n) (x ∷ xs) =
      drop-drop m n xs ∙ ap (λ k. drop k (x ∷ xs)) {x = suc (n + m)} (omega arith)

  pub drop-take : (m n : ℕ) (xs : List A) → drop m (take (m + n) xs) ≡ take n (drop m xs)
  drop-take zero n xs = ap (λ k. take k xs) (omega arith)
  drop-take (suc m) n [] =
      ap (λ k. drop (suc m) k) {y = nil} (take-nil (suc m + n)) ∙ sym (take-nil n)
  drop-take (suc m) n (x ∷ xs) =
      ap (λ k. drop (suc m) (take k (x ∷ xs))) {y = suc (m + n)} (omega arith) ∙ drop-take m n xs

  pub take-take : (n m : ℕ) (xs : List A) → n ≤ m → take n (take m xs) ≡ take n xs
  take-take zero m xs h = refl
  take-take (suc n) zero xs h = absurd (omega arith)
  take-take (suc n) (suc m) [] h = refl
  take-take (suc n) (suc m) (x ∷ xs) h = ap (λ r. x ∷ r) (take-take n m xs (omega arith))

  -- An element is the first of the rest from its position.
  pub take_one-drop :
      (i : ℕ) (xs : List A)
      → i < length xs
      → (x : A) × (get_elem? xs i ≡ some x) × (take 1 (drop i xs) ≡ x ∷ [])
  take_one-drop i [] h = absurd (omega arith)
  take_one-drop zero (x ∷ xs) h = (x, refl, refl)
  take_one-drop (suc i) (x ∷ xs) h = take_one-drop i xs (omega arith)

  pub drop-replicate : (k n : ℕ) (a : A) → drop k (replicate n a) ≡ replicate (n - k) a
  drop-replicate zero n a = ap (λ m. replicate m a) (omega arith)
  drop-replicate (suc k) zero a = ap (λ m. replicate m a) {x = 0} (omega arith)
  drop-replicate (suc k) (suc n) a =
      drop-replicate k n a ∙ ap (λ m. replicate m a) {y = suc n - suc k} (omega arith)

  pub length-nil : (xs : List A) → length xs ≡ 0 → xs ≡ nil
  length-nil [] h = refl
  length-nil (x ∷ xs) h = absurd (omega arith)

abbrev pub is_nil {ℓ} : {A : Type ℓ} → List A → Bool
is_nil [] = true
is_nil (_ ∷ _) = false
