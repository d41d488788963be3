-- ===== src/Base/Tests.antt =====
-- Boolean tests on the native numbers, the conditional, and case splits that keep the equation.
use Prim.Native.Nat.{ℕ, ◌≤◌, ◌<◌, compare, Ordering}
use mathlib.Core.Path.{◌≡◌, refl}
use mathlib.Core.Logic.{◌≢◌, ◌⊎◌, inl, inr}
use mathlib.Core.Bool.{Bool, true, false}
use native.Mathlib.Omega.{arith}

abbrev pub ltb : ℕ → ℕ → Bool
ltb a b = elim (compare a b) [ Ordering.lt ↦ true | _ ↦ false ]

abbrev pub leb : ℕ → ℕ → Bool
leb a b = elim (compare a b) [ Ordering.gt ↦ false | _ ↦ true ]

infix 50 ◌==◌
abbrev pub ◌==◌ : ℕ → ℕ → Bool
a == b = elim (compare a b) [ Ordering.eq ↦ true | _ ↦ false ]

infix 1 if◌then◌else◌
abbrev pub if◌then◌else◌ {ℓ} : {A : Type ℓ} → Bool → A → A → A
if true then x else y = x
if false then x else y = y

pub ltb→lt : (a b : ℕ) → ltb a b ≡ true → a < b
ltb→lt a b h = ground arith

pub lt→ltb : (a b : ℕ) → a < b → ltb a b ≡ true
lt→ltb a b h = ground arith

pub le→ltb_false : (a b : ℕ) → b ≤ a → ltb a b ≡ false
le→ltb_false a b h = ground arith

pub ltb_false→le : (a b : ℕ) → ltb a b ≡ false → b ≤ a
ltb_false→le a b h = ground arith

pub le→leb : (a b : ℕ) → a ≤ b → leb a b ≡ true
le→leb a b h = ground arith

pub leb→le : (a b : ℕ) → leb a b ≡ true → a ≤ b
leb→le a b h = ground arith

pub leb_false→lt : (a b : ℕ) → leb a b ≡ false → b < a
leb_false→lt a b h = ground arith

pub lt→leb_false : (a b : ℕ) → b < a → leb a b ≡ false
lt→leb_false a b h = ground arith

pub eq→==_true : (a b : ℕ) → a ≡ b → (a == b) ≡ true
eq→==_true a b h = ground arith

pub ne→==_false : (a b : ℕ) → a ≢ b → (a == b) ≡ false
ne→==_false a b h = ground arith

pub Bool-cases : (b : Bool) → (b ≡ true) ⊎ (b ≡ false)
Bool-cases true = inl refl
Bool-cases false = inr refl
