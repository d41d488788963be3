-- ===== src/Base/Action.antt =====
-- Methods on `&mut self`: a call returns, fails with an error, or panics, and leaves a new state.
use mathlib.Core.Path.{◌≡◌, ap}
use mathlib.Core.Option.{Option, none, some}

pub data Outcome (E A : Type 0) : Type 0 where
  ok : A → Outcome E A
  err : E → Outcome E A
  panic : Outcome E A

-- A method of an object with state `S`. An error keeps the changes made before it.
abbrev pub Act : Type 0 → Type 0 → Type 0 → Type 0
Act S E A = S → Outcome E A × S

abbrev pub and_then : {S E A B : Type 0} → Outcome E A × S → (A → Act S E B) → Outcome E B × S
and_then (ok a, s) f = f a s
and_then (err e, s) f = (err e, s)
and_then (panic, s) f = (panic, s)

infixl 5 ◌>>=◌ ◌>>◌
abbrev pub ◌>>=◌ : {S E A B : Type 0} → Act S E A → (A → Act S E B) → Act S E B
◌>>=◌ m f s = and_then (m s) f

abbrev pub ◌>>◌ : {S E A B : Type 0} → Act S E A → Act S E B → Act S E B
m >> k = m >>= λ _. k

abbrev pub pure : {S E A : Type 0} → A → Act S E A
pure a s = (ok a, s)

abbrev pub throw : {S E A : Type 0} → E → Act S E A
throw e s = (err e, s)

abbrev pub get : {S E : Type 0} → Act S E S
get s = (ok s, s)

abbrev pub gets : {S E A : Type 0} → (S → A) → Act S E A
gets f s = (ok (f s), s)

abbrev pub modify : {S E : Type 0} → (S → S) → Act S E (Unit {0})
modify f s = (ok tt, f s)

-- A value whose absence is a panic: a slice or an index out of range.
abbrev pub or_panic : {S E A : Type 0} → Option A → Act S E A
or_panic none s = (panic, s)
or_panic (some a) s = (ok a, s)

-- A call that returns hands its value and its state on.
pub bind-ok :
    {S E A B : Type 0} (m : Act S E A) (f : A → Act S E B) {s s' : S} {a : A}
    → m s ≡ (ok a, s')
    → (m >>= f) s ≡ f a s'
bind-ok m f e = ap (λ r. and_then r f) e
