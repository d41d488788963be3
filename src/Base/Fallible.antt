-- ===== src/Base/Fallible.antt =====
-- Functions that return, fail or panic and change no state.
use mathlib.Core.Option.{Option, none, some}
use daqingest.Base.Action.{Outcome, ok, err, panic, Act}

infixl 5 ◌>>=◌ ◌>>◌
abbrev pub ◌>>=◌ : {E A B : Type 0} → Outcome E A → (A → Outcome E B) → Outcome E B
ok a >>= f = f a
err e >>= f = err e
panic >>= f = panic

abbrev pub ◌>>◌ : {E A B : Type 0} → Outcome E A → Outcome E B → Outcome E B
m >> k = m >>= λ _. k

abbrev pub unwrap : {E A : Type 0} → Option A → Outcome E A
unwrap none = panic
unwrap (some a) = ok a

-- the same as a step of a method
abbrev pub lift : {S E A : Type 0} → Outcome E A → Act S E A
lift r s = (r, s)
