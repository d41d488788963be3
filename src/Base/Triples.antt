-- ===== src/Base/Triples.antt =====
-- What holds of a run that does not panic: `Q` of the value and the state it returns, `I` of the
-- state in which it fails.
use mathlib.Core.Bool.{Bool, true, false}
use daqingest.Base.Action.{Outcome, ok, err, Act, and_then}
use daqingest.Base.Tests.{if◌then◌else◌}

pub data Runs {S E A : Type 0} (I : S → Type 0) (Q : A → S → Type 0)
    : Outcome E A × S → Type 0 where
  returns : {a : A} {s : S} → Q a s → Runs I Q (ok a, s)
  fails : {e : E} {s : S} → I s → Runs I Q (err e, s)

module _ {S E A : Type 0} {I : S → Type 0} {Q : A → S → Type 0} where
  pub Runs-and_then :
      {B : Type 0} {R : B → S → Type 0} {r : Outcome E A × S} (f : A → Act S E B)
      → Runs I Q r
      → ((a : A) (s : S) → Q a s → Runs I R (f a s))
      → Runs I R (and_then r f)
  Runs-and_then f (returns {a} {s} q) k = k a s q
  Runs-and_then f (fails i) k = fails i

  pub Runs-if :
      (b : Bool) (m k : Act S E A) {s : S}
      → Runs I Q (m s)
      → Runs I Q (k s)
      → Runs I Q ((if b then m else k) s)
  Runs-if true m k p q = p
  Runs-if false m k p q = q
