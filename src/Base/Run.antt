-- ===== src/Base/Run.antt =====
-- Stateful code with undefined behaviour. A run ends in a value and a state, or in a fault: a
-- null pointer is dereferenced, an assertion fails, or an index is out of bounds.
use mathlib.Core.Bool.{Bool}
use mathlib.Core.Path.{◌≡◌, refl}
use hpnl.Base.Tests.{if◌then◌else◌}

pub data Run (A S : Type 0) : Type 0 where
  ok : A → S → Run A S
  fault : Run A S

abbrev pub M : Type 0 → Type 0 → Type 0
M S A = S → Run A S

-- What follows a run may be a run on another state, of which the first one's is a part.
abbrev pub and_then : {S T A B : Type 0} → Run A S → (A → S → Run B T) → Run B T
and_then (ok a s) f = f a s
and_then fault f = fault

infixl 5 ◌>>=◌ ◌>>◌
abbrev pub ◌>>=◌ : {S A B : Type 0} → M S A → (A → M S B) → M S B
◌>>=◌ m f s = and_then (m s) f

abbrev pub ◌>>◌ : {S B : Type 0} → M S (Unit {0}) → M S B → M S B
◌>>◌ m k s = and_then (m s) (λ _. k)

abbrev pub pure : {S A : Type 0} → A → M S A
pure a s = ok a s

abbrev pub get : {S : Type 0} → M S S
get s = ok s s

abbrev pub modify : {S : Type 0} → (S → S) → M S (Unit {0})
modify f s = ok tt (f s)

-- `assert(b)`, and the use of a pointer for which `b` says that it may be used.
abbrev pub require : {S : Type 0} → Bool → M S (Unit {0})
require b s = if b then ok tt s else fault

abbrev pub when : {S : Type 0} → Bool → M S (Unit {0}) → M S (Unit {0})
when b m s = if b then m s else ok tt s

-- The run ends without a fault, in a value and a state for which `P` holds.
pub data Returns {A S : Type 0} (P : A → S → Type 0) : Run A S → Type 0 where
  returns : {a : A} {s : S} → P a s → Returns P (ok a s)

module _ {S A : Type 0} {P : A → S → Type 0} where
  -- The rule for what comes next.
  pub Returns-bind :
      {T B : Type 0} {Q : B → T → Type 0} {r : Run A S} {f : A → S → Run B T}
      → Returns P r
      → ((a : A) (s : S) → P a s → Returns Q (f a s))
      → Returns Q (and_then r f)
  Returns-bind (returns p) next = next _ _ p

  pub Returns-mono :
      {Q : A → S → Type 0} {r : Run A S}
      → Returns P r
      → ((a : A) (s : S) → P a s → Q a s)
      → Returns Q r
  Returns-mono (returns p) weaken = returns (weaken _ _ p)

pub Returns-ok : {A S : Type 0} {P : A → S → Type 0} (a : A) (s : S) → Returns P (ok a s) → P a s
Returns-ok a s (returns p) = p

-- Where a run has ended, and what holds there.
pub Returns-run :
    {A S : Type 0} {P : A → S → Type 0} {r : Run A S}
    → Returns P r
    → (a : A) × (s : S) × (r ≡ ok a s) × P a s
Returns-run (returns p) = (_, _, refl, p)
