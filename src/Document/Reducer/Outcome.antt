-- ===== src/Document/Reducer/Outcome.antt =====
-- What a call of the reducer comes to. Go functions that mutate `*Document` and `*Effect` return the new
-- values; a refused operation returns none, since its caller goes back to the current document.
use a2ui_persistent_daemon.Base.{Option, none, some}
use a2ui_persistent_daemon.Protocol.Types.{Error, Result, ok, err}

pub data Outcome {ℓ} (A : Type ℓ) : Type ℓ where
  done : A → Outcome A
  refused : Error → Outcome A
  -- a write to a nil map
  panics : Outcome A
  -- a loop along parents or children that does not end
  diverges : Outcome A

infixl 5 ◌>>=◌
abbrev pub ◌>>=◌ {ℓ κ} : {A : Type ℓ} {B : Type κ} → Outcome A → (A → Outcome B) → Outcome B
done a >>= f = f a
refused e >>= f = refused e
panics >>= f = panics
diverges >>= f = diverges

-- `if err != nil { return err }`
abbrev pub require : Option Error → Outcome (Unit {0})
require none = done tt
require (some e) = refused e

abbrev pub try {ℓ} : {A : Type ℓ} → Result A → Outcome A
try (ok a) = done a
try (err e) = refused e
