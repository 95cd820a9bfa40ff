-- ===== src/Server/Monad.antt =====
-- Actions on a state that may raise. What was written before a raise stays written.
use open_claw_bridge.Prelude.{Bool, true, false, Option, none, some}
use open_claw_bridge.Errors.{Result, ok, err, BridgeError}

abbrev pub Exec : Type 0 → Type 0 → Type 0
Exec S A = S → Result A × S

module _ {S A : Type 0} where
  abbrev pub pure : A → Exec S A
  pure a s = (ok a, s)

  abbrev pub raise : BridgeError → Exec S A
  raise e s = (err e, s)

  -- The value of an `Option`, or an exception.
  abbrev pub or_raise : Option A → BridgeError → Exec S A
  or_raise none e s = (err e, s)
  or_raise (some a) e s = (ok a, s)

abbrev pub raise_if : {S : Type 0} → Bool → BridgeError → Exec S (Unit {0})
raise_if true e s = (err e, s)
raise_if false e s = (ok tt, s)

infixl 5 ◌>>=◌ ◌>>◌
abbrev pub ◌>>=◌ : {S A B : Type 0} → Exec S A → (A → Exec S B) → Exec S B
◌>>=◌ m f s = let (r, s') = m s in elim r [ ok a ↦ f a s' | err e ↦ (err e, s') ]

abbrev pub ◌>>◌ : {S A B : Type 0} → Exec S A → Exec S B → Exec S B
m >> k = m >>= λ _. k
