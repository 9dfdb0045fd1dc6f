-- ===== src/Engine/Monad.antt =====
-- How the methods of the engines of crates/udp2raw-ng-core/src/engine.rs end, and their sequence: a
-- method on `&mut self` takes the state and returns it with its outcome. What was written before an
-- error stays written.
use mathlib.Core.Bool.{Bool, true, false}
use mathlib.Core.Option.{Option, none, some}
use udp2raw_ng.Prelude.{Result, ok, err}
use udp2raw_ng.Errors.{EngineError}

pub data Outcome (A : Type 0) : Type 0 where
  returns : A → Outcome A
  raises : EngineError → Outcome A
  panics : Outcome A

abbrev pub Action : Type 0 → Type 0 → Type 0
Action S A = S → Outcome A × S

module _ {S : Type 0} where
  abbrev pub pure : {A : Type 0} → A → Action S A
  pure a s = (returns a, s)

  abbrev pub raise : {A : Type 0} → EngineError → Action S A
  raise e s = (raises e, s)

  abbrev pub panic : {A : Type 0} → Action S A
  panic s = (panics, s)

  abbrev pub get_state : Action S S
  get_state s = (returns s, s)

  abbrev pub modify : (S → S) → Action S (Unit {0})
  modify f s = (returns tt, f s)

  -- What follows, if the first part has returned.
  abbrev pub and_then : {A B : Type 0} → Outcome A × S → (A → Action S B) → Outcome B × S
  and_then (returns a, s) f = f a s
  and_then (raises e, s) f = (raises e, s)
  and_then (panics, s) f = (panics, s)

  infixl 5 ◌>>=◌ ◌>>◌
  abbrev pub ◌>>=◌ : {A B : Type 0} → Action S A → (A → Action S B) → Action S B
  ◌>>=◌ m f s = and_then (m s) f

  abbrev pub ◌>>◌ : {A B : Type 0} → Action S A → Action S B → Action S B
  m >> k = m >>= λ _. k

  -- `if !test { return Err(e) }`
  abbrev pub require : Bool → EngineError → Action S (Unit {0})
  require true e = pure tt
  require false e = raise e

  -- `ok_or(e)?`
  abbrev pub or_raise : {A : Type 0} → Option A → EngineError → Action S A
  or_raise none e = raise e
  or_raise (some a) e = pure a

  -- `expect`
  abbrev pub or_panic : {A : Type 0} → Option A → Action S A
  or_panic none = panic
  or_panic (some a) = pure a

  -- `?` on a result whose error is converted.
  abbrev pub lift : {E A : Type 0} → (E → EngineError) → Result E A → Action S A
  lift convert (ok a) = pure a
  lift convert (err e) = raise (convert e)
