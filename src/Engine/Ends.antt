-- ===== src/Engine/Ends.antt =====
-- Postconditions of the methods of crates/udp2raw-ng-core/src/engine.rs that may panic: what holds of
-- the answer and the state, and what holds of the state after an error or a panic.
use udp2raw_ng.Prelude.{◌≡◌, refl, Bool, true, false, Option, none, some, Result, ok, err}
use udp2raw_ng.Errors.{EngineError}
use udp2raw_ng.Engine.Monad.{
  Outcome, returns, raises, panics, Action, and_then, ◌>>=◌, ◌>>◌, require, or_raise, or_panic,
  lift,
}
use udp2raw_ng.Engine.Rules.{Post}

abbrev pub Ends : {S A : Type 0} → (A → S → Type 0) → (S → Type 0) → Outcome A × S → Type 0
Ends Q E (returns a, s) = Q a s
Ends Q E (raises e, s) = E s
Ends Q E (panics, s) = E s

pub Ends-state : {S A : Type 0} (P : S → Type 0) (r : Outcome A × S) → Ends (λ a s. P s) P r → P r.1
Ends-state P (returns a, s) p = p
Ends-state P (raises e, s) p = p
Ends-state P (panics, s) p = p

module _ {S B : Type 0} (Q : B → S → Type 0) (E : S → Type 0) where
  pub Ends-bind :
      {A : Type 0} (R : A → S → Type 0) (r : Outcome A × S) (f : A → Action S B)
      → Ends R E r
      → ((a : A) (s : S) → R a s → Ends Q E (f a s))
      → Ends Q E (and_then r f)
  Ends-bind R (returns a, s) f p k = k a s p
  Ends-bind R (raises e, s) f p k = p
  Ends-bind R (panics, s) f p k = p

  -- A method that does not panic.
  pub Post-Ends :
      (R : B → S → Type 0) (F : S → Type 0) (r : Outcome B × S)
      → Post R F r
      → ((b : B) (s : S) → R b s → Q b s)
      → ((s : S) → F s → E s)
      → Ends Q E r
  Post-Ends R F (returns b, s) p q e = q b s p
  Post-Ends R F (raises x, s) p q e = e s p
  Post-Ends R F (panics, s) p q e = absurd p

  pub Ends-require :
      (test : Bool) (e : EngineError) (rest : Action S B) (s : S)
      → E s
      → (test ≡ true → Ends Q E (rest s))
      → Ends Q E ((require test e >> rest) s)
  Ends-require true e rest s p k = k refl
  Ends-require false e rest s p k = p

  pub Ends-or_raise :
      {A : Type 0} (o : Option A) (e : EngineError) (f : A → Action S B) (s : S)
      → E s
      → ((a : A) → o ≡ some a → Ends Q E (f a s))
      → Ends Q E ((or_raise o e >>= f) s)
  Ends-or_raise none e f s p k = p
  Ends-or_raise (some a) e f s p k = k a refl

  pub Ends-or_panic :
      {A : Type 0} (o : Option A) (f : A → Action S B) (s : S)
      → E s
      → ((a : A) → o ≡ some a → Ends Q E (f a s))
      → Ends Q E ((or_panic o >>= f) s)
  Ends-or_panic none f s p k = p
  Ends-or_panic (some a) f s p k = k a refl

  pub Ends-lift :
      {F A : Type 0} (convert : F → EngineError) (r : Result F A) (f : A → Action S B) (s : S)
      → E s
      → ((a : A) → r ≡ ok a → Ends Q E (f a s))
      → Ends Q E ((lift convert r >>= f) s)
  Ends-lift convert (ok a) f s p k = k a refl
  Ends-lift convert (err e) f s p k = p

  -- The same at the end of a method.
  pub Ends-last :
      {F : Type 0} (convert : F → EngineError) (r : Result F B) (s : S)
      → E s
      → ((b : B) → r ≡ ok b → Q b s)
      → Ends Q E (lift convert r s)
  Ends-last convert (ok b) s p k = k b refl
  Ends-last convert (err e) s p k = p
