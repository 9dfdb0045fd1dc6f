-- ===== src/Engine/Rules.antt =====
-- Postconditions of the methods of crates/udp2raw-ng-core/src/engine.rs: what holds of the answer and
-- the state, what holds of the state after an error, and that there is no panic.
use mathlib.Core.Path.{◌≡◌, refl, subst, sym}
use mathlib.Core.Logic.{◌≢◌}
use mathlib.Core.Bool.{Bool, true, false}
use mathlib.Core.Option.{Option, none, some}
use udp2raw_ng.Prelude.{Result, ok, err}
use udp2raw_ng.Errors.{EngineError}
use udp2raw_ng.Engine.Monad.{
  Outcome, returns, raises, panics, Action, and_then, ◌>>=◌, ◌>>◌, require, or_raise, or_panic,
  lift,
}

abbrev pub Post : {S A : Type 0} → (A → S → Type 0) → (S → Type 0) → Outcome A × S → Type 0
Post Q E (returns a, s) = Q a s
Post Q E (raises e, s) = E s
Post Q E (panics, s) = ⊥

module _ {S B : Type 0} (Q : B → S → Type 0) (E : S → Type 0) where
  pub Post-bind :
      {A : Type 0} (R : A → S → Type 0) (r : Outcome A × S) (f : A → Action S B)
      → Post R E r
      → ((a : A) (s : S) → R a s → Post Q E (f a s))
      → Post Q E (and_then r f)
  Post-bind R (returns a, s) f p k = k a s p
  Post-bind R (raises e, s) f p k = p
  Post-bind R (panics, s) f p k = absurd p

  pub Post-weaken :
      (R : B → S → Type 0) (F : S → Type 0) (r : Outcome B × S)
      → Post R F r
      → ((b : B) (s : S) → R b s → Q b s)
      → ((s : S) → F s → E s)
      → Post Q E r
  Post-weaken R F (returns b, s) p q e = q b s p
  Post-weaken R F (raises x, s) p q e = e s p
  Post-weaken R F (panics, s) p q e = absurd p

  pub Post-require :
      (test : Bool) (e : EngineError) (rest : Action S B) (s : S)
      → E s
      → (test ≡ true → Post Q E (rest s))
      → Post Q E ((require test e >> rest) s)
  Post-require true e rest s p k = k refl
  Post-require false e rest s p k = p

  pub Post-or_raise :
      {A : Type 0} (o : Option A) (e : EngineError) (f : A → Action S B) (s : S)
      → E s
      → ((a : A) → o ≡ some a → Post Q E (f a s))
      → Post Q E ((or_raise o e >>= f) s)
  Post-or_raise none e f s p k = p
  Post-or_raise (some a) e f s p k = k a refl

  pub Post-lift :
      {F A : Type 0} (convert : F → EngineError) (r : Result F A) (f : A → Action S B) (s : S)
      → E s
      → ((a : A) → r ≡ ok a → Post Q E (f a s))
      → Post Q E ((lift convert r >>= f) s)
  Post-lift convert (ok a) f s p k = k a refl
  Post-lift convert (err e) f s p k = p

  pub Post-or_panic :
      {A : Type 0} (o : Option A) (a : A) (f : A → Action S B) (s : S)
      → o ≡ some a
      → Post Q E (f a s)
      → Post Q E ((or_panic o >>= f) s)
  Post-or_panic {A = A} o a f s e p =
      subst (λ (x : Option A). Post Q E ((or_panic x >>= f) s)) (sym e) p

-- What holds of the state whatever is answered.
pub Post-state : {S A : Type 0} (P : S → Type 0) (r : Outcome A × S) → Post (λ a s. P s) P r → P r.1
Post-state P (returns a, s) p = p
Post-state P (raises e, s) p = p
Post-state P (panics, s) p = absurd p

pub Post-no_panic :
    {S A : Type 0} (Q : A → S → Type 0) (E : S → Type 0) (r : Outcome A × S)
    → Post Q E r
    → r.0 ≢ panics
Post-no_panic Q E (returns a, s) p = λ e. cc
Post-no_panic Q E (raises x, s) p = λ e. cc
Post-no_panic Q E (panics, s) p = absurd p
