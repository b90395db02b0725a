-- ===== src/Base/Consumes.antt =====
-- Actions that never make a measure of their state larger, whatever they return: a rule for each way to
-- combine them.
use Prim.Native.Nat.{ℕ, ◌≤◌}
use mathlib.Core.Path.{◌≡◌}
use mathlib.Core.Bool.{Bool, true, false}
use mathlib.Core.List.{List, [], ◌∷◌}
use mathlib.Core.Option.{Option, none, some}
use native.Mathlib.Omega.{arith}
use emvp_thesis.Base.Action.{
  Action, Result, ok, err, pure, fail, gets, ok_or, ensure, for_each, continue, ◌>>=◌,
}
use emvp_thesis.Base.Tests.{if◌then◌else◌}

pub record Consumes {S E A : Type 0} (size : S → ℕ) (m : Action S E A) : Type 0 where
  pub shrinks : (s : S) → size (m s).1 ≤ size s

module _ {S E : Type 0} {size : S → ℕ} where
  continue_shrinks :
      {A B : Type 0} (s : S) (r : Result E A × S) (f : A → Action S E B)
      → size r.1 ≤ size s
      → ((a : A) → Consumes size (f a))
      → size (continue r.0 f r.1).1 ≤ size s
  continue_shrinks s (ok a, t) f h k = omega (arith, h, (k a).shrinks t)
  continue_shrinks s (err e, t) f h k = h

  pub Consumes-bind :
      {A B : Type 0} (m : Action S E A) (f : A → Action S E B)
      → Consumes size m
      → ((a : A) → Consumes size (f a))
      → Consumes size (m >>= f)
  Consumes-bind m f h k = record { shrinks = λ s. continue_shrinks s (m s) f (h.shrinks s) k }

  -- An action that keeps the measure.
  pub Consumes-keep :
      {A : Type 0} (m : Action S E A) → ((s : S) → size (m s).1 ≡ size s) → Consumes size m
  Consumes-keep m h = record { shrinks = λ s. omega (arith, h s) }

  pub Consumes-pure : {A : Type 0} (a : A) → Consumes size (pure {E = E} a)
  Consumes-pure a = record { shrinks = λ s. omega arith }

  pub Consumes-fail : {A : Type 0} (e : E) → Consumes size (fail {A = A} e)
  Consumes-fail e = record { shrinks = λ s. omega arith }

  pub Consumes-ensure : (test : Bool) (e : E) → Consumes size (ensure test e)
  Consumes-ensure true e = record { shrinks = λ s. omega arith }
  Consumes-ensure false e = record { shrinks = λ s. omega arith }

  pub Consumes-ok_or : {A : Type 0} (e : E) (o : Option A) → Consumes size (ok_or e o)
  Consumes-ok_or e none = record { shrinks = λ s. omega arith }
  Consumes-ok_or e (some a) = record { shrinks = λ s. omega arith }

  pub Consumes-gets : {A : Type 0} (f : S → A) → Consumes size (gets {E = E} f)
  Consumes-gets f = record { shrinks = λ s. omega arith }

  pub Consumes-if :
      {A : Type 0} (test : Bool) (m n : Action S E A)
      → Consumes size m
      → Consumes size n
      → Consumes size (if test then m else n)
  Consumes-if true m n h k = h
  Consumes-if false m n h k = k

  pub Consumes-for_each :
      {A : Type 0} (body : A → Action S E (Unit {0})) (xs : List A)
      → ((x : A) → Consumes size (body x))
      → Consumes size (for_each body xs)
  Consumes-for_each body [] h = Consumes-pure tt
  Consumes-for_each body (x ∷ xs) h =
      Consumes-bind (body x) _ (h x) (λ _. Consumes-for_each body xs h)

pub ruleset consuming = (
  Consumes-bind, Consumes-pure, Consumes-fail, Consumes-ensure, Consumes-ok_or, Consumes-gets,
  Consumes-if, Consumes-for_each,
)
