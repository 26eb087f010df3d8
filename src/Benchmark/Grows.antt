-- ===== src/Benchmark/Grows.antt =====
-- Methods only add events to the history: one rule for each way to build a method.
use qpep.Prelude.{refl, Bool, []}
use qpep.World.{Error, Result, ok, err, spinning, Event, History, M}
use qpep.World.Grows.{Extends, Extends-trans, Grows}
use qpep.Benchmark.{Method, ◌>>=◌, pure, raise, lift}

-- Each event that a method adds passes the test, whatever its object and its outcome.
pub record Adds {S A : Type 0} (allowed : Event → Bool) (m : Method S A) : Type 0 where
  pub at : (s : S) (h : History) → Extends allowed h (m s h).2

module _ {S A : Type 0} {allowed : Event → Bool} where
  pub Adds-pure : (a : A) → Adds allowed (pure {S = S} a)
  Adds-pure a = record { at = λ s h. ([], refl, tt) }

  pub Adds-raise : (e : Error) → Adds allowed (raise {S = S} {A = A} e)
  Adds-raise e = record { at = λ s h. ([], refl, tt) }

  pub Adds-lift : (m : M A) → Grows allowed m → Adds allowed (lift {S = S} m)
  Adds-lift m g = record { at = λ s h. g.at h }

module _ {S A B : Type 0} {allowed : Event → Bool} where
  Adds-continue :
      (h : History) (left : Result A × S × History) (f : A → Method S B)
      → Extends allowed h left.2
      → ((a : A) → Adds allowed (f a))
      → (s : S) → Extends allowed h (((λ s h. left) >>= f) s h).2
  unfolding ◌>>=◌
  Adds-continue h (ok a, s₁, h₁) f x g s = Extends-trans x ((g a).at s₁ h₁)
  Adds-continue h (err e, s₁, h₁) f x g s = x
  Adds-continue h (spinning, s₁, h₁) f x g s = x

  pub Adds-bind :
      (m : Method S A) (f : A → Method S B)
      → Adds allowed m
      → ((a : A) → Adds allowed (f a))
      → Adds allowed (m >>= f)
  unfolding ◌>>=◌
  Adds-bind m f x g = record { at = λ s h. Adds-continue h (m s h) f (x.at s h) g s }

pub ruleset adds_rules = (Adds-pure, Adds-raise, Adds-lift, Adds-bind)
