-- ===== src/Benchmark/Relates.antt =====
-- What a method does to its object whatever its outcome: a relation between the object before and
-- after, which is reflexive and transitive.
use qpep.World.{Result, ok, err, spinning, History, M}
use qpep.Benchmark.{Method, ◌>>=◌, pure, lift}

pub record IsPreorder {S : Type 0} (R : S → S → Type 0) : Type 0 where
  pub reflexive : (s : S) → R s s
  pub transitive : (s t u : S) → R s t → R t u → R s u

abbrev pub Relates : {S A : Type 0} → (S → S → Type 0) → Method S A → Type 0
Relates {S} R m = (s : S) (h : History) → R s (m s h).1

module _ {S : Type 0} (R : S → S → Type 0) (r : IsPreorder R) where
  module _ {A : Type 0} where
    pub Relates-pure : (a : A) → Relates R (pure a)
    Relates-pure a s h = r.reflexive s

    pub Relates-lift : (m : M A) → Relates R (lift {S = S} m)
    Relates-lift m s h = r.reflexive s

  module _ {A B : Type 0} where
    Relates-continue :
        (s : S) (left : Result A × S × History) (f : A → Method S B)
        → R s left.1
        → ((a : A) → Relates R (f a))
        → (t : S) (h : History) → R s (((λ t h. left) >>= f) t h).1
    unfolding ◌>>=◌
    Relates-continue s (ok a, s₁, h₁) f x y t h = r.transitive s s₁ _ x (y a s₁ h₁)
    Relates-continue s (err e, s₁, h₁) f x y t h = x
    Relates-continue s (spinning, s₁, h₁) f x y t h = x

    pub Relates-bind :
        (m : Method S A) (f : A → Method S B)
        → Relates R m
        → ((a : A) → Relates R (f a))
        → Relates R (m >>= f)
    unfolding ◌>>=◌
    Relates-bind m f x y s h = Relates-continue s (m s h) f (x s h) y s h

    -- An action on the services comes first.
    pub Relates-after :
        (m : M A) (f : A → Method S B) → ((a : A) → Relates R (f a)) → Relates R (lift m >>= f)
    Relates-after m f y = Relates-bind (lift m) f (Relates-lift m) y
