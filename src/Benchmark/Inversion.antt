-- ===== src/Benchmark/Inversion.antt =====
-- What is known of the parts of a method that returned.
use qpep.Prelude.{◌≡◌, refl, ap}
use qpep.World.{Result, ok, err, spinning, History}
use qpep.Benchmark.{Method, ◌>>=◌}

module _ {S A B : Type 0} where
  >>=-continue :
      (left : Result A × S × History) (f : A → Method S B) (s : S) (h : History) {b : B} {s' : S}
      {h' : History}
      → ((λ s h. left) >>= f) s h ≡ (ok b, s', h')
      → (a : A) × (left ≡ (ok a, left.1, left.2)) × (f a left.1 left.2 ≡ (ok b, s', h'))
  unfolding ◌>>=◌
  >>=-continue (ok a, s₁, h₁) f s h e = (a, refl, e)
  >>=-continue (err x, s₁, h₁) f s h e = cc (ap (λ (p : Result B × S × History). p.0) e)
  >>=-continue (spinning, s₁, h₁) f s h e = cc (ap (λ (p : Result B × S × History). p.0) e)

  -- A bind that returned: both parts returned.
  pub >>=-eq-ok :
      (m : Method S A) (f : A → Method S B) (s : S) (h : History) {b : B} {s' : S} {h' : History}
      → (m >>= f) s h ≡ (ok b, s', h')
      → (a : A) × (m s h ≡ (ok a, (m s h).1, (m s h).2))
        × (f a (m s h).1 (m s h).2 ≡ (ok b, s', h'))
  unfolding ◌>>=◌
  >>=-eq-ok m f s h e = >>=-continue (m s h) f s h e
