-- ===== src/World/Tally.antt =====
-- How often an event of one kind happened, and how that adds up over an action that returned.
use qpep.Prelude.{
  ℕ, ◌+◌, ◌≡◌, ◌∙◌, refl, sym, ap, Bool, true, false, List, [], ◌∷◌, ◌++◌, if◌then◌else◌, arith,
}
use qpep.World.{Result, ok, Event, History, M, pure, ◌>>=◌}
use qpep.World.Inversion.{>>=-eq-ok}
use qpep.World.Grows.{AllPass, Extends, Grows}

unfoldable pub tally : (Event → Bool) → History → ℕ
tally test [] = 0
tally test (e ∷ h) = (if test e then 1 else 0) + tally test h

tally-AllPass :
    (test allowed : Event → Bool) (es : List Event) (h : History)
    → ((e : Event) → allowed e ≡ true → test e ≡ false)
    → AllPass allowed es
    → tally test (es ++ h) ≡ tally test h
unfolding tally
tally-AllPass test allowed [] h apart pass = refl
tally-AllPass test allowed (e ∷ es) h apart (q, pass) =
    ground (arith, apart e q, tally-AllPass test allowed es h apart pass)

-- Where none of the events that are allowed is of the kind, none of it was added.
pub tally-Extends :
    (test allowed : Event → Bool) {h h' : History}
    → ((e : Event) → allowed e ≡ true → test e ≡ false)
    → Extends allowed h h'
    → tally test h' ≡ tally test h
tally-Extends test allowed {h} apart (es, p, pass) =
    ap (tally test) p ∙ tally-AllPass test allowed es h apart pass

-- An action that returned has added `n` events of the kind.
abbrev pub Counts : {A : Type 0} → (Event → Bool) → ℕ → M A → Type 0
Counts {A} test n m = (h h' : History) (a : A) → m h ≡ (ok a, h') → tally test h' ≡ n + tally test h

module _ (test : Event → Bool) where
  pub Counts-pure : {A : Type 0} (a : A) → Counts test 0 (pure a)
  Counts-pure a h h' b e = omega (arith, ap (λ (p : Result _ × History). tally test p.1) (sym e))

  module _ {A : Type 0} where
    pub Counts-Grows :
        (allowed : Event → Bool) (m : M A)
        → ((e : Event) → allowed e ≡ true → test e ≡ false)
        → Grows allowed m
        → Counts test 0 m
    Counts-Grows allowed m apart g h h' a e = omega (
      arith,
      ap (λ (p : Result A × History). tally test p.1) e,
      tally-Extends test allowed apart (g.at h),
    )

  module _ {A B : Type 0} where
    pub Counts-bind :
        (n k : ℕ) (m : M A) (f : A → M B)
        → Counts test n m
        → ((a : A) → Counts test k (f a))
        → Counts test (n + k) (m >>= f)
    Counts-bind n k m f x y h h' b e =
        let (a, p, q) = >>=-eq-ok m f h e in omega (arith, x h _ a p, y a _ h' b q)

    -- What comes first has none.
    pub Counts-after :
        (k : ℕ) (m : M A) (f : A → M B)
        → Counts test 0 m
        → ((a : A) → Counts test k (f a))
        → Counts test k (m >>= f)
    Counts-after k m f x y h h' b e =
        let (a, p, q) = >>=-eq-ok m f h e in omega (arith, x h _ a p, y a _ h' b q)
