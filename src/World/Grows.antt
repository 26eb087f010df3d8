-- ===== src/World/Grows.antt =====
-- Actions only add events to the history: one rule for each way to build an action.
use qpep.Prelude.{
  ℕ, ◌≡◌, refl, sym, ap, ◌∙◌, String, Option, none, some, List, Bool, true, [], ◌∷◌, ◌++◌,
  append_assoc,
}
use qpep.World.{
  Result, ok, err, spinning, Event, History, Services, M, pure, spin, ◌>>=◌, perform,
  or_value_error, int_of_option, int_env, catch_netcat, netcat_error,
}

-- Each event passes a test.
abbrev pub AllPass : (Event → Bool) → List Event → Type 0
AllPass allowed [] = Unit
AllPass allowed (e ∷ es) = (allowed e ≡ true) × AllPass allowed es

-- `h'` is `h` with more events on top, each of which passes the test.
abbrev pub Extends : (Event → Bool) → History → History → Type 0
Extends allowed h h' = (es : List Event) × (h' ≡ es ++ h) × AllPass allowed es

AllPass-append :
    (allowed : Event → Bool) (es fs : List Event)
    → AllPass allowed es
    → AllPass allowed fs
    → AllPass allowed (es ++ fs)
AllPass-append allowed [] fs p q = q
AllPass-append allowed (e ∷ es) fs (x, p) q = (x, AllPass-append allowed es fs p q)

pub Extends-trans :
    {allowed : Event → Bool} {h₁ h₂ h₃ : History}
    → Extends allowed h₁ h₂
    → Extends allowed h₂ h₃
    → Extends allowed h₁ h₃
Extends-trans {h₁} (es, p, a) (fs, q, b) =
    (fs ++ es, q ∙ ap (λ l. fs ++ l) p ∙ sym (append_assoc fs es h₁), AllPass-append _ fs es b a)

pub record Grows {A : Type 0} (allowed : Event → Bool) (m : M A) : Type 0 where
  pub at : (h : History) → Extends allowed h (m h).1

module _ {A : Type 0} {allowed : Event → Bool} where
  pub Grows-pure : (a : A) → Grows allowed (pure a)
  Grows-pure a = record { at = λ h. ([], refl, tt) }

  pub Grows-spin : Grows allowed (spin {A = A})
  Grows-spin = record { at = λ h. ([], refl, tt) }

module _ {A B : Type 0} {allowed : Event → Bool} where
  >>=-Extends :
      (h : History) (r : Result A × History) (f : A → M B)
      → Extends allowed h r.1
      → ((a : A) → Grows allowed (f a))
      → Extends allowed h (((λ (x : History). r) >>= f) h).1
  unfolding ◌>>=◌
  >>=-Extends h (ok a, h₁) f x g = Extends-trans x ((g a).at h₁)
  >>=-Extends h (err e, h₁) f x g = x
  >>=-Extends h (spinning, h₁) f x g = x

  pub Grows-bind :
      (m : M A) (f : A → M B)
      → Grows allowed m
      → ((a : A) → Grows allowed (f a))
      → Grows allowed (m >>= f)
  unfolding ◌>>=◌
  Grows-bind m f g k = record { at = λ h. >>=-Extends h (m h) f (g.at h) k }

module _ {A : Type 0} {allowed : Event → Bool} where
  catch_netcat-Extends :
      (h : History) (r : Result A × History) (k : M A)
      → Extends allowed h r.1
      → Grows allowed k
      → Extends allowed h (catch_netcat (λ (x : History). r) k h).1
  catch_netcat-Extends h (ok a, h₁) k x g = x
  catch_netcat-Extends h (err netcat_error, h₁) k x g = Extends-trans x (g.at h₁)
  catch_netcat-Extends h (err e, h₁) k x g = x
  catch_netcat-Extends h (spinning, h₁) k x g = x

  pub Grows-catch_netcat :
      (m k : M A) → Grows allowed m → Grows allowed k → Grows allowed (catch_netcat m k)
  Grows-catch_netcat m k g gk = record { at = λ h. catch_netcat-Extends h (m h) k (g.at h) gk }

module _ (svc : Services) {allowed : Event → Bool} where
  pub Grows-perform : (e : Event) → allowed e ≡ true → Grows allowed (perform svc e)
  Grows-perform e q = record { at = λ h. (e ∷ [], refl, (q, tt)) }

  pub Grows-int_env : (k : String) → Grows allowed (int_env svc k)
  Grows-int_env k = int_of_option-Grows (svc.getenv k)
    where
      or_value_error-Grows : (o : Option ℕ) → Grows allowed (or_value_error o)
      or_value_error-Grows none = record { at = λ h. ([], refl, tt) }
      or_value_error-Grows (some n) = record { at = λ h. ([], refl, tt) }

      int_of_option-Grows : (o : Option String) → Grows allowed (int_of_option svc o)
      int_of_option-Grows none = record { at = λ h. ([], refl, tt) }
      int_of_option-Grows (some s) = or_value_error-Grows (svc.int_of s)

pub ruleset grows_rules = (Grows-pure, Grows-spin, Grows-bind, Grows-perform, Grows-int_env)
