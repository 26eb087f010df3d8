-- ===== src/World/Inversion.antt =====
-- What is known of the parts of a `do` block that returned.
use qpep.Prelude.{String, ◌≡◌, refl, ap, subst, ◌∷◌, ◌⊎◌, inl, inr}
use qpep.World.{
  Error, Result, ok, err, spinning, Event, History, Services, M, ◌>>=◌, perform, catch_netcat,
  netcat_error,
}

pub Result-cases {ℓ} :
    {A : Type ℓ} (r : Result A)
    → ((a : A) × (r ≡ ok a)) ⊎ ((e : Error) × (r ≡ err e)) ⊎ (r ≡ spinning)
Result-cases (ok a) = inl (a, refl)
Result-cases (err e) = inr (inl (e, refl))
Result-cases spinning = inr (inr refl)

module _ {ℓ κ} {A : Type ℓ} {B : Type κ} where
  >>=-continue :
      (r : Result A × History) (f : A → M B) {b : B} {h' : History}
      → ((λ (h : History). r) >>= f) r.1 ≡ (ok b, h')
      → (a : A) × (r ≡ (ok a, r.1)) × (f a r.1 ≡ (ok b, h'))
  unfolding ◌>>=◌
  >>=-continue (ok a, h) f e = (a, refl, e)
  >>=-continue (err x, h) f e = cc (ap (λ (p : Result B × History). p.0) e)
  >>=-continue (spinning, h) f e = cc (ap (λ (p : Result B × History). p.0) e)

  -- A bind that returned: both parts returned.
  pub >>=-eq-ok :
      (m : M A) (f : A → M B) (h : History) {b : B} {h' : History}
      → (m >>= f) h ≡ (ok b, h')
      → (a : A) × (m h ≡ (ok a, (m h).1)) × (f a (m h).1 ≡ (ok b, h'))
  unfolding ◌>>=◌
  >>=-eq-ok m f h e = >>=-continue (m h) f e

module _ {κ} {B : Type κ} (svc : Services) where
  -- An event that let the block go on was answered.
  pub perform-eq-ok :
      (e : Event) (f : String → M B) (h : History) {b : B} {h' : History}
      → (perform svc e >>= f) h ≡ (ok b, h')
      → (r : String) × (svc.reply h e ≡ ok r) × (f r (e ∷ h) ≡ (ok b, h'))
  perform-eq-ok e f h q =
      let (r, p, rest) = >>=-eq-ok (perform svc e) f h q in
      (r, ap (λ (p : Result String × History). p.0) p, rest)

module _ {ℓ} {A : Type ℓ} where
  catch_netcat-cases :
      (r : Result A × History) (k : M A) {b : A} {h' : History}
      → catch_netcat (λ h. r) k r.1 ≡ (ok b, h')
      → (r ≡ (ok b, h')) ⊎ ((r.0 ≡ err netcat_error) × (k r.1 ≡ (ok b, h')))
  catch_netcat-cases (ok a, h) k q = inl q
  catch_netcat-cases (err netcat_error, h) k q = inr (refl, q)
  catch_netcat-cases (err _, h) k q = cc (ap (λ (p : Result A × History). p.0) q)
  catch_netcat-cases (spinning, h) k q = cc (ap (λ (p : Result A × History). p.0) q)

  -- A `try` with `except NetcatError` that went on: its body returned, or raised that error.
  pub catch_netcat-eq-ok :
      (m k : M A) (h : History) {b : A} {h' : History}
      → catch_netcat m k h ≡ (ok b, h')
      → (m h ≡ (ok b, h')) ⊎ (((m h).0 ≡ err netcat_error) × (k (m h).1 ≡ (ok b, h')))
  catch_netcat-eq-ok m k h q = catch_netcat-cases (m h) k q

module _ {ℓ κ} {A : Type ℓ} {B : Type κ} where
  >>=-ok-continue :
      (r : Result A × History) (f : A → M B) {a : A} {h₁ : History} (h : History)
      → r ≡ (ok a, h₁)
      → ((λ (x : History). r) >>= f) h ≡ f a h₁
  unfolding ◌>>=◌
  >>=-ok-continue r f h q = ap (λ (r : Result A × History). ((λ (x : History). r) >>= f) h) q

  -- A part that returns hands its result and its history on.
  pub >>=-ok :
      (m : M A) (f : A → M B) (h : History) {a : A} {h₁ : History}
      → m h ≡ (ok a, h₁)
      → (m >>= f) h ≡ f a h₁
  unfolding ◌>>=◌
  >>=-ok m f h q = >>=-ok-continue (m h) f h q

module _ {ℓ κ} {A : Type ℓ} {B : Type κ} where
  -- A part that raises ends the block.
  pub >>=-err :
      (m : M A) (f : A → M B) (h : History) {e : Error} {h₁ : History}
      → m h ≡ (err e, h₁)
      → (m >>= f) h ≡ (err e, h₁)
  unfolding ◌>>=◌
  >>=-err m f h q = ap (λ (r : Result A × History). ((λ (x : History). r) >>= f) h) q

  -- A part whose events are known when it returns.
  pub >>=-known :
      (m : M A) (f : A → M B) (h : History) {h₁ : History} {b : B} {h' : History}
      → ((a : A) (h₂ : History) → m h ≡ (ok a, h₂) → h₂ ≡ h₁)
      → (m >>= f) h ≡ (ok b, h')
      → (a : A) × (f a h₁ ≡ (ok b, h'))
  >>=-known m f h {h₁} {b} {h'} known e =
      let (a, p, rest) = >>=-eq-ok m f h e in
      (a, subst (λ x. f a x ≡ (ok b, h')) (known a _ p) rest)
