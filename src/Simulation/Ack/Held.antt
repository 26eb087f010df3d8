-- ===== src/Simulation/Ack/Held.antt =====
-- How many results `ack_bundling_iperf_scenario` holds for an ack level and a loss rate.
use qpep.Prelude.{
  ℕ, ◌+◌, ◌≡◌, refl, sym, ap, String, Bool, true, false, Option, none, some, List, [], ◌∷◌, ◌++◌,
  length, length-append, if◌then◌else◌, arith,
}
use text.Mathlib.Text.{◌==◌ as str_eq}
use text.Mathlib.TextEquality.{eq_iff}
use qpep.World.{Result, ok, err, spinning, History, pure}
use qpep.World.Inversion.{>>=-eq-ok}
use qpep.Dict.{Dict, lookup, insert, lookup-insert}
use qpep.Benchmark.Iperf.{Results}
use qpep.Simulation.{ensure, append_to, or_key_error}
use qpep.Simulation.Ack.{Decimation, append_at, ensure_at}

-- How many of the results of a list are stored under a key.
abbrev pub stored : {A : Type 0} → Option (List A) → ℕ
stored none = 0
stored (some l) = length l

abbrev pub stored_at : {A : Type 0} → String → Option (Dict (List A)) → ℕ
stored_at plr none = 0
stored_at plr (some inner) = stored (lookup plr inner)

-- How many results are held for an ack level and a loss rate.
abbrev pub held : {Num : Type 0} → Decimation Num → String → String → ℕ
held d ack plr = stored_at plr (lookup ack d)

-- How many of a list have the text.
unfoldable pub hits : {A : Type 0} → (A → String) → List A → String → ℕ
hits text [] s = 0
hits text (x ∷ l) s = (if str_eq (text x) s then 1 else 0) + hits text l s

module _ {A : Type 0} where
  pub pure-ok : (a b : A) (h h' : History) → pure a h ≡ (ok b, h') → a ≡ b
  pure-ok a b h h' e = ap {B = A} (λ (p : Result A × History). value p.0) e
    where
      value : Result A → A
      value (ok x) = x
      value (err _) = a
      value spinning = a

  or_key_error-ok :
      (o : Option A) (h h' : History) (a : A) → or_key_error o h ≡ (ok a, h') → o ≡ some a
  or_key_error-ok none h h' a e = cc e
  or_key_error-ok (some b) h h' a e =
      ap (λ (p : Result A × History). elim p.0 [ ok x ↦ some x | err _ ↦ none | spinning ↦ none ]) e

  stored-append_to :
      (plr p : String) (x : A) (inner inner' : Dict (List A))
      → append_to plr x inner ≡ some inner'
      → stored (lookup p inner') ≡ (if str_eq plr p then 1 else 0) + stored (lookup p inner)
  unfolding append_to
  stored-append_to plr p x inner inner' e = by_entry (lookup plr inner) refl e
    where
      by_entry :
          (o : Option (List A))
          → lookup plr inner ≡ o
          → (elim o [ none ↦ none | some l ↦ some (insert plr (l ++ x ∷ []) inner) ]) ≡ some inner'
          → stored (lookup p inner') ≡ (if str_eq plr p then 1 else 0) + stored (lookup p inner)
      by_entry none q e = cc e
      by_entry (some l) q e = ground (
        arith,
        q,
        e,
        length-append l (x ∷ []),
        lookup-insert plr p (l ++ x ∷ []) inner,
        eq_iff plr p,
      )

  stored-ensure :
      (plr p : String) (inner : Dict (List A))
      → stored (lookup p (ensure plr [] inner)) ≡ stored (lookup p inner)
  unfolding ensure
  stored-ensure plr p inner = by_entry (lookup plr inner) refl
    where
      by_entry :
          (o : Option (List A))
          → lookup plr inner ≡ o
          → stored (lookup p (elim o [ none ↦ insert plr [] inner | some _ ↦ inner ]))
            ≡ stored (lookup p inner)
      by_entry none q = ground (arith, q, lookup-insert plr p [] inner, eq_iff plr p)
      by_entry (some l) q = refl

module _ {Num : Type 0} where
  -- A new dict under an ack level, with more results by the loss rate.
  held-insert :
      (a ack plr : String) (k : String → ℕ) (inner inner' : Dict (List (Results Num)))
      (d : Decimation Num)
      → stored (lookup plr inner) ≡ stored_at plr (lookup a d)
      → stored (lookup plr inner') ≡ k plr + stored (lookup plr inner)
      → held (insert a inner' d) ack plr ≡ (if str_eq a ack then k plr else 0) + held d ack plr
  held-insert a ack plr k inner inner' d q more =
      by_name (str_eq a ack) refl (lookup-insert a ack inner' d)
    where
      by_name :
          (b : Bool)
          → str_eq a ack ≡ b
          → lookup ack (insert a inner' d) ≡ (if b then some inner' else lookup ack d)
          → held (insert a inner' d) ack plr ≡ (if b then k plr else 0) + held d ack plr
      by_name true same e = omega (
        arith,
        ap (stored_at plr) e,
        more,
        q,
        ap (λ x. stored_at plr (lookup x d)) ((eq_iff a ack).0 same),
      )
      by_name false other e = omega (arith, ap (stored_at plr) e)

  pub held-append_at :
      (a plr : String) (r : Results Num) (d d' : Decimation Num) (h h' : History)
      → append_at a plr r d h ≡ (ok d', h')
      → (ack p : String)
      → held d' ack p ≡ (if str_eq a ack then (if str_eq plr p then 1 else 0) else 0) + held d ack p
  unfolding append_at
  held-append_at a plr r d d' h h' e ack p =
      let (inner, q, e₁) = >>=-eq-ok (or_key_error (lookup a d)) _ h e in
      let (inner', q', e₂) = >>=-eq-ok (or_key_error (append_to plr r inner)) _ _ e₁ in
      omega (
        arith,
        ap (λ y. held y ack p) (pure-ok _ d' _ h' e₂),
        held-insert a ack p (λ j. if str_eq plr j then 1 else 0) inner inner' d
            (sym (ap (stored_at p) (or_key_error-ok _ _ _ _ q)))
            (stored-append_to plr p r inner inner' (or_key_error-ok _ _ _ _ q')),
      )

  pub held-ensure_at :
      (a plr : String) (d d' : Decimation Num) (h h' : History)
      → ensure_at a plr d h ≡ (ok d', h')
      → (ack p : String) → held d' ack p ≡ held d ack p
  unfolding ensure_at
  held-ensure_at a plr d d' h h' e ack p =
      let (inner, q, e₁) = >>=-eq-ok (or_key_error (lookup a d)) _ h e in
      grind (
        arith,
        ap (λ y. held y ack p) (pure-ok _ d' _ h' e₁),
        held-insert a ack p (λ j. 0) inner (ensure plr [] inner) d
            (sym (ap (stored_at p) (or_key_error-ok _ _ _ _ q)))
            (omega (arith, stored-ensure plr p inner)),
      )

  pub held-ensure :
      (a : String) (d : Decimation Num) (ack p : String) → held (ensure a [] d) ack p ≡ held d ack p
  unfolding ensure lookup
  held-ensure a d ack p = by_entry (lookup a d) refl
    where
      by_entry :
          (o : Option (Dict (List (Results Num))))
          → lookup a d ≡ o
          → held (elim o [ none ↦ insert a [] d | some _ ↦ d ]) ack p ≡ held d ack p
      by_entry none q =
          grind (arith, held-insert a ack p (λ j. 0) [] [] d (sym (ap (stored_at p) q)) refl)
      by_entry (some inner) q = refl
