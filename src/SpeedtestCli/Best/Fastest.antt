-- ===== src/SpeedtestCli/Best/Fastest.antt =====
-- The server that `get_best_server` returns.
use qpep.Prelude.{
  ℕ, ◌+◌, ◌≡◌, ◌∙◌, ◌⊎◌, refl, sym, ap, subst, String, Bool, true, false, Option, none, some, List,
  [], ◌∷◌, if◌then◌else◌, inl, inr, arith,
}
use qpep.Dict.{lookup}
use qpep.SpeedtestCli.{Outcome, returned, raised, key_error, read_failure, Libraries}
use qpep.SpeedtestCli.Servers.{Server}
use qpep.SpeedtestCli.Best.{
  Probe, is_unreadable, reads_fail, average, Latencies, put, measure_all, result_at,
}

module _ (lib : Libraries) where
  open lib use {Float, same_float, float_leb}

  -- Each server with the latency that was measured for it.
  unfoldable pub measured : (ℕ → ℕ → Probe lib) → ℕ → List (Server lib) → Latencies lib
  measured probe i [] = []
  measured probe i (s ∷ servers) = (average lib (probe i), s) ∷ measured probe (i + 1) servers

  -- The pair stands in the list.
  abbrev pub Holds : Float × Server lib → Latencies lib → Type 0
  Holds p [] = ⊥
  Holds p (q ∷ l) = (p ≡ q) ⊎ Holds p l

  -- The latency is not above any in the list.
  abbrev pub IsFastest : Float → Latencies lib → Type 0
  IsFastest a l = (p : Float × Server lib) → Holds p l → float_leb a p.0 ≡ true

  abbrev pub AllHaveUrls : List (Server lib) → Type 0
  AllHaveUrls [] = Unit
  AllHaveUrls (s ∷ servers) =
      ((url : String) × (lookup "url" s.attributes ≡ some url)) × AllHaveUrls servers

  -- No read of an answer fails.
  abbrev pub AllReadable : (ℕ → ℕ → Probe lib) → Type 0
  AllReadable probe = (i k : ℕ) → is_unreadable lib (probe i k) ≡ false

  reads_fail-AllReadable :
      (probe : ℕ → ℕ → Probe lib) (i : ℕ) → AllReadable probe → reads_fail lib (probe i) ≡ false
  reads_fail-AllReadable probe i r = ground (arith, r i 0, r i 1, r i 2)

  pub put_all : Latencies lib → Latencies lib → Latencies lib
  put_all [] results = results
  put_all ((a, s) ∷ l) results = put_all l (put lib a s results)

  pub measure_all_lem :
      (probe : ℕ → ℕ → Probe lib) (i : ℕ) (servers : List (Server lib)) (results : Latencies lib)
      → AllHaveUrls servers
      → AllReadable probe
      → measure_all lib probe i servers results
        ≡ returned (put_all (measured probe i servers) results)
  unfolding measure_all put_all measured
  measure_all_lem probe i [] results u r = refl
  measure_all_lem probe i (s ∷ servers) results ((url, p), u) r =
      ap
        (λ o. elim o as (λ _. Outcome (Latencies lib)) [
          | none ↦ raised key_error
          | some _ ↦ elim (reads_fail lib (probe i)) as (λ _. Outcome (Latencies lib)) [
            | true ↦ raised read_failure
            | false ↦
                measure_all lib probe (i + 1) servers (put lib (average lib (probe i)) s results)
          ]
        ])
        p
      ∙ ap
          (λ b. elim b as (λ _. Outcome (Latencies lib)) [
            | true ↦ raised read_failure
            | false ↦
                measure_all lib probe (i + 1) servers (put lib (average lib (probe i)) s results)
          ])
          (reads_fail-AllReadable probe i r)
      ∙ measure_all_lem probe (i + 1) servers _ u r

  some_inj : (s t : Server lib) → some s ≡ some t → s ≡ t
  some_inj s t e = ap (λ (o : Option (Server lib)). elim o [ none ↦ s | some x ↦ x ]) e

  module _ (same : (a b : Float) → same_float a b ≡ true → a ≡ b) where
    -- What is in the dict after a store was stored or was there.
    put-Holds :
        (a : Float) (s : Server lib) (p : Float × Server lib) (results : Latencies lib)
        → Holds p (put lib a s results)
        → (p ≡ (a, s)) ⊎ Holds p results
    unfolding put
    put-Holds a s p [] h = h
    put-Holds a s p ((b, t) ∷ results) h = by_key (same_float b a) refl (put-Holds a s p results) h
      where
        by_key :
            (k : Bool)
            → same_float b a ≡ k
            → (Holds p (put lib a s results) → (p ≡ (a, s)) ⊎ Holds p results)
            → Holds p (if k then (b, s) ∷ results else (b, t) ∷ put lib a s results)
            → (p ≡ (a, s)) ⊎ ((p ≡ (b, t)) ⊎ Holds p results)
        by_key true q ih (inl e) = inl (e ∙ ap (λ x. (x, s)) (same b a q))
        by_key true q ih (inr r) = inr (inr r)
        by_key false q ih (inl e) = inr (inl e)
        by_key false q ih (inr r) = elim (ih r) [ inl e ↦ inl e | inr x ↦ inr (inr x) ]

    pub put_all-Holds :
        (l results : Latencies lib) (p : Float × Server lib)
        → Holds p (put_all l results)
        → Holds p l ⊎ Holds p results
    unfolding put_all
    put_all-Holds [] results p h = inr h
    put_all-Holds ((a, s) ∷ l) results p h = elim (put_all-Holds l _ p h) [
      | inl x ↦ inl (inr x)
      | inr x ↦ elim (put-Holds a s p results x) [ inl e ↦ inl (inl e) | inr y ↦ inr y ]
    ]

    -- A latency that was stored is a key, and a key stays one.
    put-key :
        (a : Float) (s : Server lib) (results : Latencies lib)
        → (t : Server lib) × Holds (a, t) (put lib a s results)
    unfolding put
    put-key a s [] = (s, inl refl)
    put-key a s ((b, t) ∷ results) = by_key (same_float b a) refl (put-key a s results)
      where
        by_key :
            (k : Bool)
            → same_float b a ≡ k
            → ((u : Server lib) × Holds (a, u) (put lib a s results))
            → (u : Server lib) × Holds
                (a, u)
                (if k then (b, s) ∷ results else (b, t) ∷ put lib a s results)
        by_key true q ih = (s, inl (ap (λ x. (x, s)) (sym (same b a q))))
        by_key false q (u, h) = (u, inr h)

    put-keeps :
        (c a : Float) (s t : Server lib) (results : Latencies lib)
        → Holds (c, t) results
        → (u : Server lib) × Holds (c, u) (put lib a s results)
    unfolding put
    put-keeps c a s t [] h = elim h [ ]
    put-keeps c a s t ((b, v) ∷ results) h = by_key (same_float b a) (put-keeps c a s t results) h
      where
        by_key :
            (k : Bool)
            → (Holds (c, t) results → (u : Server lib) × Holds (c, u) (put lib a s results))
            → Holds (c, t) ((b, v) ∷ results)
            → (u : Server lib) × Holds
                (c, u)
                (if k then (b, s) ∷ results else (b, v) ∷ put lib a s results)
        by_key true ih (inl e) = (s, inl (ap (λ (x : Float × Server lib). (x.0, s)) e))
        by_key true ih (inr h) = (t, inr h)
        by_key false ih (inl e) = (t, inl e)
        by_key false ih (inr h) = let (u, g) = ih h in (u, inr g)

    put_all-keeps :
        (c : Float) (t : Server lib) (l results : Latencies lib)
        → Holds (c, t) results
        → (u : Server lib) × Holds (c, u) (put_all l results)
    unfolding put_all
    put_all-keeps c t [] results h = (t, h)
    put_all-keeps c t ((a, s) ∷ l) results h =
        let (u, g) = put-keeps c a s t results h in put_all-keeps c u l _ g

    pub put_all-key :
        (l results : Latencies lib) (p : Float × Server lib)
        → Holds p l
        → (u : Server lib) × Holds (p.0, u) (put_all l results)
    unfolding put_all
    put_all-key [] results p h = elim h [ ]
    put_all-key ((a, s) ∷ l) results p (inl e) =
        let (u, h) = put-key a s results in
        let (v, g) = put_all-keeps a u l _ h in
        (
          v,
          subst (λ x. Holds (x, v) (put_all l (put lib a s results)))
              (sym (ap (λ (q : Float × Server lib). q.0) e)) g,
        )
    put_all-key ((a, s) ∷ l) results p (inr h) = put_all-key l _ p h

    pub result_at-Holds :
        (f : Float) (results : Latencies lib) (s : Server lib)
        → result_at lib f results ≡ some s
        → Holds (f, s) results
    unfolding result_at
    result_at-Holds f [] s e = cc e
    result_at-Holds f ((a, t) ∷ results) s e =
        by_key (same_float a f) refl (result_at-Holds f results s) e
      where
        by_key :
            (k : Bool)
            → same_float a f ≡ k
            → (result_at lib f results ≡ some s → Holds (f, s) results)
            → (if k then some t else result_at lib f results) ≡ some s
            → Holds (f, s) ((a, t) ∷ results)
        by_key true q ih e =
            inl (ap (λ x. (x, s)) (sym (same a f q)) ∙ ap (λ x. (a, x)) (some_inj s t (sym e)))
        by_key false q ih e = inr (ih e)
