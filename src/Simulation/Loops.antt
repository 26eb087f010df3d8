-- ===== src/Simulation/Loops.antt =====
-- What a loop of the simulation examples does to the history.
use qpep.Prelude.{
  ℕ, zero, suc, ◌+◌, ◌*◌, ◌≡◌, refl, ap, Bool, true, false, Option, none, some, List, [], ◌∷◌, ◌++◌,
  length, length-append, if◌then◌else◌, arith,
}
use qpep.World.{Result, ok, err, spinning, Event, ⊤, History, Services, M, pure}
use qpep.World.Inversion.{>>=-eq-ok}
use qpep.World.Grows.{Grows, Grows-pure, Grows-bind, Extends}
use qpep.World.Tally.{tally, Counts, Counts-pure, Counts-bind}
use qpep.Testbed.Inside.{is_inside}
use qpep.Benchmark.{Numbers}
use qpep.Benchmark.Iperf.Inside
use qpep.Simulation.{
  Scenario, is_chosen, if_chosen, append_if, for_each, for_range, or_key_error, kept,
  IperfBenchmark, run_iperf,
}

module _ {S : Type 0} where
  pub for_range-Counts :
      (test : Event → Bool) (k n : ℕ) (body : S → M S)
      → ((s : S) → Counts test n (body s))
      → (s : S) → Counts test (k * n) (for_range k body s)
  unfolding for_range
  for_range-Counts test zero n body once s h h' a e = omega (arith, Counts-pure test s h h' a e)
  for_range-Counts test (suc k) n body once s h h' a e = omega (
    arith,
    Counts-bind test n (k * n) _ _ (once s) (λ s'. for_range-Counts test k n body once s') h h' a e,
  )

  pub for_range-Grows :
      {allowed : Event → Bool} (k : ℕ) (body : S → M S)
      → ((s : S) → Grows allowed (body s))
      → (s : S) → Grows allowed (for_range k body s)
  unfolding for_range
  for_range-Grows zero body g s = Grows-pure s
  for_range-Grows (suc k) body g s = Grows-bind _ _ (g s) λ s'. for_range-Grows k body g s'

module _ {A S : Type 0} where
  pub for_each-Counts :
      (test : Event → Bool) (l : List A) (n : ℕ) (body : A → S → M S)
      → ((x : A) (s : S) → Counts test n (body x s))
      → (s : S) → Counts test (length l * n) (for_each l body s)
  unfolding for_each
  for_each-Counts test [] n body once s h h' a e = omega (arith, Counts-pure test s h h' a e)
  for_each-Counts test (x ∷ l) n body once s h h' a e = omega (
    arith,
    Counts-bind test n (length l * n) _ _ (once x s) (λ s'. for_each-Counts test l n body once s') h
        h' a e,
  )

module _ {allowed : Event → Bool} where
  pub or_key_error-Grows : {A : Type 0} (o : Option A) → Grows allowed (or_key_error o)
  or_key_error-Grows none = record { at = λ h. ([], refl, tt) }
  or_key_error-Grows (some a) = Grows-pure a

module _ (py : Numbers) (svc : Services) where
  kept-Extends :
      {S : Type 0} (h : History) (left : Result ⊤ × S × History)
      → Extends is_inside h left.2
      → Extends is_inside h (kept left).1
  kept-Extends h (ok _, s, h') x = x
  kept-Extends h (err e, s, h') x = x
  kept-Extends h (spinning, s, h') x = x

  pub run_iperf-inside : (b : IperfBenchmark) → Grows is_inside (run_iperf py svc b)
  unfolding run_iperf
  run_iperf-inside b = record {
    at = λ h.
        kept-Extends h _
          ((Inside.run-inside py svc b.file_sizes b.reset_on_run b.iterations).at [] h);
  }

module _ (svc : Services) where
  -- How many of the scenarios bear the name that was chosen.
  pub chosen : List Scenario → ℕ
  chosen [] = 0
  chosen (s ∷ l) = (if is_chosen svc s then 1 else 0) + chosen l

  abbrev returned : {A : Type 0} → Result (List A) → ℕ
  returned (ok l) = length l
  returned _ = 0

  module _ {A : Type 0} (test : Event → Bool) (n : ℕ) (m : Scenario → M A)
      (once : (s : Scenario) → Counts test n (m s)) where
    pure-Counts :
        (l l' : List A) (h h' : History)
        → pure l h ≡ (ok l', h')
        → (length l' ≡ length l) × (tally test h' ≡ tally test h)
    pure-Counts l l' h h' e = (
      omega (arith, ap (λ (p : Result (List A) × History). returned p.0) e),
      omega (arith, ap (λ (p : Result (List A) × History). tally test p.1) e),
    )

    append_if-Counts :
        (b : Bool) (s : Scenario) (l l' : List A) (h h' : History)
        → append_if b (m s) l h ≡ (ok l', h')
        → (length l' ≡ (if b then 1 else 0) + length l)
          × (tally test h' ≡ (if b then 1 else 0) * n + tally test h)
    append_if-Counts false s l l' h h' e =
        let (x, y) = pure-Counts l l' h h' e in (omega (arith, x), omega (arith, y))
    append_if-Counts true s l l' h h' e =
        let (a, p, q) = >>=-eq-ok (m s) _ h e in
        let (x, y) = pure-Counts (l ++ a ∷ []) l' _ h' q in
        (omega (arith, length-append l (a ∷ []), x), omega (arith, once s h _ a p, y))

    pub for_each-chosen :
        (l : List Scenario) (r r' : List A) (h h' : History)
        → for_each l (λ s. if_chosen svc s (m s)) r h ≡ (ok r', h')
        → (length r' ≡ chosen l + length r) × (tally test h' ≡ chosen l * n + tally test h)
    unfolding for_each chosen
    for_each-chosen [] r r' h h' e =
        let (x, y) = pure-Counts r r' h h' e in (omega (arith, x), omega (arith, y))
    for_each-chosen (s ∷ l) r r' h h' e =
        let (r₁, p, q) = >>=-eq-ok (if_chosen svc s (m s) r) _ h e in
        let (x, y) = append_if-Counts (is_chosen svc s) s r r₁ h _ p in
        let (z, w) = for_each-chosen l r₁ r' _ h' q in (omega (arith, x, z), omega (arith, y, w))
