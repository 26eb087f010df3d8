-- ===== src/Benchmark/Iperf/Counted.antt =====
-- Methods that add tests to the results of `IperfBenchmark`: how counts go through the parts of a
-- method that may raise an exception.
use qpep.Prelude.{
  ℕ, ◌≤◌, ◌≢◌, ◌+◌, ◌≡◌, refl, String, Option, none, some, List, [], ◌∷◌, length, arith,
}
use qpep.World.{Result, ok, err, spinning, History, M}
use qpep.Dict.{Dict, lookup}
use qpep.Benchmark.{Json, Method, ◌>>=◌, lift}
use qpep.Benchmark.Iperf.{Results}

-- What is kept under a name after `n` tests of that name: four series of `n` values, or no entry.
abbrev pub IsSeries : {Num : Type 0} → ℕ → Option (Dict (List (Json Num))) → Type 0
IsSeries n none = n ≡ 0
IsSeries {Num} n (some series) =
    (a b c d : List (Json Num)) × (series
      ≡ ("sent_bytes", a) ∷ ("sent_bps", b) ∷ ("received_bytes", c) ∷ ("received_bps", d) ∷ [])
    × (length a ≡ n)
    × (length b ≡ n)
    × (length c ≡ n)
    × (length d ≡ n)

-- `tests` counts the tests that are kept under each name.
abbrev pub IsCounted : {Num : Type 0} → Results Num → (String → ℕ) → Type 0
IsCounted results tests = (name : String) → IsSeries (tests name) (lookup name results)

-- What a method leaves that had to add `more` tests: all of them if it returned, and on every
-- outcome whole tests, none of them lost.
pub record IsAdded {Num : Type 0} {A : Type 0} (tests more : String → ℕ)
    (left : Result A × Results Num × History) : Type 0 where
  pub kept : String → ℕ
  pub counted : IsCounted left.1 kept
  pub lower : (name : String) → tests name ≤ kept name
  pub upper : (name : String) → kept name ≤ tests name + more name
  pub all : (a : A) → left.0 ≡ ok a → (name : String) → kept name ≡ tests name + more name

abbrev pub Adds : {Num : Type 0} {A : Type 0} → Method (Results Num) A → (String → ℕ) → Type 0
Adds {Num} m more =
    (results : Results Num) (h : History) (tests : String → ℕ)
    → IsCounted results tests
    → IsAdded tests more (m results h)

module _ {Num : Type 0} {A B : Type 0} where
  IsAdded-stopped :
      (tests more more' : String → ℕ) {r : Result A} {s : Results Num} {h : History}
      → IsAdded tests more (r, s, h)
      → (r' : Result B) → ((b : B) → r' ≢ ok b)
      → IsAdded tests (λ name. more name + more' name) (r', s, h)
  IsAdded-stopped tests more more' x r' stopped = record {
    kept = x.kept;
    counted = x.counted;
    lower = x.lower;
    upper = λ name. omega (arith, x.upper name);
    all = λ b e. absurd (stopped b e);
  }

  Adds-continue :
      (left : Result A × Results Num × History) (f : A → Method (Results Num) B)
      (tests more more' : String → ℕ)
      → IsAdded tests more left
      → ((a : A) → Adds (f a) more')
      → (s : Results Num) (h : History)
      → IsAdded tests (λ name. more name + more' name) (((λ s h. left) >>= f) s h)
  unfolding ◌>>=◌
  Adds-continue (ok a, s, h) f tests more more' x y _ _ =
      let z = y a s h x.kept x.counted in
      record {
        kept = z.kept;
        counted = z.counted;
        lower = λ name. omega (arith, x.lower name, z.lower name);
        upper = λ name. omega (arith, x.upper name, z.upper name);
        all = λ b e name. omega (arith, x.all a refl name, z.all b e name);
      }
  Adds-continue (err e, s, h) f tests more more' x y _ _ =
      IsAdded-stopped tests more more' x (err e) λ b p. cc
  Adds-continue (spinning, s, h) f tests more more' x y _ _ =
      IsAdded-stopped tests more more' x spinning λ b p. cc

  pub Adds-bind :
      (m : Method (Results Num) A) (f : A → Method (Results Num) B) (more more' : String → ℕ)
      → Adds m more
      → ((a : A) → Adds (f a) more')
      → Adds (m >>= f) (λ name. more name + more' name)
  unfolding ◌>>=◌
  Adds-bind m f more more' x y results h tests c =
      Adds-continue (m results h) f tests more more' (x results h tests c) y results h

module _ {Num : Type 0} {B : Type 0} where
  Adds-stopped_at :
      (r : Result B)
      → ((b : B) → r ≢ ok b)
      → (results : Results Num) (h : History) (tests more : String → ℕ) → IsCounted results tests
      → IsAdded tests more (r, results, h)
  Adds-stopped_at r stopped results h tests more c = record {
    kept = tests;
    counted = c;
    lower = λ name. omega arith;
    upper = λ name. omega arith;
    all = λ b e name. absurd (stopped b e);
  }

module _ {Num : Type 0} {A : Type 0} where
  -- What returned or stopped without a store leaves what was there.
  pub unchanged :
      (r : Result A) (results : Results Num) (h : History) (tests : String → ℕ)
      → IsCounted results tests
      → IsAdded tests (λ name. 0) (r, results, h)
  unchanged r results h tests c = record {
    kept = tests;
    counted = c;
    lower = λ name. omega arith;
    upper = λ name. omega arith;
    all = λ a e name. omega arith;
  }

  -- Counts that agree under each name may replace each other.
  pub Adds-ext :
      (m : Method (Results Num) A) (more more' : String → ℕ)
      → ((name : String) → more name ≡ more' name)
      → Adds m more
      → Adds m more'
  Adds-ext m more more' p x results h tests c =
      let y = x results h tests c in
      record {
        kept = y.kept;
        counted = y.counted;
        lower = y.lower;
        upper = λ name. omega (arith, p name, y.upper name);
        all = λ a e name. omega (arith, p name, y.all a e name);
      }

module _ {Num : Type 0} {A B : Type 0} where
  Adds-lift_continue :
      (r : Result A × History) (f : A → Method (Results Num) B) (more : String → ℕ)
      → ((a : A) (h' : History) → r ≡ (ok a, h') → Adds (f a) more)
      → (h : History) → (results : Results Num) (tests : String → ℕ) → IsCounted results tests
      → IsAdded tests more ((lift (λ h. r) >>= f) results h)
  unfolding ◌>>=◌
  Adds-lift_continue (ok a, h') f more x h results tests c = x a h' refl results h' tests c
  Adds-lift_continue (err e, h') f more x h results tests c =
      Adds-stopped_at (err e) (λ b p. cc) results h' tests more c
  Adds-lift_continue (spinning, h') f more x h results tests c =
      Adds-stopped_at spinning (λ b p. cc) results h' tests more c

  -- An action on the services, and what is done with what it returned.
  pub Adds-lift :
      (m : M A) (f : A → Method (Results Num) B) (more : String → ℕ)
      → ((a : A) (h h' : History) → m h ≡ (ok a, h') → Adds (f a) more)
      → Adds (lift m >>= f) more
  unfolding ◌>>=◌
  Adds-lift m f more x results h tests c =
      Adds-lift_continue (m h) f more (λ a h' e. x a h h' e) h results tests c
