-- ===== src/Benchmark/Iperf/Series.antt =====
-- The series that `IperfBenchmark.run` keeps: four of one length under each name, with one value
-- for each test of that name.
use qpep.Prelude.{
  ℕ, ◌≤◌, zero, suc, ◌+◌, ◌*◌, ◌≡◌, refl, sym, ap, subst, String, Bool, true, false, Option, none,
  some, List, [], ◌∷◌, ◌++◌, length-append, if◌then◌else◌, arith,
}
use text.Mathlib.TextEquality.{eq_iff}
use text.Mathlib.Text.{◌==◌ as str_eq}
use qpep.World.{Result, ok, Services, ⊤, History}
use qpep.Dict.{Dict, lookup, insert, lookup-insert}
use qpep.Benchmark.{Json, Numbers}
use qpep.Benchmark.Iperf.{
  FileSize, result_name, report, Results, append_values, store, store_under, run_sizes,
  run_iterations, run,
}
use qpep.Benchmark.Iperf.Report.{IsReport, run_iperf_test-IsReport}
use qpep.Benchmark.Iperf.Counted.{
  IsSeries, IsCounted, IsAdded, Adds, Adds-bind, unchanged, Adds-ext, Adds-lift,
}

-- How many of the sizes have the name.
pub tests_of : List FileSize → String → ℕ
tests_of [] name = 0
tests_of (size ∷ sizes) name =
    (if str_eq (result_name size) name then 1 else 0) + tests_of sizes name

module _ {Num : Type 0} where
  append_values-report :
      (a b c d : List (Json Num)) (v w x y : Json Num)
      → append_values
          (report v w x y)
          (("sent_bytes", a) ∷ ("sent_bps", b) ∷ ("received_bytes", c) ∷ ("received_bps", d) ∷ [])
        ≡ (
          ok tt,
          ("sent_bytes", a ++ v ∷ [])
              ∷ ("sent_bps", b ++ w ∷ [])
              ∷ ("received_bytes", c ++ x ∷ [])
              ∷ ("received_bps", d ++ y ∷ [])
              ∷ [],
        )
  unfolding append_values lookup insert
  append_values-report a b c d v w x y = refl

  IsSeries-if :
      (hit : Bool) (n : ℕ) (series : Dict (List (Json Num))) (old : Option (Dict (List (Json Num))))
      → (hit ≡ true → IsSeries (1 + n) (some series))
      → IsSeries n old
      → IsSeries ((if hit then 1 else 0) + n) (if hit then some series else old)
  IsSeries-if true n series old new kept = new refl
  IsSeries-if false n series old new kept = subst (λ k. IsSeries k old) (omega arith) kept

  IsCounted-insert :
      (results : Results Num) (name : String) (series : Dict (List (Json Num))) (tests : String → ℕ)
      → IsCounted results tests
      → IsSeries (1 + tests name) (some series)
      → IsCounted (insert name series results) λ j. (if str_eq name j then 1 else 0) + tests j
  IsCounted-insert results name series tests c new j =
      subst (IsSeries ((if str_eq name j then 1 else 0) + tests j))
        (sym (lookup-insert name j series results))
        (IsSeries-if (str_eq name j) (tests j) series (lookup j results)
          (λ same. subst (λ k. IsSeries (1 + tests k) (some series)) ((eq_iff name j).0 same) new)
          (c j))

  IsAdded-insert :
      (name : String) (series : Dict (List (Json Num))) (results : Results Num) (h : History)
      (tests : String → ℕ)
      → IsCounted results tests
      → IsSeries (1 + tests name) (some series)
      → IsAdded tests (λ j. if str_eq name j then 1 else 0) (ok tt, insert name series results, h)
  IsAdded-insert name series results h tests c new = record {
    kept = λ j. (if str_eq name j then 1 else 0) + tests j;
    counted = IsCounted-insert results name series tests c new;
    lower = λ j. omega arith;
    upper = λ j. omega arith;
    all = λ a e j. omega arith;
  }

  store_under-IsAdded :
      (name : String) (v w x y : Json Num) (old : Option (Dict (List (Json Num))))
      (results : Results Num) (h : History) (tests : String → ℕ)
      → IsCounted results tests
      → IsSeries (tests name) old
      → IsAdded tests
          (λ j. if str_eq name j then 1 else 0)
          (store_under name (report v w x y) old results h)
  unfolding store_under
  store_under-IsAdded name v w x y none results h tests c absent =
      IsAdded-insert name _ results h tests c (
        v ∷ [],
        w ∷ [],
        x ∷ [],
        y ∷ [],
        refl,
        omega (arith, absent),
        omega (arith, absent),
        omega (arith, absent),
        omega (arith, absent),
      )
  store_under-IsAdded name v w x y (some series) results h tests c
        (sa, sb, sc, sd, q, la, lb, lc, ld) =
      subst
        (λ s.
          IsAdded tests (λ j. if str_eq name j then 1 else 0)
            (store_under name (report v w x y) (some s) results h))
        (sym q)
        (rw (append_values-report sa sb sc sd v w x y) (
          IsAdded-insert name _ results h tests c (
            sa ++ v ∷ [],
            sb ++ w ∷ [],
            sc ++ x ∷ [],
            sd ++ y ∷ [],
            refl,
            omega (arith, la, length-append sa (v ∷ [])),
            omega (arith, lb, length-append sb (w ∷ [])),
            omega (arith, lc, length-append sc (x ∷ [])),
            omega (arith, ld, length-append sd (y ∷ [])),
          )))

  store-Adds :
      (name : String) (r : Dict (Json Num))
      → IsReport r
      → Adds (store name r) λ j. if str_eq name j then 1 else 0
  unfolding store
  store-Adds name r (v, w, x, y, e) results h tests c =
      subst
        (λ r.
          IsAdded tests (λ j. if str_eq name j then 1 else 0)
            (store_under name r (lookup name results) results h))
        (sym e) (store_under-IsAdded name v w x y (lookup name results) results h tests c (c name))

module _ (py : Numbers) (svc : Services) where
  run_sizes-Adds :
      (sizes : List FileSize) (reset_on_run : Bool)
      → Adds (run_sizes py svc sizes reset_on_run) (tests_of sizes)
  unfolding run_sizes tests_of
  run_sizes-Adds [] reset_on_run = unchanged (ok tt)
  run_sizes-Adds (size ∷ sizes) reset_on_run = Adds-lift _ _ _ λ r h h' e.
      Adds-bind _ _ _ _
        (store-Adds (result_name size) r (run_iperf_test-IsReport py svc size reset_on_run h e))
        λ a. run_sizes-Adds sizes reset_on_run

  run_iterations-Adds :
      (n : ℕ) (sizes : List FileSize) (reset_on_run : Bool)
      → Adds (run_iterations py svc n sizes reset_on_run) λ name. n * tests_of sizes name
  unfolding run_iterations
  run_iterations-Adds zero sizes reset_on_run =
      Adds-ext _ _ _ (λ name. omega arith) (unchanged (ok tt))
  run_iterations-Adds (suc n) sizes reset_on_run =
      Adds-ext _ _ _ (λ name. grind arith)
        (Adds-bind _ _ _ _ (run_sizes-Adds sizes reset_on_run)
          λ a. run_iterations-Adds n sizes reset_on_run)

  run-Adds :
      (sizes : List FileSize) (reset_on_run : Bool) (iterations : ℕ)
      → Adds (run py svc sizes reset_on_run iterations) λ name. iterations * tests_of sizes name
  unfolding run
  run-Adds sizes reset_on_run iterations =
      Adds-lift _ _ _ λ a h h' e. run_iterations-Adds iterations sizes reset_on_run

  -- If `run` returns, from results that hold four series of `tests name` values under each name,
  -- then each of the four has grown by `iterations` for each file size of that name.
  pub run-IsCounted :
      (sizes : List FileSize) (reset_on_run : Bool) (iterations : ℕ)
      (results results' : Results py.Num) (h h' : History) (tests : String → ℕ)
      → IsCounted results tests
      → run py svc sizes reset_on_run iterations results h ≡ (ok tt, results', h')
      → IsCounted results' λ name. tests name + iterations * tests_of sizes name
  run-IsCounted sizes reset_on_run iterations results results' h h' tests c e =
      let x = run-Adds sizes reset_on_run iterations results h tests c in
      λ name.
        subst
          (λ (r : Results py.Num).
            IsSeries (tests name + iterations * tests_of sizes name) (lookup name r))
          (ap (λ (left : Result ⊤ × Results py.Num × History). left.1) e)
          (subst
            (λ n. IsSeries n (lookup name (run py svc sizes reset_on_run iterations results h).1))
            (x.all tt (ap (λ (left : Result ⊤ × Results py.Num × History). left.0) e) name)
            (x.counted name))

  -- However `run` ends, with an exception in any test too, the four series under each name are
  -- still of one length: no test is kept in part, none that was there is lost, and there are at
  -- most `iterations` more for each file size of that name.
  pub run_keeps :
      (sizes : List FileSize) (reset_on_run : Bool) (iterations : ℕ) (results : Results py.Num)
      (h : History) (tests : String → ℕ)
      → IsCounted results tests
      → (kept : String → ℕ) × IsCounted (run py svc sizes reset_on_run iterations results h).1 kept
        × ((name : String) → tests name ≤ kept name)
        × ((name : String) → kept name ≤ tests name + iterations * tests_of sizes name)
  run_keeps sizes reset_on_run iterations results h tests c =
      let x = run-Adds sizes reset_on_run iterations results h tests c in
      (x.kept, x.counted, x.lower, x.upper)
