-- ===== src/Benchmark/Iperf/Inside.antt =====
-- `IperfBenchmark.run` works inside the testbed.
use qpep.Prelude.{ℕ, zero, suc, refl, String, Bool, true, false, Option, none, some, List, [], ◌∷◌}
use qpep.World.{Services}
use qpep.World.Grows.{Grows, Grows-pure, Grows-bind, Grows-perform, grows_rules}
use qpep.Testbed.Inside.{is_inside, get_container-inside}
use qpep.Dict.{Dict, lookup}
use qpep.Benchmark.{Json, Numbers}
use qpep.Benchmark.Grows.{Adds, Adds-pure, Adds-lift, Adds-bind}
use qpep.Benchmark.Iperf.{
  FileSize, store_under, store, reset_iperf, run_iperf_test, run_sizes, run_iterations, warm_up,
  run, result_name,
}

module _ {Num : Type 0} where
  store_under-inside :
      (name : String) (r : Dict (Json Num)) (o : Option (Dict (List (Json Num))))
      → Adds is_inside (store_under name r o)
  unfolding store_under
  store_under-inside name r none = record { at = λ s h. ([], refl, tt) }
  store_under-inside name r (some series) = record { at = λ s h. ([], refl, tt) }

  store-inside : (name : String) (r : Dict (Json Num)) → Adds is_inside (store name r)
  unfolding store
  store-inside name r = record { at = λ s h. (store_under-inside name r (lookup name s)).at s h }

module _ (py : Numbers) (svc : Services) where
  reset_iperf-inside : (b : Bool) (c : Option String) → Grows is_inside (reset_iperf py svc b c)
  unfolding reset_iperf
  reset_iperf-inside true c = search grows_rules depth 8
  reset_iperf-inside false c = Grows-pure tt

  run_iperf_test-inside :
      (size : FileSize) (b : Bool) → Grows is_inside (run_iperf_test py svc size b)
  unfolding run_iperf_test
  run_iperf_test-inside size b = Grows-bind _ _ (get_container-inside svc _) λ g.
      Grows-bind _ _ (reset_iperf-inside b g) λ _. Grows-bind _ _ (Grows-perform svc _ refl) λ _.
        Grows-bind _ _ (get_container-inside svc _) λ w.
          Grows-bind _ _ (reset_iperf-inside b w)
            λ _. Grows-bind _ _ (Grows-perform svc _ refl) λ _. record { at = λ h. ([], refl, tt) }

  run_sizes-inside : (sizes : List FileSize) (b : Bool) → Adds is_inside (run_sizes py svc sizes b)
  unfolding run_sizes
  run_sizes-inside [] b = Adds-pure tt
  run_sizes-inside (size ∷ sizes) b =
      Adds-bind _ _ (Adds-lift _ (run_iperf_test-inside size b))
        λ r. Adds-bind _ _ (store-inside (result_name size) r) λ _. run_sizes-inside sizes b

  run_iterations-inside :
      (n : ℕ) (sizes : List FileSize) (b : Bool) → Adds is_inside (run_iterations py svc n sizes b)
  unfolding run_iterations
  run_iterations-inside zero sizes b = Adds-pure tt
  run_iterations-inside (suc n) sizes b =
      Adds-bind _ _ (run_sizes-inside sizes b) λ _. run_iterations-inside n sizes b

  warm_up-inside : Grows is_inside (warm_up py svc)
  unfolding warm_up
  warm_up-inside = search (grows_rules, get_container-inside)

  pub run-inside :
      (sizes : List FileSize) (b : Bool) (n : ℕ) → Adds is_inside (run py svc sizes b n)
  unfolding run
  run-inside sizes b n =
      Adds-bind _ _ (Adds-lift _ warm_up-inside) λ _. run_iterations-inside n sizes b
