-- ===== src/Simulation/Transfers.antt =====
-- `iperf_test_scenario` of opensand-testbed/simulation_examples.py.
pub mod Chosen
mod Examples
use qpep.Prelude.{ℕ, zero, suc, ◌+◌, ◌*◌, ◌/◌, ◌%◌, String, true, false, List, [], ◌∷◌, ◌++◌}
use qpep.Prelude.Text.{join, str_of_int}
use qpep.World.{Services, ⊤, M, pure, ◌>>=◌, ◌>>◌, int_env}
use qpep.Scenario.{deploy_scenario}
use qpep.Benchmark.{Numbers}
use qpep.Benchmark.Iperf.{FileSize, Results}
use qpep.Simulation.{
  Scenario, host_testbed, deployment, plain_scenario, vpn_scenario, pepsal_scenario,
  distributed_pepsal_scenario, qpep_scenario, slice, for_each, if_chosen, IperfBenchmark, file_size,
  run_iperf,
}

-- `str((i/4))` after the point.
abbrev pub quarters : ℕ → String
quarters zero = ".0"
quarters (suc zero) = ".25"
quarters (suc (suc zero)) = ".5"
quarters _ = ".75"

-- `[(i/4)*1000000 for i in range(from, from + n)]`
pub quarter_sizes : ℕ → ℕ → List FileSize
quarter_sizes zero i = []
quarter_sizes (suc n) i =
    file_size (join (str_of_int (i * 250000) ∷ ".0" ∷ []))
      (join (str_of_int (i / 4) ∷ quarters (i % 4) ∷ []))
    ∷ quarter_sizes n (i + 1)

-- The list is in order as it is built, so that `sort` leaves it.
pub transfer_sizes : List FileSize
unfolding quarter_sizes
transfer_sizes =
    file_size "25000" "0.025"
    ∷ file_size "50000" "0.05"
    ∷ file_size "100000" "0.1"
    ∷ file_size "150000" "0.15"
    ∷ quarter_sizes 46 1

abbrev pub transfer_scenarios : List Scenario
transfer_scenarios =
    qpep_scenario ∷ distributed_pepsal_scenario ∷ vpn_scenario ∷ plain_scenario ∷ pepsal_scenario
    ∷ []

module _ (py : Numbers) (svc : Services) where
  open py use {Num}

  -- `scenario.run_benchmarks()` of a scenario with one benchmark, and its results
  pub run_scenario : ℕ → IperfBenchmark → Scenario → M (Results Num)
  run_scenario fuel benchmark s = do
    deploy_scenario svc fuel (deployment host_testbed s) false
    run_iperf py svc benchmark

  pub iperf_test_scenario : ℕ → M (List (Results Num))
  iperf_test_scenario fuel = do
    from ← int_env svc "IPERF_MIN_SIZE_INDEX"
    to ← int_env svc "IPERF_MAX_SIZE_INDEX"
    iterations ← int_env svc "IPERF_ITERATIONS"
    for_each transfer_scenarios
        (λ s. if_chosen svc s (
          run_scenario fuel
            (record {
              file_sizes = slice transfer_sizes from to;
              reset_on_run = true;
              iterations = iterations;
            })
            s))
        []
