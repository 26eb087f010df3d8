-- ===== src/Simulation/Loss.antt =====
-- `plr_test_scenario` of opensand-testbed/simulation_examples.py: transfers at rising loss rates.
pub mod Restarts
mod Examples
use qpep.Prelude.{
  ℕ, zero, suc, ◌+◌, String, Bool, true, false, Option, none, some, List, [], ◌∷◌, ◌++◌,
}
use qpep.World.{Services, ⊤, M, pure, raise, key_error, ◌>>=◌, ◌>>◌, int_env}
use qpep.Testbed.{set_plr_percentage}
use qpep.Scenario.{deploy_scenario}
use qpep.Dict.{Dict, lookup, insert}
use qpep.Benchmark.{Json, Numbers}
use qpep.Benchmark.Iperf.{FileSize, Results}
use qpep.Simulation.{
  Numpy, Scenario, host_testbed, deployment, plain_scenario, vpn_scenario, pepsal_scenario,
  distributed_pepsal_scenario, qpep_scenario, slice, for_each, for_range, append_to, or_key_error,
  if_chosen, IperfBenchmark, file_size, run_iperf,
}

abbrev pub loss_sizes : List FileSize
loss_sizes =
    file_size "1000000" "1.0"
    ∷ file_size "2000000" "2.0"
    ∷ file_size "5000000" "5.0"
    ∷ file_size "1000000" "1.0"
    ∷ []

abbrev pub loss_benchmark : IperfBenchmark
loss_benchmark = record { file_sizes = loss_sizes; reset_on_run = true; iterations = 1 }

abbrev pub loss_scenarios : List Scenario
loss_scenarios =
    qpep_scenario ∷ plain_scenario ∷ vpn_scenario ∷ pepsal_scenario ∷ distributed_pepsal_scenario
    ∷ []

-- By the loss rate.
abbrev pub LossResults : Type 0 → Type 0
LossResults Num = Dict (List (Results Num))

-- `values == 0` in Python, of a list and a number: never, whatever the list holds.
pub equals_zero : {Num : Type 0} → List (Json Num) → Bool
equals_zero [] = false
equals_zero (v ∷ values) = false

module _ (svc : Services) where
  -- The deployment of a scenario at a loss rate.
  pub deploy_at : ℕ → Scenario → String → M ⊤
  deploy_at fuel s plr_string = do
    deploy_scenario svc fuel (deployment host_testbed s) false
    set_plr_percentage svc plr_string false true

  -- `for key in benchmark.results.keys()`, up to the `break`
  pub restart_if_broken : {Num : Type 0} → ℕ → Scenario → String → Results Num → M ⊤
  restart_if_broken fuel s plr_string [] = pure tt
  restart_if_broken fuel s plr_string ((key, series) ∷ results) =
      or_key_error (lookup "sent_bps" series) >>= λ sent_bps. elim (equals_zero sent_bps) [
        | true ↦ deploy_at fuel s plr_string
        | false ↦ restart_if_broken fuel s plr_string results
      ]

module _ (py : Numbers) (svc : Services) (np : Numpy) where
  open py use {Num}

  -- `for i in range(0, int(os.getenv("IPERF_ITERATIONS")))`
  pub transfer_round : ℕ → Scenario → String → LossResults Num → M (LossResults Num)
  transfer_round fuel s plr_string d = do
    results ← run_iperf py svc loss_benchmark
    appended ← or_key_error (append_to plr_string results d)
    restart_if_broken svc fuel s plr_string results
    pure appended

  -- `for j in range(0, int(os.getenv("PLR_META_ITERATIONS")))`
  pub meta_round : ℕ → Scenario → String → LossResults Num → M (LossResults Num)
  meta_round fuel s plr_string d = do
    deploy_at svc fuel s plr_string
    iterations ← int_env svc "IPERF_ITERATIONS"
    for_range iterations (transfer_round fuel s plr_string) d

  -- `for plr_level in …`
  pub loss_round : ℕ → Scenario → np.Level → LossResults Num → M (LossResults Num)
  loss_round fuel s plr_level d = do
    let plr_string = np.format_float_positional plr_level
    meta_iterations ← int_env svc "PLR_META_ITERATIONS"
    for_range meta_iterations (meta_round fuel s plr_string) (insert plr_string [] d)

  pub run_losses : ℕ → Scenario → M (LossResults Num)
  run_losses fuel s = do
    from ← int_env svc "PLR_MIN_INDEX"
    to ← int_env svc "PLR_MAX_INDEX"
    for_each (slice np.geomspace_levels from to) (loss_round fuel s) []

  pub plr_test_scenario : ℕ → M (List (LossResults Num))
  plr_test_scenario fuel = for_each loss_scenarios (λ s. if_chosen svc s (run_losses fuel s)) []
