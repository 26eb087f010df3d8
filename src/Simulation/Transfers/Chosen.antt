-- ===== src/Simulation/Transfers/Chosen.antt =====
-- What `iperf_test_scenario` deploys.
use qpep.Prelude.{ℕ, ◌+◌, ◌≡◌, String, List, [], length, arith}
use qpep.World.{ok, History, Services, int_env}
use qpep.World.Inversion.{>>=-eq-ok}
use qpep.World.Grows.{Grows-int_env}
use qpep.World.Tally.{tally, Counts, Counts-bind, Counts-Grows}
use qpep.Testbed.Inside.{is_inside, is_compose_up, inside-apart}
use qpep.Scenario.Inside.{deploy_scenario-once}
use qpep.Benchmark.{Numbers}
use qpep.Benchmark.Iperf.{Results}
use qpep.Simulation.{Scenario, host_testbed, deployment, IperfBenchmark}
use qpep.Simulation.Loops.{run_iperf-inside, chosen, for_each-chosen}
use qpep.Simulation.Transfers.{transfer_scenarios, run_scenario, iperf_test_scenario}

module _ (py : Numbers) (svc : Services) where
  open py use {Num}

  run_scenario-once :
      (fuel : ℕ) (b : IperfBenchmark) (s : Scenario)
      → Counts is_compose_up 1 (run_scenario py svc fuel b s)
  unfolding run_scenario
  run_scenario-once fuel b s =
      Counts-bind is_compose_up 1 0 _ _ (deploy_scenario-once svc fuel (deployment host_testbed s))
        λ _. Counts-Grows is_compose_up is_inside _ inside-apart (run_iperf-inside py svc b)

  int_env-quiet : (k : String) → Counts is_compose_up 0 (int_env svc k)
  int_env-quiet k = Counts-Grows is_compose_up is_inside _ inside-apart (Grows-int_env svc k)

  -- If `iperf_test_scenario` returns, it has as many results as scenarios bear the name in
  -- SCENARIO_NAME, and has restarted the containers as often.
  pub iperf_test_scenario-chosen :
      (fuel : ℕ) (h h' : History) (l : List (Results Num))
      → iperf_test_scenario py svc fuel h ≡ (ok l, h')
      → (length l ≡ chosen svc transfer_scenarios)
        × (tally is_compose_up h' ≡ chosen svc transfer_scenarios + tally is_compose_up h)
  unfolding iperf_test_scenario
  iperf_test_scenario-chosen fuel h h' l e =
      let (_, p, e₁) = >>=-eq-ok (int_env svc "IPERF_MIN_SIZE_INDEX") _ h e in
      let (_, q, e₂) = >>=-eq-ok (int_env svc "IPERF_MAX_SIZE_INDEX") _ _ e₁ in
      let (_, r, e₃) = >>=-eq-ok (int_env svc "IPERF_ITERATIONS") _ _ e₂ in
      let (x, y) =
        for_each-chosen svc is_compose_up 1 _ (run_scenario-once fuel _) transfer_scenarios [] l _
          h' e₃ in
      (
        omega (arith, x),
        omega (arith, y, int_env-quiet _ h _ _ p, int_env-quiet _ _ _ _ q, int_env-quiet _ _ _ _ r),
      )
