-- ===== src/Simulation/Transfers/Examples.antt =====
-- A run of `iperf_test_scenario` for QPEP and one file size.
use qpep.Prelude.{◌+◌, ◌≡◌, refl, some, [], ◌∷◌, if◌then◌else◌}
use qpep.Prelude.Text.{occurs, count_from}
use text.Mathlib.Text.{◌==◌ as str_eq}
use qpep.World.{Services, ◌>>=◌}
use qpep.World.Tally.{tally}
use qpep.Testbed.{
  get_container, start_testbed, compose_restart, wait_launched, connect_status, wait_running,
  launch_simulation, load_scenario, connect_terminal, connect_terminal_workstation,
  route_by_terminal, hosts_listed, all_running,
}
use qpep.Testbed.Inside.{is_compose_up}
use qpep.Scenario.{
  deploy_scenario, deploy_class, deploy_qpep, kill_gateway_first, deploy_base, launch_qpep,
  configure_qpep,
}
use qpep.Dict.{lookup, insert}
use qpep.Benchmark.{◌>>=◌ as then}
use qpep.Benchmark.Iperf
use qpep.Benchmark.Iperf.{Results}
use qpep.Simulation.{for_each, run_iperf}
use qpep.Simulation.Loops.{chosen}
use qpep.Simulation.Transfers.{
  transfer_scenarios, transfer_sizes, quarter_sizes, run_scenario, iperf_test_scenario,
}
use qpep.Simulation.Transfers.Chosen.{iperf_test_scenario-chosen}
use qpep.Simulation.Lively.{lively, numbers}

abbrev chosen_qpep : Services
chosen_qpep = record lively {
  getenv = λ k. if str_eq k "SCENARIO_NAME" then some "QPEP" else some k;
}

iperf_test_scenario-chosen_example :
    (1 ≡ chosen chosen_qpep transfer_scenarios)
    × (tally is_compose_up (iperf_test_scenario numbers chosen_qpep 1 []).1
        ≡ chosen chosen_qpep transfer_scenarios + tally is_compose_up [])
unfolding ◌>>=◌ then get_container start_testbed compose_restart wait_launched connect_status
    wait_running launch_simulation load_scenario connect_terminal connect_terminal_workstation
    route_by_terminal hosts_listed all_running occurs count_from lookup insert Iperf.run
    Iperf.warm_up Iperf.run_iterations Iperf.run_sizes Iperf.run_iperf_test Iperf.reset_iperf
    Iperf.parse_report Iperf.checked_report Iperf.no_transfer Iperf.store Iperf.store_under
    Iperf.append_values for_each run_iperf deploy_base configure_qpep launch_qpep deploy_scenario
    deploy_class deploy_qpep kill_gateway_first transfer_sizes quarter_sizes run_scenario
    iperf_test_scenario
iperf_test_scenario-chosen_example =
    iperf_test_scenario-chosen numbers chosen_qpep 1 [] _ (_ ∷ []) refl
