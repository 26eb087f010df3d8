-- ===== src/Simulation/Loss/Examples.antt =====
-- A run of `plr_test_scenario` in which nothing is measured.
use qpep.Prelude.{◌+◌, ◌*◌, ◌≡◌, refl, [], length}
use qpep.Prelude.Text.{str_of_int, occurs, count_from}
use qpep.World.{◌>>=◌}
use qpep.World.Tally.{tally}
use qpep.Testbed.{
  get_container, start_testbed, compose_restart, wait_launched, connect_status, wait_running,
  launch_simulation, load_scenario, connect_terminal, connect_terminal_workstation,
  route_by_terminal, hosts_listed, all_running, set_plr_percentage, set_loss, add_if_missing,
  get_container_if,
}
use qpep.Testbed.Inside.{is_compose_up}
use qpep.Scenario.{
  deploy_scenario, deploy_class, deploy_qpep, kill_gateway_first, deploy_base, launch_qpep,
  configure_qpep,
}
use qpep.Dict.{lookup, insert}
use qpep.Benchmark.{◌>>=◌ as then}
use qpep.Benchmark.Iperf
use qpep.Benchmark.Iperf.{Results}
use qpep.Simulation.{qpep_scenario, slice, for_each, for_range, append_to, run_iperf}
use qpep.Simulation.Loss.{
  equals_zero, deploy_at, restart_if_broken, transfer_round, meta_round, loss_round, run_losses,
}
use qpep.Simulation.Loss.Restarts.{run_losses-restarts}
use qpep.Simulation.Lively.{lively, numbers, levels}

-- One loss rate, one repetition: no transfer gets through, and yet the containers start only once.
run_losses-restarts_example :
    tally is_compose_up (run_losses numbers lively levels 1 qpep_scenario []).1
    ≡ length (slice levels.geomspace_levels 0 1) * 1 + tally is_compose_up []
unfolding ◌>>=◌ then get_container start_testbed compose_restart wait_launched connect_status
    wait_running launch_simulation load_scenario connect_terminal connect_terminal_workstation
    route_by_terminal hosts_listed all_running occurs count_from lookup insert Iperf.run
    Iperf.warm_up Iperf.run_iterations Iperf.run_sizes Iperf.run_iperf_test Iperf.reset_iperf
    Iperf.parse_report Iperf.checked_report Iperf.no_transfer Iperf.store Iperf.store_under
    Iperf.append_values for_each run_iperf deploy_base configure_qpep launch_qpep deploy_scenario
    deploy_class deploy_qpep kill_gateway_first set_plr_percentage set_loss add_if_missing
    get_container_if for_range append_to equals_zero deploy_at restart_if_broken transfer_round
    meta_round loss_round run_losses str_of_int
run_losses-restarts_example =
    run_losses-restarts numbers lively levels 1 0 1 1 qpep_scenario [] _ _ refl refl refl refl
