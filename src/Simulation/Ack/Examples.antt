-- ===== src/Simulation/Ack/Examples.antt =====
-- A run of `ack_bundling_iperf_scenario` for one ack level.
use qpep.Prelude.{ℕ, ◌+◌, ◌*◌, ◌≡◌, refl, String, List, [], ◌∷◌, length}
use qpep.Prelude.Text.{str_of_int, occurs, count_from}
use qpep.World.{◌>>=◌}
use qpep.World.Tally.{tally}
use qpep.Testbed.{
  get_container, start_testbed, compose_restart, wait_launched, connect_status, wait_running,
  launch_simulation, load_scenario, connect_terminal, connect_terminal_workstation,
  route_by_terminal, hosts_listed, all_running, set_plr_percentage, set_loss, add_if_missing,
  get_container_if,
}
use qpep.Testbed.Inside.{is_compose_up}
use qpep.Scenario.{
  deploy_base, launch_qpep, configure_qpep, kill_or_configure, deploy_tuned, deploy_qpep_ack,
}
use qpep.Dict.{Dict, lookup, insert}
use qpep.Benchmark.{Json, num}
use qpep.Benchmark.{◌>>=◌ as then}
use qpep.Benchmark.Iperf
use qpep.Benchmark.Iperf.{Results}
use qpep.Simulation.{slice, for_each, append_to, ensure, run_iperf}
use qpep.Simulation.Ack.{
  Decimation, count_up, plr_levels, append_at, ensure_at, measure_level, measure_ack,
  ack_bundling_iperf_scenario,
}
use qpep.Simulation.Ack.Held.{held, hits}
use qpep.Simulation.Ack.Complete.{ack_bundling_iperf_scenario_complete}
use qpep.Simulation.Lively.{lively, numbers, levels}

abbrev nothing : Dict (List (Json ℕ))
nothing =
    ("sent_bytes", num 0 ∷ [])
    ∷ ("sent_bps", num 0 ∷ [])
    ∷ ("received_bytes", num 0 ∷ [])
    ∷ ("received_bps", num 0 ∷ [])
    ∷ []

abbrev silence : List (Results ℕ)
silence = (("iperf_1.0mb", nothing) ∷ ("iperf_2.0mb", nothing) ∷ ("iperf_5.0mb", nothing) ∷ []) ∷ []

abbrev all_silent : Decimation ℕ
all_silent = ("1", ("0", silence) ∷ ("7", silence) ∷ ("4", silence) ∷ ("2", silence) ∷ []) ∷ []

ack_bundling_iperf_scenario_complete_example :
    ((ack plr : String)
      → held all_silent ack plr
        ≡ hits str_of_int (slice (count_up 30 1) 0 1) ack
          * hits str_of_int (plr_levels numbers lively levels) plr)
    × (tally is_compose_up (ack_bundling_iperf_scenario numbers lively levels 1 []).1
        ≡ length (slice (count_up 30 1) 0 1) + tally is_compose_up [])
unfolding ◌>>=◌ then get_container start_testbed compose_restart wait_launched connect_status
    wait_running launch_simulation load_scenario connect_terminal connect_terminal_workstation
    route_by_terminal hosts_listed all_running occurs count_from lookup insert Iperf.run
    Iperf.warm_up Iperf.run_iterations Iperf.run_sizes Iperf.run_iperf_test Iperf.reset_iperf
    Iperf.parse_report Iperf.checked_report Iperf.no_transfer Iperf.store Iperf.store_under
    Iperf.append_values for_each run_iperf deploy_base configure_qpep launch_qpep deploy_qpep_ack
    deploy_tuned kill_or_configure set_plr_percentage set_loss add_if_missing get_container_if
    append_to ensure count_up append_at ensure_at measure_level measure_ack
    ack_bundling_iperf_scenario str_of_int
ack_bundling_iperf_scenario_complete_example =
    ack_bundling_iperf_scenario_complete numbers lively levels 1 0 1 1 [] _ all_silent refl refl
      refl refl
