-- ===== src/Browser/Examples.antt =====
-- Two starts from the command line.
use qpep.Prelude.{◌≡◌, refl, ap, true, false, none, some, []}
use qpep.Prelude.Text.{str, str_of_int, occurs, count_from}
use text.Mathlib.TextEquality.{eq_iff}
use qpep.World.{ok, History, ◌▹◌, Services, ◌>>=◌}
use qpep.Testbed.{
  get_container, start_testbed, compose_restart, wait_launched, connect_status, wait_running,
  launch_simulation, load_scenario, connect_terminal, connect_terminal_workstation,
  route_by_terminal, hosts_listed, all_running, launch_web_browser, launch_wireshark,
}
use qpep.Scenario.{
  deploy_scenario, deploy_class, deploy_qpep, kill_gateway_first, launch_qpep, configure_qpep,
  deploy_base,
}
use qpep.Scenario.Fresh.{IsFreshClass}
use qpep.Browser.{
  CommandLine, Args, testbed_of, validate_ip, scenario_of, orbit_of, parse_args, launch, main,
}
use qpep.Browser.Launch.{browser_events, wireshark_events, main-IsFreshClass}

abbrev lively : Services
lively = record {
  getenv = λ k. some k;
  int_of = λ s. some 1;
  reply = λ h e. ok "SAT GW0 ST1 RUNNING RUNNING RUNNING RUNNING";
}

-- `--xhost linux --scenario qpep --wireshark`
abbrev qpep_on_linux : CommandLine
qpep_on_linux = record {
  xhost = "linux";
  display = none;
  scenario = some "qpep";
  orbit = none;
  wireshark = true;
}

main-IsFreshClass_example :
    (args : Args) × (deployed : History) × (parse_args (λ s. false) lively qpep_on_linux []
      ≡ (ok args, []))
    × (deploy_scenario lively 1 (record { class = args.class; testbed = testbed_of args }) false []
        ≡ (ok tt, deployed))
    × IsFreshClass lively args.class deployed
    × ((main (λ s. false) lively 1 qpep_on_linux []).1
        ≡ deployed ▹ browser_events lively ▹ wireshark_events lively args.wireshark)
unfolding ◌>>=◌ get_container start_testbed compose_restart wait_launched connect_status
    wait_running launch_simulation load_scenario connect_terminal connect_terminal_workstation
    route_by_terminal hosts_listed all_running occurs count_from launch_web_browser launch_wireshark
    deploy_scenario deploy_class deploy_qpep kill_gateway_first launch_qpep configure_qpep
    deploy_base validate_ip scenario_of orbit_of parse_args launch main str_of_int
main-IsFreshClass_example =
    main-IsFreshClass (λ s. false) lively 1 qpep_on_linux []
      (λ p. cc ((eq_iff "ST_CONTAINER_NAME" "WS_GW_CONTAINER_NAME").1 (ap str p))) refl
