-- ===== src/Scenario.antt =====
-- opensand-testbed/scenarios.py: what each `Scenario` class deploys on a testbed. `deploy_scenario`
-- is one function by the class; numbers that only go into a command line are given as their text.
pub mod Events
pub mod Processes
pub mod Fresh
pub mod Benchmarks
pub mod Inside
mod Examples
use qpep.Prelude.{ℕ, String, Bool, true, false, ◌&&◌, Option, List, [], ◌∷◌}
use qpep.Prelude.Text.{join, str}
use qpep.World.{sleep, Services, ⊤, M, pure, ◌>>=◌, ◌>>◌, perform}
use qpep.Testbed.{
  Testbed, get_container, exec, exec_detached, start_testbed, connect_terminal_workstation,
}

-- The classes, with the fields that their `__init__` adds.
pub data Class : Type 0 where
  plain open_vpn : Class
  -- `QPEPScenario`, with multi_stream
  qpep_basic : Bool → Class
  qpep_ack qpep_congestion : Class
  -- terminal, gateway
  pepsal : Bool → Bool → Class

-- What `deploy_scenario` reads of `self`.
pub record Deployment : Type 0 where
  pub class : Class
  pub testbed : Testbed

abbrev pub kill_qpep : String
kill_qpep = "pkill -9 main"

-- The command line of the gateway, and of the client below, by the options of the class.
abbrev pub gateway_command : List String → String
gateway_command options = join ("go run /root/go/src/qpep/main.go" ∷ join options ∷ [])

abbrev pub decimation : String
decimation = " -minBeforeDecimation 2 -ackDelay 8000 -varAckDelay 16.0"

module _ (svc : Services) where
  -- `if not testbed_up: …`
  abbrev pub unless : Bool → M ⊤ → M ⊤
  unless true m = pure tt
  unless false m = m

  -- `Scenario.deploy_scenario`
  unfoldable pub deploy_base : ℕ → Testbed → M ⊤
  deploy_base fuel t = do start_testbed svc fuel t; connect_terminal_workstation svc t

  pub deploy_open_vpn : M ⊤
  deploy_open_vpn = do
    terminal_workstation ← get_container svc "WS_ST_CONTAINER_NAME"
    exec svc terminal_workstation "openvpn --config /root/client.ovpn --daemon"
    perform svc (sleep 20)
    pure tt

  unfoldable pub configure_qpep : Option String → M ⊤
  configure_qpep container = do
    exec svc container "bash /opensand_config/configure_qpep.sh"
    pure tt

  abbrev pub client_command : List String → List String → String
  client_command front back = join (
      "go run /root/go/src/qpep/main.go -client"
      ∷ join front
      ∷ " -gateway "
      ∷ str (svc.getenv "GW_NETWORK_HEAD")
      ∷ ".0.9 "
      ∷ join back
      ∷ [])

  unfoldable pub launch_qpep : Option String → Option String → String → String → M ⊤
  launch_qpep terminal gateway client server = do
    exec_detached svc terminal client
    exec_detached svc gateway server
    pure tt

  -- `if testbed_up:` the kills of `QPEPScenario`, the gateway first
  unfoldable pub kill_gateway_first : Bool → Option String → Option String → M ⊤
  kill_gateway_first true terminal gateway = do
    exec svc gateway kill_qpep
    exec svc terminal kill_qpep
    pure tt
  kill_gateway_first false terminal gateway = pure tt

  -- `QPEPScenario` from the configuration on
  unfoldable pub deploy_qpep : Bool → M ⊤
  deploy_qpep testbed_up = do
    terminal_container ← get_container svc "ST_CONTAINER_NAME"
    configure_qpep terminal_container
    gateway_workstation ← get_container svc "WS_GW_CONTAINER_NAME"
    configure_qpep gateway_workstation
    kill_gateway_first testbed_up terminal_container gateway_workstation
    launch_qpep terminal_container gateway_workstation (client_command [] []) (gateway_command [])

  -- `if testbed_up:` kill, `else:` configure, in `QPEPAckScenario` and `QPEPCongestionScenario`
  unfoldable pub kill_or_configure : Bool → Option String → Option String → M ⊤
  kill_or_configure true terminal gateway = do
    exec svc terminal kill_qpep
    exec svc gateway kill_qpep
    perform svc (sleep 1)
    pure tt
  kill_or_configure false terminal gateway = do configure_qpep terminal; configure_qpep gateway

  -- Both classes, by their command lines.
  unfoldable pub deploy_tuned : Bool → String → String → M ⊤
  deploy_tuned testbed_up client server = do
    terminal_container ← get_container svc "ST_CONTAINER_NAME"
    gateway_workstation ← get_container svc "WS_GW_CONTAINER_NAME"
    kill_or_configure testbed_up terminal_container gateway_workstation
    launch_qpep terminal_container gateway_workstation client server

  unfoldable pub deploy_qpep_ack : Bool → String → M ⊤
  deploy_qpep_ack testbed_up ack_level =
      deploy_tuned testbed_up (client_command (decimation ∷ []) ("-acks " ∷ ack_level ∷ []))
        (gateway_command (decimation ∷ []))

  pub deploy_qpep_congestion : Bool → String → M ⊤
  deploy_qpep_congestion testbed_up congestion_window =
      deploy_tuned testbed_up (client_command [] ("-congestion " ∷ congestion_window ∷ []))
        (gateway_command (" -congestion " ∷ congestion_window ∷ []))

  launch_pepsal : Bool → String → M ⊤
  launch_pepsal true k = do
    client ← get_container svc k
    exec svc client "bash /opensand_config/launch_pepsal.sh"
    pure tt
  launch_pepsal false k = pure tt

  pub deploy_pepsal : Bool → Bool → M ⊤
  deploy_pepsal terminal gateway = do
    launch_pepsal terminal "ST_CONTAINER_NAME"
    launch_pepsal gateway "GW_CONTAINER_NAME"

  -- What a class does once the testbed is up, with the default ack level and congestion window.
  unfoldable pub deploy_class : Class → Bool → M ⊤
  deploy_class plain testbed_up = pure tt
  deploy_class open_vpn testbed_up = deploy_open_vpn
  deploy_class (qpep_basic multi_stream) testbed_up = deploy_qpep testbed_up
  deploy_class qpep_ack testbed_up = deploy_qpep_ack testbed_up "4"
  deploy_class qpep_congestion testbed_up = deploy_qpep_congestion testbed_up "10"
  deploy_class (pepsal terminal gateway) testbed_up = deploy_pepsal terminal gateway

  unfoldable pub deploy_scenario : ℕ → Deployment → Bool → M ⊤
  deploy_scenario fuel d testbed_up = do
    unless testbed_up (deploy_base fuel d.testbed)
    deploy_class d.class testbed_up

  -- `Scenario.run_benchmarks`: a benchmark is known by its `run`.
  pub run_benchmarks : ℕ → Deployment → Bool → List (M ⊤) → M ⊤
  run_benchmarks fuel d deployed [] = pure tt
  run_benchmarks fuel d deployed (benchmark ∷ benchmarks) = do
    unless deployed (deploy_scenario fuel d false)
    benchmark
    run_benchmarks fuel d deployed benchmarks
