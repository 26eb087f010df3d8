-- ===== src/Testbed.antt =====
-- opensand-testbed/testbeds.py: `BasicTestbed` and `LeoTestbed`. A method is an action on the
-- services. The `while` loops take fuel.
pub mod Boot
pub mod Ready
pub mod Loss
pub mod Attenuation
pub mod Quiet
pub mod Inside
mod Examples
use qpep.Prelude.{ℕ, zero, suc, String, Bool, true, false, ◌&&◌, Option, List, [], ◌∷◌, ◌++◌, ltb}
use qpep.Prelude.Text.{join, str, contains, count}
use qpep.World.{
  compose_down, compose_up, nc_connect, nc_recv_until, nc_recv, nc_send, sleep, container_get,
  exec_run, Services, ⊤, M, pure, spin, ◌>>=◌, ◌>>◌, catch_netcat, catch_all, perform, int_env,
}

-- The two classes.
pub data Orbit : Type 0 where
  basic leo : Orbit

pub record Testbed : Type 0 where
  pub orbit : Orbit
  pub host_ip : String
  -- `str(display_number)`
  pub display_number : String
  pub linux : Bool

-- `('SAT' in str(response)) and ('GW0' in str(response)) and ('ST1' in str(response))`
unfoldable pub hosts_listed : String → Bool
hosts_listed response =
    contains "SAT" response && contains "GW0" response && contains "ST1" response

-- `response.count('RUNNING') > 3`
unfoldable pub all_running : String → Bool
all_running response = ltb 3 (count "RUNNING" response)

-- The `tc` command line: `verb` is "change" or "add".
abbrev pub tc_loss : String → String → String
tc_loss verb plr_percentage =
    join
      ("/sbin/tc qdisc " ∷ verb ∷ " dev opensand_tun root netem loss " ∷ plr_percentage ∷ "%" ∷ [])

module _ (svc : Services) where
  -- `docker_client.containers.get(os.getenv(k))`: the container is known by its name.
  unfoldable pub get_container : String → M (Option String)
  get_container k = do perform svc (container_get (svc.getenv k)); pure (svc.getenv k)

  abbrev pub exec : Option String → String → M String
  exec container command = perform svc (exec_run container command false)

  abbrev pub exec_detached : Option String → String → M String
  exec_detached container command = perform svc (exec_run container command true)

  -- One round of the loop that waits for OpenSAND, the `try` body.
  unfoldable pub connect_status : M Bool
  connect_status = do
    port ← int_env svc "SAT_PORT_NUMBER"
    perform svc (nc_connect port)
    perform svc (nc_recv_until "help")
    perform svc nc_recv
    perform svc (nc_send "status\n")
    response ← perform svc nc_recv
    pure (hosts_listed response)

  -- `while not opensand_launched`: a NetcatError goes on with the next round.
  unfoldable pub wait_launched : ℕ → M ⊤
  wait_launched zero = spin
  wait_launched (suc fuel) = do
    opensand_launched ← catch_netcat connect_status (pure false)
    elim opensand_launched [ true ↦ pure tt | false ↦ wait_launched fuel ]

  -- `while not simulation_running`
  unfoldable pub wait_running : ℕ → M ⊤
  wait_running zero = spin
  wait_running (suc fuel) = do
    perform svc (nc_send "status\n")
    response ← perform svc nc_recv
    elim (all_running response) [ true ↦ pure tt | false ↦ wait_running fuel ]

  unfoldable pub compose_restart : Testbed → M String
  compose_restart t = do
    perform svc compose_down
    perform svc (compose_up (join (t.host_ip ∷ ":" ∷ t.display_number ∷ [])))

  -- A command to OpenSAND, and the wait for its OK.
  unfoldable pub command : String → M String
  command line = do
    perform svc (nc_send line)
    perform svc (nc_recv_until "OK")
    perform svc nc_recv

  -- `LeoTestbed` only: load the Iridium delays.
  unfoldable pub load_scenario : Orbit → M String
  load_scenario basic = pure ""
  load_scenario leo = command "scenario delay_scenario\n"

  unfoldable pub connect_terminal : M ⊤
  connect_terminal = do
    terminal_container ← get_container "ST_CONTAINER_NAME"
    exec terminal_container "/sbin/ip route delete default"
    exec terminal_container (
        join ("/sbin/ip route add default via " ∷ str (svc.getenv "GW_NETWORK_HEAD") ∷ ".0.3" ∷ []))
    pure tt

  unfoldable pub launch_simulation : ℕ → Testbed → M ⊤
  launch_simulation fuel t = do
    load_scenario t.orbit
    perform svc (sleep 1)
    perform svc (nc_send "start\n")
    wait_running fuel
    connect_terminal

  unfoldable pub start_testbed : ℕ → Testbed → M ⊤
  start_testbed fuel t = do compose_restart t; wait_launched fuel; launch_simulation fuel t

  pub stop_testbed : M String
  stop_testbed = perform svc compose_down

  -- The default route of a workstation, by the terminal.
  unfoldable pub route_by_terminal : Option String → M ⊤
  route_by_terminal container = do
    exec container "ip route del default"
    exec container
        (join ("ip route add default via " ∷ str (svc.getenv "ST_NETWORK_HEAD") ∷ ".0.4" ∷ []))
    pure tt

  unfoldable pub connect_terminal_workstation : Testbed → M ⊤
  connect_terminal_workstation t = do
    workstation_container ← get_container "WS_ST_CONTAINER_NAME"
    exec workstation_container (
        join (
          "ip route add "
          ∷ t.host_ip
          ∷ " via "
          ∷ str (svc.getenv "GUI_NETWORK_HEAD")
          ∷ ".0.1 dev eth1"
          ∷ []))
    route_by_terminal workstation_container

  pub connect_sitespeed_workstation : M ⊤
  connect_sitespeed_workstation = do
    sitespeed_container ← get_container "SITESPEED_CONTAINER_NAME"
    route_by_terminal sitespeed_container

  unfoldable pub launch_wireshark : M String
  launch_wireshark = do
    satellite_container ← get_container "SAT_CONTAINER_NAME"
    exec_detached satellite_container "wireshark"

  unfoldable pub launch_web_browser : M String
  launch_web_browser = do
    workstation_container ← get_container "WS_ST_CONTAINER_NAME"
    exec_detached workstation_container "qupzilla"

  -- The containers of `set_plr_percentage`: one if its flag is set.
  unfoldable pub get_container_if : Bool → String → M (List (Option String))
  get_container_if true k = do container ← get_container k; pure (container ∷ [])
  get_container_if false k = pure []

  unfoldable pub add_if_missing : Bool → Option String → String → M String
  add_if_missing true container plr_percentage = exec container (tc_loss "add" plr_percentage)
  add_if_missing false container plr_percentage = pure ""

  -- The `for` loop of `set_plr_percentage`: `change`, and `add` if there is nothing to change.
  unfoldable pub set_loss : String → List (Option String) → M ⊤
  set_loss plr_percentage [] = pure tt
  set_loss plr_percentage (container ∷ rest) = do
    response ← exec container (tc_loss "change" plr_percentage)
    add_if_missing (contains "RTNETLINK" response) container plr_percentage
    set_loss plr_percentage rest

  unfoldable pub set_plr_percentage : String → Bool → Bool → M ⊤
  set_plr_percentage plr_percentage st_out gw_out = do
    st ← get_container_if st_out "ST_CONTAINER_NAME"
    gw ← get_container_if gw_out "GW_CONTAINER_NAME"
    set_loss plr_percentage (st ++ gw)

  -- One round of the loop that connects before the scenario is changed.
  connect_listener : M Bool
  connect_listener = do
    port ← int_env svc "SAT_PORT_NUMBER"
    perform svc (nc_connect port)
    perform svc (nc_recv_until "help")
    perform svc nc_recv
    pure true

  -- Its `except:` has no class: every exception goes on with the next round.
  wait_connected : ℕ → M ⊤
  wait_connected zero = spin
  wait_connected (suc fuel) = do
    opensand_launched ← catch_all connect_listener (pure false)
    elim opensand_launched [ true ↦ pure tt | false ↦ wait_connected fuel ]

  pub run_attenuation_scenario : ℕ → M ⊤
  run_attenuation_scenario fuel = do
    wait_connected fuel
    command "stop\n"
    perform svc (sleep 1)
    command "scenario attenuation_scenario\n"
    command "start\n"
    terminal_container ← get_container "ST_CONTAINER_NAME"
    exec terminal_container (
        join ("/sbin/ip route add default via " ∷ str (svc.getenv "GW_NETWORK_HEAD") ∷ ".0.3" ∷ []))
    pure tt
