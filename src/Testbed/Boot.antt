-- ===== src/Testbed/Boot.antt =====
-- The order of events in `start_testbed`: nothing is started before OpenSAND lists its hosts, and
-- no route is changed before the simulation runs.
pub mod Polls
use qpep.Prelude.{
  zero, suc, ℕ, ◌≡◌, refl, sym, ap, ◌∙◌, subst, String, Bool, true, false, Option, List, [], ◌∷◌,
  Bool-cases, inl, inr,
}
use qpep.Prelude.Text.{join, str}
use text.Mathlib.Text.{◌==◌ as str_eq}
use qpep.World.{
  Result, ok, ⊤, Event, compose_down, compose_up, nc_connect, nc_recv_until, nc_recv, nc_send,
  sleep, container_get, exec_run, History, ◌▹◌, Services, M, pure, ◌>>=◌, int_env, catch_netcat,
}
use qpep.World.Grows.{Extends, Extends-trans, Grows, Grows-pure, Grows-catch_netcat, grows_rules}
use qpep.World.Inversion.{perform-eq-ok, >>=-eq-ok, >>=-ok, catch_netcat-eq-ok}
use qpep.Testbed.{
  Orbit, basic, leo, Testbed, hosts_listed, all_running, connect_status, wait_launched,
  wait_running, get_container, command, load_scenario, compose_restart, connect_terminal,
  launch_simulation, start_testbed,
}
use qpep.Testbed.Boot.Polls.{IsAnswered, wait_running-IsAnswered, wait_launched-IsAnswered}

abbrev pub compose_events : Testbed → List Event
compose_events t = compose_down ∷ compose_up (join (t.host_ip ∷ ":" ∷ t.display_number ∷ [])) ∷ []

abbrev pub start_events : List Event
start_events = sleep 1 ∷ nc_send "start\n" ∷ []

-- What `LeoTestbed` adds between the two waits.
abbrev pub load_events : Orbit → List Event
load_events basic = []
load_events leo = nc_send "scenario delay_scenario\n" ∷ nc_recv_until "OK" ∷ nc_recv ∷ []

abbrev pub terminal_routes : Services → List Event
terminal_routes svc =
    let terminal = svc.getenv "ST_CONTAINER_NAME" in
    container_get terminal
    ∷ exec_run terminal "/sbin/ip route delete default" false
    ∷ exec_run terminal
        (join
          ("/sbin/ip route add default via " ∷ str (svc.getenv "GW_NETWORK_HEAD") ∷ ".0.3" ∷ []))
        false
    ∷ []

-- The events from `h` to `h'` are those of a testbed that came up in order.
pub record IsOrdered (svc : Services) (t : Testbed) (h h' : History) : Type 0 where
  pub launched : History
  pub running : History
  pub listed : IsAnswered svc hosts_listed (h ▹ compose_events t) launched
  pub ran : IsAnswered svc all_running (launched ▹ load_events t.orbit ▹ start_events) running
  pub last : h' ≡ running ▹ terminal_routes svc

module _ (svc : Services) where
  pub get_container-eq-ok :
      {B : Type 0} (k : String) (f : Option String → M B) (h : History) {b : B} {h' : History}
      → (get_container svc k >>= f) h ≡ (ok b, h')
      → f (svc.getenv k) (container_get (svc.getenv k) ∷ h) ≡ (ok b, h')
  unfolding get_container
  get_container-eq-ok k f h e =
      let (c, p, e₁) = >>=-eq-ok (get_container svc k) f h e in
      let (r, q, e₂) =
        perform-eq-ok svc (container_get (svc.getenv k)) (λ _. pure (svc.getenv k)) h p in
      sym (>>=-ok (get_container svc k) f h (p ∙ sym e₂)) ∙ e

  command-eq-ok :
      (line : String) (f : String → M ⊤) (h : History) {h' : History}
      → (command svc line >>= f) h ≡ (ok tt, h')
      → (r : String) × (f r (h ▹ (nc_send line ∷ nc_recv_until "OK" ∷ nc_recv ∷ [])) ≡ (ok tt, h'))
  unfolding command
  command-eq-ok line f h {h'} e =
      let (c, p, e₁) = >>=-eq-ok (command svc line) f h e in
      let (r₁, _, p₁) = perform-eq-ok svc (nc_send line) _ h p in
      let (r₂, _, p₂) = perform-eq-ok svc (nc_recv_until "OK") _ _ p₁ in
      (c, subst (λ x. f c x ≡ (ok tt, h')) (sym (ap (λ (p : Result String × History). p.1) p₂)) e₁)

  connect_terminal_lem :
      (h : History) {h' : History}
      → connect_terminal svc h ≡ (ok tt, h')
      → h' ≡ h ▹ terminal_routes svc
  unfolding connect_terminal
  connect_terminal_lem h e =
      let e₁ = get_container-eq-ok "ST_CONTAINER_NAME" _ h e in
      let (r₂, p₂, e₂) = perform-eq-ok svc _ _ _ e₁ in
      let (r₃, p₃, e₃) = perform-eq-ok svc _ _ _ e₂ in sym (ap (λ (p : Result ⊤ × History). p.1) e₃)

  load_scenario_lem :
      (o : Orbit) (f : String → M ⊤) (h : History) {h' : History}
      → (load_scenario svc o >>= f) h ≡ (ok tt, h')
      → (r : String) × (f r (h ▹ load_events o) ≡ (ok tt, h'))
  unfolding load_scenario
  load_scenario_lem basic f h e = ("", sym (>>=-ok (pure "") f h refl) ∙ e)
  load_scenario_lem leo f h e = command-eq-ok _ f h e

  pub compose_restart_lem :
      (t : Testbed) (h : History) {r : String} {h₁ : History}
      → compose_restart svc t h ≡ (ok r, h₁)
      → h ▹ compose_events t ≡ h₁
  unfolding compose_restart
  compose_restart_lem t h e =
      let (_, _, e₁) = perform-eq-ok svc compose_down _ h e in
      ap (λ (p : Result String × History). p.1) e₁

  launch_simulation_lem :
      (fuel : ℕ) (t : Testbed) (h : History) {h' : History}
      → launch_simulation svc fuel t h ≡ (ok tt, h')
      → (running : History) × IsAnswered svc all_running
          (h ▹ load_events t.orbit ▹ start_events)
          running
        × (h' ≡ running ▹ terminal_routes svc)
  unfolding launch_simulation
  launch_simulation_lem fuel t h e =
      let (_, e₀) = load_scenario_lem t.orbit _ h e in
      let (_, _, e₁) = perform-eq-ok svc (sleep 1) _ _ e₀ in
      let (_, _, e₂) = perform-eq-ok svc (nc_send "start\n") _ _ e₁ in
      let (_, p₃, e₃) = >>=-eq-ok (wait_running svc fuel) _ _ e₂ in
      (_, wait_running-IsAnswered svc fuel _ p₃, connect_terminal_lem _ e₃)

  -- If `start_testbed` returns, on either class, its events are in this order: the containers go
  -- down and up; only polling of the socket, up to a status that lists SAT, GW0 and ST1; on
  -- `LeoTestbed` alone the Iridium delays are loaded; a pause, and `start`; only polling again, up
  -- to a status with more than three RUNNING; and the two routes of the terminal.
  pub start_testbed-IsOrdered :
      (fuel : ℕ) (t : Testbed) (h : History) {h' : History}
      → start_testbed svc fuel t h ≡ (ok tt, h')
      → IsOrdered svc t h h'
  unfolding start_testbed
  start_testbed-IsOrdered fuel t h e =
      let (_, p₀, e₀) = >>=-eq-ok (compose_restart svc t) _ h e in
      let (_, p₁, e₁) = >>=-eq-ok (wait_launched svc fuel) _ _ e₀ in
      let launched = (wait_launched svc fuel (compose_restart svc t h).1).1 in
      let (running, ran, last) = launch_simulation_lem fuel t _ e₁ in
      record {
        listed =
            subst (λ x. IsAnswered svc hosts_listed x launched) (sym (compose_restart_lem t h p₀))
              (wait_launched-IsAnswered svc fuel _ p₁);
        ran = ran;
        last = last;
        launched = launched;
        running = running;
      }
