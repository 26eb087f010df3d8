-- ===== src/Testbed/Quiet.antt =====
-- What bringing a testbed up never does: it launches nothing in the background of a container.
use qpep.Prelude.{ℕ, zero, suc, ◌≡◌, String, Bool, true, false, not, Option, refl, sym, ap, subst}
use qpep.World.{
  Result, ok, ◌▹◌, ⊤, Event, exec_run, compose_down, compose_up, History, Services, M, pure,
}
use qpep.World.Grows.{
  Grows, Grows-pure, Grows-spin, Grows-bind, Grows-perform, Extends, Grows-catch_netcat,
  grows_rules,
}
use qpep.Testbed.{
  Orbit, basic, leo, Testbed, all_running, connect_status, wait_launched, wait_running, command,
  get_container, load_scenario, connect_terminal, launch_simulation, start_testbed, compose_restart,
  route_by_terminal, connect_terminal_workstation,
}
use qpep.Testbed.Boot.{compose_events, compose_restart_lem}
use qpep.World.Inversion.{>>=-known}

-- No detached command, and no restart of the containers.
abbrev pub is_quiet : Event → Bool
is_quiet (exec_run _ _ detached) = not detached
is_quiet compose_down = false
is_quiet (compose_up _) = false
is_quiet _ = true

module _ (svc : Services) where
  connect_status-Grows : Grows is_quiet (connect_status svc)
  unfolding connect_status
  connect_status-Grows = search grows_rules depth 14

  wait_launched-Grows : (fuel : ℕ) → Grows is_quiet (wait_launched svc fuel)
  unfolding wait_launched
  wait_launched-Grows zero = Grows-spin
  wait_launched-Grows (suc fuel) =
      Grows-bind _ _
        (Grows-catch_netcat (connect_status svc) (pure false) connect_status-Grows
          (Grows-pure false))
        (elim [ true ↦ Grows-pure tt | false ↦ wait_launched-Grows fuel ])

  wait_running-Grows : (fuel : ℕ) → Grows is_quiet (wait_running svc fuel)
  unfolding wait_running
  wait_running-Grows zero = Grows-spin
  wait_running-Grows (suc fuel) = Grows-bind _ _ (Grows-perform svc _ refl) (λ _.
      Grows-bind _ _ (Grows-perform svc _ refl)
        (λ response. round_end (all_running response) fuel (wait_running-Grows fuel)))
    where
      round_end :
          (b : Bool) (fuel : ℕ)
          → Grows is_quiet (wait_running svc fuel)
          → Grows is_quiet (elim b as (λ x. M ⊤) [ true ↦ pure tt | false ↦ wait_running svc fuel ])
      round_end true fuel g = Grows-pure tt
      round_end false fuel g = g

  get_container-Grows : (k : String) → Grows is_quiet (get_container svc k)
  unfolding get_container
  get_container-Grows k = search grows_rules

  command-Grows : (line : String) → Grows is_quiet (command svc line)
  unfolding command
  command-Grows line = search grows_rules depth 8

  load_scenario-Grows : (o : Orbit) → Grows is_quiet (load_scenario svc o)
  unfolding load_scenario
  load_scenario-Grows basic = Grows-pure ""
  load_scenario-Grows leo = command-Grows _

  connect_terminal-Grows : Grows is_quiet (connect_terminal svc)
  unfolding connect_terminal
  connect_terminal-Grows = search (grows_rules, get_container-Grows) depth 10

  launch_simulation-Grows : (fuel : ℕ) (t : Testbed) → Grows is_quiet (launch_simulation svc fuel t)
  unfolding launch_simulation
  launch_simulation-Grows fuel t =
      search (grows_rules, load_scenario-Grows, wait_running-Grows, connect_terminal-Grows) depth 12

  route_by_terminal-Grows : (c : Option String) → Grows is_quiet (route_by_terminal svc c)
  unfolding route_by_terminal
  route_by_terminal-Grows c = search grows_rules depth 8

  pub connect_terminal_workstation-Grows :
      (t : Testbed) → Grows is_quiet (connect_terminal_workstation svc t)
  unfolding connect_terminal_workstation
  connect_terminal_workstation-Grows t =
      search (grows_rules, get_container-Grows, route_by_terminal-Grows) depth 10

  -- From the moment the containers are up, nothing is launched in their background.
  pub start_testbed-Extends :
      (fuel : ℕ) (t : Testbed) (h : History) {h' : History}
      → start_testbed svc fuel t h ≡ (ok tt, h')
      → Extends is_quiet (h ▹ compose_events t) h'
  unfolding start_testbed
  start_testbed-Extends fuel t h {h'} e =
      let (_, e₀) =
        >>=-known (compose_restart svc t) _ h (λ _ _ p. sym (compose_restart_lem svc t h p)) e in
      let rest =
        Grows-bind (wait_launched svc fuel) (λ _. launch_simulation svc fuel t)
          (wait_launched-Grows fuel) (λ _. launch_simulation-Grows fuel t) in
      subst (λ x. Extends is_quiet (h ▹ compose_events t) x)
        (ap (λ (p : Result ⊤ × History). p.1) e₀) (rest.at (h ▹ compose_events t))
