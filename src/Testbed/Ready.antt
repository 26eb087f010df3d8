-- ===== src/Testbed/Ready.antt =====
-- `start_testbed` (testbeds.py) returns, and how many rounds it waits.
pub mod Health
pub mod Launched
use qpep.Prelude.{
  ℕ, zero, suc, some, ◌+◌, ◌≤◌, ◌<◌, ◌≡◌, refl, ◌∙◌, ap, String, Bool, true, false, [], ◌∷◌, ◌⊎◌,
  inl, inr, Bool-cases, arith,
}
use native.Mathlib.Decide.{dec_le}
use text.Mathlib.Text.{◌==◌ as str_eq}
use qpep.World.{
  netcat_error, Result, ok, err, spinning, ⊤, Event, compose_down, compose_up, nc_connect,
  nc_recv_until, nc_recv, nc_send, sleep, container_get, History, ◌▹◌, Services, M, pure, ◌>>=◌,
  perform, int_env, catch_netcat,
}
use qpep.World.Inversion.{>>=-ok, >>=-err}
use qpep.Testbed.{
  Orbit, basic, leo, Testbed, hosts_listed, all_running, connect_status, wait_launched,
  wait_running, start_testbed, command, load_scenario, get_container, connect_terminal,
  launch_simulation, compose_restart,
}
use qpep.Testbed.Boot.{load_events, compose_events}
use qpep.Prelude.Text.{join}
use qpep.Testbed.Ready.Health.{one_more, statuses, is_compose, Healthy}
use qpep.Testbed.Ready.Launched.{Launches, wait_launched_total}

module _ (svc : Services) (n m : ℕ) (ready : Healthy svc n m) where
  answered :
      {A : Type 0} (e : Event) (f : String → M A) (h : History)
      → ready.Up h
      → is_compose e ≡ false
      → (r : String) × ((perform svc e >>= f) h ≡ f r (e ∷ h))
        × ready.Up (e ∷ h)
        × (svc.reply h e ≡ ok r)
  answered e f h up kind =
      let (r, p) = ready.answers h e kind up in
      (r, >>=-ok (perform svc e) f h (ap (λ x. (x, e ∷ h)) p), ready.stays_up h e kind up, p)

  wait_running_total :
      (fuel k : ℕ) (h : History)
      → ready.Up h
      → statuses h ≡ some k
      → 0 < fuel
      → m < fuel + k
      → Launches svc n m ready (wait_running svc fuel) h
  unfolding wait_running
  wait_running_total zero k h up since p q = elim p [ ]
  wait_running_total (suc fuel) k h up since p q =
      let (_, e₁, up₁, _) = answered (nc_send "status\n") _ h up refl in
      let (r, e₂, up₂, p₂) = answered nc_recv _ _ up₁ refl in
      elim (Bool-cases (all_running r)) [
        | inl done ↦ (nc_recv ∷ nc_send "status\n" ∷ h, e₁ ∙ e₂ ∙ rw done, up₂)
        | inr waits ↦ elim (dec_le m k) [
          | yes late ↦ cc (ready.runs h k r since late p₂, waits)
          | no early ↦
              let (h', e₃, up₃) =
                wait_running_total fuel (suc k) _ up₂ (ap one_more since) (omega arith)
                  (omega arith) in
              (h', e₁ ∙ e₂ ∙ (rw waits e₃), up₃)
        ]
      ]

  -- The last event of an action, answered.
  answered_last :
      (e : Event) (h : History)
      → ready.Up h
      → is_compose e ≡ false
      → (r : String) × (perform svc e h ≡ (ok r, e ∷ h))
  answered_last e h up kind = let (r, p) = ready.answers h e kind up in (r, ap (λ x. (x, e ∷ h)) p)

  command_total :
      (line : String) (h : History)
      → ready.Up h
      → (r : String) × (command svc line h
          ≡ (ok r, h ▹ (nc_send line ∷ nc_recv_until "OK" ∷ nc_recv ∷ [])))
        × ready.Up (h ▹ (nc_send line ∷ nc_recv_until "OK" ∷ nc_recv ∷ []))
  unfolding command
  command_total line h up =
      let (_, e₁, up₁, _) = answered (nc_send line) _ h up refl in
      let (_, e₂, up₂, _) = answered (nc_recv_until "OK") _ _ up₁ refl in
      let (r, e₃) = answered_last nc_recv _ up₂ refl in
      (r, e₁ ∙ e₂ ∙ e₃, ready.stays_up _ _ refl up₂)

  load_scenario_total :
      (o : Orbit) (h : History)
      → ready.Up h
      → (r : String) × (load_scenario svc o h ≡ (ok r, h ▹ load_events o))
        × ready.Up (h ▹ load_events o)
  unfolding load_scenario
  load_scenario_total basic h up = ("", refl, up)
  load_scenario_total leo h up = command_total _ h up

  connect_terminal_total :
      (h : History) → ready.Up h → (h' : History) × (connect_terminal svc h ≡ (ok tt, h'))
  unfolding connect_terminal get_container
  connect_terminal_total h up =
      let name = svc.getenv "ST_CONTAINER_NAME" in
      let (_, e₁, up₁, _) = answered (container_get name) (λ _. pure name) h up refl in
      let (_, e₂, up₂, _) = answered _ _ _ up₁ refl in
      let (_, e₃, up₃, _) = answered _ _ _ up₂ refl in
      (_, >>=-ok (get_container svc "ST_CONTAINER_NAME") _ h e₁ ∙ e₂ ∙ e₃)

  launch_simulation_total :
      (fuel : ℕ) (t : Testbed) (h : History)
      → ready.Up h
      → m < fuel
      → (h' : History) × (launch_simulation svc fuel t h ≡ (ok tt, h'))
  unfolding launch_simulation
  launch_simulation_total fuel t h up enough =
      let (_, e₀, up₀) = load_scenario_total t.orbit h up in
      let (_, e₁, up₁, _) = answered (sleep 1) _ _ up₀ refl in
      let (_, e₂, up₂, _) = answered (nc_send "start\n") _ _ up₁ refl in
      let (h₃, e₃, up₃) = wait_running_total fuel 0 _ up₂ refl (omega arith) (omega arith) in
      let (h', e₄) = connect_terminal_total h₃ up₃ in
      (
        h',
        >>=-ok (load_scenario svc t.orbit) _ h e₀
            ∙ e₁
            ∙ e₂
            ∙ >>=-ok (wait_running svc fuel) _ _ e₃
            ∙ e₄,
      )

  pub start_testbed_total :
      (fuel : ℕ) (t : Testbed) (h : History)
      → n < fuel
      → m < fuel
      → (h' : History) × (start_testbed svc fuel t h ≡ (ok tt, h'))
  unfolding start_testbed compose_restart
  start_testbed_total fuel t h enough_n enough_m =
      let display = join (t.host_ip ∷ ":" ∷ t.display_number ∷ []) in
      let (_, p₁) = ready.composes_down h in
      let (_, p₂) = ready.composes_up (compose_down ∷ h) display in
      let (h₃, e₃, up₃) =
        wait_launched_total svc n m ready fuel 0 (h ▹ compose_events t) refl (omega arith)
          (omega arith) in
      let (h', e₄) = launch_simulation_total fuel t h₃ up₃ enough_m in
      (
        h',
        >>=-ok (compose_restart svc t) _ h (
              >>=-ok (perform svc compose_down) _ h (ap (λ x. (x, compose_down ∷ h)) p₁)
              ∙ ap (λ x. (x, h ▹ compose_events t)) p₂)
            ∙ >>=-ok (wait_launched svc fuel) _ _ e₃
            ∙ e₄,
      )
