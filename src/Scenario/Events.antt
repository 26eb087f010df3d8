-- ===== src/Scenario/Events.antt =====
-- The events of each deployment of QPEP.
use qpep.Prelude.{◌≡◌, sym, ap, String, Bool, true, false, Option, List, [], ◌∷◌}
use qpep.World.{Result, ok, ⊤, Event, sleep, container_get, exec_run, History, ◌▹◌, Services}
use qpep.World.Inversion.{perform-eq-ok, >>=-known}
use qpep.Testbed.Boot.{get_container-eq-ok}
use qpep.Scenario.{
  configure_qpep, kill_qpep, client_command, gateway_command, launch_qpep, kill_gateway_first,
  deploy_qpep, kill_or_configure, deploy_tuned,
}

abbrev pub configures : Option String → List Event
configures c = exec_run c "bash /opensand_config/configure_qpep.sh" false ∷ []

-- The kills, of the first container and then of the second.
abbrev pub kills : Bool → Option String → Option String → List Event
kills true c d = exec_run c kill_qpep false ∷ exec_run d kill_qpep false ∷ []
kills false c d = []

abbrev pub launches : Option String → Option String → String → String → List Event
launches terminal gateway client server =
    exec_run terminal client true ∷ exec_run gateway server true ∷ []

-- The history of `QPEPScenario` on a testbed, before and with its launches.
abbrev pub qpep_ready : Services → Bool → History → History
qpep_ready svc up h =
    let terminal = svc.getenv "ST_CONTAINER_NAME" in
    let gateway = svc.getenv "WS_GW_CONTAINER_NAME" in
    h
    ▹ (container_get terminal ∷ [])
    ▹ configures terminal
    ▹ (container_get gateway ∷ [])
    ▹ configures gateway
    ▹ kills up gateway terminal

-- The history of the other two classes before their launches.
abbrev pub tuned_ready : Bool → Option String → Option String → History → History
tuned_ready true terminal gateway h = h ▹ kills true terminal gateway ▹ (sleep 1 ∷ [])
tuned_ready false terminal gateway h = h ▹ configures terminal ▹ configures gateway

module _ (svc : Services) where
  configure_qpep_lem :
      (c : Option String) (h : History) (a : ⊤) (h₁ : History)
      → configure_qpep svc c h ≡ (ok a, h₁)
      → h₁ ≡ h ▹ (exec_run c "bash /opensand_config/configure_qpep.sh" false ∷ [])
  unfolding configure_qpep
  configure_qpep_lem c h a h₁ e =
      let (_, _, e₁) = perform-eq-ok svc _ _ h e in sym (ap (λ (p : Result ⊤ × History). p.1) e₁)

  launch_qpep_lem :
      (terminal gateway : Option String) (client server : String) (h : History) (a : ⊤)
      (h₁ : History)
      → launch_qpep svc terminal gateway client server h ≡ (ok a, h₁)
      → h₁ ≡ h ▹ (exec_run terminal client true ∷ exec_run gateway server true ∷ [])
  unfolding launch_qpep
  launch_qpep_lem terminal gateway client server h a h₁ e =
      let (_, _, e₁) = perform-eq-ok svc _ _ h e in
      let (_, _, e₂) = perform-eq-ok svc _ _ _ e₁ in sym (ap (λ (p : Result ⊤ × History). p.1) e₂)

  kill_gateway_first_lem :
      (up : Bool) (terminal gateway : Option String) (h : History) (a : ⊤) (h₁ : History)
      → kill_gateway_first svc up terminal gateway h ≡ (ok a, h₁)
      → h₁ ≡ h ▹ kills up gateway terminal
  unfolding kill_gateway_first
  kill_gateway_first_lem true terminal gateway h a h₁ e =
      let (_, _, e₁) = perform-eq-ok svc _ _ h e in
      let (_, _, e₂) = perform-eq-ok svc _ _ _ e₁ in sym (ap (λ (p : Result ⊤ × History). p.1) e₂)
  kill_gateway_first_lem false terminal gateway h a h₁ e =
      sym (ap (λ (p : Result ⊤ × History). p.1) e)

  -- The events of `QPEPScenario`, in order.
  pub deploy_qpep_lem :
      (up : Bool) (h : History) {h' : History}
      → deploy_qpep svc up h ≡ (ok tt, h')
      → h'
        ≡ qpep_ready svc up h
          ▹ launches
              (svc.getenv "ST_CONTAINER_NAME")
              (svc.getenv "WS_GW_CONTAINER_NAME")
              (client_command svc [] [])
              (gateway_command [])
  unfolding deploy_qpep
  deploy_qpep_lem up h e =
      let e₁ = get_container-eq-ok svc "ST_CONTAINER_NAME" _ h e in
      let (_, e₂) = >>=-known _ _ _ (configure_qpep_lem (svc.getenv "ST_CONTAINER_NAME") _) e₁ in
      let e₃ = get_container-eq-ok svc "WS_GW_CONTAINER_NAME" _ _ e₂ in
      let (_, e₄) = >>=-known _ _ _ (configure_qpep_lem (svc.getenv "WS_GW_CONTAINER_NAME") _) e₃ in
      let (_, e₅) = >>=-known _ _ _ (kill_gateway_first_lem up _ _ _) e₄ in
      launch_qpep_lem (svc.getenv "ST_CONTAINER_NAME") (svc.getenv "WS_GW_CONTAINER_NAME") _ _ _ _ _
        e₅

  kill_or_configure_lem :
      (up : Bool) (terminal gateway : Option String) (h : History) (a : ⊤) (h₁ : History)
      → kill_or_configure svc up terminal gateway h ≡ (ok a, h₁)
      → h₁ ≡ tuned_ready up terminal gateway h
  unfolding kill_or_configure
  kill_or_configure_lem true terminal gateway h a h₁ e =
      let (_, _, e₁) = perform-eq-ok svc _ _ h e in
      let (_, _, e₂) = perform-eq-ok svc _ _ _ e₁ in
      let (_, _, e₃) = perform-eq-ok svc _ _ _ e₂ in sym (ap (λ (p : Result ⊤ × History). p.1) e₃)
  kill_or_configure_lem false terminal gateway h a h₁ e =
      let (_, e₁) = >>=-known _ _ _ (configure_qpep_lem terminal h) e in
      configure_qpep_lem gateway _ _ _ e₁

  -- The events of `QPEPAckScenario` and `QPEPCongestionScenario`, in order.
  pub deploy_tuned_lem :
      (up : Bool) (client server : String) (h : History) {h' : History}
      → deploy_tuned svc up client server h ≡ (ok tt, h')
      → let terminal = svc.getenv "ST_CONTAINER_NAME" in
        let gateway = svc.getenv "WS_GW_CONTAINER_NAME" in
        h'
        ≡ tuned_ready up terminal gateway
            (h ▹ (container_get terminal ∷ container_get gateway ∷ []))
          ▹ launches terminal gateway client server
  unfolding deploy_tuned
  deploy_tuned_lem up client server h e =
      let e₁ = get_container-eq-ok svc "ST_CONTAINER_NAME" _ h e in
      let e₂ = get_container-eq-ok svc "WS_GW_CONTAINER_NAME" _ _ e₁ in
      let (_, e₃) =
        >>=-known _ _ _
          (kill_or_configure_lem up (svc.getenv "ST_CONTAINER_NAME")
            (svc.getenv "WS_GW_CONTAINER_NAME") _)
          e₂ in
      launch_qpep_lem (svc.getenv "ST_CONTAINER_NAME") (svc.getenv "WS_GW_CONTAINER_NAME") _ _ _ _ _
        e₃
