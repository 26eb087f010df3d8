-- ===== src/Scenario/Fresh.antt =====
-- After a deployment each end of the tunnel runs one QPEP process, the one that was asked for.
use qpep.Prelude.{
  ℕ, ◌≡◌, ◌≢◌, refl, sym, ◌∙◌, ap, subst, String, Bool, true, false, Option, List, [], ◌∷◌, arith,
}
use qpep.World.{Result, ok, ⊤, container_get, History, ◌▹◌, Services, pure}
use qpep.World.Inversion.{>>=-eq-ok, >>=-known}
use qpep.Testbed.{Testbed, start_testbed}
use qpep.Testbed.Quiet.{start_testbed-Extends, connect_terminal_workstation-Grows}
use qpep.Scenario.{
  deploy_base, client_command, gateway_command, deploy_qpep, deploy_tuned, decimation, Class,
  Deployment, plain, open_vpn, qpep_basic, qpep_ack, qpep_congestion, pepsal, deploy_class,
  deploy_qpep_ack, deploy_qpep_congestion, deploy_scenario,
}
use qpep.Scenario.Processes.{
  qpep_processes, qpep_processes-quiet, kills_clear, launches_only, is_qpep,
}
use qpep.Prelude.Text.{codes, codes-append, is_prefix, join, str}
use qpep.Scenario.Events.{configures, qpep_ready, tuned_ready, deploy_qpep_lem, deploy_tuned_lem}

module _ (svc : Services) where
  deploy_base_clears :
      (fuel : ℕ) (t : Testbed) (h : History) {h' : History}
      → deploy_base svc fuel t h ≡ (ok tt, h')
      → (c : Option String) → qpep_processes c h' ≡ []
  unfolding deploy_base qpep_processes
  deploy_base_clears fuel t h e c =
      let (_, p₀, e₀) = >>=-eq-ok (start_testbed svc fuel t) _ h e in
      let (es, p, quiet) = start_testbed-Extends svc fuel t h p₀ in
      let (fs, q, quiet') = (connect_terminal_workstation-Grows svc t).at _ in
      ap (qpep_processes c) (sym (ap (λ (p : Result ⊤ × History). p.1) e₀) ∙ q)
      ∙ qpep_processes-quiet c fs _ quiet'
          (ap (qpep_processes c) p ∙ qpep_processes-quiet c es _ quiet refl)

  -- The terminal runs this client, the gateway's workstation this server, and no other QPEP.
  abbrev pub IsFresh : String → String → History → Type 0
  IsFresh client server h =
      (qpep_processes (svc.getenv "ST_CONTAINER_NAME") h ≡ client ∷ [])
      × (qpep_processes (svc.getenv "WS_GW_CONTAINER_NAME") h ≡ server ∷ [])

  -- No process is left before the launches, if none was or if the testbed was up already.
  abbrev NoneRuns : History → Type 0
  NoneRuns h = (c : Option String) → qpep_processes c h ≡ []

  qpep_ready-clear :
      (up : Bool) (h : History)
      → (up ≡ false → NoneRuns h)
      → (qpep_processes (svc.getenv "ST_CONTAINER_NAME") (qpep_ready svc up h) ≡ [])
        × (qpep_processes (svc.getenv "WS_GW_CONTAINER_NAME") (qpep_ready svc up h) ≡ [])
  unfolding qpep_processes
  qpep_ready-clear true h none_runs =
      let terminal = svc.getenv "ST_CONTAINER_NAME" in
      let gateway = svc.getenv "WS_GW_CONTAINER_NAME" in
      let (g, t) = kills_clear gateway terminal (
        h
        ▹ (container_get terminal ∷ [])
        ▹ configures terminal
        ▹ (container_get gateway ∷ [])
        ▹ configures gateway) in
      (t, g)
  qpep_ready-clear false h none_runs = ground (
    arith,
    none_runs refl (svc.getenv "ST_CONTAINER_NAME"),
    none_runs refl (svc.getenv "WS_GW_CONTAINER_NAME"),
  )

  tuned_ready-clear :
      (up : Bool) (t g : Option String) (h : History)
      → (up ≡ false → NoneRuns h)
      → let h₁ = tuned_ready up t g (h ▹ (container_get t ∷ container_get g ∷ [])) in
        (qpep_processes t h₁ ≡ []) × (qpep_processes g h₁ ≡ [])
  unfolding qpep_processes
  tuned_ready-clear true t g h none_runs =
      kills_clear t g (h ▹ (container_get t ∷ container_get g ∷ []))
  tuned_ready-clear false t g h none_runs = ground (arith, none_runs refl t, none_runs refl g)

  client_command-is_qpep :
      (front back : List String) → is_qpep (client_command svc front back) ≡ true
  unfolding is_qpep
  client_command-is_qpep front back = ap (is_prefix (codes "go run /root/go/src/qpep/main.go")) (
      codes-append "go run /root/go/src/qpep/main.go -client" (
        join (
          join front
          ∷ " -gateway "
          ∷ str (svc.getenv "GW_NETWORK_HEAD")
          ∷ ".0.9 "
          ∷ join back
          ∷ [])))

  gateway_command-is_qpep : (options : List String) → is_qpep (gateway_command options) ≡ true
  unfolding is_qpep
  gateway_command-is_qpep options =
      ap (is_prefix (codes "go run /root/go/src/qpep/main.go"))
        (codes-append "go run /root/go/src/qpep/main.go" (join (join options ∷ [])))

  deploy_qpep-IsFresh :
      (up : Bool) (h : History) {h' : History}
      → svc.getenv "ST_CONTAINER_NAME" ≢ svc.getenv "WS_GW_CONTAINER_NAME"
      → (up ≡ false → NoneRuns h)
      → deploy_qpep svc up h ≡ (ok tt, h')
      → IsFresh (client_command svc [] []) (gateway_command []) h'
  deploy_qpep-IsFresh up h ne none_runs e =
      subst (IsFresh (client_command svc [] []) (gateway_command []))
        (sym (deploy_qpep_lem svc up h e))
        (launches_only (svc.getenv "ST_CONTAINER_NAME") (svc.getenv "WS_GW_CONTAINER_NAME") _ _
          (qpep_ready svc up h) ne (client_command-is_qpep [] [], gateway_command-is_qpep [])
          (qpep_ready-clear up h none_runs))

  deploy_tuned-IsFresh :
      (up : Bool) (client server : String) (h : History) {h' : History}
      → svc.getenv "ST_CONTAINER_NAME" ≢ svc.getenv "WS_GW_CONTAINER_NAME"
      → (up ≡ false → NoneRuns h)
      → (is_qpep client ≡ true) × (is_qpep server ≡ true)
      → deploy_tuned svc up client server h ≡ (ok tt, h')
      → IsFresh client server h'
  deploy_tuned-IsFresh up client server h ne none_runs q e =
      let t = svc.getenv "ST_CONTAINER_NAME" in
      let g = svc.getenv "WS_GW_CONTAINER_NAME" in
      subst (IsFresh client server) (sym (deploy_tuned_lem svc up client server h e)) (
        launches_only t g client server
          (tuned_ready up t g (h ▹ (container_get t ∷ container_get g ∷ []))) ne q
          (tuned_ready-clear up t g h none_runs))

  -- The command lines of a class that deploys QPEP.
  abbrev pub IsFreshClass : Class → History → Type 0
  IsFreshClass (qpep_basic _) h = IsFresh (client_command svc [] []) (gateway_command []) h
  IsFreshClass qpep_ack h =
      IsFresh (client_command svc (decimation ∷ []) ("-acks " ∷ "4" ∷ []))
        (gateway_command (decimation ∷ [])) h
  IsFreshClass qpep_congestion h =
      IsFresh (client_command svc [] ("-congestion " ∷ "10" ∷ []))
        (gateway_command (" -congestion " ∷ "10" ∷ [])) h
  IsFreshClass _ h = Unit

  deploy_class-IsFreshClass :
      (class : Class) (up : Bool) (h : History) {h' : History}
      → svc.getenv "ST_CONTAINER_NAME" ≢ svc.getenv "WS_GW_CONTAINER_NAME"
      → (up ≡ false → NoneRuns h)
      → deploy_class svc class up h ≡ (ok tt, h')
      → IsFreshClass class h'
  unfolding deploy_class deploy_qpep_ack deploy_qpep_congestion
  deploy_class-IsFreshClass (qpep_basic _) up h ne n e = deploy_qpep-IsFresh up h ne n e
  deploy_class-IsFreshClass qpep_ack up h ne n e =
      deploy_tuned-IsFresh up _ _ h ne n
        (
          client_command-is_qpep (decimation ∷ []) ("-acks " ∷ "4" ∷ []),
          gateway_command-is_qpep (decimation ∷ []),
        )
        e
  deploy_class-IsFreshClass qpep_congestion up h ne n e =
      deploy_tuned-IsFresh up _ _ h ne n
        (
          client_command-is_qpep [] ("-congestion " ∷ "10" ∷ []),
          gateway_command-is_qpep (" -congestion " ∷ "10" ∷ []),
        )
        e
  deploy_class-IsFreshClass plain up h ne n e = tt
  deploy_class-IsFreshClass open_vpn up h ne n e = tt
  deploy_class-IsFreshClass (pepsal _ _) up h ne n e = tt

  -- With distinct names for the two containers, when a class that deploys QPEP returns, on a
  -- testbed that it brought up or on one that was up with any QPEP processes, the terminal runs one
  -- QPEP process, the client with the options of the class, and the gateway's workstation one, the
  -- server with its options.
  pub deploy_scenario-IsFreshClass :
      (fuel : ℕ) (d : Deployment) (up : Bool) (h : History) {h' : History}
      → svc.getenv "ST_CONTAINER_NAME" ≢ svc.getenv "WS_GW_CONTAINER_NAME"
      → deploy_scenario svc fuel d up h ≡ (ok tt, h')
      → IsFreshClass d.class h'
  unfolding deploy_scenario
  deploy_scenario-IsFreshClass fuel d true h ne e =
      let (_, e₁) =
        >>=-known (pure tt) _ h (λ _ _ p. sym (ap (λ (p : Result ⊤ × History). p.1) p)) e in
      deploy_class-IsFreshClass d.class true h ne (λ p. cc p) e₁
  deploy_scenario-IsFreshClass fuel d false h ne e =
      let (_, p, e₁) = >>=-eq-ok (deploy_base svc fuel d.testbed) _ h e in
      deploy_class-IsFreshClass d.class false _ ne (λ _. deploy_base_clears fuel d.testbed h p) e₁
