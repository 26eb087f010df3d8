-- ===== src/Scenario/Inside.antt =====
-- A deployment restarts the containers once, and all else that a class does is inside the testbed.
use qpep.Prelude.{ℕ, ◌+◌, ◌≡◌, refl, ◌∙◌, String, Bool, true, false, Option, arith}
use qpep.World.{Event, History, ◌▹◌, Services, compose_up}
use qpep.World.Grows.{Grows, Grows-pure, grows_rules}
use qpep.World.Tally.{tally, tally-Extends, Counts, Counts-Grows, Counts-bind}
use qpep.Testbed.{Testbed, start_testbed}
use qpep.Testbed.Boot.{compose_events}
use qpep.Testbed.Quiet.{is_quiet, start_testbed-Extends, connect_terminal_workstation-Grows}
use qpep.Testbed.Inside.{is_inside, is_compose_up, inside-apart, get_container-inside}
use qpep.Scenario.{
  deploy_base, deploy_open_vpn, configure_qpep, launch_qpep, kill_gateway_first, deploy_qpep,
  kill_or_configure, deploy_tuned, deploy_qpep_ack, deploy_qpep_congestion, launch_pepsal,
  deploy_pepsal, deploy_class, deploy_scenario, Class, plain, open_vpn, qpep_basic, qpep_ack,
  qpep_congestion, pepsal, Deployment,
}

quiet-apart : (e : Event) → is_quiet e ≡ true → is_compose_up e ≡ false
quiet-apart (compose_up _) p = cc
quiet-apart _ p = refl

module _ (svc : Services) where
  configure_qpep-inside : (c : Option String) → Grows is_inside (configure_qpep svc c)
  unfolding configure_qpep
  configure_qpep-inside c = search grows_rules

  launch_qpep-inside :
      (t g : Option String) (client server : String)
      → Grows is_inside (launch_qpep svc t g client server)
  unfolding launch_qpep
  launch_qpep-inside t g client server = search grows_rules depth 8

  kill_gateway_first-inside :
      (up : Bool) (t g : Option String) → Grows is_inside (kill_gateway_first svc up t g)
  unfolding kill_gateway_first
  kill_gateway_first-inside true t g = search grows_rules depth 8
  kill_gateway_first-inside false t g = Grows-pure tt

  kill_or_configure-inside :
      (up : Bool) (t g : Option String) → Grows is_inside (kill_or_configure svc up t g)
  unfolding kill_or_configure
  kill_or_configure-inside true t g = search grows_rules depth 10
  kill_or_configure-inside false t g = search (grows_rules, configure_qpep-inside) depth 8

  launch_pepsal-inside : (b : Bool) (k : String) → Grows is_inside (launch_pepsal svc b k)
  unfolding launch_pepsal
  launch_pepsal-inside true k = search (grows_rules, get_container-inside) depth 8
  launch_pepsal-inside false k = Grows-pure tt

  deploy_qpep-inside : (up : Bool) → Grows is_inside (deploy_qpep svc up)
  unfolding deploy_qpep
  deploy_qpep-inside up =
      search
        (
          grows_rules, get_container-inside, configure_qpep-inside, kill_gateway_first-inside,
          launch_qpep-inside,
        )
        depth 14

  deploy_tuned-inside :
      (up : Bool) (client server : String) → Grows is_inside (deploy_tuned svc up client server)
  unfolding deploy_tuned
  deploy_tuned-inside up client server =
      search (grows_rules, get_container-inside, kill_or_configure-inside, launch_qpep-inside) depth
        12

  pub deploy_qpep_ack-inside :
      (up : Bool) (ack_level : String) → Grows is_inside (deploy_qpep_ack svc up ack_level)
  unfolding deploy_qpep_ack
  deploy_qpep_ack-inside up ack_level = deploy_tuned-inside up _ _

  pub deploy_class-inside :
      (class : Class) (up : Bool) → Grows is_inside (deploy_class svc class up)
  unfolding deploy_class deploy_open_vpn deploy_qpep_congestion deploy_pepsal
  deploy_class-inside plain up = Grows-pure tt
  deploy_class-inside open_vpn up = search (grows_rules, get_container-inside) depth 10
  deploy_class-inside (qpep_basic _) up = deploy_qpep-inside up
  deploy_class-inside qpep_ack up = deploy_qpep_ack-inside up _
  deploy_class-inside qpep_congestion up = deploy_tuned-inside up _ _
  deploy_class-inside (pepsal t g) up = search (grows_rules, launch_pepsal-inside) depth 8

  compose_events-once :
      (t : Testbed) (h : History)
      → tally is_compose_up (h ▹ compose_events t) ≡ 1 + tally is_compose_up h
  unfolding tally
  compose_events-once t h = omega arith

  start_testbed-once : (fuel : ℕ) (t : Testbed) → Counts is_compose_up 1 (start_testbed svc fuel t)
  start_testbed-once fuel t h h' a e =
      tally-Extends is_compose_up is_quiet {h = h ▹ compose_events t} quiet-apart
        (start_testbed-Extends svc fuel t h e)
      ∙ compose_events-once t h

  pub deploy_base-once : (fuel : ℕ) (t : Testbed) → Counts is_compose_up 1 (deploy_base svc fuel t)
  unfolding deploy_base
  deploy_base-once fuel t = Counts-bind is_compose_up 1 0 _ _ (start_testbed-once fuel t) λ _.
      Counts-Grows is_compose_up is_quiet _ quiet-apart (connect_terminal_workstation-Grows svc t)

  -- A deployment that starts its testbed restarts the containers exactly once.
  pub deploy_scenario-once :
      (fuel : ℕ) (d : Deployment) → Counts is_compose_up 1 (deploy_scenario svc fuel d false)
  unfolding deploy_scenario
  deploy_scenario-once fuel d =
      Counts-bind is_compose_up 1 0 _ _ (deploy_base-once fuel d.testbed)
        λ _. Counts-Grows is_compose_up is_inside _ inside-apart (deploy_class-inside d.class false)
