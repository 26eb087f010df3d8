-- ===== src/Scenario/Examples.antt =====
-- A deployment on services that answer every call.
use qpep.Prelude.{refl, ap, true, some, [], ◌∷◌}
use qpep.Prelude.Text.{str}
use text.Mathlib.TextEquality.{eq_iff}
use qpep.World.{ok, compose_down, ⊤, M, History, Services, exec_run, ◌>>=◌}
use qpep.Testbed.{basic, get_container}
use qpep.Scenario.{
  Deployment, qpep_ack, deploy_scenario, deploy_class, deploy_qpep_ack, deploy_tuned,
  kill_or_configure, launch_qpep,
}
use qpep.Scenario.Fresh.{IsFreshClass, deploy_scenario-IsFreshClass}

abbrev services : Services
services = record { getenv = λ k. some k; int_of = λ s. some 1234; reply = λ h e. ok "" }

-- A terminal that ran another QPEP client before.
abbrev earlier : History
earlier = exec_run (some "ST_CONTAINER_NAME") "go run /root/go/src/qpep/main.go -client" true ∷ []

abbrev deployment : Deployment
deployment = record {
  class = qpep_ack;
  testbed = record { orbit = basic; host_ip = "192.168.1.9"; display_number = "0"; linux = true };
}

deploy_scenario-IsFreshClass_example :
    IsFreshClass services qpep_ack (deploy_scenario services 0 deployment true earlier).1
unfolding ◌>>=◌ get_container deploy_scenario deploy_class deploy_qpep_ack deploy_tuned
    kill_or_configure launch_qpep
deploy_scenario-IsFreshClass_example =
    deploy_scenario-IsFreshClass services 0 deployment true earlier
      (λ p. cc ((eq_iff "ST_CONTAINER_NAME" "WS_GW_CONTAINER_NAME").1 (ap str p))) refl

-- A testbed that comes up at once.
abbrev lively : Services
lively = record {
  getenv = λ k. some k;
  int_of = λ s. some 1234;
  reply = λ h e. ok "SAT GW0 ST1 RUNNING RUNNING RUNNING RUNNING";
}

abbrev stop : M ⊤
stop h = (ok tt, compose_down ∷ h)
