-- ===== src/Scenario/Benchmarks.antt =====
-- `Scenario.run_benchmarks`: each benchmark has a deployment of its own.
use qpep.Prelude.{◌≡◌, List, [], ◌∷◌}
use qpep.World.{ok, ⊤, History, Services, M}
use qpep.World.Grows.{Grows, Extends}
use qpep.Testbed.{Testbed}
use qpep.Testbed.Boot.{IsOrdered}
use qpep.Testbed.Inside.{is_inside}
use qpep.Scenario.{Deployment}
use qpep.Scenario.Fresh.{IsFreshClass}

-- From `h` to `deployed` the scenario was deployed: the testbed was taken down and came up in
-- order, nothing but calls of its containers followed, and the processes are those of the class.
pub record IsDeployed (svc : Services) (d : Deployment) (h deployed : History) : Type 0 where
  pub up : History
  pub booted : IsOrdered svc d.testbed h up
  pub inside : Extends is_inside up deployed
  pub fresh : IsFreshClass svc d.class deployed

-- From `h` to `h'` the benchmarks ran in order, each right after a deployment that began where
-- the one before it ended.
abbrev pub RunsFresh : Services → Deployment → List (M ⊤) → History → History → Type 0
RunsFresh svc d [] h h' = h' ≡ h
RunsFresh svc d (benchmark ∷ benchmarks) h h' =
    (deployed after : History) × IsDeployed svc d h deployed
    × (benchmark deployed ≡ (ok tt, after))
    × RunsFresh svc d benchmarks after h'
