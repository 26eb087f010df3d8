-- ===== src/Simulation/PageLoads.antt =====
-- `plt_test_scenario` and `plr_plt_scenario` of opensand-testbed/simulation_examples.py: page
-- loads, of the best known sites and at rising loss rates.
mod Examples
use qpep.Prelude.{
  ℕ, zero, suc, ◌+◌, String, Bool, true, false, Option, none, some, List, [], ◌∷◌, ◌++◌,
}
use qpep.World.{Services, ⊤, M, pure, raise, name_error, ◌>>=◌, ◌>>◌, int_env}
use qpep.Testbed.{Testbed, set_plr_percentage}
use qpep.Scenario.{deploy_scenario}
use qpep.Dict.{Dict, insert}
use qpep.Benchmark.{Numbers}
use qpep.Benchmark.Sitespeed.{Sitespeed, Loads, alexa_top_20}
use qpep.Simulation.{
  Numpy, Scenario, host_testbed, deployment, plain_scenario, vpn_scenario, pepsal_scenario,
  distributed_pepsal_scenario, qpep_scenario, slice, for_each, for_range, append_to, or_key_error,
  if_chosen, is_chosen, run_sitespeed,
}

abbrev pub page_scenarios : List Scenario
page_scenarios =
    plain_scenario ∷ pepsal_scenario ∷ distributed_pepsal_scenario ∷ qpep_scenario ∷ vpn_scenario
    ∷ []

-- `if testbed is None: …`
abbrev pub or_host_testbed : Option Testbed → Testbed
or_host_testbed none = host_testbed
or_host_testbed (some testbed) = testbed

-- By the loss rate.
abbrev pub PageResults : Type 0 → Type 0
PageResults Num = Dict (List (Dict (List Num)))

module _ (py : Numbers) (svc : Services) where
  open py use {Num}

  pub load_pages : ℕ → Testbed → Scenario → M (Loads Num)
  load_pages fuel testbed s = do
    from ← int_env svc "ALEXA_MIN"
    to ← int_env svc "ALEXA_MAX"
    iterations ← int_env svc "PLT_ITERATIONS"
    sub_iterations ← int_env svc "PLT_SUB_ITERATIONS"
    let deploy = deploy_scenario svc fuel (deployment testbed s) false
    deploy
    run_sitespeed py svc (record {
      hosts = slice alexa_top_20 from to;
      iterations = iterations;
      scenario = some deploy;
      sub_iterations = sub_iterations;
    })

  pub plt_test_scenario : ℕ → Option Testbed → M (List (Loads Num))
  plt_test_scenario fuel testbed =
      for_each page_scenarios (λ s. if_chosen svc s (load_pages fuel (or_host_testbed testbed) s))
        []

module _ (py : Numbers) (svc : Services) (np : Numpy) where
  open py use {Num}

  abbrev pub sites_to_check : List String
  sites_to_check = "https://www.nasa.gov" ∷ []

  -- One round of the loop over `j`.
  pub load_round : ℕ → Scenario → ℕ → String → PageResults Num → M (PageResults Num)
  load_round fuel s sub_iterations plr_string d = do
    let deploy = deploy_scenario svc fuel (deployment host_testbed s) false
    deploy
    set_plr_percentage svc plr_string false true
    loads ← run_sitespeed py svc (record {
      hosts = sites_to_check;
      iterations = 1;
      scenario = some deploy;
      sub_iterations = sub_iterations;
    })
    or_key_error (append_to plr_string loads.results d)

  -- The log line after the loop names `j`, which no round has bound if there was none.
  abbrev pub log_rounds : ℕ → M ⊤
  log_rounds zero = raise name_error
  log_rounds (suc n) = pure tt

  pub page_level_round : ℕ → Scenario → ℕ → np.Level → PageResults Num → M (PageResults Num)
  page_level_round fuel s sub_iterations plr_level d = do
    let plr_string = np.format_float_positional plr_level
    meta_iterations ← int_env svc "PLR_META_ITERATIONS"
    loaded ←
        for_range meta_iterations (load_round fuel s sub_iterations plr_string)
          (insert plr_string [] d)
    log_rounds meta_iterations
    pure loaded

  pub run_page_levels : ℕ → Scenario → ℕ → M (PageResults Num)
  run_page_levels fuel s sub_iterations = do
    from ← int_env svc "PLR_MIN_INDEX"
    to ← int_env svc "PLR_MAX_INDEX"
    for_each (slice np.geomspace_levels from to) (page_level_round fuel s sub_iterations) []

  -- The benchmark is made for every scenario, so that its number is read for every one.
  pub page_scenario_round : ℕ → Scenario → List (PageResults Num) → M (List (PageResults Num))
  page_scenario_round fuel s l = do
    sub_iterations ← int_env svc "PLR_PLT_ITERATIONS"
    if_chosen svc s (run_page_levels fuel s sub_iterations) l

  pub plr_plt_scenario : ℕ → M (List (PageResults Num))
  plr_plt_scenario fuel = for_each page_scenarios (page_scenario_round fuel) []
