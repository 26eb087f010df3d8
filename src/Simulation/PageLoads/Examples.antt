-- ===== src/Simulation/PageLoads/Examples.antt =====
-- `plr_plt_scenario` without repetitions.
use qpep.Prelude.{◌≡◌, refl, some, [], if◌then◌else◌}
use text.Mathlib.Text.{◌==◌ as str_eq}
use qpep.World.{err, name_error, Services, ◌>>=◌}
use qpep.Simulation.{qpep_scenario, for_range, for_each}
use qpep.Simulation.PageLoads.{run_page_levels, page_level_round}
use qpep.Simulation.Lively.{lively, numbers, levels}

abbrev no_rounds : Services
no_rounds = record lively { int_of = λ s. if str_eq s "PLR_MAX_INDEX" then some 2 else some 0 }

run_page_levels-none :
    run_page_levels numbers no_rounds levels 1 qpep_scenario 5 [] ≡ (err name_error, [])
unfolding run_page_levels page_level_round ◌>>=◌ for_range for_each
run_page_levels-none = refl
