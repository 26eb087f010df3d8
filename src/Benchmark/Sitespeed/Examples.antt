-- ===== src/Benchmark/Sitespeed/Examples.antt =====
-- Runs of the benchmark on a service whose every reply is a report of browsertime.
use qpep.Prelude.{ℕ, ◌*◌, ◌≤◌, ◌≡◌, refl, none, some, [], ◌∷◌}
use qpep.Prelude.Text.{codes, count_from, str_of_int}
use qpep.World.{ok, pure, Services}
use qpep.World.{◌>>=◌ as bind}
use qpep.Testbed.{get_container}
use qpep.Dict.{lookup, insert}
use qpep.Benchmark.{Numbers, ◌>>=◌}
use qpep.Benchmark.Sitespeed.{
  Sitespeed, Loads, number_run, load_here, find_loads, add_value, store_matches, measure_host,
  measure_hosts, connect_workstation, run_rounds, run,
}
use qpep.Benchmark.Sitespeed.Matches.{Line, find_loads-print_lines}
use qpep.Benchmark.Sitespeed.Keeps.{IsLater, run-IsLater}
use qpep.Benchmark.Sitespeed.Rounds.{run-none}

-- "n 1 Load: 3.5s, n 2 Load: 70ms total"
abbrev first_line : Line
first_line = record { before = codes "n 1 "; first = 51; digits = codes ".5"; unit = 115 }

abbrev second_line : Line
second_line = record { before = codes ", n 2 "; first = 55; digits = codes "0"; unit = 109 }

find_loads-print_lines_example :
    find_loads (codes "n 1 Load: 3.5s, n 2 Load: 70ms total")
    ≡ (codes "3.5", 115) ∷ (codes "70", 109) ∷ []
find_loads-print_lines_example =
    find_loads-print_lines (first_line ∷ second_line ∷ []) (codes "s total")
      (
        record { plain = refl; number = refl; unit_known = refl },
        (record { plain = refl; number = refl; unit_known = refl }, tt),
      )
      refl

abbrev numbers : Numbers
numbers = record {
  Num = ℕ;
  zero_num = 0;
  unicode_escape = some;
  loads = λ s. none;
  to_float = λ s. some 35;
  times_1000 = λ n. n * 1000;
}

abbrev services : Services
services = record {
  getenv = λ k. some k;
  int_of = λ s. some 1;
  reply = λ h e. ok "Load: 35ms UrlLoadError";
}

abbrev two_rounds : Sitespeed
two_rounds = record {
  hosts = "https://www.nasa.gov" ∷ [];
  iterations = 2;
  scenario = some (pure tt);
  sub_iterations = 1;
}

abbrev nothing : Loads ℕ
nothing = record { results = []; errors = 0 }

run-IsLater_example :
    IsLater ("https://www.nasa.gov" ∷ []) nothing (run numbers services two_rounds nothing []).1
run-IsLater_example = run-IsLater numbers services two_rounds nothing []

-- The default: one round and no scenario.
abbrev one_round : Sitespeed
one_round = record two_rounds { iterations = 1; scenario = none }

run-none_example : 1 ≤ 1
unfolding bind ◌>>=◌ get_container run run_rounds connect_workstation measure_hosts measure_host
    store_matches add_value find_loads load_here number_run lookup insert count_from str_of_int
run-none_example = run-none numbers services one_round nothing _ [] _ refl refl
