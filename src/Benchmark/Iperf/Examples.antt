-- ===== src/Benchmark/Iperf/Examples.antt =====
-- A run of the benchmark on services that answer every call, with natural numbers in the reports.
use qpep.Prelude.{ℕ, ◌+◌, ◌*◌, ◌≤◌, refl, none, some, List, [], ◌∷◌, false}
use qpep.Prelude.Text.{occurs}
use qpep.World.{ok, Services}
use qpep.World.{◌>>=◌ as bind}
use qpep.Testbed.{get_container}
use qpep.Dict.{lookup, insert}
use qpep.Benchmark.{Json, num, obj, field, end, Numbers, ◌>>=◌}
use qpep.Benchmark.Iperf.{
  FileSize, json_string, replace_from, rstrip_newline, parse_report, checked_report, run_iperf_test,
  final_report, or_key_error, index_path, index, is_number, get_field, reset_iperf, append_values,
  store, store_under, run_sizes, run_iterations, warm_up, run,
}
use qpep.Benchmark.Iperf.Counted.{IsCounted}
use qpep.Benchmark.Iperf.Series.{tests_of, run-IsCounted, run_keeps}

-- Every text is read as one report.
abbrev measured : Json ℕ
measured = obj (
    field "end"
      (obj (
        field "sum_sent" (obj (field "bytes" (num 1000) (field "bits_per_second" (num 800) end))) (
          field "sum_received"
            (obj (field "bytes" (num 900) (field "bits_per_second" (num 700) end))) end)))
      end)

abbrev numbers : Numbers
numbers = record {
  Num = ℕ;
  zero_num = 0;
  unicode_escape = some;
  loads = λ s. some measured;
  to_float = λ s. none;
  times_1000 = λ n. n * 1000;
}

abbrev services : Services
services = record { getenv = λ k. some k; int_of = λ s. some 1234; reply = λ h e. ok "{}" }

abbrev sizes : List FileSize
sizes =
    record { bytes = "1000"; megabytes = "0.001" }
    ∷ record { bytes = "2000"; megabytes = "0.002" }
    ∷ []

empty-IsCounted : IsCounted {Num = ℕ} [] λ name. 0
unfolding lookup
empty-IsCounted name = refl

run_keeps_example :
    (kept : _) × IsCounted (run numbers services sizes false 2 [] []).1 kept
    × ((name : _) → 0 ≤ kept name)
    × ((name : _) → kept name ≤ 0 + 2 * tests_of sizes name)
run_keeps_example = run_keeps numbers services sizes false 2 [] [] (λ name. 0) empty-IsCounted

-- Two files, two iterations.
run-IsCounted_example :
    IsCounted (run numbers services sizes false 2 [] []).1 λ name. 0 + 2 * tests_of sizes name
unfolding bind ◌>>=◌ get_container run warm_up run_iterations run_sizes run_iperf_test reset_iperf
    parse_report checked_report final_report or_key_error index_path index get_field is_number store
    store_under append_values lookup insert occurs json_string replace_from rstrip_newline
run-IsCounted_example =
    run-IsCounted numbers services sizes false 2 [] _ [] _ (λ name. 0) empty-IsCounted refl
