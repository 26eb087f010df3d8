-- ===== src/Benchmark/Printed.antt =====
-- The print_results methods of opensand-testbed/benchmarks.py and opensand-testbed/scenarios.py:
-- the lines that they print, and whether they come to their end.
mod Examples
use qpep.Prelude.{ℕ, String, Option, none, some, List, [], ◌∷◌, ◌++◌}
use qpep.World.{Error, Result, ok, err, spinning, key_error, value_error, ⊤}
use qpep.Dict.{Dict, lookup}
use qpep.Benchmark.{Json}
use qpep.Benchmark.Iperf.{Results}

-- An argument of `print`: a text, a benchmark's whole results, or a number.
pub data Shown (R V : Type 0) : Type 0 where
  text : String → Shown R V
  whole : R → Shown R V
  number : V → Shown R V

abbrev Line : Type 0 → Type 0 → Type 0
Line R V = List (Shown R V)

abbrev Output : Type 0 → Type 0 → Type 0
Output R V = Result ⊤ × List (Line R V)

module _ {R V : Type 0} where
  -- A line that may fail to be made, and what follows it.
  abbrev print_then : Result (Line R V) → Output R V → Output R V
  print_then (ok line) (r, lines) = (r, line ∷ lines)
  print_then (err e) _ = (err e, [])
  print_then spinning _ = (spinning, [])

  -- What is printed first, and what follows unless an exception ended it.
  abbrev print_and : Output R V → Output R V → Output R V
  print_and (ok _, lines) (r, more) = (r, lines ++ more)
  print_and (err e, lines) _ = (err e, lines)
  print_and (spinning, lines) _ = (spinning, lines)

  -- `Benchmark.print_results`
  print_results : R → Output R V
  print_results results = (ok tt, (whole results ∷ []) ∷ [])

  -- `SitespeedBenchmark.print_results`
  print_sitespeed : R → V → Output R V
  print_sitespeed results errors =
      (ok tt, (whole results ∷ []) ∷ (text "Failed load count: " ∷ number errors ∷ []) ∷ [])

  -- `Scenario.print_results`: a benchmark is known by its name and what its own method prints.
  abbrev print_benchmarks : List (String × Output R V) → Output R V
  print_benchmarks [] = (ok tt, [])
  print_benchmarks ((name, printed) ∷ benchmarks) =
      print_then (ok (text "****" ∷ text name ∷ text "****" ∷ []))
        (print_and printed (print_benchmarks benchmarks))

  abbrev stars : Line R V
  stars = text "*************************" ∷ []

  print_scenario : String → List (String × Output R V) → Output R V
  print_scenario name benchmarks =
      print_and (ok tt, stars ∷ (text "Benchmark Results for " ∷ text name ∷ []) ∷ stars ∷ [])
        (print_benchmarks benchmarks)

-- `mean` of the statistics module, `none` for its StatisticsError, a ValueError; `per_million`
-- divides by 1000000.
module _ {Num V : Type 0} (mean : List (Json Num) → Option V) (per_million : V → V) where
  -- `mean(self.results[result_key][key]) / 1000000` after its labels
  abbrev average_line : Results Num → String → String → String → Result (Line (Results Num) V)
  average_line results key label name = elim (lookup name results) [
    | none ↦ err key_error
    | some series ↦ elim (lookup key series) [
      | none ↦ err key_error
      | some values ↦ elim (mean values) [
        | none ↦ err value_error
        | some v ↦ ok (text name ∷ text label ∷ number (per_million v) ∷ [])
      ]
    ]
  ]

  abbrev print_averages : Results Num → Results Num → Output (Results Num) V
  print_averages results [] = (ok tt, [])
  print_averages results ((name, _) ∷ rest) =
      print_then (average_line results "sent_bps" "sent_bps:" name) (
        print_then (average_line results "received_bps" "received_bps:" name)
          (print_averages results rest))

  -- `IperfBenchmark.print_results`
  print_iperf : Results Num → Output (Results Num) V
  print_iperf results =
      print_and
        (
          ok tt,
          (text "Full Results: " ∷ [])
              ∷ (whole results ∷ [])
              ∷ (text "~~~~~~~~~~~~~~~~~~~~~~~~~" ∷ [])
              ∷ (text "Average Speeds: " ∷ [])
              ∷ [],
        )
        (print_averages results results)
