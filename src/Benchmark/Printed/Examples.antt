-- ===== src/Benchmark/Printed/Examples.antt =====
-- What print_results shows of concrete results.
use qpep.Prelude.{ℕ, ◌/◌, ◌≡◌, refl, Option, none, some, List, [], ◌∷◌}
use qpep.World.{ok, err, value_error}
use qpep.Dict.{lookup}
use qpep.Benchmark.{Json, num}
use qpep.Benchmark.Iperf.{Results}
use qpep.Benchmark.Printed.{
  text, whole, number, print_results, print_sitespeed, print_scenario, print_iperf,
}

-- The first of the values.
abbrev first : List (Json ℕ) → Option ℕ
first (num n ∷ _) = some n
first _ = none

abbrev results : List (Json ℕ) → Results ℕ
results values =
    (
      "iperf_1mb",
      ("sent_bytes", values)
          ∷ ("sent_bps", values)
          ∷ ("received_bytes", values)
          ∷ ("received_bps", values)
          ∷ [],
    )
    ∷ []

-- An empty series has no mean: only the heading is printed.
print_iperf_empty : print_iperf first (λ n. n / 1000000) (results []) ≡ (
  err value_error,
  (text "Full Results: " ∷ [])
      ∷ (whole (results []) ∷ [])
      ∷ (text "~~~~~~~~~~~~~~~~~~~~~~~~~" ∷ [])
      ∷ (text "Average Speeds: " ∷ [])
      ∷ [],
)
unfolding print_iperf lookup
print_iperf_empty = refl

print_iperf_one : (print_iperf first (λ n. n / 1000000) (results (num 8000000 ∷ []))).0 ≡ ok tt
unfolding print_iperf lookup
print_iperf_one = refl

print_scenario_speedtest :
    print_scenario {R = List ℕ} {V = ℕ} "plain"
      (("SpeedTest", print_results []) ∷ ("SiteSpeed", print_sitespeed [] 3) ∷ [])
    ≡ (
      ok tt,
      (text "*************************" ∷ [])
          ∷ (text "Benchmark Results for " ∷ text "plain" ∷ [])
          ∷ (text "*************************" ∷ [])
          ∷ (text "****" ∷ text "SpeedTest" ∷ text "****" ∷ [])
          ∷ (whole [] ∷ [])
          ∷ (text "****" ∷ text "SiteSpeed" ∷ text "****" ∷ [])
          ∷ (whole [] ∷ [])
          ∷ (text "Failed load count: " ∷ number 3 ∷ [])
          ∷ [],
    )
unfolding print_scenario print_results print_sitespeed
print_scenario_speedtest = refl
