-- ===== src/Simulation/Ack.antt =====
-- `ack_bundling_iperf_scenario` of opensand-testbed/simulation_examples.py.
pub mod Held
pub mod Complete
mod Examples
use qpep.Prelude.{ℕ, zero, suc, ◌+◌, String, false, true, none, some, List, [], ◌∷◌, ◌++◌}
use qpep.Prelude.Text.{str_of_int}
use qpep.World.{Services, ⊤, M, pure, ◌>>=◌, ◌>>◌, int_env}
use qpep.Testbed.{set_plr_percentage}
use qpep.Scenario.{deploy_base, deploy_qpep_ack}
use qpep.Dict.{Dict, lookup, insert}
use qpep.Benchmark.{Numbers}
use qpep.Benchmark.Iperf.{FileSize, Results}
use qpep.Simulation.{
  Numpy, host_testbed, slice, for_each, ensure, append_to, or_key_error, IperfBenchmark, file_size,
  run_iperf,
}

-- `iperf_file_sizes`
abbrev pub three_sizes : List FileSize
three_sizes = file_size "1000000" "1.0" ∷ file_size "2000000" "2.0" ∷ file_size "5000000" "5.0" ∷ []

-- `range(from, from + n, 1)`
pub count_up : ℕ → ℕ → List ℕ
count_up zero from = []
count_up (suc n) from = from ∷ count_up n (from + 1)

-- By the ack level, and by the loss rate.
abbrev pub Decimation : Type 0 → Type 0
Decimation Num = Dict (Dict (List (Results Num)))

abbrev pub or_empty : {V : Type 0} → Dict (Dict V) → String → Dict V
or_empty d k = elim (lookup k d) [ none ↦ [] | some e ↦ e ]

-- `decimation_results[ack][plr].append(results)`, once there is a dict under `ack`
pub append_at : {Num : Type 0} → String → String → Results Num → Decimation Num → M (Decimation Num)
append_at ack plr results d = or_key_error (lookup ack d) >>= λ inner.
    or_key_error (append_to plr results inner) >>= λ inner'. pure (insert ack inner' d)

-- `if plr_string not in decimation_results[ack].keys(): …`
pub ensure_at : {Num : Type 0} → String → String → Decimation Num → M (Decimation Num)
ensure_at ack plr d =
    or_key_error (lookup ack d) >>= λ inner. pure (insert ack (ensure plr [] inner) d)

module _ (py : Numbers) (svc : Services) (np : Numpy) where
  open py use {Num}

  abbrev pub plr_levels : List np.Level
  plr_levels = np.zero_level ∷ np.pow_ten 7 ∷ np.pow_ten 4 ∷ np.pow_ten 2 ∷ []

  -- One round of the loop over the loss rates.
  pub measure_level : IperfBenchmark → String → np.Level → Decimation Num → M (Decimation Num)
  measure_level benchmark ack plr_level d = do
    let plr_string = np.format_float_positional plr_level
    ready ← ensure_at ack plr_string d
    set_plr_percentage svc plr_string false true
    results ← run_iperf py svc benchmark
    append_at ack plr_string results ready

  -- One round of the loop over the ack levels.
  pub measure_ack : ℕ → IperfBenchmark → ℕ → Decimation Num → M (Decimation Num)
  measure_ack fuel benchmark ack d = do
    deploy_base svc fuel host_testbed
    deploy_qpep_ack svc false (str_of_int ack)
    for_each plr_levels (measure_level benchmark (str_of_int ack)) (ensure (str_of_int ack) [] d)

  pub ack_bundling_iperf_scenario : ℕ → M (Decimation Num)
  ack_bundling_iperf_scenario fuel = do
    iterations ← int_env svc "IPERF_ITERATIONS"
    from ← int_env svc "ACK_BUNDLING_MIN"
    to ← int_env svc "ACK_BUNDLING_MAX"
    for_each (slice (count_up 30 1) from to)
        (measure_ack fuel
          (record { file_sizes = three_sizes; reset_on_run = true; iterations = iterations }))
        []
