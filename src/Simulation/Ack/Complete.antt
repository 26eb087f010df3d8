-- ===== src/Simulation/Ack/Complete.antt =====
-- What `ack_bundling_iperf_scenario` holds and has deployed when it returns.
use qpep.Prelude.{
  ℕ, ◌+◌, ◌*◌, ◌≡◌, ap, String, true, false, List, [], ◌∷◌, length, if◌then◌else◌, arith,
}
use qpep.Prelude.Text.{str_of_int}
use text.Mathlib.Text.{◌==◌ as str_eq}
use qpep.World.{ok, History, Services, pure, ◌>>=◌}
use qpep.World.Inversion.{>>=-eq-ok}
use qpep.Testbed.{set_plr_percentage}
use qpep.Scenario.{deploy_base, deploy_qpep_ack}
use qpep.Dict.{lookup}
use qpep.Benchmark.{Numbers}
use qpep.Benchmark.Iperf.{Results}
use qpep.Simulation.{Numpy, host_testbed, for_each, IperfBenchmark, run_iperf}
use qpep.Simulation.Ack.{Decimation, append_at, ensure_at, plr_levels, measure_level, measure_ack}
use qpep.World.{int_env}
use qpep.World.Grows.{Grows, Grows-pure, Grows-bind}
use qpep.World.Tally.{tally, Counts, Counts-bind, Counts-Grows}
use qpep.Testbed.Inside.{is_inside, is_compose_up, inside-apart, set_plr_percentage-inside}
use qpep.Scenario.Inside.{deploy_base-once, deploy_qpep_ack-inside}
use qpep.Simulation.{slice}
use qpep.Simulation.Loops.{for_each-Counts, or_key_error-Grows, run_iperf-inside}
use qpep.Simulation.Ack.{count_up, ack_bundling_iperf_scenario}
use qpep.Simulation.Ack.Held.{held, hits, held-ensure_at, held-append_at, held-ensure, pure-ok}

module _ (py : Numbers) (svc : Services) (np : Numpy) where
  open py use {Num}

  held-measure_level :
      (b : IperfBenchmark) (a : String) (level : np.Level) (d d' : Decimation Num) (h h' : History)
      → measure_level py svc np b a level d h ≡ (ok d', h')
      → (ack p : String)
      → held d' ack p
        ≡ (if str_eq a ack
            then (if str_eq (np.format_float_positional level) p then 1 else 0)
            else 0)
          + held d ack p
  unfolding measure_level
  held-measure_level b a level d d' h h' e ack p =
      let plr = np.format_float_positional level in
      let (ready, q, e₁) = >>=-eq-ok (ensure_at a plr d) _ h e in
      let (_, _, e₂) = >>=-eq-ok (set_plr_percentage svc plr false true) _ _ e₁ in
      let (r, _, e₃) = >>=-eq-ok (run_iperf py svc b) _ _ e₂ in
      omega (
        arith,
        held-ensure_at a plr d ready h _ q ack p,
        held-append_at a plr r ready d' _ h' e₃ ack p,
      )

  held-levels :
      (b : IperfBenchmark) (a : String) (levels : List np.Level) (d d' : Decimation Num)
      (h h' : History)
      → for_each levels (measure_level py svc np b a) d h ≡ (ok d', h')
      → (ack p : String)
      → held d' ack p
        ≡ (if str_eq a ack then hits np.format_float_positional levels p else 0) + held d ack p
  unfolding for_each hits
  held-levels b a [] d d' h h' e ack p =
      ground (arith, ap (λ y. held y ack p) (pure-ok d d' h h' e))
  held-levels b a (level ∷ levels) d d' h h' e ack p =
      let (d₁, q, e₁) = >>=-eq-ok (measure_level py svc np b a level d) _ h e in
      ground (
        arith,
        held-measure_level b a level d d₁ h _ q ack p,
        held-levels b a levels d₁ d' _ h' e₁ ack p,
      )

  held-measure_ack :
      (fuel : ℕ) (b : IperfBenchmark) (n : ℕ) (d d' : Decimation Num) (h h' : History)
      → measure_ack py svc np fuel b n d h ≡ (ok d', h')
      → (ack p : String)
      → held d' ack p
        ≡ (if str_eq (str_of_int n) ack
            then hits np.format_float_positional (plr_levels py svc np) p
            else 0)
          + held d ack p
  unfolding measure_ack
  held-measure_ack fuel b n d d' h h' e ack p =
      let (_, _, e₁) = >>=-eq-ok (deploy_base svc fuel host_testbed) _ h e in
      let (_, _, e₂) = >>=-eq-ok (deploy_qpep_ack svc false (str_of_int n)) _ _ e₁ in
      omega (
        arith,
        held-ensure (str_of_int n) d ack p,
        held-levels b (str_of_int n) _ _ d' _ h' e₂ ack p,
      )

  held-acks :
      (fuel : ℕ) (b : IperfBenchmark) (acks : List ℕ) (d d' : Decimation Num) (h h' : History)
      → for_each acks (measure_ack py svc np fuel b) d h ≡ (ok d', h')
      → (ack p : String)
      → held d' ack p
        ≡ hits str_of_int acks ack * hits np.format_float_positional (plr_levels py svc np) p
          + held d ack p
  unfolding for_each hits
  held-acks fuel b [] d d' h h' e ack p =
      omega (arith, ap (λ y. held y ack p) (pure-ok d d' h h' e))
  held-acks fuel b (n ∷ acks) d d' h h' e ack p =
      let (d₁, q, e₁) = >>=-eq-ok (measure_ack py svc np fuel b n d) _ h e in
      ground (
        arith,
        held-measure_ack fuel b n d d₁ h _ q ack p,
        held-acks fuel b acks d₁ d' _ h' e₁ ack p,
      )

  append_at-inside :
      (a plr : String) (r : Results Num) (d : Decimation Num)
      → Grows is_inside (append_at a plr r d)
  unfolding append_at
  append_at-inside a plr r d =
      Grows-bind _ _ (or_key_error-Grows _)
        λ inner. Grows-bind _ _ (or_key_error-Grows _) λ inner'. Grows-pure _

  ensure_at-inside : (a plr : String) (d : Decimation Num) → Grows is_inside (ensure_at a plr d)
  unfolding ensure_at
  ensure_at-inside a plr d = Grows-bind _ _ (or_key_error-Grows _) λ inner. Grows-pure _

  measure_level-inside :
      (b : IperfBenchmark) (a : String) (level : np.Level) (d : Decimation Num)
      → Grows is_inside (measure_level py svc np b a level d)
  unfolding measure_level
  measure_level-inside b a level d = Grows-bind _ _ (ensure_at-inside a _ d) λ ready.
      Grows-bind _ _ (set_plr_percentage-inside svc _ false true)
        λ _. Grows-bind _ _ (run_iperf-inside py svc b) λ r. append_at-inside a _ r ready

  levels-inside :
      (b : IperfBenchmark) (a : String) (levels : List np.Level) (d : Decimation Num)
      → Grows is_inside (for_each levels (measure_level py svc np b a) d)
  unfolding for_each
  levels-inside b a [] d = Grows-pure d
  levels-inside b a (level ∷ levels) d =
      Grows-bind _ _ (measure_level-inside b a level d) (levels-inside b a levels)

  measure_ack-once :
      (fuel : ℕ) (b : IperfBenchmark) (n : ℕ) (d : Decimation Num)
      → Counts is_compose_up 1 (measure_ack py svc np fuel b n d)
  unfolding measure_ack
  measure_ack-once fuel b n d =
      Counts-bind is_compose_up 1 0 _ _ (deploy_base-once svc fuel host_testbed) λ _.
        Counts-Grows is_compose_up is_inside _ inside-apart
          (Grows-bind _ _ (deploy_qpep_ack-inside svc false _) λ _. levels-inside b _ _ _)

  -- With numbers for the iterations and the two indices: if `ack_bundling_iperf_scenario` returns,
  -- it holds for each ack level that was asked for and each loss rate one set of results for each
  -- time that they were asked for, and nothing for any other; and it has restarted the containers
  -- once for each ack level.
  pub ack_bundling_iperf_scenario_complete :
      (fuel from to n : ℕ) (h h' : History) (d : Decimation Num)
      → int_env svc "IPERF_ITERATIONS" ≡ pure n
      → int_env svc "ACK_BUNDLING_MIN" ≡ pure from
      → int_env svc "ACK_BUNDLING_MAX" ≡ pure to
      → ack_bundling_iperf_scenario py svc np fuel h ≡ (ok d, h')
      → ((ack plr : String)
          → held d ack plr
            ≡ hits str_of_int (slice (count_up 30 1) from to) ack
              * hits np.format_float_positional (plr_levels py svc np) plr)
        × (tally is_compose_up h' ≡ length (slice (count_up 30 1) from to) + tally is_compose_up h)
  unfolding ack_bundling_iperf_scenario ◌>>=◌ lookup
  ack_bundling_iperf_scenario_complete fuel from to n h h' d p q r e =
      let e' = rw (p, q, r) at e in
      (
        (λ ack plr. omega (arith, held-acks fuel _ _ [] d h h' e' ack plr)),
        omega (arith, for_each-Counts is_compose_up _ 1 _ (measure_ack-once fuel _) [] h h' d e'),
      )
