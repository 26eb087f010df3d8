-- ===== src/Simulation/Loss/Restarts.antt =====
-- How often `plr_test_scenario` restarts the containers.
use qpep.Prelude.{ℕ, ◌+◌, ◌*◌, ◌≡◌, String, true, false, List, [], ◌∷◌, length, arith}
use qpep.World.{ok, History, Services, pure, ◌>>=◌, int_env}
use qpep.World.Grows.{Grows, Grows-pure, Grows-bind, Grows-int_env}
use qpep.World.Tally.{tally, Counts, Counts-bind, Counts-Grows}
use qpep.Testbed.Inside.{is_inside, is_compose_up, inside-apart, set_plr_percentage-inside}
use qpep.Scenario.Inside.{deploy_scenario-once}
use qpep.Benchmark.{Json, Numbers}
use qpep.Benchmark.Iperf.{Results}
use qpep.Simulation.{Numpy, Scenario, host_testbed, deployment, slice, append_to}
use qpep.Simulation.Loops.{
  for_range-Counts, for_range-Grows, for_each-Counts, or_key_error-Grows, run_iperf-inside,
}
use qpep.Simulation.Loss.{
  LossResults, loss_benchmark, equals_zero, deploy_at, restart_if_broken, transfer_round,
  meta_round, loss_round, run_losses,
}

module _ (svc : Services) where
  deploy_at-once :
      (fuel : ℕ) (s : Scenario) (p : String) → Counts is_compose_up 1 (deploy_at svc fuel s p)
  unfolding deploy_at
  deploy_at-once fuel s p =
      Counts-bind is_compose_up 1 0 _ _ (deploy_scenario-once svc fuel (deployment host_testbed s))
        λ _.
          Counts-Grows is_compose_up is_inside _ inside-apart
            (set_plr_percentage-inside svc p false true)

module _ (svc : Services) {Num : Type 0} where
  -- Whatever was measured, the test of the list against 0 finds nothing broken.
  restart_if_broken-inside :
      (fuel : ℕ) (s : Scenario) (p : String) (results : Results Num)
      → Grows is_inside (restart_if_broken svc fuel s p results)
  unfolding restart_if_broken equals_zero
  restart_if_broken-inside fuel s p [] = Grows-pure tt
  restart_if_broken-inside fuel s p ((key, series) ∷ results) =
      Grows-bind _ _ (or_key_error-Grows _)
        λ sent_bps. next sent_bps (restart_if_broken-inside fuel s p results)
    where
      next :
          (values : List (Json Num))
          → Grows is_inside (restart_if_broken svc fuel s p results)
          → Grows is_inside (elim (equals_zero values) [
            | true ↦ deploy_at svc fuel s p
            | false ↦ restart_if_broken svc fuel s p results
          ])
      next [] g = g
      next (v ∷ values) g = g

module _ (py : Numbers) (svc : Services) (np : Numpy) where
  open py use {Num}

  transfer_round-inside :
      (fuel : ℕ) (s : Scenario) (p : String) (d : LossResults Num)
      → Grows is_inside (transfer_round py svc np fuel s p d)
  unfolding transfer_round
  transfer_round-inside fuel s p d =
      Grows-bind _ _ (run_iperf-inside py svc loss_benchmark) λ results.
        Grows-bind _ _ (or_key_error-Grows (append_to p results d)) λ appended.
          Grows-bind _ _ (restart_if_broken-inside svc fuel s p results) λ _. Grows-pure appended

  meta_round-once :
      (fuel : ℕ) (s : Scenario) (p : String) (d : LossResults Num)
      → Counts is_compose_up 1 (meta_round py svc np fuel s p d)
  unfolding meta_round
  meta_round-once fuel s p d = Counts-bind is_compose_up 1 0 _ _ (deploy_at-once svc fuel s p) λ _.
      Counts-Grows is_compose_up is_inside _ inside-apart (
        Grows-bind _ _ (Grows-int_env svc _)
          λ n. for_range-Grows n _ (transfer_round-inside fuel s p) d)

  loss_round-Counts :
      (fuel n : ℕ) (s : Scenario) (level : np.Level) (d : LossResults Num)
      → int_env svc "PLR_META_ITERATIONS" ≡ pure n
      → Counts is_compose_up n (loss_round py svc np fuel s level d)
  unfolding loss_round ◌>>=◌
  loss_round-Counts fuel n s level d p h h' a e =
      let e' = rw p at e in
      omega (arith, for_range-Counts is_compose_up n 1 _ (meta_round-once fuel s _) _ h h' a e')

  -- With numbers for the two indices and the repetitions: if `run_losses` returns, it has restarted
  -- the containers once for each repetition at each loss rate, whatever was measured.
  pub run_losses-restarts :
      (fuel from to n : ℕ) (s : Scenario) (h h' : History) (d : LossResults Num)
      → int_env svc "PLR_MIN_INDEX" ≡ pure from
      → int_env svc "PLR_MAX_INDEX" ≡ pure to
      → int_env svc "PLR_META_ITERATIONS" ≡ pure n
      → run_losses py svc np fuel s h ≡ (ok d, h')
      → tally is_compose_up h'
        ≡ length (slice np.geomspace_levels from to) * n + tally is_compose_up h
  unfolding run_losses ◌>>=◌
  run_losses-restarts fuel from to n s h h' d p q r e =
      let e' = rw (p, q) at e in
      for_each-Counts is_compose_up _ n _ (λ level d. loss_round-Counts fuel n s level d r) [] h h'
        d e'
