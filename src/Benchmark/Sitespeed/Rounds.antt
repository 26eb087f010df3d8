-- ===== src/Benchmark/Sitespeed/Rounds.antt =====
-- The deployments between the rounds of `SitespeedBenchmark.run`.
use qpep.Prelude.{ℕ, zero, suc, ◌≤◌, ◌≡◌, ap, none, arith}
use qpep.World.{Result, ok, Services, ⊤, History}
use qpep.Benchmark.{Numbers}
use qpep.Benchmark.Inversion.{>>=-eq-ok}
use qpep.Benchmark.Sitespeed.{Sitespeed, Loads, deploy_if, run_rounds, run}

module _ (py : Numbers) (svc : Services) where
  open py use {Num}

  deploy_if-none :
      (n : ℕ) (l l' : Loads Num) (h h' : History)
      → deploy_if py svc n none l h ≡ (ok tt, l', h')
      → n ≡ 0
  deploy_if-none zero l l' h h' e = omega arith
  deploy_if-none (suc n) l l' h h' e = cc (ap (λ (p : Result ⊤ × Loads Num × History). p.0) e)

  run_rounds-none :
      (b : Sitespeed) (n : ℕ) (l l' : Loads Num) (h h' : History)
      → b.scenario ≡ none
      → run_rounds py svc b n l h ≡ (ok tt, l', h')
      → n ≤ 1
  unfolding run_rounds
  run_rounds-none b zero l l' h h' absent e = omega arith
  run_rounds-none b (suc n) l l' h h' absent e =
      let (c, _, e₁) = >>=-eq-ok _ _ l h e in
      let (_, _, e₂) = >>=-eq-ok _ _ _ _ e₁ in
      let (_, p, _) = >>=-eq-ok (deploy_if py svc n b.scenario) _ _ _ e₂ in
      omega (arith, deploy_if-none n _ _ _ _ (rw absent at p))

  -- Without a scenario, which is the default, `run` returns only if it has one round at most.
  pub run-none :
      (b : Sitespeed) (l l' : Loads Num) (h h' : History)
      → b.scenario ≡ none
      → run py svc b l h ≡ (ok tt, l', h')
      → b.iterations ≤ 1
  unfolding run
  run-none b l l' h h' absent e = run_rounds-none b b.iterations l l' h h' absent e
