-- ===== src/SpeedtestCli/Best/Examples.antt =====
-- The best of two servers, of which the first does not answer.
use qpep.Prelude.{ℕ, zero, suc}
use qpep.SpeedtestCli.Best.{Probe, no_answer, answered}
use qpep.SpeedtestCli.Floats.{floats}

abbrev second_answers : ℕ → ℕ → Probe floats
second_answers zero i = no_answer
second_answers (suc n) i = answered 3 200 "test=test"
