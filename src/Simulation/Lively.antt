-- ===== src/Simulation/Lively.antt =====
-- Services that answer every call, for runs of the simulation examples.
use qpep.Prelude.{ℕ, ◌*◌, ◌||◌, none, some, [], ◌∷◌, if◌then◌else◌}
use qpep.Prelude.Text.{str_of_int}
use text.Mathlib.Text.{◌==◌ as str_eq}
use qpep.World.{ok, Services}
use qpep.Benchmark.{Numbers}
use qpep.Simulation.{Numpy}

-- Every index from 0 to 1, and one of all else.
abbrev pub lively : Services
lively = record {
  getenv = λ k. some k;
  int_of = λ s.
      if str_eq s "PLR_MIN_INDEX" || str_eq s "ACK_BUNDLING_MIN" || str_eq s "IPERF_MIN_SIZE_INDEX"
      then some 0
      else some 1;
  reply = λ h e. ok "SAT GW0 ST1 RUNNING RUNNING RUNNING RUNNING";
}

abbrev pub numbers : Numbers
numbers = record {
  Num = ℕ;
  zero_num = 0;
  unicode_escape = some;
  loads = λ s. none;
  to_float = λ s. none;
  times_1000 = λ n. n * 1000;
}

abbrev pub levels : Numpy
levels = record {
  Level = ℕ;
  zero_level = 0;
  pow_ten = λ n. n;
  geomspace_levels = 5 ∷ 6 ∷ [];
  format_float_positional = str_of_int;
}
