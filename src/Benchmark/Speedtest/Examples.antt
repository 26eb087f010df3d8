-- ===== src/Benchmark/Speedtest/Examples.antt =====
-- A run of the benchmark on a command that answers.
use qpep.Prelude.{ℕ, String, ◌≡◌, refl, none, some, [], ◌∷◌, false, ◌*◌}
use qpep.Prelude.Text.{str_of_int}
use qpep.World.{ok, err, value_error, container_get, exec_run, Services, ◌>>=◌}
use qpep.Benchmark.{Json, num, obj, field, end, Numbers}
use qpep.Benchmark.Iperf.{index, get_field}
use qpep.Testbed.{get_container}
use qpep.Benchmark.Speedtest.{run, run_speedtest, speed_report}

abbrev measured : Json ℕ
measured = obj (
    field "download" (num 700)
      (field "upload" (num 800) (field "bytes_sent" (num 10) (field "bytes_received" (num 9) end))))

abbrev numbers : Numbers
numbers = record {
  Num = ℕ;
  zero_num = 0;
  unicode_escape = some;
  loads = λ s. some measured;
  to_float = λ s. none;
  times_1000 = λ n. n * 1000;
}

abbrev services : Services
services = record { getenv = λ k. some k; int_of = λ s. some 1; reply = λ h e. ok "{…}" }

run_measured : run numbers services {Results = String} 1234 "earlier results" [] ≡ (
  ok (
      ("sent_bytes", num 10)
      ∷ ("received_bytes", num 9)
      ∷ ("sent_bps", num 800)
      ∷ ("received_bps", num 700)
      ∷ []),
  "earlier results",
  exec_run (some "WS_ST_CONTAINER_NAME") "python3 /tmp/speedtest.py --json --server 1234" false
      ∷ container_get (some "WS_ST_CONTAINER_NAME")
      ∷ [],
)
unfolding run run_speedtest get_container ◌>>=◌ speed_report str_of_int index get_field
run_measured = refl

-- Text that is no escape sequence ends the run.
run_undecodable :
    (run
      (record numbers { unicode_escape = λ s. none })
      services
      {Results = String}
      1234
      "earlier results"
      []).0
    ≡ err value_error
unfolding run run_speedtest get_container ◌>>=◌
run_undecodable = refl
