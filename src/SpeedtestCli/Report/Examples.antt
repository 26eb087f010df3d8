-- ===== src/SpeedtestCli/Report/Examples.antt =====
-- One report, and what the benchmark reads from it.
use qpep.Prelude.{ℕ, ◌≡◌, refl, none, [], ◌∷◌}
use qpep.World.{ok}
use qpep.Benchmark.{num, end}
use qpep.Benchmark.Speedtest.{speed_report}
use qpep.Benchmark.Iperf.{index, get_field}
use qpep.SpeedtestCli.Report.{SpeedtestResults, to_dict}

abbrev measured : SpeedtestResults ℕ
measured = record {
  download = 700;
  upload = 800;
  ping = 600;
  server = end;
  client = end;
  share = none;
  timestamp = "2020-06-01T12:00:00Z";
  bytes_received = 9;
  bytes_sent = 10;
}

-- What `SpeedtestBenchmark` takes from the dict.
speed_report-to_dict :
    speed_report (to_dict measured)
    ≡ ok (
        ("sent_bytes", num 10)
        ∷ ("received_bytes", num 9)
        ∷ ("sent_bps", num 800)
        ∷ ("received_bps", num 700)
        ∷ [])
unfolding speed_report to_dict index get_field
speed_report-to_dict = refl
