-- ===== src/Benchmark/Speedtest.antt =====
-- `SpeedtestBenchmark` of opensand-testbed/benchmarks.py.
mod Examples
use qpep.Prelude.{ℕ, ◌≡◌, ◌∙◌, ap, String, false, Option, none, some, List, [], ◌∷◌}
use qpep.Prelude.Text.{codes, join, str_of_int}
use qpep.World
use qpep.World.{
  Result, ok, err, value_error, key_error, container_get, exec_run, Services, M, History,
}
use qpep.World.Inversion.{>>=-ok}
use qpep.Testbed.{get_container, exec}
use qpep.Dict.{Dict}
use qpep.Benchmark.{Json, Numbers, Method, lift}
use qpep.Benchmark.Iperf.{rstrip_newline, index, report}

module _ {Num : Type 0} where
  abbrev pub or_key_error {ℓ} : {A : Type ℓ} → Option (Json Num) → (Json Num → Result A) → Result A
  or_key_error none k = err key_error
  or_key_error (some v) k = k v

  -- The log line looks up two of the four keys before the dict is built.
  unfoldable pub speed_report : Json Num → Result (Dict (Json Num))
  speed_report json_data = or_key_error (index "upload" json_data) λ _.
      or_key_error (index "download" json_data) λ _.
        or_key_error (index "bytes_sent" json_data) λ sent_bytes.
          or_key_error (index "bytes_received" json_data) λ received_bytes.
            or_key_error (index "upload" json_data) λ sent_bps.
              or_key_error (index "download" json_data) λ received_bps. ok (
                ("sent_bytes", sent_bytes)
                ∷ ("received_bytes", received_bytes)
                ∷ ("sent_bps", sent_bps)
                ∷ ("received_bps", received_bps)
                ∷ [])

module _ (py : Numbers) (svc : Services) where
  open py use {Num, unicode_escape, loads}

  abbrev pub loaded : Option (Json Num) → Result (Dict (Json Num))
  loaded none = err value_error
  loaded (some json_data) = speed_report json_data

  abbrev pub decoded : Option (List ℕ) → Result (Dict (Json Num))
  decoded none = err value_error
  decoded (some output) = loaded (loads (rstrip_newline output))

  pub run_speedtest : ℕ → M (Dict (Json Num))
  run_speedtest server_id =
      World.◌>>=◌ (get_container svc "WS_ST_CONTAINER_NAME") λ terminal_workstation.
        World.◌>>=◌
          (exec svc terminal_workstation
            (join ("python3 /tmp/speedtest.py --json --server " ∷ str_of_int server_id ∷ [])))
          λ output h. (decoded (unicode_escape (codes output)), h)

  -- `SpeedtestBenchmark.run`: it returns its report, and does not write `self.results`.
  pub run : {Results : Type 0} → ℕ → Method Results (Dict (Json Num))
  run server_id = lift (run_speedtest server_id)
