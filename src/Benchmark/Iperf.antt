-- ===== src/Benchmark/Iperf.antt =====
-- `IperfBenchmark` of opensand-testbed/benchmarks.py. A file size is given by the two texts that
-- the code makes of it.
pub mod Report
pub mod Counted
pub mod Series
pub mod Inside
mod Examples
use qpep.Prelude.{
  ℕ, zero, suc, ◌+◌, ◌-◌, String, Bool, true, false, ◌&&◌, Option, none, some, List, [], ◌∷◌, ◌++◌,
  length, if◌then◌else◌, ◌==◌,
}
use qpep.Prelude.Text.{codes, join, str, occurs, is_prefix}
use text.Mathlib.Text.{◌==◌ as str_eq}
use qpep.World
use qpep.World.{Result, ok, err, key_error, value_error, Services, ⊤, M, sleep, History, perform}
use qpep.Testbed.{get_container, exec, exec_detached}
use qpep.Dict.{Dict, lookup, insert}
use qpep.Benchmark.{
  Json, null, bool, num, string, arr, obj, Fields, end, field, Numbers, Method, ◌>>=◌, ◌>>◌, pure,
  lift,
}

pub record FileSize : Type 0 where
  -- `str(transfer_bytes)`
  pub bytes : String
  -- `str(round(file_size/1000000, 3))`
  pub megabytes : String

abbrev pub result_name : FileSize → String
result_name file_size = join ("iperf_" ∷ file_size.megabytes ∷ "mb" ∷ [])

-- `.rstrip('\n')`
pub rstrip_newline : List ℕ → List ℕ
rstrip_newline [] = []
rstrip_newline (c ∷ s) =
    let rest = rstrip_newline s in
    elim rest [ [] ↦ (if c == 10 then [] else c ∷ []) | d ∷ r ↦ c ∷ d ∷ r ]

-- `.replace(old, new)`; `skip` counts down the rest of an occurrence
pub replace_from : ℕ → List ℕ → List ℕ → List ℕ → List ℕ
replace_from skip old new [] = []
replace_from (suc skip) old new (c ∷ s) = replace_from skip old new s
replace_from zero old new (c ∷ s) =
    let hit = is_prefix old (c ∷ s) in
    (if hit then new else c ∷ []) ++ replace_from (if hit then length old - 1 else 0) old new s

-- `output.decode('unicode_escape').rstrip('\n').replace('Linux\n', 'Linux')` after the decoding
pub json_string : List ℕ → List ℕ
json_string output = replace_from 0 (codes "Linux\n") (codes "Linux") (rstrip_newline output)

module _ {Num : Type 0} where
  unfoldable pub get_field : String → Fields Num → Option (Json Num)
  get_field k end = none
  get_field k (field j v fs) = if str_eq j k then some v else get_field k fs

  -- `value[k]`; `none` for KeyError, or TypeError on what is no dict
  unfoldable pub index : String → Json Num → Option (Json Num)
  unfolding get_field
  index k (obj fs) = get_field k fs
  index k _ = none

  pub index_path : List String → Json Num → Option (Json Num)
  index_path [] j = some j
  index_path (k ∷ ks) j = elim (index k j) [ none ↦ none | some v ↦ index_path ks v ]

  -- What `/1000000` accepts.
  pub is_number : Option (Json Num) → Bool
  is_number (some (num _)) = true
  is_number (some (bool _)) = true
  is_number _ = false

  -- The dict that `run_iperf_test` returns.
  abbrev pub report : Json Num → Json Num → Json Num → Json Num → Dict (Json Num)
  report sent_bytes sent_bps received_bytes received_bps =
      ("sent_bytes", sent_bytes)
      ∷ ("sent_bps", sent_bps)
      ∷ ("received_bytes", received_bytes)
      ∷ ("received_bps", received_bps)
      ∷ []

  -- The last `return`: its lookups are in no `try`.
  pub or_key_error :
      Option (Json Num) → (Json Num → Result (Dict (Json Num))) → Result (Dict (Json Num))
  or_key_error none k = err key_error
  or_key_error (some v) k = k v

  pub final_report : Json Num → Result (Dict (Json Num))
  final_report test_result =
      or_key_error (index_path ("end" ∷ "sum_sent" ∷ "bytes" ∷ []) test_result) λ sent_bytes.
        or_key_error (index_path ("end" ∷ "sum_sent" ∷ "bits_per_second" ∷ []) test_result)
          λ sent_bps.
            or_key_error (index_path ("end" ∷ "sum_received" ∷ "bytes" ∷ []) test_result)
              λ received_bytes.
                or_key_error
                  (index_path ("end" ∷ "sum_received" ∷ "bits_per_second" ∷ []) test_result)
                  λ received_bps. ok (report sent_bytes sent_bps received_bytes received_bps)

-- `self.results`
abbrev pub Results : Type 0 → Type 0
Results Num = Dict (Dict (List (Json Num)))

module _ {Num : Type 0} where
  -- `for key in test_results.keys(): self.results[result_name][key] = [test_results[key]]`
  abbrev pub first_values : Dict (Json Num) → Dict (List (Json Num))
  first_values [] = []
  first_values ((k, v) ∷ d) = (k, v ∷ []) ∷ first_values d

  -- `for key in test_results.keys(): self.results[result_name][key].append(test_results[key])`
  unfoldable pub append_values :
      Dict (Json Num) → Dict (List (Json Num)) → Result ⊤ × Dict (List (Json Num))
  append_values [] series = (ok tt, series)
  append_values ((k, v) ∷ d) series = elim (lookup k series) [
    | none ↦ (err key_error, series)
    | some values ↦ append_values d (insert k (values ++ v ∷ []) series)
  ]

  -- The two branches of `if result_name not in self.results.keys()`.
  unfoldable pub store_under :
      String → Dict (Json Num) → Option (Dict (List (Json Num))) → Method (Results Num) ⊤
  store_under name test_results none results h =
      (ok tt, insert name (first_values test_results) results, h)
  store_under name test_results (some series) results h =
      let (r, series') = append_values test_results series in (r, insert name series' results, h)

  unfoldable pub store : String → Dict (Json Num) → Method (Results Num) ⊤
  store name test_results results h = store_under name test_results (lookup name results) results h

module _ (py : Numbers) (svc : Services) where
  open py use {Num, zero_num, unicode_escape, loads}

  abbrev pub lost : String
  lost = "error - control socket has closed unexpectedly"

  unfoldable pub no_transfer : Dict (Json Num)
  no_transfer = report (num zero_num) (num zero_num) (num zero_num) (num zero_num)

  -- What follows `json.loads`: the test for a lost connection and the second `try` block.
  unfoldable pub checked_report : List ℕ → Option (Json Num) → Result (Dict (Json Num))
  checked_report json none = ok no_transfer
  checked_report json (some test_result) =
      if occurs (codes lost) json
      then ok no_transfer
      else if is_number (index_path ("end" ∷ "sum_sent" ∷ "bits_per_second" ∷ []) test_result)
          && is_number (index_path ("end" ∷ "sum_received" ∷ "bits_per_second" ∷ []) test_result)
      then final_report test_result
      else ok no_transfer

  -- The two `try` blocks and the test between them, on the text of the JSON report.
  unfoldable pub parse_report : List ℕ → Result (Dict (Json Num))
  parse_report json = checked_report json (loads json)

  -- `output.decode('unicode_escape')` is in no `try`.
  abbrev pub decoded_report : Option (List ℕ) → Result (Dict (Json Num))
  decoded_report none = err value_error
  decoded_report (some output) = parse_report (json_string output)

  -- `if reset_on_run: …`
  unfoldable pub reset_iperf : Bool → Option String → M ⊤
  reset_iperf true container =
      World.◌>>◌ (exec svc container "pkill -9 iperf3")
        (World.◌>>◌ (perform svc (sleep 1)) (World.pure tt))
  reset_iperf false container = World.pure tt

  pub iperf_command : FileSize → String
  iperf_command size = join (
      "/usr/bin/timeout --signal=SIGINT 600 /usr/bin/iperf3 --no-delay -c "
      ∷ str (svc.getenv "GW_NETWORK_HEAD")
      ∷ ".0.9 -R --json -n "
      ∷ size.bytes
      ∷ [])

  -- `run_iperf_test`, with its default timeout
  unfoldable pub run_iperf_test : FileSize → Bool → M (Dict (Json Num))
  run_iperf_test size reset_on_run =
      World.◌>>=◌ (get_container svc "WS_GW_CONTAINER_NAME") λ gateway_workstation.
        World.◌>>◌ (reset_iperf reset_on_run gateway_workstation) (
          World.◌>>◌ (exec_detached svc gateway_workstation "iperf3 -s") (
            World.◌>>=◌ (get_container svc "WS_ST_CONTAINER_NAME") λ terminal_workstation.
              World.◌>>◌ (reset_iperf reset_on_run terminal_workstation) (
                World.◌>>=◌ (exec svc terminal_workstation (iperf_command size))
                  λ output. λ h. (decoded_report (unicode_escape (codes output)), h))))

  -- `for file_size in self.file_sizes`
  unfoldable pub run_sizes : List FileSize → Bool → Method (Results Num) ⊤
  run_sizes [] reset_on_run = pure tt
  run_sizes (size ∷ sizes) reset_on_run = do
    test_results ← lift (run_iperf_test size reset_on_run)
    store (result_name size) test_results
    run_sizes sizes reset_on_run

  -- `for i in range(0, self.iterations)`
  unfoldable pub run_iterations : ℕ → List FileSize → Bool → Method (Results Num) ⊤
  run_iterations zero sizes reset_on_run = pure tt
  run_iterations (suc n) sizes reset_on_run = do
    run_sizes sizes reset_on_run
    run_iterations n sizes reset_on_run

  -- The first download, which warms up the proxies.
  unfoldable pub warm_up : M String
  warm_up =
      World.◌>>=◌ (get_container svc "WS_ST_CONTAINER_NAME")
        λ terminal_workstation. exec svc terminal_workstation "wget http://1.1.1.1"

  -- `IperfBenchmark.run`
  unfoldable pub run : List FileSize → Bool → ℕ → Method (Results Num) ⊤
  run sizes reset_on_run iterations = do lift warm_up; run_iterations iterations sizes reset_on_run
