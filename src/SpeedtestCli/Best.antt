-- ===== src/SpeedtestCli/Best.antt =====
-- `Speedtest.get_best_server` of opensand-testbed/proxy-st/speedtest.py.
pub mod Fastest
pub mod Returned
mod Examples
use qpep.Prelude.{
  ℕ, zero, suc, ◌+◌, String, Bool, true, false, ◌&&◌, ◌||◌, Option, none, some, List, [], ◌∷◌, ◌++◌,
  if◌then◌else◌, ◌==◌,
}
use text.Mathlib.Text.{◌==◌ as str_eq}
use qpep.Dict.{Dict, lookup}
use qpep.SpeedtestCli.{
  Failure, best_server_failure, read_failure, key_error, Outcome, returned, raised, Libraries,
}
use qpep.SpeedtestCli.Servers.{Server}
use qpep.SpeedtestCli.Closest.{sorted_keys}

module _ (lib : Libraries) where
  open lib use {Float, same_float, too_late, latency_of}

  -- What a latency request brings: one of HTTP_ERRORS, or the time it took, the status and the
  -- first nine bytes, or an exception of `r.read(9)`, which is in no `try`.
  pub data Probe : Type 0 where
    no_answer : Probe
    answered : Float → ℕ → String → Probe
    unreadable : Probe

  -- What is appended to `cum`.
  unfoldable pub probe_time : Probe → Float
  probe_time no_answer = too_late
  probe_time unreadable = too_late
  probe_time (answered total status text) =
      if status == 200 && str_eq text "test=test" then total else too_late

  abbrev pub is_unreadable : Probe → Bool
  is_unreadable unreadable = true
  is_unreadable _ = false

  -- One of the three reads fails.
  abbrev pub reads_fail : (ℕ → Probe) → Bool
  reads_fail probe = is_unreadable (probe 0) || (is_unreadable (probe 1) || is_unreadable (probe 2))

  -- `avg`, over the three requests, of which none is unreadable
  unfoldable pub average : (ℕ → Probe) → Float
  average probe = latency_of (probe_time (probe 0)) (probe_time (probe 1)) (probe_time (probe 2))

  -- `results`
  abbrev pub Latencies : Type 0
  Latencies = List (Float × Server lib)

  -- `results[avg] = server`
  unfoldable pub put : Float → Server lib → Latencies → Latencies
  put avg s [] = (avg, s) ∷ []
  put avg s ((a, t) ∷ results) =
      let rest = put avg s results in if same_float a avg then (a, s) ∷ results else (a, t) ∷ rest

  -- `for server in servers`, the first of them at a position; `server['url']` comes first.
  unfoldable pub measure_all :
      (ℕ → ℕ → Probe) → ℕ → List (Server lib) → Latencies → Outcome Latencies
  measure_all probe i [] results = returned results
  measure_all probe i (s ∷ servers) results = elim (lookup "url" s.attributes) [
    | none ↦ raised key_error
    | some url ↦ elim (reads_fail (probe i)) [
      | true ↦ raised read_failure
      | false ↦ measure_all probe (i + 1) servers (put (average (probe i)) s results)
    ]
  ]

  -- `results[fastest]`
  unfoldable pub result_at : Float → Latencies → Option (Server lib)
  result_at fastest [] = none
  result_at fastest ((a, s) ∷ results) =
      let rest = result_at fastest results in if same_float a fastest then some s else rest

  -- The best server and its latency.
  abbrev pub with_latency : Float → Option (Server lib) → Outcome (Float × Server lib)
  with_latency fastest none = raised key_error
  with_latency fastest (some s) = returned (fastest, s)

  -- From `sorted(results.keys())[0]` on
  abbrev pub best_of : List Float → Latencies → Outcome (Float × Server lib)
  best_of [] results = raised best_server_failure
  best_of (fastest ∷ keys) results = with_latency fastest (result_at fastest results)

  abbrev pub best_measured : Outcome Latencies → Outcome (Float × Server lib)
  best_measured (raised e) = raised e
  best_measured (returned results) = best_of (sorted_keys lib results) results

  -- `get_best_server` on the servers that it is given or that are closest, by what the requests
  -- to the server at each position bring.
  unfoldable pub get_best_server :
      (ℕ → ℕ → Probe) → List (Server lib) → Outcome (Float × Server lib)
  get_best_server probe servers = best_measured (measure_all probe 0 servers [])
