-- ===== src/Simulation.antt =====
-- opensand-testbed/simulation_examples.py: what its five functions share. Each runs benchmarks on
-- scenarios and prints what they kept; the model returns it. A deep copy of a benchmark that has
-- not run is that benchmark with no results. Numbers in the environment are taken not to be
-- negative. numpy, which makes the loss rates and prints them, is a parameter.
pub mod Loops
pub mod Ack
pub mod Transfers
pub mod Loss
pub mod PageLoads
pub mod Lively
use qpep.Prelude.{
  ℕ, zero, suc, ◌+◌, ◌*◌, ◌/◌, ◌%◌, String, Bool, true, false, Option, none, some, List, [], ◌∷◌,
  ◌++◌, take, drop, if◌then◌else◌, ◌==◌,
}
use text.Mathlib.Text.{◌==◌ as str_eq}
use qpep.Prelude.Text.{join, str_of_int}
use qpep.World.{
  Result, ok, err, spinning, key_error, Services, ⊤, M, History, pure, raise, ◌>>=◌, ◌>>◌,
}
use qpep.Testbed.{Testbed, basic}
use qpep.Scenario.{Class, plain, open_vpn, qpep_basic, pepsal, Deployment, deploy_scenario}
use qpep.Dict.{Dict, lookup, insert}
use qpep.Benchmark.{Numbers, Method}
use qpep.Benchmark.Iperf
use qpep.Benchmark.Iperf.{FileSize, Results}
use qpep.Benchmark.Sitespeed
use qpep.Benchmark.Sitespeed.{Sitespeed, Loads}

pub record Numpy : Type 1 where
  pub Level : Type 0
  -- 0, and `1*pow(10, -n)`
  pub zero_level : Level
  pub pow_ten : ℕ → Level
  -- `list(numpy.unique(list(numpy.geomspace(…, num=20)) + list(numpy.geomspace(…, num=10))))`
  pub geomspace_levels : List Level
  -- `numpy.format_float_positional(level, precision=7, trim='-')`
  pub format_float_positional : Level → String

-- `BasicTestbed(host_ip=HOST_IP)`
abbrev pub host_testbed : Testbed
host_testbed = record {
  orbit = basic;
  host_ip = "192.168.0.15";
  display_number = "0";
  linux = false;
}

pub record Scenario : Type 0 where
  pub name : String
  pub class : Class

abbrev pub plain_scenario : Scenario
plain_scenario = record { name = "Plain"; class = plain }

abbrev pub vpn_scenario : Scenario
vpn_scenario = record { name = "OpenVPN"; class = open_vpn }

abbrev pub pepsal_scenario : Scenario
pepsal_scenario = record { name = "PEPSal"; class = pepsal true false }

abbrev pub distributed_pepsal_scenario : Scenario
distributed_pepsal_scenario = record { name = "Distributed PEPsal"; class = pepsal true true }

abbrev pub qpep_scenario : Scenario
qpep_scenario = record { name = "QPEP"; class = qpep_basic true }

abbrev pub deployment : Testbed → Scenario → Deployment
deployment t s = record { class = s.class; testbed = t }

abbrev pub equals_option : String → Option String → Bool
equals_option name none = false
equals_option name (some s) = str_eq name s

-- `l[from:to]`
abbrev pub slice : {A : Type 0} → List A → ℕ → ℕ → List A
slice l from to = drop from (take to l)

-- `for x in l`, with what the body changes
pub for_each : {A S : Type 0} → List A → (A → S → M S) → S → M S
for_each [] body s = pure s
for_each (x ∷ l) body s = body x s >>= λ s'. for_each l body s'

-- `for j in range(0, n)`, whose body does not use `j`
pub for_range : {S : Type 0} → ℕ → (S → M S) → S → M S
for_range zero body s = pure s
for_range (suc n) body s = body s >>= λ s'. for_range n body s'

-- `if k not in d.keys(): d[k] = v`
pub ensure : {V : Type 0} → String → V → Dict V → Dict V
ensure k v d = elim (lookup k d) [ none ↦ insert k v d | some _ ↦ d ]

-- `d[k].append(x)`
pub append_to : {A : Type 0} → String → A → Dict (List A) → Option (Dict (List A))
append_to k x d = elim (lookup k d) [ none ↦ none | some l ↦ some (insert k (l ++ x ∷ []) d) ]

abbrev pub or_key_error : {A : Type 0} → Option A → M A
or_key_error none = raise key_error
or_key_error (some a) = pure a

-- What an object holds after a method that returned.
abbrev pub kept : {S : Type 0} → Result ⊤ × S × History → Result S × History
kept (ok _, s, h) = (ok s, h)
kept (err e, s, h) = (err e, h)
kept (spinning, s, h) = (spinning, h)

pub record IperfBenchmark : Type 0 where
  pub file_sizes : List FileSize
  pub reset_on_run : Bool
  pub iterations : ℕ

abbrev pub file_size : String → String → FileSize
file_size bytes megabytes = record { bytes = bytes; megabytes = megabytes }

-- What an `if` adds to the results of a loop.
abbrev pub append_if : {A : Type 0} → Bool → M A → List A → M (List A)
append_if true m l = m >>= λ a. pure (l ++ a ∷ [])
append_if false m l = pure l

module _ (svc : Services) where
  -- `scenario.name == os.getenv("SCENARIO_NAME")`
  abbrev pub is_chosen : Scenario → Bool
  is_chosen s = equals_option s.name (svc.getenv "SCENARIO_NAME")

  -- An `if` with that test, in a loop over the scenarios.
  abbrev pub if_chosen : {A : Type 0} → Scenario → M A → List A → M (List A)
  if_chosen s m l = append_if (is_chosen s) m l

module _ (py : Numbers) (svc : Services) where
  open py use {Num}

  -- `run` of a benchmark without results, and its results
  pub run_iperf : IperfBenchmark → M (Results Num)
  run_iperf b h = kept (Iperf.run py svc b.file_sizes b.reset_on_run b.iterations [] h)

  pub run_sitespeed : Sitespeed → M (Loads Num)
  run_sitespeed b h = kept (Sitespeed.run py svc b (record { results = []; errors = 0 }) h)
