-- ===== src/SpeedtestCli/Select.antt =====
-- How `shell` of opensand-testbed/proxy-st/speedtest.py comes to the server that it measures.
pub mod Passes
pub mod Allowed
mod Examples
use qpep.Prelude.{ℕ, String, List, [], ◌∷◌}
use qpep.World.{⊤}
use qpep.SpeedtestCli.{
  Failure, no_matched_servers, invalid_server_id_type, cli_error, Outcome, returned, raised, Answer,
  Libraries,
}
use qpep.SpeedtestCli.Servers.{Server, Found, get_servers}
use qpep.SpeedtestCli.Closest.{get_closest_servers}
use qpep.SpeedtestCli.Best.{Probe, get_best_server}

-- The `except` clauses after `get_servers`.
abbrev pub cli_failure : Failure → Failure
cli_failure no_matched_servers = cli_error
cli_failure invalid_server_id_type = cli_error
cli_failure e = e

module _ (lib : Libraries) where
  open lib use {Float}

  abbrev pub measure_best :
      (ℕ → ℕ → Probe lib) → Outcome (List (Server lib)) → Outcome (Float × Server lib)
  measure_best probe (raised e) = raised e
  measure_best probe (returned servers) = get_best_server lib probe servers

  -- `speedtest.get_best_server()`, without servers given or chosen before: the five closest.
  pub best_of_closest :
      (String → Answer)
      → String
      → List ℕ
      → (ℕ → ℕ → Probe lib)
      → Found lib
      → Outcome (Float × Server lib)
  best_of_closest answer threads ignore_servers probe found =
      measure_best probe (get_closest_servers lib answer threads ignore_servers 5 [] found).0

  abbrev pub after_servers :
      (Found lib → Outcome (Float × Server lib))
      → Outcome ⊤ × Found lib
      → Outcome (Float × Server lib)
  after_servers best (raised e, found) = raised (cli_failure e)
  after_servers best (returned _, found) = best found

  -- `if not args.mini: …`
  pub select_server :
      (String → Answer)
      → String
      → List ℕ
      → List String
      → List String
      → (ℕ → ℕ → Probe lib)
      → Outcome (Float × Server lib)
  select_server answer threads ignore_servers servers exclude probe =
      after_servers (best_of_closest answer threads ignore_servers probe)
        (get_servers lib answer threads ignore_servers servers exclude)
