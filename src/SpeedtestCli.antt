-- ===== src/SpeedtestCli.antt =====
-- opensand-testbed/proxy-st/speedtest.py, the command that `SpeedtestBenchmark` runs: how it comes
-- to the server that it measures. The web is a parameter, and so are XML, floats and their order.
pub mod Servers
pub mod Closest
pub mod Best
pub mod Select
pub mod Report
pub mod Floats
use qpep.Prelude.{ℕ, String, Bool, Option, none, some, List, [], ◌∷◌, ◌++◌}
use qpep.Dict.{Dict}

-- The exceptions that leave the methods below.
pub data Failure : Type 0 where
  invalid_server_id_type servers_error no_matched_servers : Failure
  best_server_failure type_error value_error key_error read_failure cli_error : Failure

pub data Outcome (A : Type 0) : Type 0 where
  returned : A → Outcome A
  raised : Failure → Outcome A

-- One `read(1024)` of a response: its bytes, or an exception.
pub data Read : Type 0 where
  chunk : List ℕ → Read
  broken : Read

-- What a request brings: an error of `catch_request`, or a status and the reads of its stream.
pub data Answer : Type 0 where
  refused : Answer
  response : ℕ → List Read → Answer

pub record Libraries : Type 1 where
  -- with `==`, as on dict keys, and `<=`
  pub Float : Type 0
  pub same_float : Float → Float → Bool
  pub float_leb : Float → Float → Bool
  -- `int` on a text; `none` for ValueError
  pub int_of : String → Option ℕ
  -- the attributes of the `server` elements of an XML text; `none` for ParseError
  pub server_elements : List ℕ → Option (List (Dict String))
  -- `distance(self.lat_lon, (float(lat), float(lon)))`; `none` for any exception
  pub distance_of : Option String → Option String → Option Float
  -- `3600`, and `round((sum(cum) / 6) * 1000.0, 3)` of a list of three
  pub too_late : Float
  pub latency_of : Float → Float → Float → Float
