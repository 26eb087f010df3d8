-- ===== src/SpeedtestCli/Floats.antt =====
-- Natural numbers for the floats, and two servers at one distance, for runs on concrete inputs.
use qpep.Prelude.{ℕ, ◌+◌, String, none, some, [], ◌∷◌, if◌then◌else◌, ◌==◌, leb}
use text.Mathlib.Text.{◌==◌ as str_eq}
use qpep.Dict.{Dict}
use qpep.SpeedtestCli.{Libraries}
use qpep.SpeedtestCli.Servers.{Server}

abbrev pub near : Dict String
near = ("id", "13658") ∷ ("url", "http://near/upload.php") ∷ []

abbrev pub far : Dict String
far = ("id", "7") ∷ ("url", "http://far/upload.php") ∷ []

abbrev pub floats : Libraries
floats = record {
  Float = ℕ;
  same_float = ◌==◌;
  float_leb = leb;
  int_of = λ s. if str_eq s "13658" then some 13658 else if str_eq s "7" then some 7 else none;
  server_elements = λ text. some (near ∷ far ∷ []);
  distance_of = λ lat lon. some 10;
  too_late = 3600;
  latency_of = λ a b c. a + b + c;
}

abbrev pub near_server : Server floats
near_server = record { attributes = near; d = 10 }

abbrev pub far_server : Server floats
far_server = record { attributes = far; d = 10 }
