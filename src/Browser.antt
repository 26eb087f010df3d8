-- ===== src/Browser.antt =====
-- opensand-testbed/browser_examples.py: a testbed with a browser, by command line. argparse has
-- split the command line into the texts of its options. Which texts `ipaddress.IPv4Network` takes
-- depends on the version of Python, and is a parameter.
pub mod Launch
mod Examples
use qpep.Prelude.{
  ℕ, zero, suc, String, Bool, true, false, Option, none, some, List, [], ◌∷◌, if◌then◌else◌,
}
use text.Mathlib.Text.{◌==◌ as str_eq}
use qpep.Prelude.Text.{str_of_int}
use qpep.World.{argument_error, Services, ⊤, M, pure, raise, ◌>>=◌, ◌>>◌}
use qpep.Testbed.{Testbed, Orbit, basic, leo, launch_web_browser, launch_wireshark}
use qpep.Scenario.{Class, plain, open_vpn, qpep_basic, pepsal, deploy_scenario}

-- The options as given; `none` for one that is not there.
pub record CommandLine : Type 0 where
  pub xhost : String
  pub display : Option String
  pub scenario : Option String
  pub orbit : Option String
  pub wireshark : Bool

-- `args`
pub record Args : Type 0 where
  pub xhost : String
  pub display : ℕ
  pub class : Class
  pub orbit : Orbit
  pub wireshark : Bool

pub validate_ip : (String → Bool) → String → Option String
validate_ip is_ipv4_network addr =
    if str_eq addr "linux" then some "" else if is_ipv4_network addr then some addr else none

-- The choices of `--scenario`, and the scenario that `scenario_dict` has for each.
pub scenario_of : String → Option Class
scenario_of name =
    if str_eq name "plain"
    then some plain
    else if str_eq name "qpep"
    then some (qpep_basic true)
    else if str_eq name "pepsal_distributed"
    then some (pepsal true true)
    else if str_eq name "pepsal_integrated"
    then some (pepsal true false)
    else if str_eq name "open_vpn"
    then some open_vpn
    else none

-- The choices of `--orbit`.
pub orbit_of : String → Option Orbit
orbit_of name =
    if str_eq name "GEO" then some basic else if str_eq name "LEO" then some leo else none

-- An option's default, or what its text stands for.
abbrev pub option : {A : Type 0} → A → (String → Option A) → Option String → Option A
option default parse none = some default
option default parse (some s) = parse s

-- argparse ends the program where an argument is not what it should be.
abbrev pub or_argument_error : {A : Type 0} → Option A → M A
or_argument_error none = raise argument_error
or_argument_error (some a) = pure a

abbrev pub testbed_of : Args → Testbed
testbed_of args = record {
  orbit = args.orbit;
  host_ip = args.xhost;
  display_number = str_of_int args.display;
  linux = false;
}

module _ (svc : Services) where
  abbrev pub wireshark_if : Bool → M ⊤
  wireshark_if true = launch_wireshark svc >>= λ _. pure tt
  wireshark_if false = pure tt

  -- What follows the command line.
  pub launch : ℕ → Args → M ⊤
  launch fuel args = do
    deploy_scenario svc fuel (record { class = args.class; testbed = testbed_of args }) false
    launch_web_browser svc
    wireshark_if args.wireshark

module _ (is_ipv4_network : String → Bool) (svc : Services) where
  -- `parser.parse_args()`
  pub parse_args : CommandLine → M Args
  parse_args c = do
    xhost ← or_argument_error (validate_ip is_ipv4_network c.xhost)
    display ← or_argument_error (option 0 svc.int_of c.display)
    class ← or_argument_error (option plain scenario_of c.scenario)
    orbit ← or_argument_error (option basic orbit_of c.orbit)
    pure (record {
      xhost = xhost;
      display = display;
      class = class;
      orbit = orbit;
      wireshark = c.wireshark;
    })

  -- `if __name__ == "__main__"`
  pub main : ℕ → CommandLine → M ⊤
  main fuel c = parse_args c >>= launch svc fuel
