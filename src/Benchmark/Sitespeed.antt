-- ===== src/Benchmark/Sitespeed.antt =====
-- `SitespeedBenchmark` of opensand-testbed/benchmarks.py. The scenario that it deploys again
-- between its rounds is given by the action of its `deploy_scenario`.
pub mod Matches
pub mod Keeps
pub mod Rounds
mod Examples
use qpep.Prelude.{
  ℕ, zero, suc, ◌+◌, String, Bool, true, false, ◌&&◌, ◌||◌, Option, none, some, List, [], ◌∷◌, ◌++◌,
  drop, leb, ltb, if◌then◌else◌, ◌==◌,
}
use qpep.Prelude.Text.{codes, join, str, str_of_int, is_prefix, count}
use qpep.World
use qpep.World.{Services, ⊤, M, History, attribute_error, value_error}
use qpep.Testbed.{get_container, exec}
use qpep.Dict.{Dict, lookup, insert}
use qpep.Benchmark.{Numbers, Method, ◌>>=◌, ◌>>◌, pure, raise, lift}

abbrev pub alexa_top_20 : List String
alexa_top_20 =
    "https://www.google.com" ∷ "https://www.youtube.com" ∷ "https://www.tmall.com"
    ∷ "https://www.facebook.com" ∷ "https://www.baidu.com" ∷ "https://www.qq.com"
    ∷ "https://www.sohu.com" ∷ "https://www.taobao.com" ∷ "https://www.360.cn"
    ∷ "https://www.jd.com" ∷ "https://www.yahoo.com" ∷ "https://www.amazon.com"
    ∷ "https://www.wikipedia.org" ∷ "https://www.weibo.com" ∷ "https://www.sina.com.cn"
    ∷ "https://www.reddit.com" ∷ "https://www.live.com" ∷ "https://www.netflix.com"
    ∷ "https://www.okezone.com" ∷ "https://www.vk.com" ∷ []

-- A match of `Load: ([0-9.]+)([ms])`: its two groups.
abbrev pub LoadTime : Type 0
LoadTime = List ℕ × ℕ

-- `[0-9.]`
abbrev pub in_number : ℕ → Bool
in_number c = c == 46 || (leb 48 c && leb c 57)

-- `[ms]`
abbrev pub is_unit : ℕ → Bool
is_unit c = c == 109 || c == 115

-- What the longest run of `[0-9.]` leaves, and the run. A shorter one is followed by one of its
-- own characters, which is no unit.
pub number_run : List ℕ → List ℕ × List ℕ
number_run [] = ([], [])
number_run (c ∷ s) =
    let (run, rest) = number_run s in if in_number c then (c ∷ run, rest) else ([], c ∷ s)

abbrev pub load_time : List ℕ × List ℕ → Option LoadTime
load_time (d ∷ run, u ∷ rest) = if is_unit u then some (d ∷ run, u) else none
load_time _ = none

-- A match that begins here.
pub load_here : List ℕ → Option LoadTime
load_here s = if is_prefix (codes "Load: ") s then load_time (number_run (drop 6 s)) else none

abbrev pub found : Option LoadTime → List LoadTime
found none = []
found (some m) = m ∷ []

-- `re.findall('Load: ([0-9.]+)([ms])', s)`: no match begins inside another, whose only L is its
-- first character.
pub find_loads : List ℕ → List LoadTime
find_loads [] = []
find_loads (c ∷ s) = found (load_here (c ∷ s)) ++ find_loads s

-- `matches[:-1]`
abbrev pub but_last : List LoadTime → List LoadTime
but_last [] = []
but_last (m ∷ []) = []
but_last (m ∷ n ∷ ms) = m ∷ but_last (n ∷ ms)

-- `if self.sub_iterations > 1`
abbrev pub without_average : ℕ → List LoadTime → List LoadTime
without_average sub_iterations ms = if ltb 1 sub_iterations then but_last ms else ms

pub record Sitespeed : Type 0 where
  pub hosts : List String
  pub iterations : ℕ
  pub scenario : Option (M ⊤)
  pub sub_iterations : ℕ

-- `self.results` and `self.errors`
pub record Loads (Num : Type 0) : Type 0 where
  pub results : Dict (List Num)
  pub errors : ℕ

abbrev pub browsertime_command : ℕ → String → String
browsertime_command sub_iterations host = join (
    "/usr/bin/browsertime -n "
    ∷ str_of_int sub_iterations
    ∷ " --headless --xvfb --browser firefox --cacheClearRaw  --firefox.geckodriverPath "
    ∷ "/usr/bin/geckodriver --firefox.preference network.dns.disableIPv6:true --video=false "
    ∷ "--visualMetrics=false --visualElements=false "
    ∷ host
    ∷ " "
    ∷ [])

module _ {Num : Type 0} where
  -- `[host_val]` where there is no list under the name, and the list with `host_val` where there is
  abbrev pub values_with : Option (List Num) → Num → List Num
  values_with none v = v ∷ []
  values_with (some values) v = values ++ v ∷ []

  pub add_value : String → Num → Loads Num → Loads Num
  add_value host v l = record l {
    results = insert host (values_with (lookup host l.results) v) l.results;
  }

  abbrev pub add_errors : ℕ → Method (Loads Num) ⊤
  add_errors n l h = (World.ok tt, record l { errors = l.errors + n }, h)

module _ (py : Numbers) (svc : Services) where
  open py use {Num, to_float, times_1000}

  -- `host_val`: milliseconds are taken as they are, seconds are converted.
  abbrev pub host_val : LoadTime → Option Num
  host_val (number, unit) = elim (to_float number) [
    | none ↦ none
    | some v ↦ if unit == 109 then some v else some (times_1000 v)
  ]

  abbrev pub store_value : String → Option Num → Method (Loads Num) ⊤
  store_value host none l h = raise value_error l h
  store_value host (some v) l h = (World.ok tt, add_value host v l, h)

  -- `for match in matches`
  pub store_matches : String → List LoadTime → Method (Loads Num) ⊤
  store_matches host [] = pure tt
  store_matches host (m ∷ ms) = do store_value host (host_val m); store_matches host ms

  -- One round of the loop over the hosts.
  pub measure_host : ℕ → Option String → String → Method (Loads Num) ⊤
  measure_host sub_iterations terminal_workstation host = do
    host_result ← lift (exec svc terminal_workstation (browsertime_command sub_iterations host))
    store_matches host (without_average sub_iterations (find_loads (codes host_result)))
    add_errors (count "UrlLoadError" host_result)

  -- `for host in self.hosts`
  pub measure_hosts : ℕ → Option String → List String → Method (Loads Num) ⊤
  measure_hosts sub_iterations terminal_workstation [] = pure tt
  measure_hosts sub_iterations terminal_workstation (host ∷ hosts) = do
    measure_host sub_iterations terminal_workstation host
    measure_hosts sub_iterations terminal_workstation hosts

  -- The workstation, connected to the satellite network and warmed up.
  pub connect_workstation : M (Option String)
  connect_workstation =
      World.◌>>=◌ (get_container svc "WS_ST_CONTAINER_NAME") λ terminal_workstation.
        World.◌>>◌ (exec svc terminal_workstation "ip route del default") (
          World.◌>>◌
            (exec svc terminal_workstation (
              join
                ("ip route add default via " ∷ str (svc.getenv "ST_NETWORK_HEAD") ∷ ".0.4" ∷ [])))
            (World.◌>>◌ (exec svc terminal_workstation "wget http://1.1.1.1")
              (World.pure terminal_workstation)))

  -- `self.scenario.deploy_scenario()`
  abbrev pub deploy_again : Option (M ⊤) → Method (Loads Num) ⊤
  deploy_again none = raise attribute_error
  deploy_again (some deploy_scenario) = lift deploy_scenario

  -- `if i != self.iterations - 1`, by the rounds that are left
  abbrev pub deploy_if : ℕ → Option (M ⊤) → Method (Loads Num) ⊤
  deploy_if zero scenario = pure tt
  deploy_if (suc n) scenario = deploy_again scenario

  -- `for i in range(0, self.iterations)`
  pub run_rounds : Sitespeed → ℕ → Method (Loads Num) ⊤
  run_rounds b zero = pure tt
  run_rounds b (suc n) = do
    terminal_workstation ← lift connect_workstation
    measure_hosts b.sub_iterations terminal_workstation b.hosts
    deploy_if n b.scenario
    run_rounds b n

  -- `SitespeedBenchmark.run`
  pub run : Sitespeed → Method (Loads Num) ⊤
  run b = run_rounds b b.iterations
