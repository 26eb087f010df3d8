-- ===== src/SpeedtestCli/Servers/Examples.antt =====
-- A server asked for by its id, from the second mirror.
use qpep.Prelude.{ℕ, ◌≡◌, refl, String, true, ◌||◌, some, List, [], ◌∷◌, if◌then◌else◌}
use text.Mathlib.Text.{◌==◌ as str_eq}
use mathlib.Core.List.{Perm}
use qpep.Dict.{lookup}
use qpep.SpeedtestCli.{Answer, refused, response, chunk}
use qpep.SpeedtestCli.Servers.{
  Server, is_nonempty, read_chunks, servers_text, to_ints, is_skipped, add_under, add_element,
  add_elements, add_text, try_urls, get_servers,
}
use qpep.SpeedtestCli.Servers.Accepted.{all_servers}
use qpep.SpeedtestCli.Servers.Fetched.{IsFirstAccepted, get_servers_lem}
use qpep.SpeedtestCli.Floats.{floats, near_server}

abbrev second_mirror : String → Answer
second_mirror url =
    if str_eq url "://www.speedtest.net/speedtest-servers-static.php?threads=8"
    then refused
    else response 200 (chunk (60 ∷ []) ∷ [])

get_servers_lem_example :
    (ids excluded : List ℕ) × (l : List (Server floats)) × (to_ints floats ("13658" ∷ [])
      ≡ some ids)
    × (to_ints floats [] ≡ some excluded)
    × Perm (all_servers floats ((10, near_server ∷ []) ∷ [])) l
    × IsFirstAccepted floats second_mirror "8" ids excluded (5 ∷ []) l
    × ((is_nonempty {A = String} ("13658" ∷ []) || is_nonempty {A = String} []) ≡ true
        → true ≡ true)
unfolding lookup read_chunks servers_text to_ints is_skipped add_under add_element add_elements
    add_text try_urls get_servers
get_servers_lem_example =
    get_servers_lem floats second_mirror "8" (5 ∷ []) ("13658" ∷ []) []
      ((10, near_server ∷ []) ∷ []) refl
