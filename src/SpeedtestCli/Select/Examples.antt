-- ===== src/SpeedtestCli/Select/Examples.antt =====
-- The server with the id 13658, of two in the list.
use qpep.Prelude.{ℕ, ◌≡◌, refl, String, some, List, [], ◌∷◌}
use qpep.Dict.{lookup}
use qpep.SpeedtestCli.{Answer, response, chunk}
use qpep.SpeedtestCli.Servers.{
  read_chunks, servers_text, to_ints, is_skipped, add_under, add_element, add_elements, add_text,
  try_urls, get_servers,
}
use qpep.SpeedtestCli.Closest.{
  insert_sorted, sorted_keys, servers_at, add_closest, walk_keys, found_or_fetched,
  get_closest_servers,
}
use qpep.SpeedtestCli.Best.{
  Probe, answered, probe_time, average, put, measure_all, result_at, get_best_server,
}
use qpep.SpeedtestCli.Select.{best_of_closest, select_server}
use qpep.SpeedtestCli.Select.Allowed.{IsAllowed, select_server-IsAllowed}
use qpep.SpeedtestCli.Floats.{floats, near_server}

abbrev listed : String → Answer
listed url = response 200 (chunk (60 ∷ []) ∷ [])

abbrev answers : ℕ → ℕ → Probe floats
answers n i = answered 3 200 "test=test"

select_server-IsAllowed_example :
    (ids excluded : List ℕ) × (to_ints floats ("13658" ∷ []) ≡ some ids)
    × (to_ints floats [] ≡ some excluded)
    × IsAllowed floats ids excluded (5 ∷ []) near_server
unfolding lookup read_chunks servers_text to_ints is_skipped add_under add_element add_elements
    add_text try_urls get_servers insert_sorted sorted_keys servers_at add_closest walk_keys
    found_or_fetched get_closest_servers probe_time average put measure_all result_at
    get_best_server best_of_closest select_server
select_server-IsAllowed_example =
    select_server-IsAllowed floats listed "8" (5 ∷ []) ("13658" ∷ []) [] answers 9 near_server refl
      refl
