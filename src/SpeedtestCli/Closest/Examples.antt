-- ===== src/SpeedtestCli/Closest/Examples.antt =====
-- The closest of two servers.
use qpep.Prelude.{◌≡◌, refl, take, [], ◌∷◌, arith}
use qpep.SpeedtestCli.{returned, refused}
use qpep.SpeedtestCli.Closest.{sorted_keys, get_closest_servers}
use qpep.SpeedtestCli.Closest.Limit.{in_order, IsAscending, get_closest_servers-take}
use qpep.SpeedtestCli.Servers.{Found}
use qpep.SpeedtestCli.Floats.{floats, near_server, far_server}

abbrev two_places : Found floats
two_places = (20, far_server ∷ []) ∷ (10, near_server ∷ []) ∷ []

get_closest_servers-take_example :
    IsAscending floats (sorted_keys floats two_places)
    × (get_closest_servers floats (λ url. refused) "8" [] 1 [] two_places ≡ (
      returned (take 1 (in_order floats (sorted_keys floats two_places) two_places)),
      two_places,
    ))
get_closest_servers-take_example =
    get_closest_servers-take floats (λ d e p. ground arith) (λ d e f p q. ground arith)
      (λ url. refused) "8" [] 0 two_places refl
