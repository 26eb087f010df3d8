-- ===== src/SpeedtestCli/Closest.antt =====
-- `Speedtest.get_closest_servers` of opensand-testbed/proxy-st/speedtest.py.
pub mod Limit
mod Examples
use qpep.Prelude.{
  ℕ, zero, suc, ◌+◌, ◌-◌, ◌<◌, ◌≡◌, ◌∙◌, refl, sym, ap, String, Bool, true, false, Option, none,
  some, List, [], ◌∷◌, ◌++◌, append_assoc, append-nil, length, length-append, take, if◌then◌else◌,
  ◌==◌, Bool-cases, inl, inr, arith,
}
use qpep.World.{⊤}
use qpep.SpeedtestCli.{Outcome, returned, raised, Answer, Libraries}
use qpep.SpeedtestCli.Servers.{Server, Found, get_servers}

module _ (lib : Libraries) where
  open lib use {Float, same_float, float_leb}

  -- `sorted(self.servers.keys())`, and of another dict with such keys
  unfoldable pub insert_sorted : Float → List Float → List Float
  insert_sorted d [] = d ∷ []
  insert_sorted d (e ∷ ds) =
      let rest = insert_sorted d ds in if float_leb d e then d ∷ e ∷ ds else e ∷ rest

  unfoldable pub sorted_keys : {V : Type 0} → List (Float × V) → List Float
  sorted_keys [] = []
  sorted_keys ((d, _) ∷ found) = insert_sorted d (sorted_keys found)

  -- `self.servers[d]`
  unfoldable pub servers_at : Float → Found lib → List (Server lib)
  servers_at d [] = []
  servers_at d ((e, ss) ∷ found) = if same_float e d then ss else servers_at d found

  -- `for s in self.servers[d]`: whether it came to its `break`, and `self.closest`.
  unfoldable pub add_closest : ℕ → List (Server lib) → List (Server lib) → Bool × List (Server lib)
  add_closest limit [] closest = (false, closest)
  add_closest limit (s ∷ ss) closest =
      let more = closest ++ s ∷ [] in
      let rest = add_closest limit ss more in if length more == limit then (true, more) else rest

  -- `for d in sorted(self.servers.keys())`, with the `else: continue` and the `break`
  unfoldable pub walk_keys : ℕ → List Float → Found lib → List (Server lib) → List (Server lib)
  walk_keys limit [] found closest = closest
  walk_keys limit (d ∷ ds) found closest =
      let (stopped, more) = add_closest limit (servers_at d found) closest in
      let rest = walk_keys limit ds found more in if stopped then more else rest

  -- `if not self.servers: self.get_servers()`
  unfoldable pub found_or_fetched :
      (String → Answer) → String → List ℕ → Found lib → Outcome ⊤ × Found lib
  found_or_fetched answer threads ignore_servers [] =
      get_servers lib answer threads ignore_servers [] []
  found_or_fetched answer threads ignore_servers (g ∷ found) = (returned tt, g ∷ found)

  abbrev pub closest_of :
      ℕ → List (Server lib) → Outcome ⊤ × Found lib → Outcome (List (Server lib)) × Found lib
  closest_of limit closest (raised e, found) = (raised e, found)
  closest_of limit closest (returned _, found) =
      (returned (walk_keys limit (sorted_keys found) found closest), found)

  -- `get_closest_servers`: its value, which is `self.closest` after it, and `self.servers`.
  unfoldable pub get_closest_servers :
      (String → Answer)
      → String
      → List ℕ
      → ℕ
      → List (Server lib)
      → Found lib
      → Outcome (List (Server lib)) × Found lib
  get_closest_servers answer threads ignore_servers limit closest found =
      closest_of limit closest (found_or_fetched answer threads ignore_servers found)
