-- ===== src/Testbed/Inside.antt =====
-- What is done to a testbed that is up: calls of its containers, and pauses.
use qpep.Prelude.{◌≡◌, refl, String, Bool, true, false, Option, List, [], ◌∷◌}
use qpep.World.{Event, container_get, exec_run, sleep, compose_up, Services}
use qpep.World.Grows.{Grows, Grows-pure, Grows-bind, Grows-perform, grows_rules}
use qpep.Testbed.{get_container, get_container_if, add_if_missing, set_loss, set_plr_percentage}

abbrev pub is_inside : Event → Bool
is_inside (container_get _) = true
is_inside (exec_run _ _ _) = true
is_inside (sleep _) = true
is_inside _ = false

abbrev pub is_compose_up : Event → Bool
is_compose_up (compose_up _) = true
is_compose_up _ = false

pub inside-apart : (e : Event) → is_inside e ≡ true → is_compose_up e ≡ false
inside-apart (compose_up _) p = cc
inside-apart _ p = refl

module _ (svc : Services) where
  pub get_container-inside : (k : String) → Grows is_inside (get_container svc k)
  unfolding get_container
  get_container-inside k = search grows_rules

  add_if_missing-inside :
      (b : Bool) (c : Option String) (p : String) → Grows is_inside (add_if_missing svc b c p)
  unfolding add_if_missing
  add_if_missing-inside true c p = Grows-perform svc _ refl
  add_if_missing-inside false c p = Grows-pure ""

  set_loss-inside : (p : String) (cs : List (Option String)) → Grows is_inside (set_loss svc p cs)
  unfolding set_loss
  set_loss-inside p [] = Grows-pure tt
  set_loss-inside p (c ∷ cs) =
      Grows-bind _ _ (Grows-perform svc _ refl)
        λ r. Grows-bind _ _ (add_if_missing-inside _ c p) λ _. set_loss-inside p cs

  get_container_if-inside : (b : Bool) (k : String) → Grows is_inside (get_container_if svc b k)
  unfolding get_container_if
  get_container_if-inside true k = search (grows_rules, get_container-inside)
  get_container_if-inside false k = Grows-pure []

  pub set_plr_percentage-inside :
      (p : String) (st_out gw_out : Bool) → Grows is_inside (set_plr_percentage svc p st_out gw_out)
  unfolding set_plr_percentage
  set_plr_percentage-inside p st_out gw_out =
      Grows-bind _ _ (get_container_if-inside st_out _)
        λ st. Grows-bind _ _ (get_container_if-inside gw_out _) λ gw. set_loss-inside p _
