-- ===== src/SpeedtestCli/Servers/Accepted.antt =====
-- Which servers the loop of `get_servers` over the elements leaves, whatever their order.
use qpep.Prelude.{
  ℕ, ◌≡◌, sym, ap, subst, String, Bool, true, false, Option, none, some, List, [], ◌∷◌, ◌++◌,
  append_assoc, if◌then◌else◌,
}
use mathlib.Core.List.{Perm, perm_middle, perm_append_comm}
use mathlib.Core.List.Perm
use qpep.World.{⊤}
use qpep.Dict.{Dict, lookup}
use qpep.SpeedtestCli.{Outcome, returned, raised, Libraries}
use qpep.SpeedtestCli.Servers.{
  Server, Found, id_of, is_skipped, add_under, add_located, add_element, add_elements,
}

module _ (lib : Libraries) where
  open lib use {Float, same_float, server_elements, distance_of}

  -- All servers of the dict.
  unfoldable pub all_servers : Found lib → List (Server lib)
  all_servers [] = []
  all_servers ((d, ss) ∷ found) = ss ++ all_servers found

  swap_front : (xs ys zs : List (Server lib)) → Perm (xs ++ (ys ++ zs)) ((ys ++ xs) ++ zs)
  swap_front xs ys zs =
      subst (λ l. Perm l ((ys ++ xs) ++ zs)) (append_assoc xs ys zs)
        (Perm.append_right zs (perm_append_comm xs ys))

  add_under-Perm :
      (d : Float) (s : Server lib) (found : Found lib)
      → Perm (all_servers (add_under lib d s found)) (s ∷ all_servers found)
  unfolding add_under all_servers
  add_under-Perm d s [] = Perm.rfl
  add_under-Perm d s ((e, ss) ∷ found) = by_key (same_float e d) (add_under-Perm d s found)
    where
      by_key :
          (b : Bool)
          → Perm (all_servers (add_under lib d s found)) (s ∷ all_servers found)
          → Perm
              (all_servers
                (if b then (e, ss ++ s ∷ []) ∷ found else (e, ss) ∷ add_under lib d s found))
              (s ∷ (ss ++ all_servers found))
      by_key true p =
          subst (λ l. Perm l (s ∷ (ss ++ all_servers found)))
            (sym (append_assoc ss (s ∷ []) (all_servers found)))
            (perm_middle ss (all_servers found))
      by_key false p = Perm.trans (Perm.append_left ss p) (perm_middle ss (all_servers found))

  module _ (servers exclude ignore_servers : List ℕ) where
    -- The server that an element with an id stands for: none if it was not asked for, is to be
    -- ignored or excluded, or has no place.
    abbrev pub located : Option Float → Dict String → List (Server lib)
    located none attrib = []
    located (some d) attrib = record { attributes = attrib; d = d } ∷ []

    unfoldable pub server_of : ℕ → Dict String → List (Server lib)
    server_of n attrib =
        if is_skipped lib servers exclude ignore_servers n
        then []
        else located (distance_of (lookup "lat" attrib) (lookup "lon" attrib)) attrib

    unfoldable pub accepted : List (Dict String) → List (Server lib)
    accepted [] = []
    accepted (attrib ∷ elements) = elim (id_of lib attrib) [
      | raised e ↦ accepted elements
      | returned n ↦ server_of n attrib ++ accepted elements
    ]

    add_located-Perm :
        (o : Option Float) (attrib : Dict String) (found : Found lib)
        → Perm
            (all_servers (add_located lib o attrib found))
            (located o attrib ++ all_servers found)
    add_located-Perm none attrib found = Perm.rfl
    add_located-Perm (some d) attrib found = add_under-Perm d _ found

    add_element-Perm :
        (n : ℕ) (attrib : Dict String) (found : Found lib)
        → Perm
            (all_servers (add_element lib servers exclude ignore_servers n attrib found))
            (server_of n attrib ++ all_servers found)
    unfolding add_element server_of
    add_element-Perm n attrib found = by_skip (is_skipped lib servers exclude ignore_servers n)
      where
        by_skip :
            (b : Bool)
            → let o = distance_of (lookup "lat" attrib) (lookup "lon" attrib) in
              Perm
                (all_servers (if b then found else add_located lib o attrib found))
                ((if b then [] else located o attrib) ++ all_servers found)
        by_skip true = Perm.rfl
        by_skip false = add_located-Perm _ attrib found

    -- A loop that returned added what is accepted.
    pub add_elements-Perm :
        (elements : List (Dict String)) (found found' : Found lib)
        → add_elements lib servers exclude ignore_servers elements found ≡ (returned tt, found')
        → Perm (all_servers found') (accepted elements ++ all_servers found)
    unfolding add_elements accepted
    add_elements-Perm [] found found' e =
        subst (λ f. Perm (all_servers f) (all_servers found))
          (ap (λ (p : Outcome ⊤ × Found lib). p.1) e) Perm.rfl
    add_elements-Perm (attrib ∷ elements) found found' e =
        by_id (id_of lib attrib) (λ n. add_elements-Perm elements _ found') e
      where
        by_id :
            (o : Outcome ℕ)
            → ((n : ℕ)
                → let found₁ = add_element lib servers exclude ignore_servers n attrib found in
                  add_elements lib servers exclude ignore_servers elements found₁
                    ≡ (returned tt, found')
                  → Perm (all_servers found') (accepted elements ++ all_servers found₁))
            → (elim o [
              | raised x ↦ (raised x, found)
              | returned n ↦
                  add_elements lib servers exclude ignore_servers elements
                    (add_element lib servers exclude ignore_servers n attrib found)
            ])
              ≡ (returned tt, found')
            → Perm (all_servers found') (
                (elim o [
                  | raised x ↦ accepted elements
                  | returned n ↦ server_of n attrib ++ accepted elements
                ])
                ++ all_servers found)
        by_id (raised x) k e = cc (ap (λ (p : Outcome ⊤ × Found lib). p.0) e)
        by_id (returned n) k e =
            Perm.trans
              (Perm.trans (k n e)
                (Perm.append_left (accepted elements) (add_element-Perm n attrib found)))
              (swap_front (accepted elements) (server_of n attrib) (all_servers found))
