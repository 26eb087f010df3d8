-- ===== src/SpeedtestCli/Closest/Limit.antt =====
-- Where the two loops of `get_closest_servers` stop.
use qpep.Prelude.{
  ℕ, zero, suc, ◌+◌, ◌≡◌, ◌∙◌, ◌⊎◌, refl, sym, ap, String, Bool, true, false, List, [], ◌∷◌, ◌++◌,
  append_assoc, append-nil, length, length-append, take, if◌then◌else◌, ◌==◌, ==_iff, subst, inl,
  inr, arith,
}
use qpep.SpeedtestCli.{returned, Answer, Libraries}
use qpep.SpeedtestCli.Servers.{Server, Found, is_nonempty}
use qpep.SpeedtestCli.Closest.{
  insert_sorted, sorted_keys, servers_at, add_closest, walk_keys, found_or_fetched,
  get_closest_servers,
}

module _ (lib : Libraries) where
  open lib use {Float, float_leb}

  -- All servers, by their keys in order.
  unfoldable pub in_order : List Float → Found lib → List (Server lib)
  in_order [] found = []
  in_order (d ∷ ds) found = servers_at lib d found ++ in_order ds found

  -- How the inner loop ends, with `rest` still to come: at its `break`, with all that fits, or with
  -- room for more.
  abbrev Ends : ℕ → List (Server lib) → List (Server lib) → Bool × List (Server lib) → Type 0
  Ends limit wanted rest (stopped, more) =
      ((stopped ≡ true) × (more ≡ wanted))
      ⊎ ((stopped ≡ false)
          × (left : ℕ) × (limit ≡ length more + suc left)
          × (more ++ take (suc left) rest ≡ wanted))

  add_closest_lem :
      (limit room : ℕ) (ss rest closest : List (Server lib))
      → limit ≡ length closest + suc room
      → Ends limit (closest ++ take (suc room) (ss ++ rest)) rest (add_closest lib limit ss closest)
  unfolding add_closest
  add_closest_lem limit room [] rest closest p = inr (refl, room, p, refl)
  add_closest_lem limit room (s ∷ ss) rest closest p =
      let more = closest ++ s ∷ [] in
      by_test (length more == limit) refl room p (length-append closest (s ∷ []))
        (λ r q. add_closest_lem limit r ss rest more q)
    where
      by_test :
          (b : Bool)
          → (length (closest ++ s ∷ []) == limit) ≡ b
          → (room : ℕ) → limit ≡ length closest + suc room
          → length (closest ++ s ∷ []) ≡ length closest + 1
          → ((r : ℕ)
              → limit ≡ length (closest ++ s ∷ []) + suc r
              → Ends limit
                  ((closest ++ s ∷ []) ++ take (suc r) (ss ++ rest))
                  rest
                  (add_closest lib limit ss (closest ++ s ∷ [])))
          → Ends limit (closest ++ s ∷ take room (ss ++ rest)) rest (
              if b then (true, closest ++ s ∷ []) else add_closest lib limit ss (closest ++ s ∷ []))
      by_test true t zero p l k = inl (refl, refl)
      by_test true t (suc r) p l k =
          absurd (omega (arith, p, l, (==_iff (length (closest ++ s ∷ [])) limit).0 t))
      by_test false t zero p l k =
          cc (t, (==_iff (length (closest ++ s ∷ [])) limit).1 (omega (arith, p, l)))
      by_test false t (suc r) p l k =
          subst (λ w. Ends limit w rest (add_closest lib limit ss (closest ++ s ∷ [])))
            (append_assoc closest (s ∷ []) (take (suc r) (ss ++ rest))) (k r (omega (arith, p, l)))

  pub walk_keys_lem :
      (limit room : ℕ) (ds : List Float) (found : Found lib) (closest : List (Server lib))
      → limit ≡ length closest + suc room
      → walk_keys lib limit ds found closest ≡ closest ++ take (suc room) (in_order ds found)
  unfolding walk_keys in_order
  walk_keys_lem limit room [] found closest p = sym (append-nil closest)
  walk_keys_lem limit room (d ∷ ds) found closest p =
      by_end (add_closest lib limit (servers_at lib d found) closest)
        (add_closest_lem limit room (servers_at lib d found) (in_order ds found) closest p)
        (λ r more q. walk_keys_lem limit r ds found more q)
    where
      by_end :
          (e : Bool × List (Server lib))
          → Ends limit
              (closest ++ take (suc room) (servers_at lib d found ++ in_order ds found))
              (in_order ds found)
              e
          → ((r : ℕ) (more : List (Server lib))
              → limit ≡ length more + suc r
              → walk_keys lib limit ds found more ≡ more ++ take (suc r) (in_order ds found))
          → (if e.0 then e.1 else walk_keys lib limit ds found e.1)
            ≡ closest ++ take (suc room) (servers_at lib d found ++ in_order ds found)
      by_end (true, more) (inl (_, q)) k = q
      by_end (true, more) (inr x) k = cc x.0
      by_end (false, more) (inl x) k = cc x.0
      by_end (false, more) (inr (_, r, q, w)) k = k r more q ∙ w

  -- `d` is not above any of the keys.
  abbrev pub IsBelow : Float → List Float → Type 0
  IsBelow d [] = Unit
  IsBelow d (e ∷ ds) = (float_leb d e ≡ true) × IsBelow d ds

  abbrev pub IsAscending : List Float → Type 0
  IsAscending [] = Unit
  IsAscending (d ∷ ds) = IsBelow d ds × IsAscending ds

  module _ (total : (d e : Float) → float_leb d e ≡ false → float_leb e d ≡ true)
      (transitive : (d e f : Float)
        → float_leb d e ≡ true
        → float_leb e f ≡ true
        → float_leb d f ≡ true) where
    IsBelow-trans :
        (d e : Float) (ds : List Float) → float_leb d e ≡ true → IsBelow e ds → IsBelow d ds
    IsBelow-trans d e [] p b = tt
    IsBelow-trans d e (f ∷ ds) p (q, b) = (transitive d e f p q, IsBelow-trans d e ds p b)

    insert_sorted-IsBelow :
        (e d : Float) (ds : List Float)
        → float_leb e d ≡ true
        → IsBelow e ds
        → IsBelow e (insert_sorted lib d ds)
    unfolding insert_sorted
    insert_sorted-IsBelow e d [] p b = (p, tt)
    insert_sorted-IsBelow e d (f ∷ ds) p b =
        by_test (float_leb d f) (insert_sorted-IsBelow e d ds p b.1)
      where
        by_test :
            (t : Bool)
            → IsBelow e (insert_sorted lib d ds)
            → IsBelow e (if t then d ∷ f ∷ ds else f ∷ insert_sorted lib d ds)
        by_test true r = (p, b)
        by_test false r = (b.0, r)

    insert_sorted-IsAscending :
        (d : Float) (ds : List Float) → IsAscending ds → IsAscending (insert_sorted lib d ds)
    unfolding insert_sorted
    insert_sorted-IsAscending d [] a = (tt, tt)
    insert_sorted-IsAscending d (f ∷ ds) a =
        by_test (float_leb d f) refl (insert_sorted-IsAscending d ds a.1)
      where
        by_test :
            (t : Bool)
            → float_leb d f ≡ t
            → IsAscending (insert_sorted lib d ds)
            → IsAscending (if t then d ∷ f ∷ ds else f ∷ insert_sorted lib d ds)
        by_test true q r = ((q, IsBelow-trans d f ds q a.0), a)
        by_test false q r = (insert_sorted-IsBelow f d ds (total d f q) a.0, r)

    pub sorted_keys-IsAscending :
        {V : Type 0} (found : List (Float × V)) → IsAscending (sorted_keys lib found)
    unfolding sorted_keys
    sorted_keys-IsAscending [] = tt
    sorted_keys-IsAscending ((d, ss) ∷ found) =
        insert_sorted-IsAscending d _ (sorted_keys-IsAscending found)

    -- Where `<=` on distances is total and transitive: with a limit of at least one, with servers
    -- found and none chosen before, `get_closest_servers` returns the first servers by the
    -- ascending keys of the dict, as many as the limit allows, and fetches nothing.
    pub get_closest_servers-take :
        (answer : String → Answer) (threads : String) (ignore_servers : List ℕ) (limit : ℕ)
        (found : Found lib)
        → is_nonempty found ≡ true
        → IsAscending (sorted_keys lib found)
          × (get_closest_servers lib answer threads ignore_servers (suc limit) [] found
              ≡ (returned (take (suc limit) (in_order (sorted_keys lib found) found)), found))
    unfolding get_closest_servers found_or_fetched
    get_closest_servers-take answer threads ignore_servers limit [] p = cc p
    get_closest_servers-take answer threads ignore_servers limit (g ∷ found) p = (
      sorted_keys-IsAscending (g ∷ found),
      ap (λ l. (returned l, g ∷ found))
          (walk_keys_lem (suc limit) limit (sorted_keys lib (g ∷ found)) (g ∷ found) []
            (omega arith)),
    )
