-- ===== src/SpeedtestCli/Select/Allowed.antt =====
-- The server that is measured is one that was asked for.
use qpep.Prelude.{
  ℕ, ◌≡◌, ◌∙◌, refl, ap, subst, String, Bool, true, false, ◌||◌, not, Option, none, some, List, [],
  ◌∷◌, ◌++◌, if◌then◌else◌, ◌≢◌, Option-cases, inl, inr, arith,
}
use qpep.World.{⊤}
use qpep.Dict.{Dict, lookup}
use qpep.SpeedtestCli.{Outcome, returned, raised, Answer, Libraries}
use qpep.SpeedtestCli.Servers.{Server, Found, is_nonempty, to_ints, id_of, is_skipped, get_servers}
use qpep.SpeedtestCli.Servers.Wanted.{HasId, IsIn, is_skipped-IsWanted, id_of-HasId}
use qpep.SpeedtestCli.Servers.Accepted.{accepted, server_of, located}
use qpep.SpeedtestCli.Servers.Fetched.{get_servers-accepted}
use qpep.SpeedtestCli.Best.{Probe}
use qpep.SpeedtestCli.Select.{best_of_closest, after_servers, select_server}
use qpep.SpeedtestCli.Select.Passes.{
  AllPass, BestPasses, AllPass-perm, AllPass-append, best_of_closest-BestPasses,
}

module _ (lib : Libraries) where
  open lib use {Float, distance_of}

  -- The id is a number that was asked for, if any was, and is neither ignored nor excluded.
  abbrev allowed_id : List ℕ → List ℕ → List ℕ → Outcome ℕ → Bool
  allowed_id servers exclude ignore_servers (raised e) = false
  allowed_id servers exclude ignore_servers (returned n) =
      not (is_skipped lib servers exclude ignore_servers n)

  abbrev is_allowed : List ℕ → List ℕ → List ℕ → Server lib → Bool
  is_allowed servers exclude ignore_servers s =
      allowed_id servers exclude ignore_servers (id_of lib s.attributes)

  module _ (servers exclude ignore_servers : List ℕ) where
    located-AllPass :
        (o : Option Float) (attrib : Dict String)
        → allowed_id servers exclude ignore_servers (id_of lib attrib) ≡ true
        → AllPass lib
            (is_allowed servers exclude ignore_servers)
            (located lib servers exclude ignore_servers o attrib)
    located-AllPass none attrib p = tt
    located-AllPass (some d) attrib p = (p, tt)

    accepted-AllPass :
        (elements : List (Dict String))
        → AllPass lib
            (is_allowed servers exclude ignore_servers)
            (accepted lib servers exclude ignore_servers elements)
    unfolding accepted server_of
    accepted-AllPass [] = tt
    accepted-AllPass (attrib ∷ elements) = by_id (id_of lib attrib) refl (accepted-AllPass elements)
      where
        by_id :
            (o : Outcome ℕ)
            → id_of lib attrib ≡ o
            → AllPass lib
                (is_allowed servers exclude ignore_servers)
                (accepted lib servers exclude ignore_servers elements)
            → AllPass lib (is_allowed servers exclude ignore_servers) (elim o [
              | raised e ↦ accepted lib servers exclude ignore_servers elements
              | returned n ↦
                  server_of lib servers exclude ignore_servers n attrib
                  ++ accepted lib servers exclude ignore_servers elements
            ])
        by_id (raised e) q a = a
        by_id (returned n) q a = by_skip (is_skipped lib servers exclude ignore_servers n) refl
          where
            by_skip :
                (b : Bool)
                → is_skipped lib servers exclude ignore_servers n ≡ b
                → AllPass lib (is_allowed servers exclude ignore_servers) (
                    (if b
                      then []
                      else located lib servers exclude ignore_servers
                          (distance_of (lookup "lat" attrib) (lookup "lon" attrib))
                          attrib)
                    ++ accepted lib servers exclude ignore_servers elements)
            by_skip true r = a
            by_skip false r =
                AllPass-append lib (is_allowed servers exclude ignore_servers) _ _
                  (located-AllPass _ attrib
                    (ap (allowed_id servers exclude ignore_servers) q ∙ ap not r))
                  a

  select_server-passes :
      (answer : String → Answer) (threads : String) (ignore_servers : List ℕ)
      (servers exclude : List String) (probe : ℕ → ℕ → Probe lib) (f : Float) (s : Server lib)
      → is_nonempty servers ≡ true
      → select_server lib answer threads ignore_servers servers exclude probe ≡ returned (f, s)
      → (ids excluded : List ℕ) × (to_ints lib servers ≡ some ids)
        × (to_ints lib exclude ≡ some excluded)
        × (is_allowed ids excluded ignore_servers s ≡ true)
  unfolding select_server
  select_server-passes answer threads ignore_servers servers exclude probe f s asked e =
      by_servers (get_servers lib answer threads ignore_servers servers exclude) refl e
    where
      by_servers :
          (r : Outcome ⊤ × Found lib)
          → get_servers lib answer threads ignore_servers servers exclude ≡ r
          → after_servers lib (best_of_closest lib answer threads ignore_servers probe) r
            ≡ returned (f, s)
          → (ids excluded : List ℕ) × (to_ints lib servers ≡ some ids)
            × (to_ints lib exclude ≡ some excluded)
            × (is_allowed ids excluded ignore_servers s ≡ true)
      by_servers (raised x, found) p e = cc e
      by_servers (returned tt, found) p e =
          let (ids, excluded, i, j, perm, one, _) =
            get_servers-accepted lib answer threads ignore_servers servers exclude found p in
          let P = is_allowed ids excluded ignore_servers in
          (
            ids,
            excluded,
            i,
            j,
            subst (BestPasses lib P) e (
                best_of_closest-BestPasses lib P answer threads ignore_servers probe found
                  (one (ap (λ b. b || is_nonempty exclude) asked))
                  (AllPass-perm lib P _ _ perm (accepted-AllPass ids excluded ignore_servers _))),
          )

  -- The attribute `id` is a number of the first list, and of neither of the others.
  abbrev pub IsAllowed : List ℕ → List ℕ → List ℕ → Server lib → Type 0
  IsAllowed ids excluded ignore_servers s =
      (n : ℕ) × HasId lib n s.attributes
      × IsIn n ids
      × (¬ IsIn n ignore_servers)
      × (¬ IsIn n excluded)

  to_ints-not_nil :
      (servers : List String) → is_nonempty servers ≡ true → to_ints lib servers ≡ some [] → ⊥
  unfolding to_ints
  to_ints-not_nil [] asked e = cc asked
  to_ints-not_nil (s ∷ servers) asked e = elim (Option-cases (lib.int_of s)) [
    | inl bad ↦ ground (arith, e, bad)
    | inr (n, good) ↦ elim (Option-cases (to_ints lib servers)) [
      | inl bad ↦ ground (arith, e, good, bad)
      | inr (ns, rest) ↦ ground (arith, e, good, rest)
    ]
  ]

  is_allowed-IsAllowed :
      (ids excluded ignore_servers : List ℕ) (s : Server lib)
      → ids ≢ []
      → is_allowed ids excluded ignore_servers s ≡ true
      → IsAllowed ids excluded ignore_servers s
  is_allowed-IsAllowed ids excluded ignore_servers s some_id e =
      by_id (id_of lib s.attributes) refl e
    where
      by_id :
          (o : Outcome ℕ)
          → id_of lib s.attributes ≡ o
          → allowed_id ids excluded ignore_servers o ≡ true
          → IsAllowed ids excluded ignore_servers s
      by_id (raised x) q e = cc e
      by_id (returned n) q e =
          let kept : is_skipped lib ids excluded ignore_servers n ≡ false = ground (arith, e) in
          let (asked, not_ignored, not_excluded) =
            is_skipped-IsWanted lib ids excluded ignore_servers n kept in
          (
            n,
            id_of-HasId lib s.attributes q,
            elim asked [ inl nothing ↦ absurd (some_id nothing) | inr there ↦ there ],
            not_ignored,
            not_excluded,
          )

  -- If ids were asked for and a server is selected, its id is one of them, and neither ignored nor
  -- excluded.
  pub select_server-IsAllowed :
      (answer : String → Answer) (threads : String) (ignore_servers : List ℕ)
      (servers exclude : List String) (probe : ℕ → ℕ → Probe lib) (f : Float) (s : Server lib)
      → is_nonempty servers ≡ true
      → select_server lib answer threads ignore_servers servers exclude probe ≡ returned (f, s)
      → (ids excluded : List ℕ) × (to_ints lib servers ≡ some ids)
        × (to_ints lib exclude ≡ some excluded)
        × IsAllowed ids excluded ignore_servers s
  select_server-IsAllowed answer threads ignore_servers servers exclude probe f s asked e =
      let (ids, excluded, p, q, allowed) =
        select_server-passes answer threads ignore_servers servers exclude probe f s asked e in
      (
        ids,
        excluded,
        p,
        q,
        is_allowed-IsAllowed ids excluded ignore_servers s
            (λ nothing. to_ints-not_nil servers asked (p ∙ ap some nothing)) allowed,
      )
