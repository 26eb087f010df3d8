-- ===== src/SpeedtestCli/Servers/Fetched.antt =====
-- Which servers `get_servers` leaves, whatever the order in which its dict keeps them.
use qpep.Prelude.{
  ℕ, ◌≡◌, refl, sym, ap, subst, String, Bool, true, false, ◌||◌, Option, none, some, List, [], ◌∷◌,
  ◌++◌, append-nil, ◌⊎◌, inl, inr,
}
use mathlib.Core.List.{Perm}
use mathlib.Core.List.Perm
use qpep.World.{⊤}
use qpep.Dict.{Dict}
use qpep.SpeedtestCli.{Outcome, returned, raised, Answer, Libraries}
use qpep.SpeedtestCli.Servers.{
  Server, is_nonempty, servers_text, urls, request_url, Found, to_ints, add_text, try_urls,
  check_matched, with_ids, get_servers,
}
use qpep.SpeedtestCli.Servers.Wanted.{
  IsText, servers_text-IsText, servers_text-not_IsText, IsFirstText, this_url, next_url, NoText,
  IsAccepted,
}
use qpep.SpeedtestCli.Servers.Chosen.{add_elements-IsAccepted, IsChosen}
use qpep.SpeedtestCli.Servers.Accepted.{all_servers, accepted, add_elements-Perm}

module _ (lib : Libraries) where
  open lib use {server_elements}

  -- The elements of the first list of servers that could be fetched.
  pub first_elements : (String → Answer) → String → List String → List (Dict String)
  first_elements answer threads [] = []
  first_elements answer threads (url ∷ rest) =
      elim (servers_text (answer (request_url threads url))) [
        | none ↦ first_elements answer threads rest
        | some text ↦ elim (server_elements text) [ none ↦ [] | some elements ↦ elements ]
      ]

  module _ (servers exclude ignore_servers : List ℕ) where
    add_text-Perm :
        (o : Option (List (Dict String))) (found found' : Found lib)
        → add_text lib servers exclude ignore_servers o found ≡ (returned tt, found')
        → Perm (all_servers lib found') (
            accepted lib servers exclude ignore_servers
              (elim o [ none ↦ [] | some elements ↦ elements ])
            ++ all_servers lib found)
    unfolding add_text
    add_text-Perm none found found' e = cc (ap (λ (p : Outcome ⊤ × Found lib). p.0) e)
    add_text-Perm (some elements) found found' e =
        add_elements-Perm lib servers exclude ignore_servers elements found found' e

    try_urls-Perm :
        (answer : String → Answer) (threads : String) (l : List String) (found found' : Found lib)
        → try_urls lib servers exclude ignore_servers answer threads l found ≡ (returned tt, found')
        → Perm (all_servers lib found') (
            accepted lib servers exclude ignore_servers (first_elements answer threads l)
            ++ all_servers lib found)
    unfolding try_urls first_elements accepted
    try_urls-Perm answer threads [] found found' e =
        subst (λ f. Perm (all_servers lib f) (all_servers lib found))
          (ap (λ (p : Outcome ⊤ × Found lib). p.1) e) Perm.rfl
    try_urls-Perm answer threads (url ∷ rest) found found' e =
        by_text (servers_text (answer (request_url threads url)))
          (try_urls-Perm answer threads rest found found') e
      where
        by_text :
            (o : Option (List ℕ))
            → (try_urls lib servers exclude ignore_servers answer threads rest found
                  ≡ (returned tt, found')
                → Perm (all_servers lib found') (
                    accepted lib servers exclude ignore_servers (first_elements answer threads rest)
                    ++ all_servers lib found))
            → (elim o [
              | none ↦ try_urls lib servers exclude ignore_servers answer threads rest found
              | some text ↦ add_text lib servers exclude ignore_servers (server_elements text) found
            ])
              ≡ (returned tt, found')
            → Perm (all_servers lib found') (
                accepted lib servers exclude ignore_servers (elim o [
                  | none ↦ first_elements answer threads rest
                  | some text ↦ elim (server_elements text) [ none ↦ [] | some elements ↦ elements ]
                ])
                ++ all_servers lib found)
        by_text none k e = k e
        by_text (some text) k e = add_text-Perm (server_elements text) found found' e

  module _ (servers exclude ignore_servers : List ℕ) where
    add_text-IsChosen :
        (answer : String → Answer) (threads : String) (addresses : List String) (text : List ℕ)
        (o : Option (List (Dict String))) (found found' : Found lib)
        → IsFirstText answer threads addresses text
        → server_elements text ≡ o
        → add_text lib servers exclude ignore_servers o found ≡ (returned tt, found')
        → IsChosen lib servers exclude ignore_servers answer threads addresses
            (elim o [ none ↦ [] | some elements ↦ elements ])
    unfolding add_text
    add_text-IsChosen answer threads addresses text none found found' first read e =
        cc (ap (λ (p : Outcome ⊤ × Found lib). p.0) e)
    add_text-IsChosen answer threads addresses text (some elements) found found' first read e =
        inl (
          text,
          first,
          read,
          add_elements-IsAccepted lib servers exclude ignore_servers elements found found' e,
        )

    IsChosen-next :
        (answer : String → Answer) (threads url : String) (addresses : List String)
        (elements : List (Dict String))
        → ((text : List ℕ) → ¬ IsText (answer (request_url threads url)) text)
        → IsChosen lib servers exclude ignore_servers answer threads addresses elements
        → IsChosen lib servers exclude ignore_servers answer threads (url ∷ addresses) elements
    IsChosen-next answer threads url addresses elements h (inl (text, first, read, all)) =
        inl (text, next_url url h first, read, all)
    IsChosen-next answer threads url addresses elements h (inr (no_text, empty)) =
        inr ((h, no_text), empty)

    try_urls-IsChosen :
        (answer : String → Answer) (threads : String) (l : List String) (found found' : Found lib)
        → try_urls lib servers exclude ignore_servers answer threads l found ≡ (returned tt, found')
        → IsChosen lib servers exclude ignore_servers answer threads l
            (first_elements answer threads l)
    unfolding try_urls first_elements
    try_urls-IsChosen answer threads [] found found' e = inr (tt, refl)
    try_urls-IsChosen answer threads (url ∷ rest) found found' e =
        by_text (servers_text (answer (request_url threads url))) refl
          (try_urls-IsChosen answer threads rest found found') e
      where
        by_text :
            (o : Option (List ℕ))
            → servers_text (answer (request_url threads url)) ≡ o
            → (try_urls lib servers exclude ignore_servers answer threads rest found
                  ≡ (returned tt, found')
                → IsChosen lib servers exclude ignore_servers answer threads rest
                    (first_elements answer threads rest))
            → (elim o [
              | none ↦ try_urls lib servers exclude ignore_servers answer threads rest found
              | some text ↦ add_text lib servers exclude ignore_servers (server_elements text) found
            ])
              ≡ (returned tt, found')
            → IsChosen lib servers exclude ignore_servers answer threads (url ∷ rest) (elim o [
              | none ↦ first_elements answer threads rest
              | some text ↦ elim (server_elements text) [ none ↦ [] | some elements ↦ elements ]
            ])
        by_text none q k e =
            IsChosen-next answer threads url rest (first_elements answer threads rest)
              (servers_text-not_IsText _ q) (k e)
        by_text (some text) q k e =
            add_text-IsChosen answer threads (url ∷ rest) text (server_elements text) found found'
              (this_url url rest (servers_text-IsText _ q)) refl e

  check_matched-ok :
      (asked : Bool) (left : Outcome ⊤ × Found lib) (found : Found lib)
      → check_matched lib asked left ≡ (returned tt, found)
      → (left ≡ (returned tt, found)) × (asked ≡ true → is_nonempty found ≡ true)
  check_matched-ok asked (raised x, f) found e = cc (ap (λ (p : Outcome ⊤ × Found lib). p.0) e)
  check_matched-ok true (returned _, []) found e = cc (ap (λ (p : Outcome ⊤ × Found lib). p.0) e)
  check_matched-ok true (returned _, g ∷ f) found e =
      (e, λ _. ap (λ (p : Outcome ⊤ × Found lib). is_nonempty p.1) (sym e))
  check_matched-ok false (returned _, f) found e = (e, λ p. cc p)

  pub get_servers-accepted :
      (answer : String → Answer) (threads : String) (ignore_servers : List ℕ)
      (servers exclude : List String) (found : Found lib)
      → get_servers lib answer threads ignore_servers servers exclude ≡ (returned tt, found)
      → (ids excluded : List ℕ) × (to_ints lib servers ≡ some ids)
        × (to_ints lib exclude ≡ some excluded)
        × Perm
            (all_servers lib found)
            (accepted lib ids excluded ignore_servers (first_elements answer threads urls))
        × ((is_nonempty servers || is_nonempty exclude) ≡ true → is_nonempty found ≡ true)
        × IsChosen lib ids excluded ignore_servers answer threads urls
            (first_elements answer threads urls)
  unfolding get_servers all_servers
  get_servers-accepted answer threads ignore_servers servers exclude found e =
      by_ids (to_ints lib servers) (to_ints lib exclude) refl refl e
    where
      by_ids :
          (o o' : Option (List ℕ))
          → to_ints lib servers ≡ o
          → to_ints lib exclude ≡ o'
          → with_ids lib o o' (λ ids excluded.
            check_matched lib
              (is_nonempty servers || is_nonempty exclude)
              (try_urls lib ids excluded ignore_servers answer threads urls []))
            ≡ (returned tt, found)
          → (ids excluded : List ℕ) × (to_ints lib servers ≡ some ids)
            × (to_ints lib exclude ≡ some excluded)
            × Perm
                (all_servers lib found)
                (accepted lib ids excluded ignore_servers (first_elements answer threads urls))
            × ((is_nonempty servers || is_nonempty exclude) ≡ true → is_nonempty found ≡ true)
            × IsChosen lib ids excluded ignore_servers answer threads urls
                (first_elements answer threads urls)
      by_ids (some ids) (some excluded) p q e =
          let (r, one) = check_matched-ok (is_nonempty servers || is_nonempty exclude) _ found e in
          (
            ids,
            excluded,
            p,
            q,
            subst (Perm (all_servers lib found)) (append-nil _)
                (try_urls-Perm ids excluded ignore_servers answer threads urls [] found r),
            one,
            try_urls-IsChosen ids excluded ignore_servers answer threads urls [] found r,
          )
      by_ids none o' p q e = cc (ap (λ (p : Outcome ⊤ × Found lib). p.0) e)
      by_ids (some ids) none p q e = cc (ap (λ (p : Outcome ⊤ × Found lib). p.0) e)

  -- The servers `l` are those of the first text that a url brings, if one does: up to order the
  -- elements of its list whose ids are wanted and that have a place.
  abbrev pub IsFirstAccepted :
      (String → Answer) → String → List ℕ → List ℕ → List ℕ → List (Server lib) → Type 0
  IsFirstAccepted answer threads ids excluded ignore_servers l =
      ((text : List ℕ) × (elements : List (Dict String)) × IsFirstText answer threads urls text
        × (server_elements text ≡ some elements)
        × IsAccepted lib ids excluded ignore_servers elements l)
      ⊎ (NoText answer threads urls × (l ≡ []))

  IsChosen-IsFirstAccepted :
      (answer : String → Answer) (threads : String) (ids excluded ignore_servers : List ℕ)
      (elements : List (Dict String))
      → IsChosen lib ids excluded ignore_servers answer threads urls elements
      → IsFirstAccepted answer threads ids excluded ignore_servers
          (accepted lib ids excluded ignore_servers elements)
  unfolding accepted
  IsChosen-IsFirstAccepted answer threads ids excluded ignore_servers elements
        (inl (text, first, read, all)) =
      inl (text, elements, first, read, all)
  IsChosen-IsFirstAccepted answer threads ids excluded ignore_servers elements
        (inr (no_text, empty)) =
      inr (no_text, ap (accepted lib ids excluded ignore_servers) empty)

  -- If `get_servers` returns, the ids that were asked for and excluded are numbers, and the servers
  -- that it leaves are, up to order, those of the first answer of a url with status 200 that could be
  -- read to its end: each element with an id that was asked for (or any, if none was), that is neither
  -- ignored nor excluded, and that has a place, with its attributes and distance. If no url has such
  -- an answer there is none; and there is one if ids were asked for or excluded.
  pub get_servers_lem :
      (answer : String → Answer) (threads : String) (ignore_servers : List ℕ)
      (servers exclude : List String) (found : Found lib)
      → get_servers lib answer threads ignore_servers servers exclude ≡ (returned tt, found)
      → (ids excluded : List ℕ) × (l : List (Server lib)) × (to_ints lib servers ≡ some ids)
        × (to_ints lib exclude ≡ some excluded)
        × Perm (all_servers lib found) l
        × IsFirstAccepted answer threads ids excluded ignore_servers l
        × ((is_nonempty servers || is_nonempty exclude) ≡ true → is_nonempty found ≡ true)
  get_servers_lem answer threads ignore_servers servers exclude found e =
      let (ids, excluded, p, q, perm, one, chosen) =
        get_servers-accepted answer threads ignore_servers servers exclude found e in
      (
        ids,
        excluded,
        accepted lib ids excluded ignore_servers (first_elements answer threads urls),
        p,
        q,
        perm,
        IsChosen-IsFirstAccepted answer threads ids excluded ignore_servers _ chosen,
        one,
      )
