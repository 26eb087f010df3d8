-- ===== src/SpeedtestCli/Servers/Chosen.antt =====
-- What the loops of `get_servers` of speedtest.py went over, where they returned.
use qpep.Prelude.{
  ℕ, ◌≡◌, ◌⊎◌, refl, ap, inl, inr, String, some, List, [], ◌∷◌, ◌++◌, Bool-cases, Option-cases,
}
use qpep.World.{⊤}
use qpep.Dict.{Dict, lookup}
use qpep.SpeedtestCli.{Outcome, returned, raised, Answer, Libraries}
use qpep.SpeedtestCli.Servers.{Found, id_of, is_skipped, add_element, add_elements}
use qpep.SpeedtestCli.Servers.Accepted.{accepted, server_of}
use qpep.SpeedtestCli.Servers.Wanted.{
  is_skipped-IsWanted, is_skipped-not_IsWanted, IsFirstText, NoText, HasId, IsAccepted, no_elements,
  unwanted, without_place, taken, id_of-HasId,
}

module _ (lib : Libraries) (servers exclude ignore_servers : List ℕ) where
  open lib use {server_elements, distance_of}

  -- One element that has an id, in front of others.
  server_of-IsAccepted :
      (n : ℕ) (attrib : Dict String) (elements : List (Dict String))
      → HasId lib n attrib
      → IsAccepted lib servers exclude ignore_servers elements
          (accepted lib servers exclude ignore_servers elements)
      → IsAccepted lib servers exclude ignore_servers (attrib ∷ elements) (
          server_of lib servers exclude ignore_servers n attrib
          ++ accepted lib servers exclude ignore_servers elements)
  unfolding server_of
  server_of-IsAccepted n attrib elements id rest =
      elim (Bool-cases (is_skipped lib servers exclude ignore_servers n)) [
        | inl skipped ↦
            rw (server_of, skipped)
              (unwanted n attrib id
                (is_skipped-not_IsWanted lib servers exclude ignore_servers n skipped) rest)
        | inr kept ↦ elim (Option-cases (distance_of (lookup "lat" attrib) (lookup "lon" attrib))) [
          | inl nowhere ↦ rw (server_of, kept, nowhere) (without_place n attrib id nowhere rest)
          | inr (d, somewhere) ↦
              rw (server_of, kept, somewhere)
                (taken n attrib d id (is_skipped-IsWanted lib servers exclude ignore_servers n kept)
                  somewhere rest)
        ]
      ]

  pub add_elements-IsAccepted :
      (elements : List (Dict String)) (found found' : Found lib)
      → add_elements lib servers exclude ignore_servers elements found ≡ (returned tt, found')
      → IsAccepted lib servers exclude ignore_servers elements
          (accepted lib servers exclude ignore_servers elements)
  unfolding add_elements accepted
  add_elements-IsAccepted [] found found' e = no_elements
  add_elements-IsAccepted (attrib ∷ elements) found found' e =
      by_id (id_of lib attrib) refl (λ n. add_elements-IsAccepted elements _ found') e
    where
      by_id :
          (o : Outcome ℕ)
          → id_of lib attrib ≡ o
          → ((n : ℕ)
              → add_elements lib servers exclude ignore_servers elements
                  (add_element lib servers exclude ignore_servers n attrib found)
                ≡ (returned tt, found')
              → IsAccepted lib servers exclude ignore_servers elements
                  (accepted lib servers exclude ignore_servers elements))
          → (elim o [
            | raised x ↦ (raised x, found)
            | returned n ↦
                add_elements lib servers exclude ignore_servers elements
                  (add_element lib servers exclude ignore_servers n attrib found)
          ])
            ≡ (returned tt, found')
          → IsAccepted lib servers exclude ignore_servers (attrib ∷ elements) (elim o [
            | raised x ↦ accepted lib servers exclude ignore_servers elements
            | returned n ↦
                server_of lib servers exclude ignore_servers n attrib
                ++ accepted lib servers exclude ignore_servers elements
          ])
      by_id (raised x) q k e = cc (ap (λ (p : Outcome ⊤ × Found lib). p.0) e)
      by_id (returned n) q k e =
          server_of-IsAccepted n attrib elements (id_of-HasId lib attrib q) (k n e)

  -- The list that was read, with the servers that it stands for; or no url brought a text.
  abbrev pub IsChosen : (String → Answer) → String → List String → List (Dict String) → Type 0
  IsChosen answer threads urls elements =
      ((text : List ℕ) × IsFirstText answer threads urls text
        × (server_elements text ≡ some elements)
        × IsAccepted lib servers exclude ignore_servers elements
            (accepted lib servers exclude ignore_servers elements))
      ⊎ (NoText answer threads urls × (elements ≡ []))
