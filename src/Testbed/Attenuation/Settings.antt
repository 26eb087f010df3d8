-- ===== src/Testbed/Attenuation/Settings.antt =====
-- What `set_downlink_attenuation` (testbeds.py) leaves in the two files.
use qpep.Prelude.{
  ◌≡◌, sym, ap, ◌∙◌, String, Bool, true, false, none, some, List, [], ◌∷◌, ◌&&◌, if◌then◌else◌,
  Option-cases, Bool-cases, ◌⊎◌, subst, inl, inr, arith,
}
use mathlib.Core.List.{map}
use text.Mathlib.Text.{◌==◌ as str_eq}
use qpep.World.{Error, Result, ok, err, key_error, file_error}
use qpep.Testbed.Attenuation.{
  Element, element, Elements, tag_of, findall, ideal_attenuation, set_down, then_ok, change_all,
  Documents, parse, written, Write, write_second, gw_path, st_path, changed_pair, write_pair,
  set_downlink_attenuation,
}
use qpep.Dict.{Dict, lookup, lookup-insert}
use qpep.Testbed.Attenuation.Trees.{
  all_linked, then_ok-ok, then_ok-err, parse-none, parse-some, findall-change_all, change_all_total,
  change_all_fails,
}

abbrev attributes_of : Element → Dict String
attributes_of (element tag attrib children) = attrib

abbrev children_of : Element → Elements
children_of (element tag attrib children) = children

-- The setting is about the downlink.
abbrev is_downlink : Element → Bool
is_downlink e = elim (lookup "link" (attributes_of e)) [
  | none ↦ false
  | some link ↦ str_eq link "down"
]

-- A setting after the change: on the downlink its attenuation is the new value, and all else is as
-- before.
pub record IsAttenuated (value : String) (e e' : Element) : Type 0 where
  pub tag : tag_of e' ≡ tag_of e
  pub children : children_of e' ≡ children_of e
  pub attributes :
      (k : String)
      → lookup k (attributes_of e') ≡ (
          if str_eq "attenuation_value" k && is_downlink e
          then some value
          else lookup k (attributes_of e))

-- One by one.
abbrev pub AllSet : String → List Element → List Element → Type 0
AllSet value [] [] = Unit
AllSet value (e ∷ es) (e' ∷ es') = IsAttenuated value e e' × AllSet value es es'
AllSet value _ _ = ⊥

set_down-IsAttenuated : (value : String) (e : Element) → IsAttenuated value e (set_down value e)
set_down-IsAttenuated value (element tag attrib children) = record {
  tag = ground arith;
  children = ground arith;
  attributes = λ k. ground (arith, lookup-insert "attenuation_value" k value attrib);
}

map-AllSet : (value : String) (es : List Element) → AllSet value es (map (set_down value) es)
map-AllSet value [] = tt
map-AllSet value (e ∷ es) = (set_down-IsAttenuated value e, map-AllSet value es)

module _ (write : Write) (value : String) where
  -- Where both writes succeed, both files are there and each setting has a link attribute,
  -- `set_downlink_attenuation` returns; then the settings of each file are those that it had, in
  -- their order, with the new attenuation on the downlink and all else as before, and no other file
  -- has changed.
  pub set_downlink_attenuation_lem :
      (d : Documents) (gw st : Element)
      → ((d : Documents) (path : String) (e : Element) → write d path e ≡ (ok tt, written d path e))
      → d gw_path ≡ some gw
      → d st_path ≡ some st
      → all_linked (findall ideal_attenuation gw) ≡ true
      → all_linked (findall ideal_attenuation st) ≡ true
      → (gw' st' : Element) × (set_downlink_attenuation write value d
          ≡ (ok tt, written (written d gw_path gw') st_path st'))
        × AllSet value (findall ideal_attenuation gw) (findall ideal_attenuation gw')
        × AllSet value (findall ideal_attenuation st) (findall ideal_attenuation st')
  unfolding set_downlink_attenuation changed_pair write_pair
  set_downlink_attenuation_lem d gw st writes p q linked_gw linked_st =
      let (gw', g) = change_all_total value ideal_attenuation gw linked_gw in
      let (st', s) = change_all_total value ideal_attenuation st linked_st in
      (
        gw',
        st',
        ap (write_pair write d) (
              then_ok-ok (parse d gw_path) _ (parse-some d gw_path p)
              ∙ then_ok-ok (parse d st_path) _ (parse-some d st_path q)
              ∙ then_ok-ok (change_all ideal_attenuation value gw) _ g
              ∙ then_ok-ok (change_all ideal_attenuation value st) _ s)
            ∙ ap (write_second write st') (writes d gw_path gw')
            ∙ writes (written d gw_path gw') st_path st',
        subst (AllSet value (findall ideal_attenuation gw))
            (sym (findall-change_all value ideal_attenuation gw g)) (map-AllSet value _),
        subst (AllSet value (findall ideal_attenuation st))
            (sym (findall-change_all value ideal_attenuation st s)) (map-AllSet value _),
      )

  -- The file is missing, or one of its settings has no link attribute.
  abbrev pub IsUnusable : Documents → String → Type 0
  IsUnusable d path =
      (d path ≡ none)
      ⊎ ((e : Element) × (d path ≡ some e) × (all_linked (findall ideal_attenuation e) ≡ false))

  -- A part that fails, and what it is for.
  abbrev Fails : Result (Element × Element) → Type 0
  Fails r = (x : Error) × (r ≡ err x)

  after_gw : Documents → Element → Result (Element × Element)
  after_gw d gw = then_ok (parse d st_path) λ st.
      then_ok (change_all ideal_attenuation value gw)
        λ gw'. then_ok (change_all ideal_attenuation value st) λ st'. ok (gw', st')

  bad_gw-Fails :
      (d : Documents) (gw : Element)
      → all_linked (findall ideal_attenuation gw) ≡ false
      → Fails (after_gw d gw)
  unfolding after_gw
  bad_gw-Fails d gw bad = elim (Option-cases (d st_path)) [
    | inl absent ↦ (file_error, then_ok-err (parse d st_path) _ (parse-none d st_path absent))
    | inr (st, there) ↦ (
      key_error,
      then_ok-ok (parse d st_path) _ (parse-some d st_path there)
          ∙ then_ok-err (change_all ideal_attenuation value gw) _
              (change_all_fails value ideal_attenuation gw bad),
    )
  ]

  bad_st-Fails : (d : Documents) (gw : Element) → IsUnusable d st_path → Fails (after_gw d gw)
  unfolding after_gw
  bad_st-Fails d gw (inl absent) =
      (file_error, then_ok-err (parse d st_path) _ (parse-none d st_path absent))
  bad_st-Fails d gw (inr (st, there, bad)) =
      elim (Bool-cases (all_linked (findall ideal_attenuation gw))) [
        | inl linked ↦
            let (gw', g) = change_all_total value ideal_attenuation gw linked in
            (
              key_error,
              then_ok-ok (parse d st_path) _ (parse-some d st_path there)
                  ∙ then_ok-ok (change_all ideal_attenuation value gw) _ g
                  ∙ then_ok-err (change_all ideal_attenuation value st) _
                      (change_all_fails value ideal_attenuation st bad),
            )
        | inr unlinked ↦ bad_gw-Fails d gw unlinked
      ]

  changed_pair-Fails :
      (d : Documents) → IsUnusable d gw_path ⊎ IsUnusable d st_path → Fails (changed_pair value d)
  unfolding changed_pair after_gw
  changed_pair-Fails d bad = elim (Option-cases (d gw_path)) [
    | inl absent ↦ (file_error, then_ok-err (parse d gw_path) _ (parse-none d gw_path absent))
    | inr (gw, there) ↦
        let (x, p) = later gw there bad in
        (x, then_ok-ok (parse d gw_path) _ (parse-some d gw_path there) ∙ p)
  ]
    where
      later :
          (gw : Element)
          → d gw_path ≡ some gw
          → IsUnusable d gw_path ⊎ IsUnusable d st_path
          → Fails (after_gw d gw)
      later gw there (inl (inl absent)) = absurd (cc (there, absent))
      later gw there (inl (inr (e, here, bad))) =
          let same : e ≡ gw = ground (arith, here, there) in
          bad_gw-Fails d gw (ap (λ x. all_linked (findall ideal_attenuation x)) (sym same) ∙ bad)
      later gw there (inr bad) = bad_st-Fails d gw bad

  -- If one of the two files is missing or one of their settings has no link attribute,
  -- `set_downlink_attenuation` raises an exception and no file has changed, however writes end.
  pub set_downlink_attenuation_error :
      (d : Documents)
      → IsUnusable d gw_path ⊎ IsUnusable d st_path
      → (x : Error) × (set_downlink_attenuation write value d ≡ (err x, d))
  unfolding set_downlink_attenuation write_pair
  set_downlink_attenuation_error d bad =
      let (x, p) = changed_pair-Fails d bad in (x, ap (write_pair write d) p)
