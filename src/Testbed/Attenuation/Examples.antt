-- ===== src/Testbed/Attenuation/Examples.antt =====
-- Attenuation files with one downlink and one uplink setting, and a file without the attribute.
use qpep.Prelude.{◌≡◌, refl, String, some, [], ◌∷◌, inr}
use qpep.Dict.{lookup}
use qpep.World.{Error, file_error, ok, err}
use qpep.Testbed.Attenuation.{
  Element, element, Elements, no_more, also, findall, ideal_attenuation, then_ok, change_all,
  Documents, written, Write, gw_path, st_path, changed_pair, write_pair, set_downlink_attenuation,
}
use qpep.Testbed.Attenuation.Settings.{
  AllSet, set_downlink_attenuation_lem, set_downlink_attenuation_error,
}

abbrev document : Elements → Element
document settings =
    element "configuration" []
      (also (element "ideal" [] (also (element "ideal_attenuations" [] settings) no_more)) no_more)

abbrev setting : String → Element
setting link =
    element "ideal_attenuation" (("link", link) ∷ ("attenuation_value", "0") ∷ []) no_more

abbrev both_links : Element
both_links = document (also (setting "up") (also (setting "down") no_more))

abbrev documents : Documents
documents path = some both_links

-- Writes that succeed, and writes that all fail and empty their file.
abbrev good : Write
good d path e = (ok tt, written d path e)

abbrev full_disk : Write
full_disk d path e = (err file_error, written d path (document no_more))

set_downlink_attenuation_example :
    (gw' st' : Element) × (set_downlink_attenuation good "7" documents
      ≡ (ok tt, written (written documents gw_path gw') st_path st'))
    × AllSet "7" (findall ideal_attenuation both_links) (findall ideal_attenuation gw')
    × AllSet "7" (findall ideal_attenuation both_links) (findall ideal_attenuation st')
unfolding findall lookup
set_downlink_attenuation_example =
    set_downlink_attenuation_lem good "7" documents both_links both_links (λ d path e. refl) refl
      refl refl refl

abbrev no_links : Documents
no_links path = some (document (also (element "ideal_attenuation" [] no_more) no_more))

set_downlink_attenuation_error_example :
    (x : Error) × (set_downlink_attenuation full_disk "7" no_links ≡ (err x, no_links))
unfolding findall lookup
set_downlink_attenuation_error_example =
    set_downlink_attenuation_error full_disk "7" no_links (inr (inr (_, refl, refl)))

-- A first write that fails leaves what it did.
full_disk_raises : (set_downlink_attenuation full_disk "7" documents).0 ≡ err file_error
unfolding set_downlink_attenuation changed_pair write_pair change_all then_ok lookup
full_disk_raises = refl
