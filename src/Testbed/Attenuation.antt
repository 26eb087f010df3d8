-- ===== src/Testbed/Attenuation.antt =====
-- `set_downlink_attenuation` of opensand-testbed/testbeds.py. A file is the XML tree that
-- ElementTree parses it to and writes it from; `none` where there is no file. What an exception leaves
-- in the trees is not written, so a change returns a new tree.
pub mod Trees
pub mod Settings
mod Examples
use qpep.Prelude.{String, Bool, true, false, Option, none, some, List, [], ◌∷◌, ◌++◌, if◌then◌else◌}
use text.Mathlib.Text.{◌==◌ as str_eq}
use qpep.Dict.{Dict, lookup, insert}
use qpep.World.{Error, Result, ok, err, spinning, key_error, file_error, ⊤}

mutual
  -- The tag, the attributes and the children.
  pub data Element : Type 0 where
    element : String → Dict String → Elements → Element

  pub data Elements : Type 0 where
    no_more : Elements
    also : Element → Elements → Elements

abbrev pub tag_of : Element → String
tag_of (element tag attrib children) = tag

-- `findall` of a path of tags.
mutual
  pub findall : List String → Element → List Element
  findall [] e = e ∷ []
  findall (tag ∷ tags) (element t attrib children) = findall_in tag tags children

  pub findall_in : String → List String → Elements → List Element
  findall_in tag tags no_more = []
  findall_in tag tags (also e es) =
      (if str_eq (tag_of e) tag then findall tags e else []) ++ findall_in tag tags es

abbrev pub ideal_attenuation : List String
ideal_attenuation = "ideal" ∷ "ideal_attenuations" ∷ "ideal_attenuation" ∷ []

-- `if setting.attrib["link"] == "down": setting.set(…)`, once the attribute is there
abbrev pub set_down : String → Element → Element
set_down value (element tag attrib children) = elim (lookup "link" attrib) [
  | none ↦ element tag attrib children
  | some link ↦
      if str_eq link "down"
      then element tag (insert "attenuation_value" value attrib) children
      else element tag attrib children
]

abbrev pub has_link : Element → Option String
has_link (element tag attrib children) = lookup "link" attrib

abbrev pub change_if : Option String → Element → Result Element
change_if none e = err key_error
change_if (some link) e = ok e

-- One round of the inner loop.
abbrev pub change_setting : String → Element → Result Element
change_setting value e = change_if (has_link e) (set_down value e)

-- What follows where a part is done without an exception.
pub then_ok : {A B : Type 0} → Result A → (A → Result B) → Result B
then_ok (ok a) k = k a
then_ok (err e) k = err e
then_ok spinning k = spinning

-- The inner loop: every element that `findall` reaches is changed in its place.
mutual
  pub change_all : List String → String → Element → Result Element
  change_all [] value e = change_setting value e
  change_all (tag ∷ tags) value (element t attrib children) =
      then_ok (change_in tag tags value children) λ children'. ok (element t attrib children')

  pub change_in : String → List String → String → Elements → Result Elements
  change_in tag tags value no_more = ok no_more
  change_in tag tags value (also e es) =
      then_ok (if str_eq (tag_of e) tag then change_all tags value e else ok e)
        λ e'. then_ok (change_in tag tags value es) λ es'. ok (also e' es')

-- The XML files by path.
abbrev pub Documents : Type 0
Documents = String → Option Element

abbrev pub parse : Documents → String → Result Element
parse d path = elim (d path) [ none ↦ err file_error | some e ↦ ok e ]

abbrev pub written : Documents → String → Element → Documents
written d path e other = if str_eq path other then some e else d other

abbrev pub gw_path : String
gw_path = "satellite/attenuation_scenario/gw0/plugins/ideal.conf"

abbrev pub st_path : String
st_path = "satellite/attenuation_scenario/st1/plugins/ideal.conf"

-- Both files are read and changed before either is written.
pub changed_pair : String → Documents → Result (Element × Element)
changed_pair value d = then_ok (parse d gw_path) λ gw. then_ok (parse d st_path) λ st.
    then_ok (change_all ideal_attenuation value gw)
      λ gw'. then_ok (change_all ideal_attenuation value st) λ st'. ok (gw', st')

-- `ElementTree.write`: it may raise an exception, and what is then in the file is its own affair.
abbrev pub Write : Type 0
Write = Documents → String → Element → Result ⊤ × Documents

module _ (write : Write) where
  -- What follows the first write.
  abbrev pub write_second : Element → Result ⊤ × Documents → Result ⊤ × Documents
  write_second st (ok _, d) = write d st_path st
  write_second st (err e, d) = (err e, d)
  write_second st (spinning, d) = (spinning, d)

  pub write_pair : Documents → Result (Element × Element) → Result ⊤ × Documents
  write_pair d (ok (gw, st)) = write_second st (write d gw_path gw)
  write_pair d (err e) = (err e, d)
  write_pair d spinning = (spinning, d)

  -- `set_downlink_attenuation`, with `str(attenuation_value)`
  pub set_downlink_attenuation : String → Documents → Result ⊤ × Documents
  set_downlink_attenuation value d = write_pair d (changed_pair value d)
