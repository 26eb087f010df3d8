-- ===== src/Testbed/Attenuation/Trees.antt =====
-- What the loops of `set_downlink_attenuation` (testbeds.py) do to a tree of XML elements.
use qpep.Prelude.{
  ◌≡◌, refl, sym, ap, ◌∙◌, String, Bool, true, false, none, some, List, [], ◌∷◌, ◌++◌, ◌&&◌,
  if◌then◌else◌, Option-cases, Bool-cases, inl, inr, arith,
}
use mathlib.Core.List.{map, map-append}
use text.Mathlib.Text.{◌==◌ as str_eq}
use qpep.World.{Error, Result, ok, err, spinning, key_error, file_error}
use qpep.Testbed.Attenuation.{
  Element, element, Elements, no_more, also, tag_of, findall, findall_in, set_down, has_link,
  change_if, change_setting, then_ok, change_all, change_in, Documents, parse,
}

then_ok-eq-ok :
    {A B : Type 0} (r : Result A) (k : A → Result B) {b : B}
    → then_ok r k ≡ ok b
    → (a : A) × (r ≡ ok a) × (k a ≡ ok b)
unfolding then_ok
then_ok-eq-ok (ok a) k e = (a, refl, e)
then_ok-eq-ok (err x) k e = cc
then_ok-eq-ok spinning k e = cc

ok-injective : {A : Type 0} {a b : A} → ok a ≡ ok b → a ≡ b
ok-injective p = cc

set_down-tag : (value : String) (e : Element) → tag_of (set_down value e) ≡ tag_of e
set_down-tag value (element t attrib children) = ground arith

change_setting-eq-ok :
    (value : String) (e : Element) {e' : Element}
    → change_setting value e ≡ ok e'
    → set_down value e ≡ e'
change_setting-eq-ok value e p = elim (Option-cases (has_link e)) [
  | inl absent ↦ cc (ap (λ o. change_if o (set_down value e)) (sym absent) ∙ p)
  | inr (link, there) ↦ ok-injective (ap (λ o. change_if o (set_down value e)) (sym there) ∙ p)
]

change_all-tag :
    (tags : List String) (value : String) (e : Element) {e' : Element}
    → change_all tags value e ≡ ok e'
    → tag_of e' ≡ tag_of e
unfolding change_all
change_all-tag [] value e p =
    sym (ap tag_of (change_setting-eq-ok value e p)) ∙ set_down-tag value e
change_all-tag (tag ∷ tags) value (element t attrib children) p =
    let (children', _, q) = then_ok-eq-ok (change_in tag tags value children) _ p in
    sym (ap tag_of (ok-injective q))

abbrev pub is_linked : Element → Bool
is_linked e = elim (has_link e) [ none ↦ false | some link ↦ true ]

abbrev pub all_linked : List Element → Bool
all_linked [] = true
all_linked (e ∷ es) = is_linked e && all_linked es

all_linked-append :
    (es fs : List Element)
    → all_linked (es ++ fs) ≡ true
    → (all_linked es ≡ true) × (all_linked fs ≡ true)
all_linked-append [] fs h = (refl, h)
all_linked-append (e ∷ es) fs h =
    let (p, q) = all_linked-append es fs (ground (arith, h)) in (ground (arith, h, p), q)

pub then_ok-ok :
    {A B : Type 0} (r : Result A) (k : A → Result B) {a : A} → r ≡ ok a → then_ok r k ≡ k a
unfolding then_ok
then_ok-ok r k p = ap (λ x. then_ok x k) p

pub then_ok-err :
    {A B : Type 0} (r : Result A) (k : A → Result B) {x : Error} → r ≡ err x → then_ok r k ≡ err x
unfolding then_ok
then_ok-err r k p = ap (λ y. then_ok y k) p

pub parse-none : (d : Documents) (path : String) → d path ≡ none → parse d path ≡ err file_error
parse-none d path p = ground (arith, p)

pub parse-some :
    (d : Documents) (path : String) {e : Element} → d path ≡ some e → parse d path ≡ ok e
parse-some d path p = ground (arith, p)

all_linked-rest :
    (es fs : List Element)
    → all_linked es ≡ true
    → all_linked (es ++ fs) ≡ false
    → all_linked fs ≡ false
all_linked-rest [] fs linked h = h
all_linked-rest (e ∷ es) fs linked h =
    all_linked-rest es fs (ground (arith, linked)) (ground (arith, linked, h))

module _ (value : String) where
  -- Of a child whose tag is on the path, and of any other.
  head_found :
      (hit : Bool) (tag : String) (tags : List String) (e : Element) {e' : Element}
      → str_eq (tag_of e) tag ≡ hit
      → (if hit then change_all tags value e else ok e) ≡ ok e'
      → (change_all tags value e ≡ ok e' → findall tags e' ≡ map (set_down value) (findall tags e))
      → (if str_eq (tag_of e') tag then findall tags e' else [])
        ≡ map (set_down value) (if hit then findall tags e else [])
  head_found true tag tags e {e'} hit p ih =
      let hit' : str_eq (tag_of e') tag ≡ true =
        ap (λ t. str_eq t tag) (change_all-tag tags value e p) ∙ hit in
      rw hit' (ih p)
  head_found false tag tags e {e'} hit p ih =
      let miss : str_eq (tag_of e') tag ≡ false =
        ap (λ x. str_eq (tag_of x) tag) (sym (ok-injective p)) ∙ hit in
      rw miss refl

  children_found :
      (tag : String) (tags : List String)
      → ((e e' : Element)
          → change_all tags value e ≡ ok e'
          → findall tags e' ≡ map (set_down value) (findall tags e))
      → (es : Elements) {es' : Elements} → change_in tag tags value es ≡ ok es'
      → findall_in tag tags es' ≡ map (set_down value) (findall_in tag tags es)
  unfolding change_all findall
  children_found tag tags ih no_more p = ap (findall_in tag tags) (sym (ok-injective p))
  children_found tag tags ih (also e es) p =
      let (e₁, q₁, r₁) =
        then_ok-eq-ok (if str_eq (tag_of e) tag then change_all tags value e else ok e) _ p in
      let (es₁, q₂, r₂) = then_ok-eq-ok (change_in tag tags value es) _ r₁ in
      ap (findall_in tag tags) (sym (ok-injective r₂))
      ∙ ap (λ l. l ++ findall_in tag tags es₁)
          (head_found (str_eq (tag_of e) tag) tag tags e refl q₁ (ih e e₁))
      ∙ ap (λ l. map (set_down value) (if str_eq (tag_of e) tag then findall tags e else []) ++ l)
          (children_found tag tags ih es q₂)
      ∙ sym (
          map-append (set_down value) (if str_eq (tag_of e) tag then findall tags e else [])
            (findall_in tag tags es))

  pub findall-change_all :
      (tags : List String) (e : Element) {e' : Element}
      → change_all tags value e ≡ ok e'
      → findall tags e' ≡ map (set_down value) (findall tags e)
  unfolding change_all findall
  findall-change_all [] e p = ap (λ x. x ∷ []) (sym (change_setting-eq-ok value e p))
  findall-change_all (tag ∷ tags) (element t attrib children) p =
      let (children', q, r) = then_ok-eq-ok (change_in tag tags value children) _ p in
      ap (findall (tag ∷ tags)) (sym (ok-injective r))
      ∙ children_found tag tags (λ e e' h. findall-change_all tags e h) children q

  change_setting_total :
      (e : Element) → is_linked e ≡ true → (e' : Element) × (change_setting value e ≡ ok e')
  change_setting_total e h = elim (Option-cases (has_link e)) [
    | inl absent ↦ absurd (ground (arith, h, absent))
    | inr (link, there) ↦ (set_down value e, ap (λ o. change_if o (set_down value e)) there)
  ]

  head_total :
      (hit : Bool) (tags : List String) (e : Element)
      → all_linked (if hit then findall tags e else []) ≡ true
      → (all_linked (findall tags e) ≡ true → (e' : Element) × (change_all tags value e ≡ ok e'))
      → (e' : Element) × ((if hit then change_all tags value e else ok e) ≡ ok e')
  head_total true tags e h ih = ih h
  head_total false tags e h ih = (e, refl)

  children_total :
      (tag : String) (tags : List String)
      → ((e : Element)
          → all_linked (findall tags e) ≡ true
          → (e' : Element) × (change_all tags value e ≡ ok e'))
      → (es : Elements) → all_linked (findall_in tag tags es) ≡ true
      → (es' : Elements) × (change_in tag tags value es ≡ ok es')
  unfolding change_all findall
  children_total tag tags ih no_more h = (no_more, refl)
  children_total tag tags ih (also e es) h =
      let found = if str_eq (tag_of e) tag then findall tags e else [] in
      let (h₁, h₂) = all_linked-append found (findall_in tag tags es) h in
      let (e', p) = head_total (str_eq (tag_of e) tag) tags e h₁ (ih e) in
      let (es', q) = children_total tag tags ih es h₂ in
      (
        also e' es',
        then_ok-ok (if str_eq (tag_of e) tag then change_all tags value e else ok e) _ p
            ∙ then_ok-ok (change_in tag tags value es) _ q,
      )

  pub change_all_total :
      (tags : List String) (e : Element)
      → all_linked (findall tags e) ≡ true
      → (e' : Element) × (change_all tags value e ≡ ok e')
  unfolding change_all findall
  change_all_total [] e h = change_setting_total e (ground (arith, h))
  change_all_total (tag ∷ tags) (element t attrib children) h =
      let (children', p) = children_total tag tags (change_all_total tags) children h in
      (element t attrib children', then_ok-ok (change_in tag tags value children) _ p)

  change_setting_fails :
      (e : Element) → is_linked e ≡ false → change_setting value e ≡ err key_error
  change_setting_fails e h = elim (Option-cases (has_link e)) [
    | inl absent ↦ ap (λ o. change_if o (set_down value e)) absent
    | inr (link, there) ↦ absurd (ground (arith, h, there))
  ]

  head_fails :
      (hit : Bool) (tags : List String) (e : Element)
      → all_linked (if hit then findall tags e else []) ≡ false
      → (all_linked (findall tags e) ≡ false → change_all tags value e ≡ err key_error)
      → (if hit then change_all tags value e else ok e) ≡ err key_error
  head_fails true tags e h ih = ih h
  head_fails false tags e h ih = cc h

  children_fail :
      (tag : String) (tags : List String)
      → ((e : Element)
          → all_linked (findall tags e) ≡ false
          → change_all tags value e ≡ err key_error)
      → (es : Elements) → all_linked (findall_in tag tags es) ≡ false
      → change_in tag tags value es ≡ err key_error
  unfolding change_all findall then_ok
  children_fail tag tags ih no_more h = cc h
  children_fail tag tags ih (also e es) h =
      let found = if str_eq (tag_of e) tag then findall tags e else [] in
      let head = if str_eq (tag_of e) tag then change_all tags value e else ok e in
      elim (Bool-cases (all_linked found)) [
        | inl linked ↦
            let (e', p) =
              head_total (str_eq (tag_of e) tag) tags e linked (change_all_total tags e) in
            let q =
              children_fail tag tags ih es
                (all_linked-rest found (findall_in tag tags es) linked h) in
            then_ok-ok head _ p ∙ ap (λ r. then_ok r (λ es'. ok (also e' es'))) q
        | inr unlinked ↦
            ap
              (λ r. then_ok r (λ e'. then_ok (change_in tag tags value es) λ es'. ok (also e' es')))
              (head_fails (str_eq (tag_of e) tag) tags e unlinked (ih e))
      ]

  -- A setting without the attribute ends the change with a KeyError.
  pub change_all_fails :
      (tags : List String) (e : Element)
      → all_linked (findall tags e) ≡ false
      → change_all tags value e ≡ err key_error
  unfolding change_all findall then_ok
  change_all_fails [] e h = change_setting_fails e (ground (arith, h))
  change_all_fails (tag ∷ tags) (element t attrib children) h =
      ap (λ r. then_ok r (λ children'. ok (element t attrib children')))
        (children_fail tag tags (change_all_fails tags) children h)
