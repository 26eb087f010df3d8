-- ===== src/Testbed/Examples/Loss.antt =====
-- Packet loss on services that answer every call.
use qpep.Prelude.{
  ◌≡◌, refl, sym, ap, subst, ◌∙◌, String, Bool, true, false, Option, none, some, [], ◌∷◌,
  if◌then◌else◌,
}
use qpep.Prelude.Text.{occurs, contains}
use text.Mathlib.Text.{◌==◌ as str_eq}
use qpep.World.{Result, ok, Event, exec_run, History, Services}
use qpep.Testbed.{set_plr_percentage, tc_loss}
use qpep.Testbed.Loss.{Tc, AllLose, NoneIs, set_plr_percentage_lem}
use qpep.Scenario.Processes.{same_name, same_name_self, same_name_ne}

abbrev add_five : String
add_five = tc_loss "add" "5"

abbrev change_five : String
change_five = tc_loss "change" "5"

-- The loss of a device: no container has a netem discipline at first.
abbrev changed : Option String → Option String
changed none = none
changed (some _) = some "5"

abbrev after_command : String → Option String → Option String
after_command command before =
    if str_eq command add_five
    then some "5"
    else if str_eq command change_five
    then changed before
    else before

abbrev loss : History → Option String → Option String
loss [] c = none
loss (exec_run d command _ ∷ h) c =
    let before = loss h c in if same_name d c then after_command command before else before
loss (_ ∷ h) c = loss h c

abbrev answer : Bool → Option String → String
answer true none = "RTNETLINK answers: No such file or directory"
answer _ _ = ""

abbrev reply : History → Event → Result String
reply h (exec_run c command _) = ok (answer (str_eq command change_five) (loss h c))
reply h _ = ok ""

abbrev pub services : Services
services = record { getenv = λ k. some k; int_of = λ s. some 1234; reply = reply }

loss-exec :
    (h : History) (c : Option String) (command : String)
    → loss (exec_run c command false ∷ h) c ≡ after_command command (loss h c)
loss-exec h c command = rw (same_name_self c) refl

services-Tc : Tc services "5"
unfolding occurs
services-Tc = record {
  loss = loss;
  gets = λ h c. ("", refl);
  loss-get = λ h c d. refl;
  change_set = λ h c old p. (
    answer true (loss h c),
    refl,
    subst (λ l. contains "RTNETLINK" (answer true l) ≡ false) (sym p) refl,
    loss-exec h c change_five ∙ ap changed p,
  );
  change_unset = λ h c p. (
    answer true (loss h c),
    refl,
    subst (λ l. contains "RTNETLINK" (answer true l) ≡ true) (sym p) refl,
    loss-exec h c change_five ∙ ap changed p,
  );
  add_unset = λ h c p. (answer false (loss h c), refl, loss-exec h c add_five);
  loss-exec_ne = λ h c d command ne. rw (same_name_ne d c ne) refl;
}

-- Both ends of the satellite link lose five percent.
set_plr_percentage_example :
    (h' : History) × (set_plr_percentage services "5" true true [] ≡ (ok tt, h'))
    × AllLose services "5" services-Tc (some "ST_CONTAINER_NAME" ∷ some "GW_CONTAINER_NAME" ∷ []) h'
    × ((d : Option String)
        → NoneIs services "5" services-Tc d
            (some "ST_CONTAINER_NAME" ∷ some "GW_CONTAINER_NAME" ∷ [])
        → loss h' d ≡ none)
unfolding services-Tc
set_plr_percentage_example = set_plr_percentage_lem services "5" services-Tc true true []
