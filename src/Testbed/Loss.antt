-- ===== src/Testbed/Loss.antt =====
-- `set_plr_percentage` against the traffic control of the containers (tc with netem).
use qpep.Prelude.{
  ◌≡◌, ◌≢◌, refl, ◌∙◌, ap, subst, String, Bool, true, false, Option, none, some, List, [], ◌∷◌,
  ◌++◌, inl, inr, Option-cases,
}
use qpep.Prelude.Text.{contains, name_discrete}
use qpep.World.{ok, Event, container_get, exec_run, History, Services, M, pure, ◌>>=◌, perform}
use qpep.World.Inversion.{>>=-ok}
use qpep.Testbed.{
  tc_loss, get_container, get_container_if, add_if_missing, set_loss, set_plr_percentage,
}

-- What the method relies on when it sets the percentage `p`: `tc qdisc change` sets the loss of the device where a netem
-- discipline stands and fails with an RTNETLINK message where none does; `tc qdisc add` then
-- creates it; and no event in one container touches the device of another.
pub record Tc (svc : Services) (p : String) : Type 0 where
  -- the loss on the device of a container; `none` where no netem discipline stands
  pub loss : History → Option String → Option String
  pub gets :
      (h : History) (c : Option String) → (r : String) × (svc.reply h (container_get c) ≡ ok r)
  pub loss-get : (h : History) (c d : Option String) → loss (container_get d ∷ h) c ≡ loss h c
  pub change_set :
      (h : History) (c : Option String) (old : String)
      → loss h c ≡ some old
      → (r : String) × (svc.reply h (exec_run c (tc_loss "change" p) false) ≡ ok r)
        × (contains "RTNETLINK" r ≡ false)
        × (loss (exec_run c (tc_loss "change" p) false ∷ h) c ≡ some p)
  pub change_unset :
      (h : History) (c : Option String)
      → loss h c ≡ none
      → (r : String) × (svc.reply h (exec_run c (tc_loss "change" p) false) ≡ ok r)
        × (contains "RTNETLINK" r ≡ true)
        × (loss (exec_run c (tc_loss "change" p) false ∷ h) c ≡ none)
  pub add_unset :
      (h : History) (c : Option String)
      → loss h c ≡ none
      → (r : String) × (svc.reply h (exec_run c (tc_loss "add" p) false) ≡ ok r)
        × (loss (exec_run c (tc_loss "add" p) false ∷ h) c ≡ some p)
  pub loss-exec_ne :
      (h : History) (c d : Option String) (command : String)
      → d ≢ c
      → loss (exec_run d command false ∷ h) c ≡ loss h c

-- The containers that the flag chooses.
abbrev pub chosen : Services → Bool → String → List (Option String)
chosen svc true k = svc.getenv k ∷ []
chosen svc false k = []

module _ (svc : Services) (p : String) (tc : Tc svc p) where
  -- From `h` to `h'` the loss of `c` became `p`, and no other container's changed.
  abbrev Sets : Option String → History → History → Type 0
  Sets c h h' = (tc.loss h' c ≡ some p) × ((d : Option String) → c ≢ d → tc.loss h' d ≡ tc.loss h d)

  answered :
      {B : Type 0} (e : Event) (f : String → M B) (h : History) {r : String}
      → svc.reply h e ≡ ok r
      → (perform svc e >>= f) h ≡ f r (e ∷ h)
  answered e f h p = >>=-ok (perform svc e) f h (ap (λ x. (x, e ∷ h)) p)

  -- One round of the loop sets the loss, whether or not there was a discipline to change.
  set_loss_round :
      (c : Option String) (rest : List (Option String)) (h : History)
      → (h₁ : History) × (set_loss svc p (c ∷ rest) h ≡ set_loss svc p rest h₁) × Sets c h h₁
  unfolding set_loss add_if_missing
  set_loss_round c rest h = elim (Option-cases (tc.loss h c)) [
    | inl unset ↦
        let (r, e, missing, still) = tc.change_unset h c unset in
        let (r₂, e₂, set) = tc.add_unset _ c still in
        (
          _,
          answered _ _ h e ∙ rw missing (answered _ _ _ e₂),
          (set, λ d ne. tc.loss-exec_ne _ d c _ ne ∙ tc.loss-exec_ne _ d c _ ne),
        )
    | inr (old, was) ↦
        let (r, e, present, set) = tc.change_set h c old was in
        (
          _,
          answered _ _ h e ∙ rw present (>>=-ok (pure "") _ _ refl),
          (set, λ d ne. tc.loss-exec_ne _ d c _ ne),
        )
  ]

  abbrev pub AllLose : List (Option String) → History → Type 0
  AllLose [] h = Unit
  AllLose (c ∷ cs) h = (tc.loss h c ≡ some p) × AllLose cs h

  abbrev pub NoneIs : Option String → List (Option String) → Type 0
  NoneIs d [] = Unit
  NoneIs d (c ∷ cs) = (c ≢ d) × NoneIs d cs

  -- A container that has the loss keeps it, on the list or not.
  keeps_round :
      {c d : Option String} {h h₁ : History}
      → Sets c h h₁
      → tc.loss h d ≡ some p
      → tc.loss h₁ d ≡ some p
  keeps_round {c} {d} {h} {h₁} s q = elim (name_discrete c d) [
    | yes same ↦ subst (λ x. tc.loss h₁ x ≡ some p) same s.0
    | no other ↦ s.1 d other ∙ q
  ]

  -- What the loop leaves.
  record IsLossSet (cs : List (Option String)) (h h' : History) : Type 0 where
    all_set : AllLose cs h'
    kept : (d : Option String) → tc.loss h d ≡ some p → tc.loss h' d ≡ some p
    others : (d : Option String) → NoneIs d cs → tc.loss h' d ≡ tc.loss h d

  set_loss_total :
      (cs : List (Option String)) (h : History)
      → (h' : History) × (set_loss svc p cs h ≡ (ok tt, h')) × IsLossSet cs h h'
  set_loss_total [] h =
      (h, unfold set_loss in refl, record { all_set = tt; kept = λ d q. q; others = λ d _. refl })
  set_loss_total (c ∷ cs) h =
      let (h₁, e, s) = set_loss_round c cs h in
      let (h', e', l) = set_loss_total cs h₁ in
      (
        h',
        e ∙ e',
        record {
          all_set = (l.kept c s.0, l.all_set);
          kept = λ d q. l.kept d (keeps_round s q);
          others = λ d n. l.others d n.1 ∙ s.1 d n.0;
        },
      )

  get_container_if_total :
      (flag : Bool) (k : String) (h : History)
      → (h₁ : History) × (get_container_if svc flag k h ≡ (ok (chosen svc flag k), h₁))
        × ((d : Option String) → tc.loss h₁ d ≡ tc.loss h d)
  unfolding get_container_if get_container
  get_container_if_total true k h =
      let name = svc.getenv k in
      let (_, e) = tc.gets h name in
      (
        container_get name ∷ h,
        >>=-ok (get_container svc k) _ h (answered _ _ h e),
        λ d. tc.loss-get h d name,
      )
  get_container_if_total false k h = (h, refl, λ d. refl)

  -- Where tc behaves as `Tc` says, `set_plr_percentage` returns; then every container that its flags choose loses the given
  -- percentage, whether or not it had a netem discipline, and no other container changed.
  pub set_plr_percentage_lem :
      (st_out gw_out : Bool) (h : History)
      → (h' : History) × (set_plr_percentage svc p st_out gw_out h ≡ (ok tt, h'))
        × AllLose
            (chosen svc st_out "ST_CONTAINER_NAME" ++ chosen svc gw_out "GW_CONTAINER_NAME")
            h'
        × ((d : Option String)
            → NoneIs d
                (chosen svc st_out "ST_CONTAINER_NAME" ++ chosen svc gw_out "GW_CONTAINER_NAME")
            → tc.loss h' d ≡ tc.loss h d)
  unfolding set_plr_percentage
  set_plr_percentage_lem st_out gw_out h =
      let (h₁, e₁, same₁) = get_container_if_total st_out "ST_CONTAINER_NAME" h in
      let (h₂, e₂, same₂) = get_container_if_total gw_out "GW_CONTAINER_NAME" h₁ in
      let (h', e₃, l) = set_loss_total _ h₂ in
      (
        h',
        >>=-ok (get_container_if svc st_out _) _ h e₁
            ∙ >>=-ok (get_container_if svc gw_out _) _ h₁ e₂
            ∙ e₃,
        l.all_set,
        λ d n. l.others d n ∙ same₂ d ∙ same₁ d,
      )
