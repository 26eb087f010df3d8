-- ===== src/Browser/Launch.antt =====
-- What stands in the way of a launch, and what a launch leaves.
use qpep.Prelude.{
  ℕ, ◌≡◌, ◌≢◌, ◌∙◌, ◌⊎◌, subst, refl, sym, ap, String, Bool, true, false, Option, none, some, List,
  [], ◌∷◌,
}
use text.Mathlib.Text.{◌==◌ as str_eq}
use qpep.World.{Result, ok, container_get, exec_run, Services, ⊤, M, Event, History, ◌▹◌, ◌>>=◌}
use qpep.World.Inversion.{>>=-eq-ok}
use qpep.Testbed.{launch_web_browser, launch_wireshark}
use qpep.Testbed.Boot.{get_container-eq-ok}
use qpep.Scenario.{deploy_scenario}
use qpep.Scenario.Fresh.{IsFreshClass, deploy_scenario-IsFreshClass}
use qpep.Browser.{
  CommandLine, Args, or_argument_error, parse_args, testbed_of, wireshark_if, launch, main,
}

abbrev pub browser_events : Services → List Event
browser_events svc =
    let workstation = svc.getenv "WS_ST_CONTAINER_NAME" in
    container_get workstation ∷ exec_run workstation "qupzilla" true ∷ []

abbrev pub wireshark_events : Services → Bool → List Event
wireshark_events svc true =
    let satellite = svc.getenv "SAT_CONTAINER_NAME" in
    container_get satellite ∷ exec_run satellite "wireshark" true ∷ []
wireshark_events svc false = []

-- One of the four texts is not what it should be: an address that is neither `linux` nor one of
-- IPv4, a display that is no number, or a scenario or an orbit that is none of the choices.
abbrev pub IsBad : (String → Bool) → Services → CommandLine → Type 0
IsBad is_ipv4_network svc c =
    ((c.xhost ≢ "linux") × (is_ipv4_network c.xhost ≡ false))
    ⊎ ((s : String) × (c.display ≡ some s) × (svc.int_of s ≡ none))
    ⊎ ((s : String) × (c.scenario ≡ some s)
        × (s ≢ "plain")
        × (s ≢ "qpep")
        × (s ≢ "pepsal_distributed")
        × (s ≢ "pepsal_integrated")
        × (s ≢ "open_vpn"))
    ⊎ ((s : String) × (c.orbit ≡ some s) × (s ≢ "GEO") × (s ≢ "LEO"))

module _ (svc : Services) where
  launch_web_browser_lem :
      (h : History) {r : String} {h' : History}
      → launch_web_browser svc h ≡ (ok r, h')
      → h ▹ browser_events svc ≡ h'
  unfolding launch_web_browser
  launch_web_browser_lem h e =
      ap (λ (x : Result String × History). x.1)
        (get_container-eq-ok svc "WS_ST_CONTAINER_NAME" _ h e)

  wireshark_if_lem :
      (b : Bool) (h : History) {h' : History}
      → wireshark_if svc b h ≡ (ok tt, h')
      → h ▹ wireshark_events svc b ≡ h'
  unfolding launch_wireshark
  wireshark_if_lem true h e =
      let (_, p, e₁) = >>=-eq-ok (launch_wireshark svc) _ h e in
      ap (λ (x : Result String × History). x.1) (get_container-eq-ok svc "SAT_CONTAINER_NAME" _ h p)
      ∙ ap (λ (x : Result ⊤ × History). x.1) e₁
  wireshark_if_lem false h e = ap (λ (x : Result ⊤ × History). x.1) e

module _ {A B : Type 0} where
  option_then :
      (o : Option A) (f : A → M B) (h : History)
      → ((a : A) → (f a h).1 ≡ h)
      → ((or_argument_error o >>= f) h).1 ≡ h
  unfolding ◌>>=◌
  option_then none f h k = refl
  option_then (some a) f h k = k a

module _ (is_ipv4_network : String → Bool) (svc : Services) where
  -- The command line is read without a call of the services.
  parse_args-quiet : (c : CommandLine) (h : History) → (parse_args is_ipv4_network svc c h).1 ≡ h
  unfolding parse_args
  parse_args-quiet c h =
      option_then _ _ h
        λ _. option_then _ _ h λ _. option_then _ _ h λ _. option_then _ _ h λ _. refl

  -- If `main` returns, and the names of the two ends of the tunnel are distinct, then the arguments
  -- were good; the scenario of the command line was deployed on the testbed of its orbit, fresh
  -- where it is one of QPEP; and only then the browser was started, and Wireshark where it was
  -- asked for.
  pub main-IsFreshClass :
      (fuel : ℕ) (c : CommandLine) (h : History) {h' : History}
      → svc.getenv "ST_CONTAINER_NAME" ≢ svc.getenv "WS_GW_CONTAINER_NAME"
      → main is_ipv4_network svc fuel c h ≡ (ok tt, h')
      → (args : Args) × (deployed : History) × (parse_args is_ipv4_network svc c h ≡ (ok args, h))
        × (deploy_scenario svc fuel
              (record { class = args.class; testbed = testbed_of args })
              false
              h
            ≡ (ok tt, deployed))
        × IsFreshClass svc args.class deployed
        × (h' ≡ deployed ▹ browser_events svc ▹ wireshark_events svc args.wireshark)
  unfolding main launch
  main-IsFreshClass fuel c h {h'} ne e =
      let (args, p, e₁) = >>=-eq-ok (parse_args is_ipv4_network svc c) _ h e in
      let e₂ = subst (λ x. launch svc fuel args x ≡ (ok tt, h')) (parse_args-quiet c h) e₁ in
      let (_, q, e₃) = >>=-eq-ok (deploy_scenario svc fuel _ false) _ h e₂ in
      let (_, r, e₄) = >>=-eq-ok (launch_web_browser svc) _ _ e₃ in
      (
        args,
        _,
        p ∙ ap (λ x. (ok args, x)) (parse_args-quiet c h),
        q,
        deploy_scenario-IsFreshClass svc fuel _ false h ne q,
        sym (
            ap (λ x. x ▹ wireshark_events svc args.wireshark) (launch_web_browser_lem svc _ r)
            ∙ wireshark_if_lem svc args.wireshark _ e₄),
      )
