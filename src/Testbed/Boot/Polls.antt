-- ===== src/Testbed/Boot/Polls.antt =====
-- The two waits of `start_testbed` (testbeds.py): polling, up to a status that passes the test.
use qpep.Prelude.{
  zero, suc, ℕ, ◌≡◌, refl, sym, ap, subst, String, Bool, true, false, [], ◌∷◌, Bool-cases, inl, inr,
}
use text.Mathlib.Text.{◌==◌ as str_eq}
use qpep.World.{
  Result, ok, ⊤, Event, nc_connect, nc_recv_until, nc_recv, nc_send, History, ◌▹◌, Services, pure,
  int_env, catch_netcat,
}
use qpep.World.Grows.{Extends, Extends-trans, Grows, Grows-pure, Grows-catch_netcat, grows_rules}
use qpep.World.Inversion.{perform-eq-ok, >>=-eq-ok, catch_netcat-eq-ok}
use qpep.Testbed.{hosts_listed, all_running, connect_status, wait_launched, wait_running}

-- What the two waits do to the OpenSAND socket, and nothing else: no start, no command.
abbrev pub polls : Event → Bool
polls (nc_connect _) = true
polls (nc_recv_until _) = true
polls nc_recv = true
polls (nc_send line) = str_eq line "status\n"
polls _ = false

-- From `h`, polling events up to a read whose text passes the test, the last of `h'`.
pub record IsAnswered (svc : Services) (test : String → Bool) (h h' : History) : Type 0 where
  pub before : History
  pub text : String
  pub extends : Extends polls h before
  pub replied : svc.reply before nc_recv ≡ ok text
  pub passed : test text ≡ true
  pub last : h' ≡ nc_recv ∷ before

module _ (svc : Services) where
  IsAnswered-later :
      {test : String → Bool} {h h₁ h' : History}
      → Extends polls h h₁
      → IsAnswered svc test h₁ h'
      → IsAnswered svc test h h'
  IsAnswered-later x a = record {
    before = a.before;
    text = a.text;
    extends = Extends-trans x a.extends;
    replied = a.replied;
    passed = a.passed;
    last = a.last;
  }

  -- The polling loop returns on the first status with more than three RUNNING.
  pub wait_running-IsAnswered :
      (fuel : ℕ) (h : History) {h' : History}
      → wait_running svc fuel h ≡ (ok tt, h')
      → IsAnswered svc all_running h h'
  unfolding wait_running
  wait_running-IsAnswered zero h e = cc (ap (λ (p : Result ⊤ × History). p.0) e)
  wait_running-IsAnswered (suc fuel) h e =
      let (r₁, p₁, e₁) = perform-eq-ok svc (nc_send "status\n") _ h e in
      let (r₂, p₂, e₂) = perform-eq-ok svc nc_recv _ _ e₁ in
      elim (Bool-cases (all_running r₂)) [
        | inl passed ↦ record {
          before = nc_send "status\n" ∷ h;
          text = r₂;
          extends = (nc_send "status\n" ∷ [], refl, (refl, tt));
          replied = p₂;
          passed = passed;
          last = sym (ap (λ (p : Result ⊤ × History). p.1) (rw passed at e₂));
        }
        | inr waits ↦
            IsAnswered-later (nc_recv ∷ nc_send "status\n" ∷ [], refl, (refl, (refl, tt)))
              (wait_running-IsAnswered fuel _ (rw waits at e₂))
      ]

  connect_status-Grows : Grows polls (connect_status svc)
  unfolding connect_status
  connect_status-Grows = search grows_rules depth 14

  int_env-Grows : Grows polls (int_env svc "SAT_PORT_NUMBER")
  int_env-Grows = search grows_rules

  -- One round that saw the hosts ends in the status that lists them.
  connect_status-IsAnswered :
      (h : History) {b : Bool} {h' : History}
      → connect_status svc h ≡ (ok b, h')
      → b ≡ true
      → IsAnswered svc hosts_listed h h'
  unfolding connect_status
  connect_status-IsAnswered h {b} {h'} e yes_b =
      let (port, p₀, e₀) = >>=-eq-ok (int_env svc "SAT_PORT_NUMBER") _ h e in
      let (r₁, p₁, e₁) = perform-eq-ok svc (nc_connect port) _ _ e₀ in
      let (r₂, p₂, e₂) = perform-eq-ok svc (nc_recv_until "help") _ _ e₁ in
      let (r₃, p₃, e₃) = perform-eq-ok svc nc_recv _ _ e₂ in
      let (r₄, p₄, e₄) = perform-eq-ok svc (nc_send "status\n") _ _ e₃ in
      let (r₅, p₅, e₅) = perform-eq-ok svc nc_recv _ _ e₄ in
      record {
        before =
            (int_env svc "SAT_PORT_NUMBER" h).1
            ▹ (nc_connect port ∷ nc_recv_until "help" ∷ nc_recv ∷ nc_send "status\n" ∷ []);
        text = r₅;
        extends = Extends-trans (int_env-Grows.at h) (
          nc_send "status\n" ∷ nc_recv ∷ nc_recv_until "help" ∷ nc_connect port ∷ [],
          refl,
          (refl, (refl, (refl, (refl, tt)))),
        );
        replied = p₅;
        passed = cc (ap (λ (p : Result Bool × History). p.0) e₅, yes_b);
        last = sym (ap (λ (p : Result Bool × History). p.1) e₅);
      }

  round-Grows : Grows polls (catch_netcat (connect_status svc) (pure false))
  round-Grows =
      Grows-catch_netcat (connect_status svc) (pure false) connect_status-Grows (Grows-pure false)

  round-IsAnswered :
      (h : History) {b : Bool} {h' : History}
      → catch_netcat (connect_status svc) (pure false) h ≡ (ok b, h')
      → b ≡ true
      → IsAnswered svc hosts_listed h h'
  round-IsAnswered h e seen = elim (catch_netcat-eq-ok (connect_status svc) (pure false) h e) [
    | inl q ↦ connect_status-IsAnswered h q seen
    | inr (_, q) ↦ cc (ap (λ (p : Result Bool × History). p.0) q, seen)
  ]

  -- The waiting loop returns on the first status that lists the three hosts.
  pub wait_launched-IsAnswered :
      (fuel : ℕ) (h : History) {h' : History}
      → wait_launched svc fuel h ≡ (ok tt, h')
      → IsAnswered svc hosts_listed h h'
  unfolding wait_launched
  wait_launched-IsAnswered zero h e = cc (ap (λ (p : Result ⊤ × History). p.0) e)
  wait_launched-IsAnswered (suc fuel) h {h'} e =
      let (b, p, e₁) = >>=-eq-ok (catch_netcat (connect_status svc) (pure false)) _ h e in
      elim (Bool-cases b) [
        | inl seen ↦
            subst (IsAnswered svc hosts_listed h)
              (ap (λ (p : Result ⊤ × History). p.1) (rw seen at e₁)) (round-IsAnswered h p seen)
        | inr unseen ↦
            IsAnswered-later (round-Grows.at h) (wait_launched-IsAnswered fuel _ (rw unseen at e₁))
      ]
