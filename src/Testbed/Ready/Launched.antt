-- ===== src/Testbed/Ready/Launched.antt =====
-- `wait_launched` (testbeds.py) returns once OpenSAND is up.
use qpep.Prelude.{
  ℕ, zero, suc, ◌+◌, ◌<◌, ◌≡◌, refl, ◌∙◌, ap, String, Bool, true, false, some, ◌∷◌, inl, inr, arith,
}
use native.Mathlib.Decide.{dec_le}
use qpep.World.{
  netcat_error, Result, ok, err, spinning, ⊤, Event, nc_connect, nc_recv_until, nc_recv, nc_send,
  History, Services, M, pure, ◌>>=◌, perform, int_env, catch_netcat,
}
use qpep.World.Inversion.{>>=-ok, >>=-err}
use qpep.Testbed.{connect_status, wait_launched}
use qpep.Testbed.Ready.Health.{one_more, connects, is_compose, is_socket, Healthy}

module _ (svc : Services) (n m : ℕ) (ready : Healthy svc n m) where
  -- A round that begins at `h₀` leaves one more connection behind. OpenSAND is up if it returns
  -- true, and it does if OpenSAND was up before.
  abbrev Outcome : History → Result Bool × History → Type 0
  Outcome h₀ (ok b, h) =
      (b ≡ true → ready.Up h) × (connects h ≡ one_more (connects h₀)) × (ready.Up h₀ → b ≡ true)
  Outcome h₀ (err netcat_error, h) = (connects h ≡ one_more (connects h₀)) × (¬ (ready.Up h₀))
  Outcome h₀ _ = ⊥

  socket_step :
      (h₀ : History) (e : Event) (f : String → M Bool) (h : History)
      → ((r : String) → svc.reply h e ≡ ok r → Outcome h₀ (f r (e ∷ h)))
      → connects (e ∷ h) ≡ one_more (connects h₀)
      → (is_socket e ≡ true) × (is_compose e ≡ false)
      → (ready.Up h₀ → ready.Up h)
      → Outcome h₀ ((perform svc e >>= f) h)
  socket_step h₀ e f h k count kind up = elim (ready.socket h e kind.0) [
    | inl (r, p) ↦ rw (>>=-ok (perform svc e) f h (ap (λ x. (x, e ∷ h)) p)) (k r p)
    | inr p ↦
        rw (>>=-err (perform svc e) f h (ap (λ x. (x, e ∷ h)) p))
          (count, λ u. let (r, q) = ready.answers h e kind.1 (up u) in cc (p, q))
  ]

  stays :
      {h₀ h : History} (e : Event)
      → is_compose e ≡ false
      → (ready.Up h₀ → ready.Up h)
      → ready.Up h₀
      → ready.Up (e ∷ h)
  stays e kind up u = ready.stays_up _ e kind (up u)

  connect_status-Outcome : (h : History) → Outcome h (connect_status svc h)
  unfolding connect_status
  connect_status-Outcome h =
      let connected : ready.Up h → ready.Up (nc_connect ready.port ∷ h) = stays _ refl (λ u. u) in
      let greeted = stays (nc_recv_until "help") refl connected in
      let drained = stays nc_recv refl greeted in
      let asked = stays (nc_send "status\n") refl drained in
      rw (>>=-ok (int_env svc "SAT_PORT_NUMBER") _ h (ap (λ k. k h) ready.port_set)) (
        socket_step h _ _ _
          (λ _ _.
            socket_step h _ _ _
              (λ _ _.
                socket_step h _ _ _
                  (λ _ _.
                    socket_step h _ _ _
                      (λ _ _.
                        socket_step h _ _ _
                          (λ r p. (
                            λ seen.
                                ready.stays_up _ _ refl
                                  (ready.stays_up _ _ refl (ready.is_up _ r p seen)),
                            refl,
                            λ u. ready.lists _ r (drained u) p,
                          ))
                          refl (refl, refl) asked)
                      refl (refl, refl) drained)
                  refl (refl, refl) greeted)
              refl (refl, refl) connected)
          refl (refl, refl) (λ u. u))

  -- What a loop with a bound leaves: it returned, and OpenSAND is up.
  abbrev pub Launches : M ⊤ → History → Type 0
  Launches loop h = (h' : History) × (loop h ≡ (ok tt, h')) × ready.Up h'

  abbrev loop_body : ℕ → Bool → M ⊤
  loop_body fuel seen = elim seen [ true ↦ pure tt | false ↦ wait_launched svc fuel ]

  after_round :
      (fuel : ℕ) (h : History) (r : Result Bool × History)
      → connect_status svc h ≡ r
      → Outcome h r
      → ((h' : History)
          → connects h' ≡ one_more (connects h)
          → ¬ (ready.Up h)
          → Launches (wait_launched svc fuel) h')
      → Launches (catch_netcat (connect_status svc) (pure false) >>= loop_body fuel) h
  after_round fuel h (ok true, h₁) p o k = (
    h₁,
    >>=-ok _ (loop_body fuel) h (ap (λ r. catch_netcat (λ (x : History). r) (pure false) h) p),
    o.0 refl,
  )
  after_round fuel h (ok false, h₁) p o k =
      let (h', q, up) = k h₁ o.1 (λ u. cc (o.2 u)) in
      (
        h',
        >>=-ok _ (loop_body fuel) h (ap (λ r. catch_netcat (λ (x : History). r) (pure false) h) p)
            ∙ q,
        up,
      )
  after_round fuel h (err netcat_error, h₁) p o k =
      let (h', q, up) = k h₁ o.0 o.1 in
      (
        h',
        >>=-ok _ (loop_body fuel) h (ap (λ r. catch_netcat (λ (x : History). r) (pure false) h) p)
            ∙ q,
        up,
      )
  after_round fuel h (err _, h₁) p o k = absurd o
  after_round fuel h (spinning, h₁) p o k = absurd o

  pub wait_launched_total :
      (fuel k : ℕ) (h : History)
      → connects h ≡ some k
      → 0 < fuel
      → n < fuel + k
      → Launches (wait_launched svc fuel) h
  unfolding wait_launched
  wait_launched_total zero k h since p q = elim p [ ]
  wait_launched_total (suc fuel) k h since p q =
      after_round fuel h (connect_status svc h) refl (connect_status-Outcome h) (λ h' c down.
        elim (dec_le n k) [
          | yes late ↦ absurd (down (ready.comes_up h k since late))
          | no early ↦
              wait_launched_total fuel (suc k) h' (c ∙ ap one_more since) (omega arith)
                (omega arith)
        ])
