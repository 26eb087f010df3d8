-- ===== src/Testbed/Ready/Health.antt =====
-- What `start_testbed` (testbeds.py) needs of OpenSAND and of Docker.
use qpep.Prelude.{ℕ, suc, ◌≤◌, ◌≡◌, String, Bool, true, false, Option, none, some, [], ◌∷◌, ◌⊎◌}
use text.Mathlib.Text.{◌==◌ as str_eq}
use qpep.World.{
  netcat_error, ok, err, Event, compose_down, compose_up, nc_connect, nc_recv_until, nc_recv,
  nc_send, History, Services, pure, int_env,
}
use qpep.Testbed.{hosts_listed, all_running}

-- One more connection, where the containers are up.
abbrev pub one_more : Option ℕ → Option ℕ
one_more none = none
one_more (some k) = some (suc k)

-- Connections made since `docker-compose up`; `none` before it, and after `docker-compose down`.
abbrev pub connects : History → Option ℕ
connects [] = none
connects (compose_down ∷ h) = none
connects (compose_up _ ∷ h) = some 0
connects (nc_connect _ ∷ h) = one_more (connects h)
connects (_ ∷ h) = connects h

-- What takes OpenSAND down.
abbrev pub is_compose : Event → Bool
is_compose compose_down = true
is_compose (compose_up _) = true
is_compose _ = false

-- What is done on OpenSAND's socket.
abbrev pub is_socket : Event → Bool
is_socket (nc_connect _) = true
is_socket (nc_recv_until _) = true
is_socket nc_recv = true
is_socket (nc_send _) = true
is_socket _ = false

-- Requests since the simulation was started; `none` where it was not.
abbrev pub statuses : History → Option ℕ
statuses [] = none
statuses (compose_down ∷ h) = none
statuses (compose_up _ ∷ h) = none
statuses (nc_send line ∷ h) = elim (str_eq line "start\n") [
  | true ↦ some 0
  | false ↦ one_more (statuses h)
]
statuses (_ ∷ h) = statuses h

-- What the method relies on. After each `docker-compose up` OpenSAND comes up, after `n`
-- connections at the latest, and stays up until the containers are restarted; its socket either
-- answers or fails with a NetcatError. Once it is up, all is answered, and a status lists the
-- hosts. After `m` requests since the start of the simulation at the latest it reports more than
-- three components as RUNNING.
pub record Healthy (svc : Services) (n m : ℕ) : Type 1 where
  pub Up : History → Type 0
  pub port : ℕ
  pub port_set : int_env svc "SAT_PORT_NUMBER" ≡ pure port
  pub composes_down : (h : History) → (r : String) × (svc.reply h compose_down ≡ ok r)
  pub composes_up : (h : History) (d : String) → (r : String) × (svc.reply h (compose_up d) ≡ ok r)
  pub socket :
      (h : History) (e : Event)
      → is_socket e ≡ true
      → ((r : String) × (svc.reply h e ≡ ok r)) ⊎ (svc.reply h e ≡ err netcat_error)
  pub comes_up : (h : History) (k : ℕ) → connects h ≡ some k → n ≤ k → Up h
  pub stays_up : (h : History) (e : Event) → is_compose e ≡ false → Up h → Up (e ∷ h)
  pub answers :
      (h : History) (e : Event)
      → is_compose e ≡ false
      → Up h
      → (r : String) × (svc.reply h e ≡ ok r)
  pub lists :
      (h : History) (r : String)
      → Up h
      → svc.reply (nc_send "status\n" ∷ h) nc_recv ≡ ok r
      → hosts_listed r ≡ true
  pub is_up :
      (h : History) (r : String)
      → svc.reply (nc_send "status\n" ∷ h) nc_recv ≡ ok r
      → hosts_listed r ≡ true
      → Up h
  pub runs :
      (h : History) (k : ℕ) (r : String)
      → statuses h ≡ some k
      → m ≤ k
      → svc.reply (nc_send "status\n" ∷ h) nc_recv ≡ ok r
      → all_running r ≡ true
