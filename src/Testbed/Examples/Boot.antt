-- ===== src/Testbed/Examples/Boot.antt =====
-- A testbed whose OpenSAND refuses the first connection and is up from then on.
use qpep.Prelude.{
  ℕ, zero, suc, Option, none, ap, ◌≤◌, ◌≡◌, ◌⊎◌, refl, subst, String, Bool, true, false, some, [],
  ◌∷◌, arith, inl, inr,
}
use qpep.Prelude.Text.{occurs, count_from}
use qpep.World.{
  Result, ok, err, netcat_error, Event, compose_down, compose_up, nc_connect, nc_recv_until,
  nc_recv, nc_send, sleep, container_get, exec_run, History, Services,
}
use qpep.Testbed.{Testbed, leo, start_testbed, hosts_listed, all_running}
use qpep.Testbed.Ready.{start_testbed_total}
use qpep.Testbed.Ready.Health.{Healthy, one_more, connects, statuses, is_compose}
use qpep.Testbed.Boot.{IsOrdered, start_testbed-IsOrdered}

abbrev status : String
status = "SAT GW0 ST1 RUNNING RUNNING RUNNING RUNNING"

-- OpenSAND is up once a connection was tried since the containers came up.
abbrev is_up_after : Option ℕ → Bool
is_up_after (some (suc _)) = true
is_up_after _ = false

abbrev reply_if : Bool → Event → Result String
reply_if true e = ok status
reply_if false compose_down = ok ""
reply_if false (compose_up _) = ok ""
reply_if false e = err netcat_error

abbrev services : Services
services = record {
  getenv = λ k. some k;
  int_of = λ s. some 1234;
  reply = λ h e. reply_if (is_up_after (connects h)) e;
}

abbrev testbed : Testbed
testbed = record { orbit = leo; host_ip = "192.168.1.9"; display_number = "0"; linux = true }

services-Healthy : Healthy services 1 0
unfolding hosts_listed all_running occurs count_from
services-Healthy = record {
  Up = λ h. is_up_after (connects h) ≡ true;
  port = 1234;
  port_set = refl;
  composes_down = λ h. composed (is_up_after (connects h)) compose_down refl;
  composes_up = λ h d. composed (is_up_after (connects h)) (compose_up d) refl;
  socket = λ h e _. refused (is_up_after (connects h)) e;
  comes_up = comes_up;
  stays_up = stays_up;
  answers = λ h e _ p. (status, rw p refl);
  lists = lists;
  is_up = λ h r p _. (read_up (is_up_after (connects h)) r p).0;
  runs = runs;
}
  where
    composed : (b : Bool) (e : Event) → is_compose e ≡ true → (r : String) × (reply_if b e ≡ ok r)
    composed true e kind = (status, refl)
    composed false compose_down kind = ("", refl)
    composed false (compose_up _) kind = ("", refl)
    composed false _ kind = absurd (cc kind)

    refused :
        (b : Bool) (e : Event)
        → ((r : String) × (reply_if b e ≡ ok r)) ⊎ (reply_if b e ≡ err netcat_error)
    refused true e = inl (status, refl)
    refused false compose_down = inl ("", refl)
    refused false (compose_up _) = inl ("", refl)
    refused false _ = inr refl

    comes_up : (h : History) (k : ℕ) → connects h ≡ some k → 1 ≤ k → is_up_after (connects h) ≡ true
    comes_up h zero p c = absurd (omega (arith, c))
    comes_up h (suc k) p c = ap is_up_after p

    one_more_up : (o : Option ℕ) → is_up_after o ≡ true → is_up_after (one_more o) ≡ true
    one_more_up none p = p
    one_more_up (some k) p = refl

    stays_up :
        (h : History) (e : Event)
        → is_compose e ≡ false
        → is_up_after (connects h) ≡ true
        → is_up_after (connects (e ∷ h)) ≡ true
    stays_up h (nc_connect _) kind p = one_more_up (connects h) p
    stays_up h compose_down kind p = absurd (cc kind)
    stays_up h (compose_up _) kind p = absurd (cc kind)
    stays_up h (nc_recv_until _) kind p = p
    stays_up h nc_recv kind p = p
    stays_up h (nc_send _) kind p = p
    stays_up h (sleep _) kind p = p
    stays_up h (container_get _) kind p = p
    stays_up h (exec_run _ _ _) kind p = p

    read_up : (b : Bool) (r : String) → reply_if b nc_recv ≡ ok r → (b ≡ true) × (status ≡ r)
    read_up true r p = (refl, cc)
    read_up false r p = cc

    lists :
        (h : History) (r : String)
        → is_up_after (connects h) ≡ true
        → services.reply (nc_send "status\n" ∷ h) nc_recv ≡ ok r
        → hosts_listed r ≡ true
    lists h r up p =
        subst (λ s. hosts_listed s ≡ true) (read_up (is_up_after (connects h)) r p).1 refl

    runs :
        (h : History) (k : ℕ) (r : String)
        → statuses h ≡ some k
        → 0 ≤ k
        → services.reply (nc_send "status\n" ∷ h) nc_recv ≡ ok r
        → all_running r ≡ true
    runs h k r _ _ p =
        subst (λ s. all_running s ≡ true) (read_up (is_up_after (connects h)) r p).1 refl

-- A testbed that is up is restarted: its OpenSAND refuses the first connection again.
abbrev earlier : History
earlier = nc_connect 1234 ∷ compose_up "192.168.1.9:0" ∷ []

abbrev came_up : (h : History) × (start_testbed services 3 testbed [] ≡ (ok tt, h))
came_up = start_testbed_total services 1 0 services-Healthy 3 testbed [] (omega arith) (omega arith)

start_testbed-IsOrdered_example : IsOrdered services testbed [] came_up.0
start_testbed-IsOrdered_example = start_testbed-IsOrdered services 3 testbed [] came_up.1
