-- ===== src/Scenario/Processes.antt =====
-- The QPEP processes of a container, read off the history.
use qpep.Prelude.{
  ◌≡◌, ◌≢◌, refl, sym, String, Bool, true, false, ◌&&◌, Option, none, some, List, [], ◌∷◌, ◌++◌,
  if◌then◌else◌, arith,
}
use qpep.Prelude.Text.{codes, is_prefix}
use text.Mathlib.Text.{◌==◌ as str_eq}
use text.Mathlib.TextEquality.{eq_iff}
use qpep.World.{
  Event, compose_down, compose_up, nc_connect, nc_recv_until, nc_recv, nc_send, sleep,
  container_get, exec_run, History, ◌▹◌,
}
use qpep.World.Grows.{AllPass}
use qpep.Testbed.Quiet.{is_quiet}
use qpep.Scenario.Events.{kills, launches}

abbrev pub same_name : Option String → Option String → Bool
same_name none none = true
same_name (some a) (some b) = str_eq a b
same_name _ _ = false

-- A command that runs QPEP's `main`.
unfoldable pub is_qpep : String → Bool
is_qpep command = is_prefix (codes "go run /root/go/src/qpep/main.go") (codes command)

-- The QPEP processes of a container, by their commands, the latest first: a detached command that
-- runs `main` adds one, `pkill -9 main` ends them, and all end with the containers.
unfoldable pub qpep_processes : Option String → History → List String
qpep_processes c [] = []
qpep_processes c (compose_down ∷ h) = []
qpep_processes c (exec_run d command true ∷ h) =
    if same_name d c && is_qpep command then command ∷ qpep_processes c h else qpep_processes c h
qpep_processes c (exec_run d command false ∷ h) =
    if same_name d c && str_eq command "pkill -9 main" then [] else qpep_processes c h
qpep_processes c (_ ∷ h) = qpep_processes c h

pub same_name_self : (c : Option String) → same_name c c ≡ true
same_name_self none = refl
same_name_self (some s) = (eq_iff s s).1 refl

pub same_name_ne : (c d : Option String) → c ≢ d → same_name c d ≡ false
same_name_ne none none ne = absurd (ne refl)
same_name_ne none (some t) ne = refl
same_name_ne (some s) none ne = refl
same_name_ne (some s) (some t) ne = ground (arith, eq_iff s t)

pub qpep_processes-quiet :
    (c : Option String) (es : List Event) (h : History)
    → AllPass is_quiet es
    → qpep_processes c h ≡ []
    → qpep_processes c (es ++ h) ≡ []
unfolding qpep_processes
qpep_processes-quiet c [] h q e = e
qpep_processes-quiet c (compose_down ∷ es) h q e = refl
qpep_processes-quiet c (exec_run d command true ∷ es) h q e = cc q.0
qpep_processes-quiet c (exec_run d command false ∷ es) h q e =
    let ih = qpep_processes-quiet c es h q.1 e in ground (arith, ih)
qpep_processes-quiet c (compose_up _ ∷ es) h q e = cc q.0
qpep_processes-quiet c (nc_connect _ ∷ es) h q e = qpep_processes-quiet c es h q.1 e
qpep_processes-quiet c (nc_recv_until _ ∷ es) h q e = qpep_processes-quiet c es h q.1 e
qpep_processes-quiet c (nc_recv ∷ es) h q e = qpep_processes-quiet c es h q.1 e
qpep_processes-quiet c (nc_send _ ∷ es) h q e = qpep_processes-quiet c es h q.1 e
qpep_processes-quiet c (sleep _ ∷ es) h q e = qpep_processes-quiet c es h q.1 e
qpep_processes-quiet c (container_get _ ∷ es) h q e = qpep_processes-quiet c es h q.1 e

pub kills_clear :
    (c d : Option String) (h : History)
    → (qpep_processes c (h ▹ kills true c d) ≡ []) × (qpep_processes d (h ▹ kills true c d) ≡ [])
unfolding qpep_processes
kills_clear c d h = ground (arith, same_name_self c, same_name_self d)

pub launches_only :
    (t g : Option String) (client server : String) (h : History)
    → t ≢ g
    → (is_qpep client ≡ true) × (is_qpep server ≡ true)
    → (qpep_processes t h ≡ []) × (qpep_processes g h ≡ [])
    → (qpep_processes t (h ▹ launches t g client server) ≡ client ∷ [])
      × (qpep_processes g (h ▹ launches t g client server) ≡ server ∷ [])
unfolding qpep_processes
launches_only t g client server h ne (q, q') (e, e') = ground (
  arith,
  same_name_self t,
  same_name_self g,
  same_name_ne t g ne,
  same_name_ne g t (λ p. ne (sym p)),
)
