-- ===== src/World.antt =====
-- What the testbed's Python code (opensand-testbed/*.py) does to the world outside: docker-compose,
-- the OpenSAND socket (nclib), commands in containers (docker-py), and sleeping. Each such call is
-- an event. The code keeps no other record of them, so the model keeps the history of all events,
-- the latest first. Replies are a parameter: a service answers each event, given all that went
-- before it. The text of a reply is what `str()` shows of it. Log messages are left out.
pub mod Grows
pub mod Inversion
pub mod Tally
use qpep.Prelude.{ℕ, String, Bool, Option, none, some, List, [], ◌∷◌}

pub data Error : Type 0 where
  netcat_error docker_error type_error value_error key_error index_error : Error
  name_error attribute_error argument_error file_error : Error

-- `spinning`: a loop is still going when the fuel of the model ends. No handler catches that.
pub data Result {ℓ} (A : Type ℓ) : Type ℓ where
  ok : A → Result A
  err : Error → Result A
  spinning : Result A

abbrev pub ⊤ : Type 0
⊤ = Unit

pub data Event : Type 0 where
  -- subprocess.call(["docker-compose", "down"])
  compose_down : Event
  -- subprocess.call(["docker-compose", "up", "-d"], env=…), with the value of DISPLAY
  compose_up : String → Event
  -- nclib.Netcat(('localhost', port)), and the calls on the connection made last
  nc_connect : ℕ → Event
  nc_recv_until : String → Event
  nc_recv : Event
  nc_send : String → Event
  sleep : ℕ → Event
  -- docker_client.containers.get(os.getenv(…))
  container_get : Option String → Event
  -- container.exec_run(command): the container's name and whether it is detached
  exec_run : Option String → String → Bool → Event

abbrev pub History : Type 0
History = List Event

-- The events of `es`, in their order, on top of a history.
infixl 20 ◌▹◌
abbrev pub ◌▹◌ : History → List Event → History
h ▹ [] = h
h ▹ (e ∷ es) = e ∷ h ▹ es

pub record Services : Type 0 where
  -- `os.getenv`
  pub getenv : String → Option String
  -- Python's `int` on a text; `none` stands for ValueError
  pub int_of : String → Option ℕ
  -- what comes back from an event after a history
  pub reply : History → Event → Result String

-- Code that talks to the services and may raise: what was done before a raise stays done.
abbrev pub M {ℓ} : Type ℓ → Type ℓ
M A = History → Result A × History

module _ {ℓ} {A : Type ℓ} where
  abbrev pub pure : A → M A
  pure a h = (ok a, h)

  abbrev pub raise : Error → M A
  raise e h = (err e, h)

  abbrev pub spin : M A
  spin h = (spinning, h)

infixl 5 ◌>>=◌ ◌>>◌
-- Shut, so that a `do` block keeps its shape in a goal; `unfolding ◌>>=◌` runs it.
unfoldable pub ◌>>=◌ {ℓ κ} : {A : Type ℓ} {B : Type κ} → M A → (A → M B) → M B
◌>>=◌ m f h =
    let (r, h') = m h in elim r [ ok a ↦ f a h' | err e ↦ (err e, h') | spinning ↦ (spinning, h') ]

abbrev pub ◌>>◌ {ℓ κ} : {A : Type ℓ} {B : Type κ} → M A → M B → M B
m >> k = m >>= λ _. k

abbrev pub except_netcat {ℓ} : {A : Type ℓ} → Error → M A → M A
except_netcat netcat_error handler h = handler h
except_netcat e handler h = (err e, h)

-- `try: m; except NetcatError: handler`
abbrev pub catch_netcat {ℓ} : {A : Type ℓ} → M A → M A → M A
catch_netcat m handler h =
    let (r, h') = m h in
    elim r [ ok a ↦ (ok a, h') | err e ↦ except_netcat e handler h' | spinning ↦ (spinning, h') ]

-- `try: m; except: handler`
abbrev pub catch_all {ℓ} : {A : Type ℓ} → M A → M A → M A
catch_all m handler h =
    let (r, h') = m h in
    elim r [ ok a ↦ (ok a, h') | err e ↦ handler h' | spinning ↦ (spinning, h') ]

abbrev pub or_value_error : Option ℕ → M ℕ
or_value_error none = raise value_error
or_value_error (some n) = pure n

module _ (svc : Services) where
  -- Do one event and take its reply.
  abbrev pub perform : Event → M String
  perform e h = (svc.reply h e, e ∷ h)

  -- `int(os.getenv(k))`: `int(None)` is a TypeError.
  abbrev pub int_of_option : Option String → M ℕ
  int_of_option none = raise type_error
  int_of_option (some s) = or_value_error (svc.int_of s)

  abbrev pub int_env : String → M ℕ
  int_env k = int_of_option (svc.getenv k)
