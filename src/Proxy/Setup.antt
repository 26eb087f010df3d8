-- ===== src/Proxy/Setup.antt =====
-- The set-ups of handleTCPConn of client.go as they interleave: each connection has a goroutine of
-- its own, and all of them read and write the package's `quicSession`. A step is one access to it.
-- Between two accesses of one handler the others go on: the session that is tested for nil, or that
-- was assigned, need not be the one that is used then.
pub mod NilSession
mod Examples
use qpep.Prelude.{
  ℕ, zero, suc, ◌<◌, ◌≡◌, ◌≢◌, refl, Bool, true, false, Option, none, some, ◌⊎◌, inl, inr, ◌==◌,
  if◌then◌else◌, arith, Bool-cases,
}
use qpep.Proxy.{Session, ClientConfig}

-- How far a handler is: its connection not accepted yet; accepted; past the test for nil; past the
-- first part without a stream; past the assignment of a new session without an error; with a
-- stream; with its connection dropped; after a call on the nil session.
pub data Stage : Type 0 where
  unaccepted accepted tested streamless assigned streaming dropped crashed : Stage

-- A step of a handler, from the session and its stage to those after it. `failing`: whether dials
-- may fail as often as openQuicSession tries.
pub data Move (config : ClientConfig) (failing : Bool)
    : Option Session → Stage → Option Session → Stage → Type 0 where
  accept : {σ : Option Session} → Move config failing σ unaccepted σ accepted
  skip_single :
      {σ : Option Session}
      → config.multi_stream ≡ false
      → Move config failing σ accepted σ streamless
  skip_nil : config.multi_stream ≡ true → Move config failing none accepted none streamless
  test_session :
      (s : Session)
      → config.multi_stream ≡ true
      → Move config failing (some s) accepted (some s) tested
  open_stream : (s : Session) → Move config failing (some s) tested (some s) streaming
  open_stream_fails : (s : Session) → Move config failing (some s) tested (some s) streamless
  open_stream_nil : Move config failing none tested none crashed
  -- The three ends of openQuicSession, by the number of its tries.
  dial :
      {σ : Option Session} (s : Session)
      → 0 < config.connection_retries
      → Move config failing σ streamless (some s) assigned
  dial_fails :
      {σ : Option Session}
      → 0 < config.connection_retries
      → failing ≡ true
      → Move config failing σ streamless none dropped
  dial_never :
      {σ : Option Session}
      → config.connection_retries ≡ 0
      → Move config failing σ streamless none assigned
  open_sync : (s : Session) → Move config failing (some s) assigned (some s) streaming
  open_sync_fails : (s : Session) → Move config failing (some s) assigned (some s) dropped
  open_sync_nil : Move config failing none assigned none crashed

pub record Process : Type 0 where
  pub session : Option Session
  pub stage : ℕ → Stage

abbrev pub set_stage : ℕ → Stage → (ℕ → Stage) → ℕ → Stage
set_stage i g stage j = if i == j then g else stage j

pub data Step (config : ClientConfig) (failing : Bool) : Process → Process → Type 0 where
  handler_moves :
      (t : Process) (i : ℕ) {σ : Option Session} {g : Stage}
      → Move config failing t.session (t.stage i) σ g
      → Step config failing t (record { session = σ; stage = set_stage i g t.stage })

-- The process before its first connection.
abbrev pub fresh : Process
fresh = record { session = none; stage = λ i. unaccepted }

pub data Reach (config : ClientConfig) (failing : Bool) : Process → Type 0 where
  here : Reach config failing fresh
  next : {t u : Process} → Reach config failing t → Step config failing t u → Reach config failing u
