-- ===== src/Proxy/Setup/NilSession.antt =====
-- When handleTCPConn of client.go calls the nil session.
use qpep.Prelude.{
  ℕ, ◌<◌, ◌≢◌, subst, Bool, true, false, Option, none, some, ◌==◌, if◌then◌else◌, arith,
}
use qpep.Proxy.{Session, ClientConfig}
use qpep.Proxy.Setup.{
  Stage, unaccepted, accepted, tested, streamless, assigned, streaming, dropped, crashed, Move,
  accept, skip_single, skip_nil, test_session, open_stream, open_stream_fails, open_stream_nil,
  dial, dial_fails, dial_never, open_sync, open_sync_fails, open_sync_nil, Process, Step,
  handler_moves, Reach, here, next,
}

abbrev IsSome : Option Session → Type 0
IsSome none = ⊥
IsSome (some _) = Unit

-- Where a handler is about to use the session, there is one.
abbrev IsSafe : Option Session → Stage → Type 0
IsSafe σ tested = IsSome σ
IsSafe σ assigned = IsSome σ
IsSafe σ crashed = ⊥
IsSafe σ _ = Unit

module _ (config : ClientConfig) (tries : 0 < config.connection_retries) where
  Move-IsSafe :
      {σ σ' : Option Session} {g g' : Stage}
      → Move config false σ g σ' g'
      → IsSafe σ g
      → IsSafe σ' g' × (IsSome σ → IsSome σ')
  Move-IsSafe accept h = (tt, λ s. s)
  Move-IsSafe (skip_single _) h = (tt, λ s. s)
  Move-IsSafe (skip_nil _) h = (tt, λ s. s)
  Move-IsSafe (test_session _ _) h = (tt, λ s. s)
  Move-IsSafe (open_stream _) h = (tt, λ s. s)
  Move-IsSafe (open_stream_fails _) h = (tt, λ s. s)
  Move-IsSafe open_stream_nil h = absurd h
  Move-IsSafe (dial _ _) h = (tt, λ s. tt)
  Move-IsSafe (dial_fails _ failing) h = absurd (cc failing)
  Move-IsSafe (dial_never none_left) h = absurd (omega (arith, tries, none_left))
  Move-IsSafe (open_sync _) h = (tt, λ s. s)
  Move-IsSafe (open_sync_fails _) h = (tt, λ s. s)
  Move-IsSafe open_sync_nil h = absurd h

  -- A handler that does not move keeps what it relies on.
  IsSafe-later :
      (σ σ' : Option Session) (g : Stage) → (IsSome σ → IsSome σ') → IsSafe σ g → IsSafe σ' g
  IsSafe-later σ σ' tested kept h = kept h
  IsSafe-later σ σ' assigned kept h = kept h
  IsSafe-later σ σ' crashed kept h = absurd h
  IsSafe-later σ σ' unaccepted kept h = tt
  IsSafe-later σ σ' accepted kept h = tt
  IsSafe-later σ σ' streamless kept h = tt
  IsSafe-later σ σ' streaming kept h = tt
  IsSafe-later σ σ' dropped kept h = tt

  set-IsSafe :
      (σ σ' : Option Session) (g moved : Stage) (same : Bool)
      → IsSafe σ' moved
      → (IsSome σ → IsSome σ')
      → IsSafe σ g
      → IsSafe σ' (if same then moved else g)
  set-IsSafe σ σ' g moved true m kept h = m
  set-IsSafe σ σ' g moved false m kept h = IsSafe-later σ σ' g kept h

  Step-IsSafe :
      {t u : Process}
      → Step config false t u
      → ((j : ℕ) → IsSafe t.session (t.stage j))
      → (j : ℕ) → IsSafe u.session (u.stage j)
  Step-IsSafe (handler_moves t i {σ} {g} m) before j =
      let (moved, kept) = Move-IsSafe m (before i) in
      set-IsSafe t.session σ (t.stage j) g (i == j) moved kept (before j)

  Reach-IsSafe : {t : Process} → Reach config false t → (i : ℕ) → IsSafe t.session (t.stage i)
  Reach-IsSafe here i = tt
  Reach-IsSafe (next r st) i = Step-IsSafe st (Reach-IsSafe r) i

-- With at least one try for each session, and as long as no openQuicSession fails with all of its
-- tries: however the set-ups of any number of connections interleave, no handler comes to a call on
-- the nil session.
pub Reach-not_crashed :
    (config : ClientConfig) (t : Process) (i : ℕ)
    → 0 < config.connection_retries
    → Reach config false t
    → t.stage i ≢ crashed
Reach-not_crashed config t i tries r e = subst (IsSafe t.session) e (Reach-IsSafe config tries r i)
