-- ===== src/Proxy/Client/Dials.antt =====
-- The dials of openQuicSession (client.go).
use qpep.Prelude.{
  ℕ, zero, suc, ◌+◌, ◌<◌, ◌≡◌, refl, ap, subst, String, Option, none, some, ◌++◌, replicate, ◌⊎◌,
  inl, inr, arith,
}
use qpep.Proxy.{Session, Error, quic_dialed, History, ClientConfig}
use qpep.Proxy.Client.{Quic, Opened, gateway_path, dial_loop, open_quic_session}

-- `k` dials on top of a history.
abbrev pub after : String → ℕ → History → History
after path k h = replicate k (quic_dialed path) ++ h

abbrev error_of : Error ⊎ Session → Option Error
error_of (inl failed) = some failed
error_of (inr _) = none

pub sum_cases :
    (x : Error ⊎ Session)
    → ((failed : Error) × (x ≡ inl failed)) ⊎ ((session : Session) × (x ≡ inr session))
sum_cases (inl failed) = inl (failed, refl)
sum_cases (inr session) = inr (session, refl)

module _ (q : Quic) (path : String) (h : History) where
  -- Each of the first `k` dials fails.
  abbrev pub AllFail : ℕ → Type 0
  AllFail zero = Unit
  AllFail (suc k) =
      AllFail k × ((failed : Error) × (q.dial_addr path (after path k h) ≡ inl failed))

  -- The error of the last of `k` dials; nil if there is none.
  abbrev pub last_error : ℕ → Option Error
  last_error zero = none
  last_error (suc k) = error_of (q.dial_addr path (after path k h))

  -- The answer is that of dial `i`, the first of fewer than `n` that succeeds.
  abbrev pub IsFirst : ℕ → Opened × History → Type 0
  IsFirst n answer =
      (i : ℕ) × (session : Session) × (i < n)
      × AllFail i
      × (q.dial_addr path (after path i h) ≡ inr session)
      × (answer ≡ ((some session, none), after path (suc i) h))

  -- All of `n` dials failed.
  abbrev pub IsGivenUp : ℕ → Opened × History → Type 0
  IsGivenUp n answer = AllFail n × (answer ≡ ((none, last_error n), after path n h))

  -- The loop with `n` tries left, after `k` that failed.
  dial_loop_lem :
      (n k total : ℕ)
      → k + n ≡ total
      → AllFail k
      → let answer = dial_loop q path n (last_error k) (after path k h) in
        IsFirst total answer ⊎ IsGivenUp total answer
  dial_loop_lem zero k total e all =
      let k_total : k ≡ total = omega (arith, e) in
      inr (subst AllFail k_total all, ap (λ n. ((none, last_error n), after path n h)) k_total)
  dial_loop_lem (suc n) k total e all = elim (sum_cases (q.dial_addr path (after path k h))) [
    | inl (failed, same) ↦
        rw (dial_loop, same)
          (subst
            (λ err.
              let answer = dial_loop q path n err (after path (suc k) h) in
              IsFirst total answer ⊎ IsGivenUp total answer)
            (ap error_of same)
            (dial_loop_lem n (suc k) total (omega (arith, e)) (all, (failed, same))))
    | inr (session, same) ↦ inl (k, session, omega (arith, e), all, same, rw (dial_loop, same) refl)
  ]

-- With `n` retries, openQuicSession returns the session of the first of its dials that succeeds and
-- dials no more; if all `n` fail, it has dialed `n` times and returns the nil session with the error
-- of the last dial, which for `n = 0` is nil too.
pub open_quic_session_lem :
    (q : Quic) (config : ClientConfig) (h : History)
    → let path = gateway_path config in
      let n = config.connection_retries in
      let answer = open_quic_session q config h in
      IsFirst q path h n answer ⊎ IsGivenUp q path h n answer
unfolding open_quic_session
open_quic_session_lem q config h =
    dial_loop_lem q (gateway_path config) h config.connection_retries 0 _ (omega arith) tt
