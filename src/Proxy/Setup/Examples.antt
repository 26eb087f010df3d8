-- ===== src/Proxy/Setup/Examples.antt =====
-- Two connections whose set-ups interleave.
use qpep.Prelude.{◌≡◌, ◌≢◌, refl, true, false, some, arith}
use qpep.Proxy.{ClientConfig}
use qpep.Proxy.Setup.{
  Stage, streamless, assigned, crashed, accept, skip_nil, dial, dial_fails, open_sync_nil, Process,
  handler_moves, Reach, here, next, fresh, set_stage,
}
use qpep.Proxy.Setup.NilSession.{Reach-not_crashed}

abbrev config : ClientConfig
config = record {
  listen_host = "0.0.0.0";
  listen_port = 8080;
  gateway_host = "198.18.0.254";
  gateway_port = 4242;
  quic_stream_timeout = 2;
  multi_stream = true;
  idle_timeout = 300;
  connection_retries = 3;
}

-- The first connection has its session.
abbrev one_session : Process
one_session = record {
  session = some 7;
  stage = set_stage 0 assigned (set_stage 0 streamless (set_stage 0 Stage.accepted fresh.stage));
}

one_session-Reach : Reach config false one_session
one_session-Reach =
    next (next (next here (handler_moves _ 0 accept)) (handler_moves _ 0 (skip_nil refl)))
      (handler_moves _ 0 (dial 7 (omega arith)))

Reach-not_crashed_example : one_session.stage 0 ≢ crashed
Reach-not_crashed_example = Reach-not_crashed config one_session 0 (omega arith) one_session-Reach

-- Both connections find no session. The first dials one, then the dials of the second fail and its
-- error leaves the nil session behind, on which the first then opens its stream.
crashed-Reach : (t : Process) × Reach config true t × (t.stage 0 ≡ crashed)
crashed-Reach =
    let r₁ = next here (handler_moves _ 0 accept) in
    let r₂ = next r₁ (handler_moves _ 1 accept) in
    let r₃ = next r₂ (handler_moves _ 0 (skip_nil refl)) in
    let r₄ = next r₃ (handler_moves _ 1 (skip_nil refl)) in
    let r₅ = next r₄ (handler_moves _ 0 (dial 7 (omega arith))) in
    let r₆ = next r₅ (handler_moves _ 1 (dial_fails (omega arith) refl)) in
    (_, next r₆ (handler_moves _ 0 open_sync_nil), refl)
