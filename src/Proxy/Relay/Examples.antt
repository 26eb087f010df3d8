-- ===== src/Proxy/Relay/Examples.antt =====
-- The copying of client.go and server.go on a request of three bytes.
use qpep.Prelude.{refl, ◌≤◌, Bool, true, false, [], ◌∷◌}
use qpep.Header.{Bytes}
use qpep.Proxy.Relay.{
  Tunnel, copy_out, stop_out, copy_into, out_eof, out_fault, Inner, client_moves, server_moves,
  inner, app_sends, app_closes, empty, copying, start, Reach, here, next,
}
use qpep.Proxy.Relay.Order.{IsPrefix, Reach-IsPrefix}
use qpep.Proxy.Relay.Delivery.{
  still, moved, work, IsStill, CanReach, BothCopy, IsDelivered, Moves-delivers,
}
use qpep.Proxy.Relay.HalfClose.{IsHeld, Reach-IsStill}

abbrev request : Bytes
request = 71 ∷ 69 ∷ 84 ∷ []

-- The application has sent the request.
abbrev asked : Tunnel
asked = record start { up = record empty { sent = request; waiting = request } }

asked-Reach : {faulty : Bool} → Reach faulty start asked
asked-Reach = next here (app_sends start request refl)

-- The client has copied two bytes of it to the stream.
abbrev underway : Tunnel
underway = record start {
  up = record empty { sent = request; waiting = 84 ∷ []; in_quic = 71 ∷ 69 ∷ [] };
}

asked-underway : {faulty : Bool} → Inner faulty asked underway
asked-underway = client_moves asked (copy_out _ (71 ∷ 69 ∷ []) (84 ∷ []) refl refl refl (λ e. cc e))

-- Then the connection of the client fails: the third byte never arrives.
abbrev failed : Tunnel
failed = record underway { client = record copying { tcp_to_quic = false; tcp_open = false } }

failed-Reach : Reach true start failed
failed-Reach =
    next (next asked-Reach (inner asked-underway))
      (inner (client_moves underway (stop_out _ refl (out_fault refl))))

Reach-IsPrefix_example :
    IsPrefix failed.up.received failed.up.sent × IsPrefix failed.down.received failed.down.sent
Reach-IsPrefix_example = Reach-IsPrefix failed failed-Reach

abbrev copied : Tunnel
copied = record start { up = record empty { sent = request; in_quic = request } }

abbrev delivered : Tunnel
delivered = record start { up = record empty { sent = request; received = request } }

asked-copied : {faulty : Bool} → Inner faulty asked copied
asked-copied = client_moves asked (copy_out _ request [] refl refl refl (λ e. cc e))

copied-delivered : {faulty : Bool} → Inner faulty copied delivered
copied-delivered = server_moves copied (copy_into _ request [] refl refl refl (λ e. cc e))

-- After the first of the two moves.
Moves-delivers_example : (1 ≤ work asked) × CanReach copied (λ w. BothCopy w × IsDelivered asked w)
Moves-delivers_example =
    Moves-delivers {faulty = false} asked copied 1 asked-Reach (moved still asked-copied)
      (refl, refl, refl) (refl, refl, refl)

-- The application closes its connection when the request is on its way out.
abbrev half_closed : Tunnel
half_closed = record start {
  up = record empty { sent = request; received = request; closed = true };
  client = record copying { tcp_to_quic = false; tcp_open = false };
}

abbrev closing : Tunnel
closing = record delivered { up = record delivered.up { closed = true } }

half_closed-Reach : Reach false start half_closed
half_closed-Reach =
    next
      (next (next (next asked-Reach (inner asked-copied)) (inner copied-delivered))
        (app_closes delivered))
      (inner (client_moves closing (stop_out _ refl (out_eof refl refl))))

Reach-IsStill_example : IsStill half_closed × IsHeld half_closed
Reach-IsStill_example = Reach-IsStill half_closed half_closed-Reach (refl, refl) refl refl
