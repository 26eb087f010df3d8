-- ===== src/Proxy/Relay.antt =====
-- The copying that handleTCPConn of client.go and of server.go start: an application, the client, the
-- server and a destination, with a TCP connection at either side and a QUIC stream between. Each end
-- of the stream has two goroutines, streamTCPtoQUIC and streamQUICtoTCP, each an io.Copy with what
-- comes after it; the handler waits for both. Their moves, those of the application and of the
-- destination, and failures come in any order.
pub mod Order
pub mod Delivery
pub mod HalfClose
mod Examples
use qpep.Prelude.{◌≡◌, ◌≢◌, Bool, true, false, List, [], ◌++◌}
use qpep.Header.{Bytes}

-- One direction: what its source sent in all, and where of it is: `waiting` has not been copied to
-- the stream yet, `in_quic` has not been copied from it yet; a chunk that was read and could not be written stays
-- where it was in this count. `closed`: the source has sent its FIN.
pub record Flow : Type 0 where
  pub sent : Bytes
  pub waiting : Bytes
  pub in_quic : Bytes
  pub received : Bytes
  pub closed : Bool

-- A handler: whether it still has its TCP connection, whether each goroutine is still copying, and
-- whether it has come past streamWait.Wait() and closed the stream.
pub record Handler : Type 0 where
  pub tcp_open : Bool
  pub tcp_to_quic : Bool
  pub quic_to_tcp : Bool
  pub ended : Bool

-- What a handler sees: the flow that it puts on the stream, and the one that it takes from it.
pub record View : Type 0 where
  pub out : Flow
  pub into : Flow
  pub handler : Handler

-- `far_ended`: the handler at the other end of the stream has ended; `far_resets`: that one ends
-- with CancelRead and CancelWrite (server.go) and not with Close (client.go), so that reads and
-- writes here fail. `faulty`: the network may fail, which includes the time limit on an idle session.
module _ (faulty far_ended far_resets : Bool) where
  -- Why io.Copy of streamTCPtoQUIC returns.
  pub data OutStops (v : View) : Type 0 where
    out_eof : v.out.waiting ≡ [] → v.out.closed ≡ true → OutStops v
    out_read_fails : v.handler.tcp_open ≡ false → OutStops v
    out_write_fails : v.out.waiting ≢ [] → far_ended ≡ true → far_resets ≡ true → OutStops v
    out_fault : faulty ≡ true → OutStops v

  -- Why io.Copy of streamQUICtoTCP returns.
  pub data IntoStops (v : View) : Type 0 where
    into_eof : v.into.in_quic ≡ [] → far_ended ≡ true → IntoStops v
    into_read_fails : far_ended ≡ true → far_resets ≡ true → IntoStops v
    into_write_fails : v.into.in_quic ≢ [] → v.handler.tcp_open ≡ false → IntoStops v
    into_fault : faulty ≡ true → IntoStops v

  -- A move of a handler. Both goroutines close the TCP connection when their copying returns; that
  -- of streamTCPtoQUIC leaves the stream open.
  pub data Move : View → View → Type 0 where
    copy_out :
        (v : View) (chunk rest : Bytes)
        → v.handler.tcp_to_quic ≡ true
        → v.handler.tcp_open ≡ true
        → v.out.waiting ≡ chunk ++ rest
        → chunk ≢ []
        → Move v
            (record v { out = record v.out { waiting = rest; in_quic = v.out.in_quic ++ chunk } })
    stop_out :
        (v : View)
        → v.handler.tcp_to_quic ≡ true
        → OutStops v
        → Move v (record v { handler = record v.handler { tcp_to_quic = false; tcp_open = false } })
    copy_into :
        (v : View) (chunk rest : Bytes)
        → v.handler.quic_to_tcp ≡ true
        → v.handler.tcp_open ≡ true
        → v.into.in_quic ≡ chunk ++ rest
        → chunk ≢ []
        → Move v (record v {
          into = record v.into { in_quic = rest; received = v.into.received ++ chunk };
        })
    stop_into :
        (v : View)
        → v.handler.quic_to_tcp ≡ true
        → IntoStops v
        → Move v (record v { handler = record v.handler { quic_to_tcp = false; tcp_open = false } })
    finish :
        (v : View)
        → v.handler.tcp_to_quic ≡ false
        → v.handler.quic_to_tcp ≡ false
        → v.handler.ended ≡ false
        → Move v (record v { handler = record v.handler { ended = true } })

-- `up` goes from the application to the destination, `down` back.
pub record Tunnel : Type 0 where
  pub up : Flow
  pub down : Flow
  pub client : Handler
  pub server : Handler

abbrev pub client_view : Tunnel → View
client_view t = record { out = t.up; into = t.down; handler = t.client }

abbrev pub server_view : Tunnel → View
server_view t = record { out = t.down; into = t.up; handler = t.server }

-- The moves of the two handlers.
pub data Inner (faulty : Bool) : Tunnel → Tunnel → Type 0 where
  client_moves :
      (t : Tunnel) {v : View}
      → Move faulty t.server.ended true (client_view t) v
      → Inner faulty t (record t { up = v.out; down = v.into; client = v.handler })
  server_moves :
      (t : Tunnel) {v : View}
      → Move faulty t.client.ended false (server_view t) v
      → Inner faulty t (record t { down = v.out; up = v.into; server = v.handler })

abbrev pub send : Bytes → Flow → Flow
send chunk f = record f { sent = f.sent ++ chunk; waiting = f.waiting ++ chunk }

pub data Step (faulty : Bool) : Tunnel → Tunnel → Type 0 where
  inner : {t u : Tunnel} → Inner faulty t u → Step faulty t u
  app_sends :
      (t : Tunnel) (chunk : Bytes)
      → t.up.closed ≡ false
      → Step faulty t (record t { up = send chunk t.up })
  app_closes : (t : Tunnel) → Step faulty t (record t { up = record t.up { closed = true } })
  dest_sends :
      (t : Tunnel) (chunk : Bytes)
      → t.down.closed ≡ false
      → Step faulty t (record t { down = send chunk t.down })
  dest_closes : (t : Tunnel) → Step faulty t (record t { down = record t.down { closed = true } })

abbrev pub empty : Flow
empty = record { sent = []; waiting = []; in_quic = []; received = []; closed = false }

abbrev pub copying : Handler
copying = record { tcp_open = true; tcp_to_quic = true; quic_to_tcp = true; ended = false }

-- Both connections are made and both handlers have started their goroutines.
abbrev pub start : Tunnel
start = record { up = empty; down = empty; client = copying; server = copying }

pub data Reach (faulty : Bool) (s : Tunnel) : Tunnel → Type 0 where
  here : Reach faulty s s
  next : {t u : Tunnel} → Reach faulty s t → Step faulty t u → Reach faulty s u
