-- ===== src/Proxy/Client/Examples.antt =====
-- The set-up of a connection by client.go, and of its stream by server.go, on a concrete one.
use qpep.Prelude.{
  ◌≡◌, refl, true, none, some, List, [], ◌∷◌, length, take, drop, ◌⊎◌, inl, inr, arith,
  if◌then◌else◌, ltb,
}
use qpep.Header.{Bytes, Reader}
use qpep.Header.Encoding.{IsValid}
use qpep.Proxy.{tcp_dialed, ClientConfig}
use qpep.Proxy.Client.{
  Quic, TcpConn, Client, gateway_path, open_quic_session, header_of, handle_tcp_conn, open_quic,
  open_existing, open_again, open_quic_stream, accepted, accept_failed, fatal, listen_tcp_conn,
}
use qpep.Proxy.Client.Dials.{IsFirst, IsGivenUp, open_quic_session_lem}
use qpep.Proxy.Client.Written.{written}
use qpep.Proxy.Server.{serving, handle_quic_stream}
use qpep.Proxy.Tunnel.{shortest, handle_quic_stream-handle_tcp_conn}

abbrev config : ClientConfig
config = record {
  listen_host = "0.0.0.0";
  listen_port = 8080;
  gateway_host = "198.18.0.254";
  gateway_port = 4242;
  quic_stream_timeout = 2;
  multi_stream = true;
  idle_timeout = 300;
  connection_retries = 3;
}

-- The first dial times out.
abbrev flaky : Quic
flaky = record {
  dial_addr = λ path h. if ltb 0 (length h) then inr 7 else inl "timeout";
  open_stream = λ session h. inl "NO_ERROR: No recent network activity";
  open_stream_sync = λ session h. inr 4;
}

open_quic_session_example :
    IsFirst flaky (gateway_path config) [] 3 (open_quic_session flaky config [])
    ⊎ IsGivenUp flaky (gateway_path config) [] 3 (open_quic_session flaky config [])
open_quic_session_example = open_quic_session_lem flaky config []

-- Without retries the answer is the nil session and no error.
no_retries :
    open_quic_session flaky (record config { connection_retries = 0 }) [] ≡ ((none, none), [])
no_retries = elim (open_quic_session_lem flaky (record config { connection_retries = 0 }) []) [
  | inl (i, session, below, _, _, _) ↦ absurd (omega (arith, below))
  | inr (all, same) ↦ same
]

-- 10.0.0.7:40000 dialed 10.0.0.8:443; both addresses come in their mapped form.
abbrev tcp_conn : TcpConn
tcp_conn = record {
  conn = 1;
  remote_addr = record {
    ip = 0 ∷ 0 ∷ 0 ∷ 0 ∷ 0 ∷ 0 ∷ 0 ∷ 0 ∷ 0 ∷ 0 ∷ 255 ∷ 255 ∷ 10 ∷ 0 ∷ 0 ∷ 7 ∷ [];
    port = 40000;
  };
  local_addr = record {
    ip = 0 ∷ 0 ∷ 0 ∷ 0 ∷ 0 ∷ 0 ∷ 0 ∷ 0 ∷ 0 ∷ 0 ∷ 255 ∷ 255 ∷ 10 ∷ 0 ∷ 0 ∷ 8 ∷ [];
    port = 443;
  };
}

header-IsValid : IsValid (header_of tcp_conn)
header-IsValid = record {
  source_ip = inr refl;
  source_port = omega arith;
  dest_ip = inr refl;
  dest_port = omega arith;
}

-- A stream that brings its chunks one by one.
abbrev chunks : Reader
chunks = record {
  Stream = List Bytes;
  read = λ n s. elim s [ [] ↦ (none, []) | c ∷ cs ↦ (some c, cs) ];
}

-- The session that was open has expired.
abbrev before : Client
before = record { quic_session = some 3; history = [] }

abbrev sent : Bytes
sent = written 4 (handle_tcp_conn flaky config tcp_conn before).1.history

handle_quic_stream_example :
    handle_quic_stream chunks (λ addr h. inr 9) (take 2 sent ∷ drop 2 sent ∷ []) []
    ≡ ((serving 9, tcp_dialed (shortest tcp_conn.local_addr) 10 ∷ []), [])
unfolding handle_tcp_conn open_quic open_existing open_quic_session
handle_quic_stream_example =
    handle_quic_stream-handle_tcp_conn flaky config tcp_conn before
      (handle_tcp_conn flaky config tcp_conn before).1 4 chunks (λ addr h. inr 9) _
      (drop 2 sent ∷ []) [] [] refl header-IsValid refl refl refl

-- A temporary error ends the loop, and with it the process.
listen_tcp_conn_temporary :
    (listen_tcp_conn flaky config
      (accepted tcp_conn ∷ accept_failed true ∷ accepted tcp_conn ∷ [])
      before).0
    ≡ fatal
unfolding listen_tcp_conn handle_tcp_conn open_quic open_existing open_quic_session
listen_tcp_conn_temporary = refl

-- The second try fails too, and no error is reported.
abbrev expired : Quic
expired = record flaky {
  open_stream_sync = λ session h. inl "NO_ERROR: No recent network activity";
}

open_quic_stream-expired : (open_quic_stream expired config 3 before).0 ≡ some (none, none)
unfolding open_quic_stream open_quic_session open_again
open_quic_stream-expired = refl
