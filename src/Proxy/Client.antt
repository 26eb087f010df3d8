-- ===== src/Proxy/Client.antt =====
-- src/qpep/client/client.go: a TCP connection that was accepted gets a stream of a QUIC session, on
-- which the header is the first that is written.
pub mod Dials
pub mod Written
mod Examples
use qpep.Prelude.{
  ℕ, zero, suc, ◌+◌, String, Bool, true, false, Option, none, some, List, [], ◌∷◌, ◌⊎◌, inl, inr,
  if◌then◌else◌,
}
use text.Mathlib.Text.{◌==◌ as str_eq}
use qpep.Prelude.Text.{join, str_of_int}
use qpep.Header.{TcpAddr, QpepHeader, to_bytes}
use qpep.Proxy.{
  Session, Stream, Conn, Error, quic_dialed, stream_opened, stream_opened_sync, stream_wrote,
  tcp_closed, History, ClientConfig,
}

-- What quic-go answers to a call, given all that went before it.
pub record Quic : Type 0 where
  pub dial_addr : String → History → Error ⊎ Session
  pub open_stream : Session → History → Error ⊎ Stream
  pub open_stream_sync : Session → History → Error ⊎ Stream

-- A Go result `(session, err)`: either may be nil.
abbrev pub Opened : Type 0
Opened = Option Session × Option Error

-- An accepted connection: with IP_TRANSPARENT its local address is the one that the caller dialed.
pub record TcpConn : Type 0 where
  pub conn : Conn
  pub remote_addr : TcpAddr
  pub local_addr : TcpAddr

-- The package's `quicSession`, with what has been done so far.
pub record Client : Type 0 where
  pub quic_session : Option Session
  pub history : History

-- How the set-up of a connection ends: with both directions being copied over a stream, with the
-- connection dropped, or with a call on the nil session, which ends the process.
pub data Handled : Type 0 where
  relaying : Stream → Handled
  dropped : Handled
  panicked : Handled

abbrev pub gateway_path : ClientConfig → String
gateway_path config = join (config.gateway_host ∷ ":" ∷ str_of_int config.gateway_port ∷ [])

abbrev pub header_of : TcpConn → QpepHeader
header_of tcp_conn = record { source_addr = tcp_conn.remote_addr; dest_addr = tcp_conn.local_addr }

-- The header, or the deferred `tcpConn.Close()`.
abbrev pub begin : TcpConn → Handled × Client → Handled × Client
begin tcp_conn (relaying stream, c) = (
  relaying stream,
  record c { history = stream_wrote stream (to_bytes (header_of tcp_conn)) ∷ c.history },
)
begin tcp_conn (handled, c) = (handled, record c { history = tcp_closed tcp_conn.conn ∷ c.history })

module _ (q : Quic) where
  open q use {dial_addr, open_stream, open_stream_sync}

  -- `err` is that of the dial before.
  abbrev pub dial_loop : String → ℕ → Option Error → History → Opened × History
  dial_loop path zero err h = ((none, err), h)
  dial_loop path (suc n) err h = elim (dial_addr path h) [
    | inr session ↦ ((some session, none), quic_dialed path ∷ h)
    | inl failed ↦ dial_loop path n (some failed) (quic_dialed path ∷ h)
  ]

  pub open_quic_session : ClientConfig → History → Opened × History
  open_quic_session config h = dial_loop (gateway_path config) config.connection_retries none h

  -- A stream of the session that is there, if the options allow for several.
  pub open_existing : ClientConfig → Client → Option Stream × Client
  open_existing config c =
      if config.multi_stream
      then elim c.quic_session [
        | none ↦ (none, c)
        | some session ↦
            let c' : Client = record c { history = stream_opened session ∷ c.history } in
            elim (open_stream session c.history) [
              | inl _ ↦ (none, c')
              | inr stream ↦ (some stream, c')
            ]
      ]
      else (none, c)

  -- The answer of `openQuicSession` is the package's session from then on.
  abbrev pub open_on : Opened × History → Handled × Client
  open_on ((answer, some _), h) = (dropped, record { quic_session = answer; history = h })
  open_on ((none, none), h) = (panicked, record { quic_session = none; history = h })
  open_on ((some session, none), h) =
      let c : Client = record {
        quic_session = some session;
        history = stream_opened_sync session ∷ h;
      } in
      elim (open_stream_sync session h) [ inl _ ↦ (dropped, c) | inr stream ↦ (relaying stream, c) ]

  -- A new session, if no stream was opened on the one that was there.
  abbrev pub open_unless : ClientConfig → Option Stream × Client → Handled × Client
  unfolding open_quic_session
  open_unless config (some stream, c) = (relaying stream, c)
  open_unless config (none, c) = open_on (open_quic_session config c.history)

  pub open_quic : ClientConfig → Client → Handled × Client
  unfolding open_existing
  open_quic config c = open_unless config (open_existing config c)

  -- `handleTCPConn` up to the copying, which is in Relay
  pub handle_tcp_conn : ClientConfig → TcpConn → Client → Handled × Client
  unfolding open_quic
  handle_tcp_conn config tcp_conn c = begin tcp_conn (open_quic config c)

  abbrev no_recent_activity : Error
  no_recent_activity = "NO_ERROR: No recent network activity"

  -- Opens a stream on the new session; `none` is a call on the nil session.
  open_again : Opened × History → Option (Option Stream × Option Error) × Client
  open_again ((none, _), h) = (none, record { quic_session = none; history = h })
  open_again ((some session, _), h) =
      let c : Client = record {
        quic_session = some session;
        history = stream_opened_sync session ∷ h;
      } in
      elim (open_stream_sync session h) [
        | inl _ ↦ (some (none, none), c)
        | inr stream ↦ (some (some stream, none), c)
      ]

  -- `openQuicStream`, which nothing calls: the error of its second try is overwritten and dropped.
  open_quic_stream :
      ClientConfig → Session → Client → Option (Option Stream × Option Error) × Client
  unfolding open_quic_session open_again
  open_quic_stream config session c =
      let c' : Client = record c { history = stream_opened_sync session ∷ c.history } in
      elim (open_stream_sync session c.history) [
        | inr stream ↦ (some (some stream, none), c')
        | inl failed ↦ elim (str_eq failed no_recent_activity) [
          | true ↦ open_again (open_quic_session config c'.history)
          | false ↦ (some (none, some failed), c')
        ]
      ]

-- What `proxyListener.Accept()` returns; an error may be a temporary one.
data Accepted : Type 0 where
  accepted : TcpConn → Accepted
  accept_failed : Bool → Accepted

-- How the loop stands: waiting for the next connection, ended by log.Fatalf, or by a panic.
data Listening : Type 0 where
  waiting fatal crashed : Listening

module _ (q : Quic) where
  -- `ListenTCPConn`, as far as connections came: a temporary error is logged and is fatal too.
  listen_tcp_conn : ClientConfig → List Accepted → Client → Listening × Client
  unfolding handle_tcp_conn
  listen_tcp_conn config [] c = (waiting, c)
  listen_tcp_conn config (accept_failed temporary ∷ rest) c = (fatal, c)
  listen_tcp_conn config (accepted tcp_conn ∷ rest) c =
      let (handled, c') = handle_tcp_conn q config tcp_conn c in
      elim handled [ panicked ↦ (crashed, c') | _ ↦ listen_tcp_conn config rest c' ]
