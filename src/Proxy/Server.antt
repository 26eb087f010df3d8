-- ===== src/Proxy/Server.antt =====
-- src/qpep/server/server.go: a stream that was accepted begins with the header; the server dials the
-- TCP connection to the destination that the header names. `net.DialTimeout` is a parameter, and the
-- stream is the `Reader` of Header.
pub mod Reads
mod Examples
use qpep.Prelude.{◌∷◌, Option, none, some, List, [], ◌⊎◌, inl, inr, String, Bool, true, false, not}
use text.Mathlib.Text.{◌==◌ as str_eq}
use qpep.Header.{TcpAddr, QpepHeader, Reader, get_qpep_header}
use qpep.Proxy.{Session, Conn, Error, tcp_dialed, History}

-- How the set-up of a stream ends: with both directions being copied over a TCP connection, without
-- a header, or without a connection. In the two latter cases the handler returns and leaves the
-- stream open.
pub data Served : Type 0 where
  serving : Conn → Served
  no_header : Served
  no_connection : Error → Served

module _ (r : Reader) (dial_timeout : TcpAddr → History → Error ⊎ Conn) where
  -- `handleTCPConn` up to the copying, which is in Relay; the timeout is in seconds
  pub handle_tcp_conn : QpepHeader → History → Served × History
  handle_tcp_conn header h =
      let h' : History = tcp_dialed header.dest_addr 10 ∷ h in
      elim (dial_timeout header.dest_addr h) [
        | inl failed ↦ (no_connection failed, h')
        | inr conn ↦ (serving conn, h')
      ]

  abbrev pub serve : Option QpepHeader × r.Stream → History → (Served × History) × r.Stream
  unfolding handle_tcp_conn
  serve (none, s) h = ((no_header, h), s)
  serve (some header, s) h = (handle_tcp_conn header h, s)

  -- `HandleQuicStream`; with what is left of the stream
  pub handle_quic_stream : r.Stream → History → (Served × History) × r.Stream
  unfolding serve
  handle_quic_stream s h = serve (get_qpep_header r s) h

  -- `ListenQuicConn`, as far as streams came: how each was served, and what is logged of the error
  -- that ended the loop, if one did.
  listen_quic_conn :
      List (Error ⊎ r.Stream) → History → (List Served × Option (Option Error)) × History
  unfolding handle_quic_stream
  listen_quic_conn [] h = (([], none), h)
  listen_quic_conn (inl failed ∷ rest) h =
      let inactive = str_eq failed "NO_ERROR: No recent network activity" in
      (([], some (elim inactive [ true ↦ none | false ↦ some failed ])), h)
  listen_quic_conn (inr stream ∷ rest) h =
      let ((served, h'), _) = handle_quic_stream stream h in
      let ((others, ended), h'') = listen_quic_conn rest h' in ((served ∷ others, ended), h'')

-- `ListenQuicSession`: the sessions that are listened on, the last of which the package's
-- `quicSession` is (nil after an error), and whether the loop is still waiting.
listen_quic_session :
    List (Error ⊎ Session) → Option Session → List Session × (Option Session × Bool)
listen_quic_session [] last = ([], (last, true))
listen_quic_session (inl _ ∷ rest) last = ([], (none, false))
listen_quic_session (inr session ∷ rest) last =
    let (sessions, ended) = listen_quic_session rest (some session) in (session ∷ sessions, ended)
