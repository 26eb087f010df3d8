-- ===== src/Proxy/Tunnel.antt =====
-- The two ends together: the bytes that handleTCPConn of client.go writes on a stream are those
-- that HandleQuicStream of server.go reads.
use qpep.Prelude.{◌-◌, ◌≡◌, sym, ◌∙◌, ap, some, [], ◌∷◌, length, take, drop, ◌⊎◌}
use qpep.Header.{TcpAddr, Reader}
use qpep.Header.Encoding.{IsValid, canonical, canonical_header}
use qpep.Header.RoundTrip.{get_qpep_header_lem}
use qpep.Proxy.{Stream, Conn, Error, tcp_dialed, History, ClientConfig}
use qpep.Proxy.Client.{Quic, TcpConn, Client, relaying, header_of, handle_tcp_conn}
use qpep.Proxy.Client.Written.{written, handle_tcp_conn-written}
use qpep.Proxy.Server.{handle_quic_stream}
use qpep.Proxy.Server.Reads.{served_by, handle_quic_stream_lem, handle_tcp_conn_lem}

abbrev pub shortest : TcpAddr → TcpAddr
shortest addr = record { ip = canonical addr.ip; port = addr.port }

-- If handleTCPConn of the client goes on to copy over a new stream, for a connection with addresses
-- of four or sixteen bytes and ports of sixteen bits, and the server's two reads bring the preamble
-- and the rest of what the client wrote, then HandleQuicStream of the server dials once, for ten
-- seconds, the address that the connection was made to, in its shortest form; it serves the stream
-- if the dial succeeds and ends with its error if not; and the stream stands after the header.
pub handle_quic_stream-handle_tcp_conn :
    (q : Quic) (config : ClientConfig) (tcp_conn : TcpConn) (c c' : Client) (stream : Stream)
    (r : Reader) (dial_timeout : TcpAddr → History → Error ⊎ Conn) (s₀ s₁ s₂ : r.Stream)
    (h : History)
    → handle_tcp_conn q config tcp_conn c ≡ (relaying stream, c')
    → IsValid (header_of tcp_conn)
    → written stream c.history ≡ []
    → r.read 2 s₀ ≡ (some (take 2 (written stream c'.history)), s₁)
    → r.read (length (written stream c'.history) - 2) s₁
      ≡ (some (drop 2 (written stream c'.history)), s₂)
    → let dest = shortest tcp_conn.local_addr in
      handle_quic_stream r dial_timeout s₀ h
      ≡ ((served_by (dial_timeout dest h), tcp_dialed dest 10 ∷ h), s₂)
handle_quic_stream-handle_tcp_conn q config tcp_conn c c' stream r dial_timeout s₀ s₁ s₂ h handled v
      fresh first second =
    let header = header_of tcp_conn in
    let sent = handle_tcp_conn-written q stream config tcp_conn c c' handled fresh in
    let received =
      get_qpep_header_lem r header s₀ s₁ s₂ v (first ∙ ap (λ l. (some (take 2 l), s₁)) sent) (
        ap (λ l. r.read (length l - 2) s₁) (sym sent)
        ∙ second
        ∙ ap (λ l. (some (drop 2 l), s₂)) sent) in
    handle_quic_stream_lem r dial_timeout (canonical_header header) s₀ s₂ h received
    ∙ ap (λ x. (x, s₂)) (handle_tcp_conn_lem r dial_timeout (canonical_header header) h)
