-- ===== src/Proxy/Server/Reads.antt =====
-- What HandleQuicStream of server.go does with a header that it has read.
use qpep.Prelude.{◌≡◌, ap, some, ◌∷◌, ◌⊎◌, inl, inr, arith}
use qpep.Header.{TcpAddr, QpepHeader, Reader, get_qpep_header}
use qpep.Proxy.{Conn, Error, tcp_dialed, History}
use qpep.Proxy.Server.{Served, serving, no_connection, serve, handle_tcp_conn, handle_quic_stream}

-- How a dial decides what becomes of the stream.
abbrev pub served_by : Error ⊎ Conn → Served
served_by (inl failed) = no_connection failed
served_by (inr conn) = serving conn

module _ (r : Reader) (dial_timeout : TcpAddr → History → Error ⊎ Conn) where
  pub handle_quic_stream_lem :
      (header : QpepHeader) (s s' : r.Stream) (h : History)
      → get_qpep_header r s ≡ (some header, s')
      → handle_quic_stream r dial_timeout s h ≡ (handle_tcp_conn r dial_timeout header h, s')
  unfolding handle_quic_stream
  handle_quic_stream_lem header s s' h read = ap (λ x. serve r dial_timeout x h) read

  pub handle_tcp_conn_lem :
      (header : QpepHeader) (h : History)
      → handle_tcp_conn r dial_timeout header h
        ≡ (served_by (dial_timeout header.dest_addr h), tcp_dialed header.dest_addr 10 ∷ h)
  unfolding handle_tcp_conn
  handle_tcp_conn_lem header h = ground arith
