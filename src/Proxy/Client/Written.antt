-- ===== src/Proxy/Client/Written.antt =====
-- What handleTCPConn of client.go writes on the stream that it copies over.
use qpep.Prelude.{
  ℕ, zero, suc, ◌≡◌, refl, ◌∙◌, ap, String, Option, none, some, [], ◌∷◌, ◌++◌, ◌==◌, ==_iff, inl,
  inr, if◌then◌else◌, arith,
}
use qpep.Header.{Bytes, to_bytes}
use qpep.Proxy.{Stream, Error, Event, stream_wrote, quic_dialed, History, ClientConfig}
use qpep.Proxy.Client.{
  Quic, Opened, TcpConn, Client, Handled, relaying, dropped, panicked, dial_loop, gateway_path,
  open_quic_session, open_existing, open_on, open_unless, open_quic, begin, header_of,
  handle_tcp_conn,
}
use qpep.Proxy.Client.Dials.{sum_cases}

abbrev add_bytes : Stream → Event → Bytes → Bytes
add_bytes stream (stream_wrote other bytes) before =
    if other == stream then before ++ bytes else before
add_bytes stream _ before = before

-- All that was written on a stream, in order.
abbrev pub written : Stream → History → Bytes
written stream [] = []
written stream (event ∷ h) = add_bytes stream event (written stream h)

module _ (q : Quic) (stream : Stream) where
  dial_loop-written :
      (path : String) (n : ℕ) (err : Option Error) (h : History)
      → written stream (dial_loop q path n err h).1 ≡ written stream h
  dial_loop-written path zero err h = refl
  dial_loop-written path (suc n) err h = elim (sum_cases (q.dial_addr path h)) [
    | inl (failed, same) ↦
        rw (dial_loop, same) (dial_loop-written path n (some failed) (quic_dialed path ∷ h))
    | inr (session, same) ↦ rw (dial_loop, same) refl
  ]

  open_existing-written :
      (config : ClientConfig) (c : Client)
      → written stream (open_existing q config c).1.history ≡ written stream c.history
  unfolding open_existing
  open_existing-written config c = ground arith

  open_on-written :
      (opened : Opened) (h : History)
      → written stream (open_on q (opened, h)).1.history ≡ written stream h
  open_on-written (session, some err) h = refl
  open_on-written (none, none) h = refl
  open_on-written (some session, none) h = ground arith

  open_unless-written :
      (config : ClientConfig) (existing : Option Stream) (c : Client)
      → written stream (open_unless q config (existing, c)).1.history ≡ written stream c.history
  unfolding open_quic_session
  open_unless-written config (some opened) c = refl
  open_unless-written config none c =
      let (opened, h) = open_quic_session q config c.history in
      open_on-written opened h
      ∙ dial_loop-written (gateway_path config) config.connection_retries none c.history

  -- Nothing is written before the header.
  open_quic-written :
      (config : ClientConfig) (c : Client)
      → written stream (open_quic q config c).1.history ≡ written stream c.history
  unfolding open_quic
  open_quic-written config c =
      let (existing, c') = open_existing q config c in
      open_unless-written config existing c' ∙ open_existing-written config c

  begin-written :
      (tcp_conn : TcpConn) (handled : Handled) (c c' : Client)
      → begin tcp_conn (handled, c) ≡ (relaying stream, c')
      → written stream c'.history ≡ written stream c.history ++ to_bytes (header_of tcp_conn)
  begin-written tcp_conn (relaying other) c c' e =
      let same : other ≡ stream = cc e in ground (arith, e, same, ==_iff other stream)
  begin-written tcp_conn dropped c c' e = absurd (cc e)
  begin-written tcp_conn panicked c c' e = absurd (cc e)

  -- If handleTCPConn goes on to copy over a stream on which nothing was written before, it has
  -- written the header there and nothing else.
  pub handle_tcp_conn-written :
      (config : ClientConfig) (tcp_conn : TcpConn) (c c' : Client)
      → handle_tcp_conn q config tcp_conn c ≡ (relaying stream, c')
      → written stream c.history ≡ []
      → written stream c'.history ≡ to_bytes (header_of tcp_conn)
  unfolding handle_tcp_conn
  handle_tcp_conn-written config tcp_conn c c' e fresh =
      let (handled, opened) = open_quic q config c in
      begin-written tcp_conn handled opened c' e
      ∙ ap (λ l. l ++ to_bytes (header_of tcp_conn)) (open_quic-written config c ∙ fresh)
