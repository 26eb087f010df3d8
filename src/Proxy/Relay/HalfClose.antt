-- ===== src/Proxy/Relay/HalfClose.antt =====
-- That the copying of client.go and server.go does not pass on a close: streamTCPtoQUIC closes the
-- TCP connection that it read to its end, and leaves the stream open.
use qpep.Prelude.{◌≡◌, ◌≢◌, refl, sym, ◌∙◌, ap, Bool, true, false, [], ◌∷◌, ◌++◌}
use qpep.Header.{Bytes}
use qpep.Proxy.Relay.{
  Flow, Handler, View, Move, copy_out, stop_out, copy_into, stop_into, finish, out_eof,
  out_read_fails, out_write_fails, out_fault, into_eof, into_read_fails, into_write_fails,
  into_fault, Tunnel, Inner, client_moves, server_moves, Step, inner, app_sends, app_closes,
  dest_sends, dest_closes, start, Reach, here, next,
}
use qpep.Proxy.Relay.Delivery.{IsEmpty, IsStill, IsCopying}

-- Nothing was sent in a direction, and its source has not closed.
abbrev pub IsSilent : Flow → Type 0
IsSilent f = (f.sent ≡ []) × (f.closed ≡ false)

append-left_nil : (xs ys : Bytes) → xs ++ ys ≡ [] → xs ≡ []
append-left_nil [] ys e = refl
append-left_nil (x ∷ xs) ys e = absurd (cc e)

append-right_nil : (xs ys : Bytes) → xs ++ ys ≡ [] → ys ≡ []
append-right_nil [] ys e = e
append-right_nil (x ∷ xs) ys e = absurd (cc e)

no_chunk : (bytes chunk rest : Bytes) → bytes ≡ [] → bytes ≡ chunk ++ rest → chunk ≢ [] → ⊥
no_chunk bytes chunk rest none_left e some_byte =
    some_byte (append-left_nil chunk rest (sym e ∙ none_left))

-- The handler whose connection is silent: it copies on.
pub record IsWaiting (h : Handler) : Type 0 where
  pub copying : IsCopying h
  pub not_ended : h.ended ≡ false

-- The handler at the other end of the stream still waits for bytes from it.
pub record IsListening (h : Handler) : Type 0 where
  pub listening : h.quic_to_tcp ≡ true
  pub not_ended : h.ended ≡ false

-- A move of the handler whose connection is silent: it copies bytes from the stream.
silent_moves :
    {far_ended far_resets : Bool} {v u : View}
    → Move false far_ended far_resets v u
    → far_ended ≡ false
    → v.out.closed ≡ false
    → IsEmpty v.out
    → IsWaiting v.handler
    → IsEmpty u.out × IsWaiting u.handler × (v.into.in_quic ≢ [])
silent_moves (copy_out v chunk rest _ _ e some_byte) far unclosed bare w =
    absurd (no_chunk v.out.waiting chunk rest bare.0 e some_byte)
silent_moves (stop_out v _ (out_eof _ closed)) far unclosed bare w = absurd (cc (closed, unclosed))
silent_moves (stop_out v _ (out_read_fails shut)) far unclosed bare w =
    absurd (cc (shut, w.copying.0))
silent_moves (stop_out v _ (out_write_fails _ ended _)) far unclosed bare w =
    absurd (cc (ended, far))
silent_moves (stop_out v _ (out_fault faulty)) far unclosed bare w = absurd (cc faulty)
silent_moves (copy_into v chunk rest _ _ e some_byte) far unclosed bare w =
    (bare, w, λ none_left. no_chunk v.into.in_quic chunk rest none_left e some_byte)
silent_moves (stop_into v _ (into_eof _ ended)) far unclosed bare w = absurd (cc (ended, far))
silent_moves (stop_into v _ (into_read_fails ended _)) far unclosed bare w =
    absurd (cc (ended, far))
silent_moves (stop_into v _ (into_write_fails _ shut)) far unclosed bare w =
    absurd (cc (shut, w.copying.0))
silent_moves (stop_into v _ (into_fault faulty)) far unclosed bare w = absurd (cc faulty)
silent_moves (finish v done _ _) far unclosed bare w = absurd (cc (done, w.copying.1))

-- A move of the other handler: it reads its connection, or stops to.
other_moves :
    {far_ended far_resets : Bool} {v u : View}
    → Move false far_ended far_resets v u
    → far_ended ≡ false
    → IsEmpty v.into
    → IsListening v.handler
    → IsEmpty u.into × IsListening u.handler × (v.handler.tcp_to_quic ≡ true)
other_moves (copy_out v _ _ running _ _ _) far bare l = (bare, l, running)
other_moves (stop_out v running _) far bare l =
    (bare, record { listening = l.listening; not_ended = l.not_ended }, running)
other_moves (copy_into v chunk rest _ _ e some_byte) far bare l =
    absurd (no_chunk v.into.in_quic chunk rest bare.1 e some_byte)
other_moves (stop_into v _ (into_eof _ ended)) far bare l = absurd (cc (ended, far))
other_moves (stop_into v _ (into_read_fails ended _)) far bare l = absurd (cc (ended, far))
other_moves (stop_into v _ (into_write_fails some_byte _)) far bare l = absurd (some_byte bare.1)
other_moves (stop_into v _ (into_fault faulty)) far bare l = absurd (cc faulty)
other_moves (finish v _ done _) far bare l = absurd (cc (done, l.listening))

-- What a silent destination comes to.
pub record IsHeld (t : Tunnel) : Type 0 where
  pub bare : IsEmpty t.down
  pub server : IsWaiting t.server
  pub client : IsListening t.client

-- The handlers' moves do not make a source silent.
Move-IsSilent :
    {far_ended far_resets : Bool} {v u : View}
    → Move false far_ended far_resets v u
    → (IsSilent u.out → IsSilent v.out) × (IsSilent u.into → IsSilent v.into)
Move-IsSilent (copy_out v _ _ _ _ _ _) = (λ s. s, λ s. s)
Move-IsSilent (stop_out v _ _) = (λ s. s, λ s. s)
Move-IsSilent (copy_into v _ _ _ _ _ _) = (λ s. s, λ s. s)
Move-IsSilent (stop_into v _ _) = (λ s. s, λ s. s)
Move-IsSilent (finish v _ _ _) = (λ s. s, λ s. s)

Inner-IsHeld :
    {t u : Tunnel} → Inner false t u → (IsSilent t.down → IsHeld t) → IsSilent u.down → IsHeld u
Inner-IsHeld (client_moves t m) before silent =
    let held = before ((Move-IsSilent m).1 silent) in
    let (bare, client, _) = other_moves m held.server.not_ended held.bare held.client in
    record { bare = bare; server = held.server; client = client }
Inner-IsHeld (server_moves t m) before silent =
    let still = (Move-IsSilent m).0 silent in
    let held = before still in
    let (bare, server, _) = silent_moves m held.client.not_ended still.1 held.bare held.server in
    record { bare = bare; server = server; client = held.client }

Step-IsHeld :
    {t u : Tunnel} → Step false t u → (IsSilent t.down → IsHeld t) → IsSilent u.down → IsHeld u
Step-IsHeld (inner m) before silent = Inner-IsHeld m before silent
Step-IsHeld (app_sends t chunk _) before silent =
    let held = before silent in
    record { bare = held.bare; server = held.server; client = held.client }
Step-IsHeld (app_closes t) before silent =
    let held = before silent in
    record { bare = held.bare; server = held.server; client = held.client }
Step-IsHeld (dest_sends t chunk _) before (unsent, unclosed) =
    let held = before (append-left_nil t.down.sent chunk unsent, unclosed) in
    let no_bytes = append-right_nil t.down.sent chunk unsent in
    record {
      bare = (ap (λ l. l ++ chunk) held.bare.0 ∙ no_bytes, held.bare.1);
      server = held.server;
      client = held.client;
    }
Step-IsHeld (dest_closes t) before (_, unclosed) = absurd (cc unclosed)

Reach-IsHeld : (t : Tunnel) → Reach false start t → IsSilent t.down → IsHeld t
Reach-IsHeld t here silent = record {
  bare = (refl, refl);
  server = record { copying = (refl, refl, refl); not_ended = refl };
  client = record { listening = refl; not_ended = refl };
}
Reach-IsHeld t (next {t = s} r st) silent = Step-IsHeld st (Reach-IsHeld s r) silent

IsHeld-not_Inner :
    {t u : Tunnel}
    → IsHeld t
    → t.down.closed ≡ false
    → t.client.tcp_to_quic ≡ false
    → t.up.in_quic ≡ []
    → ¬ Inner false t u
IsHeld-not_Inner held unclosed done bare (client_moves t m) =
    let (_, _, running) = other_moves m held.server.not_ended held.bare held.client in
    cc (running, done)
IsHeld-not_Inner held unclosed done bare (server_moves t m) =
    let (_, _, some_bytes) = silent_moves m held.client.not_ended unclosed held.bare held.server in
    some_bytes bare

-- In every state that the tunnel comes to without a failure, while the destination has sent nothing
-- and has not closed: when the client has read the end of what the application sent and the stream
-- holds no more of it, no goroutine has a move left, although neither handler has ended and the
-- server's connection to the destination is still open, with both of its goroutines copying.
pub Reach-IsStill :
    (t : Tunnel)
    → Reach false start t
    → IsSilent t.down
    → t.client.tcp_to_quic ≡ false
    → t.up.in_quic ≡ []
    → IsStill t × IsHeld t
Reach-IsStill t r silent done bare =
    let held = Reach-IsHeld t r silent in (λ u m. IsHeld-not_Inner held silent.1 done bare m, held)
