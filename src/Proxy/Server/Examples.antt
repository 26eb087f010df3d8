-- ===== src/Proxy/Server/Examples.antt =====
-- The loops of server.go on what the listeners bring.
use qpep.Prelude.{◌≡◌, refl, false, none, some, [], ◌∷◌, inl, inr}
use qpep.Header.{Reader}
use qpep.Proxy.Server.{listen_quic_conn, listen_quic_session}

-- A stream that has failed.
abbrev broken : Reader
broken = record { Stream = Unit; read = λ n s. (none, s) }

-- An idle session ends the loop and is not logged; any other error is.
listen_quic_conn_idle :
    listen_quic_conn broken (λ addr h. inr 9) (inl "NO_ERROR: No recent network activity" ∷ []) []
    ≡ (([], some none), [])
unfolding listen_quic_conn
listen_quic_conn_idle = refl

listen_quic_conn_error :
    listen_quic_conn broken (λ addr h. inr 9) (inl "reset" ∷ inr tt ∷ []) []
    ≡ (([], some (some "reset")), [])
unfolding listen_quic_conn
listen_quic_conn_error = refl

listen_quic_session_error :
    listen_quic_session (inr 1 ∷ inr 2 ∷ inl "closed" ∷ inr 3 ∷ []) none
    ≡ (1 ∷ 2 ∷ [], (none, false))
unfolding listen_quic_session
listen_quic_session_error = refl
