-- ===== src/Proxy/Relay/Delivery.antt =====
-- How far the copying of client.go and server.go comes when nothing fails and the application and
-- the destination are silent.
use qpep.Prelude.{
  ℕ, zero, suc, ◌+◌, ◌-◌, ◌*◌, ◌≤◌, ◌<◌, ◌≡◌, ◌≢◌, refl, sym, ◌∙◌, ap, Bool, true, false, [], ◌∷◌,
  ◌++◌, append-nil, length, length-append, arith,
}
use qpep.Header.{Bytes}
use qpep.Proxy.Relay.{
  Flow, Handler, View, Move, copy_out, stop_out, copy_into, stop_into, finish, Tunnel, Inner,
  client_moves, server_moves, start, Reach,
}
use qpep.Proxy.Relay.Order.{IsAccounted, IsKept, Inner-IsKept, Reach-IsKept}

-- A run of `n` moves of the handlers without a failure.
pub data Moves (s : Tunnel) : ℕ → Tunnel → Type 0 where
  still : Moves s zero s
  moved : {n : ℕ} {t u : Tunnel} → Moves s n t → Inner false t u → Moves s (suc n) u

abbrev bit : Bool → ℕ
bit true = 1
bit false = 0

-- Each byte may be copied as often; a handler has three ends to come to.
abbrev pub flow_work : Flow → ℕ
flow_work f = 2 * length f.waiting + length f.in_quic

abbrev pub handler_work : Handler → ℕ
handler_work h = bit h.tcp_to_quic + bit h.quic_to_tcp + (1 - bit h.ended)

abbrev view_work : View → ℕ
view_work v = flow_work v.out + flow_work v.into + handler_work v.handler

abbrev pub work : Tunnel → ℕ
work t = flow_work t.up + flow_work t.down + handler_work t.client + handler_work t.server

length-positive : (chunk : Bytes) → chunk ≢ [] → 0 < length chunk
length-positive [] h = absurd (h refl)
length-positive (c ∷ chunk) h = omega arith

copied :
    (there here chunk rest : Bytes)
    → here ≡ chunk ++ rest
    → chunk ≢ []
    → (0 < length chunk)
      × (length here ≡ length chunk + length rest)
      × (length (there ++ chunk) ≡ length there + length chunk)
copied there here chunk rest e some_byte = (
  length-positive chunk some_byte,
  ap length e ∙ length-append chunk rest,
  length-append there chunk,
)

Move-work :
    {far_ended far_resets : Bool} {v u : View}
    → Move false far_ended far_resets v u
    → view_work u < view_work v
Move-work (copy_out v chunk rest _ _ e h) =
    omega (arith, copied v.out.in_quic v.out.waiting chunk rest e h)
Move-work (stop_out v running _) = ground (arith, running)
Move-work (copy_into v chunk rest _ _ e h) =
    omega (arith, copied v.into.received v.into.in_quic chunk rest e h)
Move-work (stop_into v running _) = ground (arith, running)
Move-work (finish v _ _ running) = ground (arith, running)

Inner-work : {t u : Tunnel} → Inner false t u → work u < work t
Inner-work (client_moves t m) = omega (arith, Move-work m)
Inner-work (server_moves t m) = omega (arith, Move-work m)

Moves-work : {s t : Tunnel} {n : ℕ} → Moves s n t → n + work t ≤ work s
Moves-work still = omega arith
Moves-work (moved run m) = omega (arith, Moves-work run, Inner-work m)

Moves-IsKept : {s t : Tunnel} {n : ℕ} → Moves s n t → IsKept s → IsKept t
Moves-IsKept still kept = kept
Moves-IsKept (moved run m) kept = Inner-IsKept m (Moves-IsKept run kept)

-- The moves of the handlers do not change what the ends of the tunnel have sent.
Move-sent :
    {faulty far_ended far_resets : Bool} {v u : View}
    → Move faulty far_ended far_resets v u
    → (u.out.sent ≡ v.out.sent) × (u.into.sent ≡ v.into.sent)
Move-sent (copy_out v chunk rest _ _ e h) = (refl, refl)
Move-sent (stop_out v running _) = (refl, refl)
Move-sent (copy_into v chunk rest _ _ e h) = (refl, refl)
Move-sent (stop_into v running _) = (refl, refl)
Move-sent (finish v _ _ running) = (refl, refl)

Inner-sent :
    {t u : Tunnel} → Inner false t u → (u.up.sent ≡ t.up.sent) × (u.down.sent ≡ t.down.sent)
Inner-sent (client_moves t m) = Move-sent m
Inner-sent (server_moves t m) = let (down, up) = Move-sent m in (up, down)

Moves-sent :
    {s t : Tunnel} {n : ℕ} → Moves s n t → (t.up.sent ≡ s.up.sent) × (t.down.sent ≡ s.down.sent)
Moves-sent still = (refl, refl)
Moves-sent (moved run m) =
    let (up, down) = Moves-sent run in let (up', down') = Inner-sent m in (up' ∙ up, down' ∙ down)

-- No handler has a move.
abbrev pub IsStill : Tunnel → Type 0
IsStill t = (u : Tunnel) → ¬ Inner false t u

-- Both goroutines are copying.
abbrev pub IsCopying : Handler → Type 0
IsCopying h = (h.tcp_open ≡ true) × (h.tcp_to_quic ≡ true) × (h.quic_to_tcp ≡ true)

all_received : (f : Flow) → IsAccounted f → f.waiting ≡ [] → f.in_quic ≡ [] → f.received ≡ f.sent
all_received f kept w q = sym (
    kept
    ∙ ap (λ l. f.received ++ (l ++ f.waiting)) q
    ∙ ap (λ l. f.received ++ l) w
    ∙ append-nil f.received)

-- Some run from `t` ends where `P` holds.
abbrev pub CanReach : Tunnel → (Tunnel → Type 0) → Type 0
CanReach t P = (k : ℕ) × (w : Tunnel) × Moves t k w × P w

Moves-trans : {s t u : Tunnel} {m n : ℕ} → Moves s m t → Moves t n u → (k : ℕ) × Moves s k u
Moves-trans run still = (_, run)
Moves-trans run (moved more m) = let (k, all) = Moves-trans run more in (suc k, moved all m)

CanReach-then :
    {P Q : Tunnel → Type 0} (t : Tunnel)
    → CanReach t P
    → ((w : Tunnel) → P w → CanReach w Q)
    → CanReach t Q
CanReach-then t (_, w, run, p) onward =
    let (_, u, more, q) = onward w p in let (k, all) = Moves-trans run more in (k, u, all, q)

-- A goroutine copies all bytes that are there, if there are any, as one chunk.
copy_all :
    {P : Tunnel → Type 0} (t : Tunnel) (bytes : Bytes)
    → (bytes ≡ [] → P t)
    → (bytes ≡ bytes ++ [] → bytes ≢ [] → (u : Tunnel) × Inner false t u × P u)
    → CanReach t P
copy_all t [] none_left some_left = (0, t, still, none_left refl)
copy_all t (b ∷ bytes) none_left some_left =
    let (u, m, p) = some_left (sym (append-nil (b ∷ bytes))) (λ e. cc e) in (1, u, moved still m, p)

abbrev pub IsEmpty : Flow → Type 0
IsEmpty f = (f.waiting ≡ []) × (f.in_quic ≡ [])

abbrev pub BothCopy : Tunnel → Type 0
BothCopy t = IsCopying t.client × IsCopying t.server

-- The client's goroutine and then the server's copy what there is of `up`.
clear_up : (t : Tunnel) → BothCopy t → CanReach t (λ w. BothCopy w × IsEmpty w.up)
clear_up t both =
    CanReach-then {P = λ w. BothCopy w × (w.up.waiting ≡ [])} t
      (copy_all t t.up.waiting (λ bare. (both, bare))
        λ e h. (_, client_moves t (copy_out _ _ [] both.0.1 both.0.0 e h), (both, refl)))
      λ w (both, bare).
        copy_all w w.up.in_quic (λ bare'. (both, (bare, bare')))
          λ e h. (_, server_moves w (copy_into _ _ [] both.1.2 both.1.0 e h), (both, (bare, refl)))

-- The server's goroutine and then the client's copy what there is of `down`.
clear_down :
    (t : Tunnel)
    → BothCopy t × IsEmpty t.up
    → CanReach t (λ w. (BothCopy w × IsEmpty w.up) × IsEmpty w.down)
clear_down t up =
    let both = up.0 in
    CanReach-then {P = λ w. (BothCopy w × IsEmpty w.up) × (w.down.waiting ≡ [])} t
      (copy_all t t.down.waiting (λ bare. (up, bare))
        λ e h. (_, server_moves t (copy_out _ _ [] both.1.1 both.1.0 e h), (up, refl)))
      λ w (up', bare).
        let both' = up'.0 in
        copy_all w w.down.in_quic (λ bare'. (up', (bare, bare')))
          λ e h. (_, client_moves w (copy_into _ _ [] both'.0.2 both'.0.0 e h), (up', (bare, refl)))

-- Both ends have received all that the other one had sent in `t`.
abbrev pub IsDelivered : Tunnel → Tunnel → Type 0
IsDelivered t w = (w.up.received ≡ t.up.sent) × (w.down.received ≡ t.down.sent)

-- From any state that the tunnel came to, even by failures, while the application and the
-- destination are silent and nothing fails: the handlers make at most as many moves as there is
-- work; and whatever moves they have made, as long as no goroutine has ended, they can go on until
-- each end has received all that the other had sent, and no goroutine has ended then.
pub Moves-delivers :
    {faulty : Bool} (t u : Tunnel) (n : ℕ)
    → Reach faulty start t
    → Moves t n u
    → IsCopying u.client
    → IsCopying u.server
    → (n ≤ work t) × CanReach u (λ w. BothCopy w × IsDelivered t w)
Moves-delivers t u n r run client server =
    let (k, w, more, ((both, up), down)) =
      CanReach-then u (clear_up u (client, server)) clear_down in
    let (_, all) = Moves-trans run more in
    let kept = Moves-IsKept all (Reach-IsKept r) in
    let (up_sent, down_sent) = Moves-sent all in
    (
      omega (arith, Moves-work run),
      (
        k,
        w,
        more,
        (
          both,
          (
            all_received w.up kept.up up.0 up.1 ∙ up_sent,
            all_received w.down kept.down down.0 down.1 ∙ down_sent,
          ),
        ),
      ),
    )
