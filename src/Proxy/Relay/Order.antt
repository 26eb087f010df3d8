-- ===== src/Proxy/Relay/Order.antt =====
-- What the copying of client.go and server.go keeps: order, and nothing but what was sent.
use qpep.Prelude.{◌≡◌, refl, sym, ◌∙◌, ap, Bool, ◌++◌, append_assoc}
use qpep.Header.{Bytes}
use qpep.Proxy.Relay.{
  Flow, View, Move, copy_out, stop_out, copy_into, stop_into, finish, Tunnel, Inner, client_moves,
  server_moves, send, Step, inner, app_sends, app_closes, dest_sends, dest_closes, start, Reach,
  here, next,
}

-- What was sent is what was received, what is in the stream and what waits, in this order.
abbrev pub IsAccounted : Flow → Type 0
IsAccounted f = f.sent ≡ f.received ++ (f.in_quic ++ f.waiting)

-- Between two places a chunk moves from the front of one to the back of the other.
shift : (a b chunk rest : Bytes) → a ++ (b ++ (chunk ++ rest)) ≡ a ++ ((b ++ chunk) ++ rest)
shift a b chunk rest = ap (λ l. a ++ l) (sym (append_assoc b chunk rest))

Move-IsAccounted :
    {faulty far_ended far_resets : Bool} {v u : View}
    → Move faulty far_ended far_resets v u
    → IsAccounted v.out
    → IsAccounted v.into
    → IsAccounted u.out × IsAccounted u.into
Move-IsAccounted (copy_out v chunk rest _ _ e _) out into = (
  out
      ∙ ap (λ l. v.out.received ++ (v.out.in_quic ++ l)) e
      ∙ shift v.out.received v.out.in_quic chunk rest,
  into,
)
Move-IsAccounted (stop_out v _ _) out into = (out, into)
Move-IsAccounted (copy_into v chunk rest _ _ e _) out into =
    (out, into ∙ ap (λ l. v.into.received ++ (l ++ v.into.waiting)) e ∙ simp (append_assoc))
Move-IsAccounted (stop_into v _ _) out into = (out, into)
Move-IsAccounted (finish v _ _ _) out into = (out, into)

pub record IsKept (t : Tunnel) : Type 0 where
  pub up : IsAccounted t.up
  pub down : IsAccounted t.down

pub Inner-IsKept : {faulty : Bool} {t u : Tunnel} → Inner faulty t u → IsKept t → IsKept u
Inner-IsKept (client_moves t m) kept =
    let (out, into) = Move-IsAccounted m kept.up kept.down in record { up = out; down = into }
Inner-IsKept (server_moves t m) kept =
    let (out, into) = Move-IsAccounted m kept.down kept.up in record { up = into; down = out }

send-IsAccounted : (chunk : Bytes) (f : Flow) → IsAccounted f → IsAccounted (send chunk f)
send-IsAccounted chunk f kept = ap (λ l. l ++ chunk) kept ∙ simp (append_assoc)

Step-IsKept : {faulty : Bool} {t u : Tunnel} → Step faulty t u → IsKept t → IsKept u
Step-IsKept (inner m) kept = Inner-IsKept m kept
Step-IsKept (app_sends t chunk _) kept = record {
  up = send-IsAccounted chunk t.up kept.up;
  down = kept.down;
}
Step-IsKept (app_closes t) kept = record { up = kept.up; down = kept.down }
Step-IsKept (dest_sends t chunk _) kept = record {
  up = kept.up;
  down = send-IsAccounted chunk t.down kept.down;
}
Step-IsKept (dest_closes t) kept = record { up = kept.up; down = kept.down }

pub Reach-IsKept : {faulty : Bool} {t : Tunnel} → Reach faulty start t → IsKept t
Reach-IsKept here = record { up = refl; down = refl }
Reach-IsKept (next r st) = Step-IsKept st (Reach-IsKept r)

-- One list of bytes begins with another.
abbrev pub IsPrefix : Bytes → Bytes → Type 0
IsPrefix l whole = (rest : Bytes) × (whole ≡ l ++ rest)

-- In every state that the tunnel comes to, whatever fails and in whatever order its parts move: what
-- the destination has received is the beginning of what the application sent, and what the
-- application has received is the beginning of what the destination sent.
pub Reach-IsPrefix :
    {faulty : Bool} (t : Tunnel)
    → Reach faulty start t
    → IsPrefix t.up.received t.up.sent × IsPrefix t.down.received t.down.sent
Reach-IsPrefix t r = let kept = Reach-IsKept r in ((_, kept.up), (_, kept.down))
