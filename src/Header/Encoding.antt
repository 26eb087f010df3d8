-- ===== src/Header/Encoding.antt =====
-- The bytes that `ToBytes` writes (qpep_header.go), and where each part stands in them.
use qpep.Prelude.{
  ℕ, zero, suc, ◌+◌, ◌-◌, ◌<◌, ◌≡◌, refl, sym, ◌∙◌, ap, subst, none, some, List, [], ◌∷◌, ◌++◌,
  length, take, drop, length-append, take-append, drop-append, append-nil, append_assoc, ◌⊎◌, inl,
  inr, Option-cases, arith,
}
use qpep.Header.{
  Bytes, TcpAddr, QpepHeader, to4, to16, network_type_from_addr, ip_to_bytes, port_to_bytes,
  to_bytes, ip_len, uint16, slice, parse_body,
}

module _ {A : Type 0} where
  pub take-all : (l : List A) → take (length l) l ≡ l
  take-all l = ap (take (length l)) (sym (append-nil l)) ∙ take-append l []

-- The middle of three parts.
slice-append :
    (xs ys zs : Bytes) (from to : ℕ)
    → from ≡ length xs
    → to ≡ length xs + length ys
    → slice (xs ++ (ys ++ zs)) from to ≡ ys
slice-append xs ys zs from to p q =
    ap (λ n. take n (drop from (xs ++ (ys ++ zs)))) (omega (arith, p, q))
    ∙ ap (λ n. take (length ys) (drop n (xs ++ (ys ++ zs)))) p
    ∙ ap (take (length ys)) (drop-append xs (ys ++ zs))
    ∙ take-append ys zs

-- A body in its four parts.
abbrev pub body : Bytes → Bytes → Bytes → Bytes → Bytes
body a p b q = a ++ (p ++ (b ++ q))

module _ (a p b q : Bytes) (hp : length p ≡ 2) (hq : length q ≡ 2) where
  -- The parts of a body stand where the lengths say.
  parse_body-append : parse_body (length a) (length b) (body a p b q) ≡ record {
    source_addr = record { ip = a; port = uint16 p };
    dest_addr = record { ip = b; port = uint16 q };
  }
  unfolding parse_body
  parse_body-append =
      let e₁ = slice-append [] a (p ++ (b ++ q)) 0 (length a) refl (omega arith) in
      let e₂ = slice-append a p (b ++ q) (length a) (length a + 2) refl (omega arith) in
      let e₃ : slice (body a p b q) (length a + 2) (length a + 2 + length b) ≡ b =
        rw (← append_assoc a p (b ++ q)) (
          slice-append (a ++ p) b q _ _ (omega (arith, length-append a p))
            (omega (arith, length-append a p))) in
      let e₄ : slice (body a p b q) (length a + 2 + length b) (length a + 2 + length b + 2) ≡ q =
        subst (λ l. slice l (length a + 2 + length b) (length a + 2 + length b + 2) ≡ q)
          (simp (append_assoc, append-nil))
          (slice-append (a ++ (p ++ b)) q [] _ _
            (omega (arith, length-append a (p ++ b), length-append p b))
            (omega (arith, length-append a (p ++ b), length-append p b))) in
      λ i. record {
        source_addr = record { ip = e₁ i; port = uint16 (e₂ i) };
        dest_addr = record { ip = e₃ i; port = uint16 (e₄ i) };
      }

-- A `net.IP` holds four bytes or sixteen.
abbrev pub IsIp : Bytes → Type 0
IsIp ip = (length ip ≡ 4) ⊎ (length ip ≡ 16)

-- The form in which an address travels: four bytes wherever it has such a form.
abbrev pub canonical : Bytes → Bytes
canonical ip = elim (to4 ip) [ some v4 ↦ v4 | none ↦ ip ]

pub record IsValid (header : QpepHeader) : Type 0 where
  pub source_ip : IsIp header.source_addr.ip
  pub source_port : header.source_addr.port < 65536
  pub dest_ip : IsIp header.dest_addr.ip
  pub dest_port : header.dest_addr.port < 65536

pub length-drop : {A : Type 0} (n : ℕ) (l : List A) → length (drop n l) ≡ length l - n
length-drop zero l = omega arith
length-drop (suc n) [] = omega arith
length-drop (suc n) (x ∷ l) = omega (arith, length-drop n l)

to4-length : (ip : Bytes) (v4 : Bytes) → to4 ip ≡ some v4 → length v4 ≡ 4
unfolding to4
to4-length ip v4 h = ground (arith, h, length-drop 12 ip)

to4-none-length : (ip : Bytes) → to4 ip ≡ none → IsIp ip → length ip ≡ 16
unfolding to4
to4-none-length ip h v = ground (arith, h)

to16-of_length : (ip : Bytes) → length ip ≡ 16 → to16 ip ≡ some ip
unfolding to16
to16-of_length ip h = ground (arith, h)

-- The bytes of an address have the length that its type byte announces.
pub encoded_ip :
    (addr : TcpAddr)
    → IsIp addr.ip
    → (ip_to_bytes addr.ip (network_type_from_addr addr) ≡ canonical addr.ip)
      × (length (canonical addr.ip) ≡ ip_len (network_type_from_addr addr))
unfolding ip_to_bytes network_type_from_addr
encoded_ip addr v = elim (Option-cases (to4 addr.ip)) [
  | inl long ↦
      let l = to4-none-length addr.ip long v in ground (arith, long, l, to16-of_length addr.ip l)
  | inr (v4, short) ↦ ground (arith, short, to4-length addr.ip v4 short)
]

port_to_bytes-uint16 : (port : ℕ) → port < 65536 → uint16 (port_to_bytes port) ≡ port
unfolding port_to_bytes
port_to_bytes-uint16 port h = omega arith

port_to_bytes-length : (port : ℕ) → length (port_to_bytes port) ≡ 2
unfolding port_to_bytes
port_to_bytes-length port = refl

abbrev pub canonical_header : QpepHeader → QpepHeader
canonical_header header = record {
  source_addr = record { ip = canonical header.source_addr.ip; port = header.source_addr.port };
  dest_addr = record { ip = canonical header.dest_addr.ip; port = header.dest_addr.port };
}

-- What follows the preamble.
abbrev pub body_bytes : QpepHeader → Bytes
body_bytes header =
    body (canonical header.source_addr.ip) (port_to_bytes header.source_addr.port)
      (canonical header.dest_addr.ip) (port_to_bytes header.dest_addr.port)

abbrev pub preamble_bytes : QpepHeader → Bytes
preamble_bytes header =
    network_type_from_addr header.source_addr ∷ network_type_from_addr header.dest_addr ∷ []

pub to_bytes_lem :
    (header : QpepHeader)
    → IsValid header
    → to_bytes header ≡ preamble_bytes header ++ body_bytes header
unfolding to_bytes
to_bytes_lem header v =
    rw ((encoded_ip header.source_addr v.source_ip).0, (encoded_ip header.dest_addr v.dest_ip).0)

pub body_length :
    (header : QpepHeader)
    → IsValid header
    → length (body_bytes header)
      ≡ ip_len (network_type_from_addr header.source_addr)
        + 2
        + ip_len (network_type_from_addr header.dest_addr)
        + 2
body_length header v =
    let a = canonical header.source_addr.ip in
    let p = port_to_bytes header.source_addr.port in
    let b = canonical header.dest_addr.ip in
    let q = port_to_bytes header.dest_addr.port in
    omega (
      arith,
      length-append a (p ++ (b ++ q)),
      length-append p (b ++ q),
      length-append b q,
      port_to_bytes-length header.source_addr.port,
      port_to_bytes-length header.dest_addr.port,
      (encoded_ip header.source_addr v.source_ip).1,
      (encoded_ip header.dest_addr v.dest_ip).1,
    )

pub parse_body_lem :
    (header : QpepHeader)
    → IsValid header
    → parse_body
        (ip_len (network_type_from_addr header.source_addr))
        (ip_len (network_type_from_addr header.dest_addr))
        (body_bytes header)
      ≡ canonical_header header
parse_body_lem header v =
    rw
      (← (encoded_ip header.source_addr v.source_ip).1, ← (encoded_ip header.dest_addr v.dest_ip).1)
      (parse_body-append (canonical header.source_addr.ip) (port_to_bytes header.source_addr.port)
          (canonical header.dest_addr.ip) (port_to_bytes header.dest_addr.port)
          (port_to_bytes-length header.source_addr.port)
          (port_to_bytes-length header.dest_addr.port)
        ∙ λ i. record {
          source_addr = record {
            ip = canonical header.source_addr.ip;
            port = port_to_bytes-uint16 header.source_addr.port v.source_port i;
          };
          dest_addr = record {
            ip = canonical header.dest_addr.ip;
            port = port_to_bytes-uint16 header.dest_addr.port v.dest_port i;
          };
        })
