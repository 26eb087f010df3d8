-- ===== src/Header/RoundTrip.antt =====
-- What the server reads is what the client wrote (qpep_header.go).
use qpep.Prelude.{
  ℕ, ◌+◌, ◌-◌, ◌≡◌, sym, ◌∙◌, ap, some, [], ◌∷◌, ◌++◌, length, take, drop, replicate, append-nil,
  arith,
}
use qpep.Header.{
  Bytes, QpepHeader, network_type_from_addr, to_bytes, ip_len, parse_body, Reader, fill, read_body,
  read_preamble, get_qpep_header, get_header_length,
}
use qpep.Header.Encoding.{
  take-all, IsValid, canonical_header, body_bytes, to_bytes_lem, body_length, parse_body_lem,
}

-- A buffer that is filled exactly holds what came.
fill-all : (bytes : Bytes) → fill (length bytes) bytes ≡ bytes
fill-all bytes =
    ap (λ n. take (length bytes) bytes ++ replicate n 0) (sub_self (length bytes))
    ∙ append-nil _
    ∙ take-all bytes
  where
    sub_self : (n : ℕ) → n - n ≡ 0
    sub_self n = omega arith

-- What `GetQpepHeader` makes of a preamble in one read and of the bytes of the second read.
pub get_qpep_header_reads :
    (r : Reader) (t u : ℕ) (bytes : Bytes) (s₀ s₁ s₂ : r.Stream)
    → r.read 2 s₀ ≡ (some (t ∷ u ∷ []), s₁)
    → r.read (ip_len t + 2 + ip_len u + 2) s₁ ≡ (some bytes, s₂)
    → get_qpep_header r s₀
      ≡ (some (parse_body (ip_len t) (ip_len u) (fill (ip_len t + 2 + ip_len u + 2) bytes)), s₂)
unfolding get_qpep_header
get_qpep_header_reads r t u bytes s₀ s₁ s₂ first second =
    ap (read_preamble r) first ∙ ap (read_body r (ip_len t) (ip_len u)) second

-- With addresses of four or sixteen bytes and ports of sixteen bits: if the preamble and then the rest of what `ToBytes` wrote each arrive in one read, then
-- `GetQpepHeader` returns the header that was sent, each address in its shortest form.
pub get_qpep_header_lem :
    (r : Reader) (header : QpepHeader) (s₀ s₁ s₂ : r.Stream)
    → IsValid header
    → r.read 2 s₀ ≡ (some (take 2 (to_bytes header)), s₁)
    → r.read (length (to_bytes header) - 2) s₁ ≡ (some (drop 2 (to_bytes header)), s₂)
    → get_qpep_header r s₀ ≡ (some (canonical_header header), s₂)
get_qpep_header_lem r header s₀ s₁ s₂ v first second =
    let t = network_type_from_addr header.source_addr in
    let u = network_type_from_addr header.dest_addr in
    let bytes = body_bytes header in
    let size = body_length header v in
    let first' : r.read 2 s₀ ≡ (some (t ∷ u ∷ []), s₁) =
      first ∙ ap (λ l. (some (take 2 l), s₁)) (to_bytes_lem header v) in
    let asked : length (to_bytes header) - 2 ≡ ip_len t + 2 + ip_len u + 2 =
      rw (to_bytes_lem header v) (omega (arith, size)) in
    let second' : r.read (ip_len t + 2 + ip_len u + 2) s₁ ≡ (some bytes, s₂) =
      ap (λ n. r.read n s₁) (sym asked)
      ∙ second
      ∙ ap (λ l. (some (drop 2 l), s₂)) (to_bytes_lem header v) in
    get_qpep_header_reads r t u bytes s₀ s₁ s₂ first' second'
    ∙ ap (λ l. (some (parse_body (ip_len t) (ip_len u) l), s₂))
        (ap (λ n. fill n bytes) (sym size) ∙ fill-all bytes)
    ∙ ap (λ x. (some x, s₂)) (parse_body_lem header v)

-- With addresses of four or sixteen bytes and ports of sixteen bits, `GetHeaderLength` of the
-- preamble is the number of bytes that `ToBytes` writes.
pub get_header_length_lem :
    (header : QpepHeader)
    → IsValid header
    → get_header_length (to_bytes header) ≡ some (length (to_bytes header))
unfolding get_header_length
get_header_length_lem header v =
    rw (to_bytes_lem header v) (ap some (omega (arith, body_length header v)))
