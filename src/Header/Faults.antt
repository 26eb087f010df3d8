-- ===== src/Header/Faults.antt =====
-- Where qpep_header.go reads another header than the one that was sent: after a short read, and in
-- `QpepHeaderFromBytes`.
use qpep.Prelude.{
  ℕ, zero, suc, ◌+◌, ◌-◌, ◌≤◌, ◌≡◌, ◌≢◌, refl, sym, ◌∙◌, ap, some, [], ◌∷◌, ◌++◌, length, take,
  drop, length-take_le, replicate, arith,
}
use qpep.Header.{
  Bytes, QpepHeader, network_type_from_addr, to_bytes, ip_len, uint16, slice, parse_body, Reader,
  fill, get_qpep_header, qpep_header_from_bytes,
}
use qpep.Header.Encoding.{
  canonical, IsValid, length-drop, encoded_ip, canonical_header, body_bytes, to_bytes_lem,
}
use qpep.Header.RoundTrip.{get_qpep_header_reads}

replicate-cong : (m n : ℕ) → m ≡ n → replicate {A = ℕ} m 0 ≡ replicate n 0
replicate-cong m n e = ap (λ k. replicate k 0) e

drop-replicate : (i j : ℕ) → drop {A = ℕ} i (replicate j 0) ≡ replicate (j - i) 0
drop-replicate zero j = replicate-cong j (j - 0) (omega arith)
drop-replicate (suc i) zero = replicate-cong 0 (0 - suc i) (omega arith)
drop-replicate (suc i) (suc j) =
    drop-replicate i j ∙ replicate-cong (j - i) (suc j - suc i) (omega arith)

drop_past : (xs ys : Bytes) (i : ℕ) → drop (length xs + i) (xs ++ ys) ≡ drop i ys
drop_past [] ys i = ap (λ n. drop n ys) (omega arith)
drop_past (x ∷ xs) ys i =
    ap (λ n. drop n (x ∷ xs ++ ys))
      (let e : suc (length xs) + i ≡ suc (length xs + i) = omega arith in e)
    ∙ drop_past xs ys i

take-ge : (n : ℕ) (l : Bytes) → length l ≤ n → take n l ≡ l
take-ge zero [] h = refl
take-ge zero (x ∷ l) h = absurd (omega arith)
take-ge (suc n) [] h = refl
take-ge (suc n) (x ∷ l) h = ap (λ (k : Bytes). x ∷ k) (take-ge n l (omega arith))

-- Where the buffer was not reached, a port reads as 0.
late_port :
    (n : ℕ) (bytes : Bytes) → length bytes ≤ n → uint16 (slice (fill (n + 2) bytes) n (n + 2)) ≡ 0
late_port n bytes late =
    let zeros = n + 2 - length bytes in
    let reached : n ≡ length bytes + (n - length bytes) = omega (arith, late) in
    let tail : drop n (fill (n + 2) bytes) ≡ replicate 2 0 =
      ap (λ l. drop n (l ++ replicate zeros 0)) (take-ge (n + 2) bytes (omega arith))
      ∙ ap (λ k. drop k (bytes ++ replicate zeros 0)) reached
      ∙ drop_past bytes (replicate zeros 0) (n - length bytes)
      ∙ drop-replicate (n - length bytes) zeros
      ∙ replicate-cong (zeros - (n - length bytes)) 2 (omega (arith, late)) in
    ap (λ l. uint16 (take (n + 2 - n) l)) tail
    ∙ ap (λ k. uint16 (take k (replicate 2 0))) (let e : n + 2 - n ≡ 2 = omega arith in e)

-- If the second read brings only part of the rest, and at least the last two bytes are late, then
-- `GetQpepHeader` still reports no error, and the destination port of its header is 0.
pub get_qpep_header_short :
    (r : Reader) (t u : ℕ) (bytes : Bytes) (s₀ s₁ s₂ : r.Stream)
    → r.read 2 s₀ ≡ (some (t ∷ u ∷ []), s₁)
    → r.read (ip_len t + 2 + ip_len u + 2) s₁ ≡ (some bytes, s₂)
    → length bytes ≤ ip_len t + 2 + ip_len u
    → (header : QpepHeader) × (get_qpep_header r s₀ ≡ (some header, s₂))
      × (header.dest_addr.port ≡ 0)
unfolding parse_body
get_qpep_header_short r t u bytes s₀ s₁ s₂ first second short =
    let n = ip_len t + 2 + ip_len u in
    (_, get_qpep_header_reads r t u bytes s₀ s₁ s₂ first second, late_port n bytes short)

length-slice : (from to : ℕ) (l : Bytes) → to ≤ length l → length (slice l from to) ≡ to - from
length-slice from to l h =
    length-take_le (to - from) (drop from l) (omega (arith, length-drop from l, h))

ipv4_source_ip :
    (t u : ℕ) (rest : Bytes) (parsed : QpepHeader)
    → ip_len t ≡ 4
    → qpep_header_from_bytes (t ∷ u ∷ rest) ≡ some parsed
    → length parsed.source_addr.ip ≡ 6
unfolding qpep_header_from_bytes
ipv4_source_ip t u rest parsed ipv4 returned =
    ground (arith, ipv4, returned, length-slice 2 8 (t ∷ u ∷ rest))

-- From what `ToBytes` wrote for an IPv4 source, with addresses of four or sixteen bytes and ports of
-- sixteen bits, whatever spare capacity its slice has,
-- `QpepHeaderFromBytes` takes six bytes for the source address where it returns: it never returns
-- the header that was sent.
pub qpep_header_from_bytes_wrong :
    (header parsed : QpepHeader) (spare : Bytes)
    → IsValid header
    → length (canonical header.source_addr.ip) ≡ 4
    → qpep_header_from_bytes (to_bytes header ++ spare) ≡ some parsed
    → (length parsed.source_addr.ip ≡ 6) × (parsed ≢ canonical_header header)
qpep_header_from_bytes_wrong header parsed spare v short returned =
    let t = network_type_from_addr header.source_addr in
    let u = network_type_from_addr header.dest_addr in
    let six : length parsed.source_addr.ip ≡ 6 =
      ipv4_source_ip t u (body_bytes header ++ spare) parsed
        (sym (encoded_ip header.source_addr v.source_ip).1 ∙ short)
        (ap (λ l. qpep_header_from_bytes (l ++ spare)) (sym (to_bytes_lem header v)) ∙ returned) in
    (
      six,
      λ same.
          absurd (omega (arith, six, short, ap (λ (x : QpepHeader). length x.source_addr.ip) same)),
    )
