-- ===== src/Header/Examples.antt =====
-- The header of qpep_header.go on the bytes of one connection.
use qpep.Prelude.{◌≡◌, ◌≢◌, refl, none, some, List, [], ◌∷◌, length, take, drop, arith, inl, inr}
use qpep.Header.{
  Bytes, QpepHeader, to_bytes, Reader, get_qpep_header, get_header_length, qpep_header_from_bytes,
  network_type_from_addr, ip_to_bytes, port_to_bytes, to4,
}
use qpep.Header.Encoding.{IsValid, canonical_header}
use qpep.Header.Faults.{get_qpep_header_short, qpep_header_from_bytes_wrong}
use qpep.Header.RoundTrip.{get_qpep_header_lem, get_header_length_lem}

-- From 10.0.0.7, in its mapped form, to ::1.
abbrev header : QpepHeader
header = record {
  source_addr = record {
    ip = 0 ∷ 0 ∷ 0 ∷ 0 ∷ 0 ∷ 0 ∷ 0 ∷ 0 ∷ 0 ∷ 0 ∷ 255 ∷ 255 ∷ 10 ∷ 0 ∷ 0 ∷ 7 ∷ [];
    port = 40000;
  };
  dest_addr = record {
    ip = 0 ∷ 0 ∷ 0 ∷ 0 ∷ 0 ∷ 0 ∷ 0 ∷ 0 ∷ 0 ∷ 0 ∷ 0 ∷ 0 ∷ 0 ∷ 0 ∷ 0 ∷ 1 ∷ [];
    port = 443;
  };
}

header-IsValid : IsValid header
header-IsValid = record {
  source_ip = inr refl;
  source_port = omega arith;
  dest_ip = inr refl;
  dest_port = omega arith;
}

-- A stream that brings its chunks one by one.
abbrev chunks : Reader
chunks = record {
  Stream = List Bytes;
  read = λ n s. elim s [ [] ↦ (none, []) | c ∷ cs ↦ (some c, cs) ];
}

get_qpep_header_example :
    get_qpep_header chunks (take 2 (to_bytes header) ∷ drop 2 (to_bytes header) ∷ [])
    ≡ (some (canonical_header header), [])
get_qpep_header_example =
    get_qpep_header_lem chunks header _ (drop 2 (to_bytes header) ∷ []) [] header-IsValid refl refl

get_header_length_example : get_header_length (to_bytes header) ≡ some (length (to_bytes header))
get_header_length_example = get_header_length_lem header header-IsValid

-- Only the source address of an IPv4 connection has come when the second read returns.
get_qpep_header_short_example :
    (h : QpepHeader) × (get_qpep_header chunks
        ((4 ∷ 4 ∷ []) ∷ (10 ∷ 0 ∷ 0 ∷ 7 ∷ 64 ∷ 156 ∷ []) ∷ [])
      ≡ (some h, []))
    × (h.dest_addr.port ≡ 0)
get_qpep_header_short_example =
    get_qpep_header_short chunks 4 4 (10 ∷ 0 ∷ 0 ∷ 7 ∷ 64 ∷ 156 ∷ []) _
      ((10 ∷ 0 ∷ 0 ∷ 7 ∷ 64 ∷ 156 ∷ []) ∷ []) [] refl refl (omega arith)

-- From 10.0.0.7 to 10.0.0.8.
abbrev ipv4_header : QpepHeader
ipv4_header = record {
  source_addr = record { ip = 10 ∷ 0 ∷ 0 ∷ 7 ∷ []; port = 40000 };
  dest_addr = record { ip = 10 ∷ 0 ∷ 0 ∷ 8 ∷ []; port = 443 };
}

ipv4_header-IsValid : IsValid ipv4_header
ipv4_header-IsValid = record {
  source_ip = inl refl;
  source_port = omega arith;
  dest_ip = inl refl;
  dest_port = omega arith;
}

-- What is read: the source port and the first two bytes of the destination have moved.
abbrev misread : QpepHeader
misread = record {
  source_addr = record { ip = 10 ∷ 0 ∷ 0 ∷ 7 ∷ 64 ∷ 156 ∷ []; port = 10 };
  dest_addr = record { ip = 0 ∷ 8 ∷ 187 ∷ 1 ∷ []; port = 0 };
}

qpep_header_from_bytes_wrong_example :
    (length misread.source_addr.ip ≡ 6) × (misread ≢ canonical_header ipv4_header)
unfolding qpep_header_from_bytes to_bytes network_type_from_addr ip_to_bytes port_to_bytes to4
qpep_header_from_bytes_wrong_example =
    qpep_header_from_bytes_wrong ipv4_header misread (0 ∷ 0 ∷ []) ipv4_header-IsValid refl refl
