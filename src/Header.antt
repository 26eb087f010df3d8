-- ===== src/Header.antt =====
-- src/qpep/shared/qpep_header.go: the header that a QPEP client writes at the start of each QUIC
-- stream, so that the server knows the two ends of the TCP connection. A byte is a number below
-- 256; a `net.IP` is a list of bytes.

pub mod Encoding
pub mod RoundTrip
pub mod Faults
mod Examples
use qpep.Prelude.{
  ℕ, zero, suc, ◌+◌, ◌-◌, ◌*◌, ◌/◌, ◌%◌, String, Bool, true, false, ◌&&◌, Option, none, some, List,
  [], ◌∷◌, ◌++◌, length, take, drop, replicate, ◌==◌, leb, if◌then◌else◌,
}

abbrev pub Bytes : Type 0
Bytes = List ℕ

abbrev pub preamble_length : ℕ
preamble_length = 2

abbrev pub ipv4_len : ℕ
ipv4_len = 4

abbrev pub ipv6_len : ℕ
ipv6_len = 16

pub record TcpAddr : Type 0 where
  pub ip : Bytes
  pub port : ℕ

pub record QpepHeader : Type 0 where
  pub source_addr : TcpAddr
  pub dest_addr : TcpAddr

-- What a mapped IPv4 address begins with, ::ffff:0:0/96.
abbrev pub v4_in_v6_prefix : Bytes
v4_in_v6_prefix = 0 ∷ 0 ∷ 0 ∷ 0 ∷ 0 ∷ 0 ∷ 0 ∷ 0 ∷ 0 ∷ 0 ∷ 255 ∷ 255 ∷ []

abbrev pub bytes_eq : Bytes → Bytes → Bool
bytes_eq [] [] = true
bytes_eq (a ∷ as') (b ∷ bs) = a == b && bytes_eq as' bs
bytes_eq _ _ = false

-- `net.IP.To4`; `none` stands for nil
pub to4 : Bytes → Option Bytes
to4 ip =
    if length ip == 4
    then some ip
    else if length ip == 16 && bytes_eq (take 12 ip) v4_in_v6_prefix
    then some (drop 12 ip)
    else none

-- `net.IP.To16`
pub to16 : Bytes → Option Bytes
to16 ip =
    if length ip == 4
    then some (v4_in_v6_prefix ++ ip)
    else if length ip == 16
    then some ip
    else none

-- `append(bytes, ip...)` of nil adds nothing.
abbrev pub or_nil : Option Bytes → Bytes
or_nil none = []
or_nil (some ip) = ip

-- `getNetworkTypeFromAddr`
pub network_type_from_addr : TcpAddr → ℕ
network_type_from_addr addr = elim (to4 addr.ip) [
  | some _ ↦ 0x04
  | none ↦ elim (to16 addr.ip) [ some _ ↦ 0x06 | none ↦ 0x00 ]
]

pub ip_to_bytes : Bytes → ℕ → Bytes
ip_to_bytes addr addr_type = if addr_type == 0x04 then or_nil (to4 addr) else or_nil (to16 addr)

-- `binary.LittleEndian.PutUint16(result, uint16(port))`
pub port_to_bytes : ℕ → Bytes
port_to_bytes port = let p = port % 65536 in p % 256 ∷ p / 256 ∷ []

pub to_bytes : QpepHeader → Bytes
to_bytes header =
    let source_type = network_type_from_addr header.source_addr in
    let dest_type = network_type_from_addr header.dest_addr in
    source_type
    ∷ dest_type
    ∷ (ip_to_bytes header.source_addr.ip source_type
        ++ (port_to_bytes header.source_addr.port
            ++ (ip_to_bytes header.dest_addr.ip dest_type ++ port_to_bytes header.dest_addr.port)))

-- The length of an address by its type byte.
abbrev pub ip_len : ℕ → ℕ
ip_len addr_type = if addr_type == 0x04 then ipv4_len else ipv6_len

-- `binary.LittleEndian.Uint16`
abbrev pub uint16 : Bytes → ℕ
uint16 (lo ∷ hi ∷ _) = lo + 256 * hi
uint16 _ = 0

-- `byteInput[from:to]`
abbrev pub slice : Bytes → ℕ → ℕ → Bytes
slice bytes from to = take (to - from) (drop from bytes)

-- The two addresses of a body, `sourceIpEnd`, `sourcePortEnd` and so on being sums of these.
pub parse_body : ℕ → ℕ → Bytes → QpepHeader
parse_body source_ip_end dest_ip_len bytes =
    let source_port_end = source_ip_end + 2 in
    let dest_ip_end = source_port_end + dest_ip_len in
    let dest_port_end = dest_ip_end + 2 in
    record {
      source_addr = record {
        ip = slice bytes 0 source_ip_end;
        port = uint16 (slice bytes source_ip_end source_port_end);
      };
      dest_addr = record {
        ip = slice bytes source_port_end dest_ip_end;
        port = uint16 (slice bytes dest_ip_end dest_port_end);
      };
    }

-- A stream of the caller: `io.Reader`. `read n` returns the bytes that came, at most `n`, or none
-- for an error.
pub record Reader : Type 1 where
  pub Stream : Type 0
  pub read : ℕ → Stream → Option Bytes × Stream

-- The buffer of `make([]byte, n)` after a read: what did not come stays zero.
abbrev pub fill : ℕ → Bytes → Bytes
fill n bytes = take n bytes ++ replicate (n - length bytes) 0

module _ (r : Reader) where
  open r use {Stream, read}

  read_body : ℕ → ℕ → Option Bytes × Stream → Option QpepHeader × Stream
  read_body source_len dest_len (none, s) = (none, s)
  read_body source_len dest_len (some bytes, s) =
      (some (parse_body source_len dest_len (fill (source_len + 2 + dest_len + 2) bytes)), s)

  -- The lengths come from the two bytes of the preamble.
  read_rest : Bytes → Stream → Option QpepHeader × Stream
  unfolding read_body
  read_rest (source_type ∷ dest_type ∷ _) s =
      read_body (ip_len source_type) (ip_len dest_type)
        (read (ip_len source_type + 2 + ip_len dest_type + 2) s)
  read_rest _ s = (none, s)

  read_preamble : Option Bytes × Stream → Option QpepHeader × Stream
  unfolding read_rest
  read_preamble (none, s) = (none, s)
  read_preamble (some bytes, s) = read_rest (fill preamble_length bytes) s

  -- `GetQpepHeader`
  pub get_qpep_header : Stream → Option QpepHeader × Stream
  unfolding read_preamble
  get_qpep_header s = read_preamble (read preamble_length s)

-- `GetHeaderLength`; `none` is the panic of an index out of range
pub get_header_length : Bytes → Option ℕ
get_header_length (source_type ∷ dest_type ∷ _) =
    some (preamble_length + ip_len source_type + ip_len dest_type + 4)
get_header_length _ = none

-- `QpepHeaderFromBytes`, of a slice with its spare capacity; `none` is a panic. For an IPv4 source
-- the code has `QPEP_PREAMBLE_LENGTH * +net.IPv4len`.
pub qpep_header_from_bytes : Bytes → Option QpepHeader
qpep_header_from_bytes (source_type ∷ dest_type ∷ rest) =
    let bytes = source_type ∷ dest_type ∷ rest in
    let source_ip_end =
      if source_type == 0x04 then preamble_length * ipv4_len else preamble_length + ipv6_len in
    let source_port_end = source_ip_end + 2 in
    let dest_ip_end = source_port_end + ip_len dest_type in
    let dest_port_end = dest_ip_end + 2 in
    if leb dest_port_end (length bytes)
    then some (record {
      source_addr = record {
        ip = slice bytes preamble_length source_ip_end;
        port = uint16 (slice bytes source_ip_end source_port_end);
      };
      dest_addr = record {
        ip = slice bytes source_port_end dest_ip_end;
        port = uint16 (slice bytes dest_ip_end dest_port_end);
      };
    })
    else none
qpep_header_from_bytes _ = none
