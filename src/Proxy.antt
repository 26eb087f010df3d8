-- ===== src/Proxy.antt =====
-- QPEP itself: the two ends of the tunnel (src/qpep/client/client.go, src/qpep/server/server.go),
-- their start (src/qpep/main.go) and the options (src/qpep/shared/quic_optimizations.go). What they
-- do to the network is an event in a history, the latest first. Client and Server take the handlers
-- one after another, in the order in which their connections were accepted; Setup is about client
-- handlers that interleave.
pub mod Client
pub mod Server
pub mod Tunnel
pub mod Relay
pub mod Setup
mod Examples
use qpep.Prelude.{ℕ, String, Bool, true, false, Option, none, some, List, [], ◌∷◌, if◌then◌else◌}
use qpep.Header.{Bytes, TcpAddr}

-- A session, a stream of one, or a connection of the library, by its handle. A variable that may
-- be nil is an `Option` of one.
abbrev pub Session : Type 0
Session = ℕ

abbrev pub Stream : Type 0
Stream = ℕ

abbrev pub Conn : Type 0
Conn = ℕ

-- `err.Error()`
abbrev pub Error : Type 0
Error = String

pub data Event : Type 0 where
  -- quic.DialAddr(gatewayPath, …)
  quic_dialed : String → Event
  -- session.OpenStream() and session.OpenStreamSync(…)
  stream_opened : Session → Event
  stream_opened_sync : Session → Event
  -- stream.Write(…)
  stream_wrote : Stream → Bytes → Event
  -- net.DialTimeout("tcp", address, seconds)
  tcp_dialed : TcpAddr → ℕ → Event
  -- tcpConn.Close() of an accepted connection
  tcp_closed : Conn → Event

abbrev pub History : Type 0
History = List Event

pub record ClientConfig : Type 0 where
  pub listen_host : String
  pub listen_port : ℕ
  pub gateway_host : String
  pub gateway_port : ℕ
  pub quic_stream_timeout : ℕ
  pub multi_stream : Bool
  pub idle_timeout : ℕ
  pub connection_retries : ℕ

-- `Float` is the type of float64.
record QuicConfig (Float : Type 0) : Type 0 where
  ack_eliciting_packets_before_ack : ℕ
  ack_decimation_denominator : ℕ
  initial_congestion_window_packets : ℕ
  multi_stream : Bool
  var_ack_delay : Float
  max_ack_delay : ℕ
  min_received_before_ack_decimation : ℕ
  client_flag : Bool
  gateway_ip : String

-- The options that the command line gives.
record Flags (Float : Type 0) : Type 0 where
  acks : Option ℕ
  decimate : Option ℕ
  congestion : Option ℕ
  multistream : Option Bool
  ack_delay : Option ℕ
  var_ack_delay : Option Float
  min_before_decimation : Option ℕ
  client : Option Bool
  gateway : Option String

abbrev flag {ℓ} : {A : Type ℓ} → A → Option A → A
flag default none = default
flag default (some given) = given

-- What a start of the program goes on to run.
data Role : Type 0 where
  run_client : ClientConfig → Role
  run_server : Role

-- The first value of `ClientConfiguration`: the options have been read before.
client_configuration : {Float : Type 0} → QuicConfig Float → ClientConfig
client_configuration quic = record {
  listen_host = "0.0.0.0";
  listen_port = 8080;
  gateway_host = "198.18.0.254";
  gateway_port = 4242;
  quic_stream_timeout = 2;
  multi_stream = quic.multi_stream;
  idle_timeout = 300;
  connection_retries = 3;
}

-- `quarter` is 0.25.
init : {Float : Type 0} → Float → Flags Float → QuicConfig Float
init quarter flags = record {
  ack_eliciting_packets_before_ack = flag 10 flags.acks;
  ack_decimation_denominator = flag 4 flags.decimate;
  initial_congestion_window_packets = flag 4 flags.congestion;
  multi_stream = flag true flags.multistream;
  var_ack_delay = flag quarter flags.var_ack_delay;
  max_ack_delay = flag 25 flags.ack_delay;
  min_received_before_ack_decimation = flag 100 flags.min_before_decimation;
  client_flag = flag false flags.client;
  gateway_ip = flag "198.18.0.254" flags.gateway;
}

main : {Float : Type 0} → QuicConfig Float → Role
unfolding client_configuration
main quic =
    let config = record (client_configuration quic) { gateway_host = quic.gateway_ip } in
    if quic.client_flag then run_client config else run_server
