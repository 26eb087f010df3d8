-- ===== src/Proxy/Examples.antt =====
-- Starts of the program (main.go) by their options.
use qpep.Prelude.{ℕ, ◌≡◌, refl, true, false, none, some}
use qpep.Proxy.{Flags, run_client, run_server, client_configuration, init, main}

abbrev no_flags : Flags ℕ
no_flags = record {
  acks = none;
  decimate = none;
  congestion = none;
  multistream = none;
  ack_delay = none;
  var_ack_delay = none;
  min_before_decimation = none;
  client = none;
  gateway = none;
}

-- -client -gateway 10.21.0.9 -multistream=false
abbrev client_flags : Flags ℕ
client_flags = record no_flags {
  client = some true;
  gateway = some "10.21.0.9";
  multistream = some false;
}

main_default : main (init 0 no_flags) ≡ run_server
unfolding main init
main_default = refl

main_client :
    main (init 0 client_flags)
    ≡ run_client (record {
      listen_host = "0.0.0.0";
      listen_port = 8080;
      gateway_host = "10.21.0.9";
      gateway_port = 4242;
      quic_stream_timeout = 2;
      multi_stream = false;
      idle_timeout = 300;
      connection_retries = 3;
    })
unfolding main init client_configuration
main_client = refl
