-- ===== src/Lib.antt =====
-- QPEP: a verification library for the OpenSAND testbed that evaluates the QPEP proxy
-- (opensand-testbed/*.py) and for the proxy itself (src/qpep).
--
-- A testbed restarts the containers of docker-compose, waits for OpenSAND on a socket, starts its
-- simulation and sets routes in the containers. A scenario deploys a testbed and then, by its class,
-- QPEP, OpenVPN or PEPsal. A benchmark runs on a deployed scenario and keeps its measurements. The
-- simulation examples sweep scenarios, loss rates, file sizes and ack levels with benchmarks; the
-- browser example deploys the scenario of its command line and opens a browser in it. The
-- configurator writes addresses into the configuration files before all this. QPEP itself is
-- written in Go: its client accepts TCP connections, gives each a stream of a QUIC session to the
-- server, and begins the stream with a header; the server reads it and dials the destination; then
-- both copy in both directions.
--
-- Which file models what:
--   Prelude, Dict      numbers, lists, texts, and Python's dict with text keys
--   World              what Python does outside: each call is an event in a history, and a
--                      parameter (`Services`) answers it; results with exceptions
--   World/Inversion    what is known of a block that returned
--   World/Grows        histories that grow by events of one kind; World/Tally how often an event
--                      of one kind happened
--   Testbed            opensand-testbed/testbeds.py: the methods of BasicTestbed and LeoTestbed
--                      under their names; the two classes are an `Orbit`
--   Testbed/Boot       the order of events of start_testbed, Testbed/Boot/Polls its two waits;
--                      Testbed/Ready that it returns, with Testbed/Ready/Health and Launched;
--                      Testbed/Quiet which events it has; Testbed/Inside what is done to a testbed
--                      that is up; Testbed/Loss set_plr_percentage;
--                      Testbed/Attenuation set_downlink_attenuation, on trees of XML elements;
--                      Testbed/Attenuation/Settings what it changes, and
--                      Testbed/Attenuation/Trees lemmas on the trees
--   Scenario           opensand-testbed/scenarios.py: deploy_scenario of each class, and
--                      run_benchmarks
--   Scenario/Events    the events of a deployment; Scenario/Processes the QPEP processes of a
--                      container; Scenario/Fresh which run after a deployment; Scenario/Inside how
--                      often it restarts the containers; Scenario/Benchmarks the deployments of
--                      run_benchmarks
--   Benchmark          what the benchmarks of opensand-testbed/benchmarks.py share: JSON, numbers
--                      and methods with state; Benchmark/Relates, Inversion and Grows rules for
--                      such methods
--   Benchmark/Iperf    IperfBenchmark.run and run_iperf_test; Benchmark/Iperf/Report what a test
--                      returns; Benchmark/Iperf/Counted and Series the results that are kept;
--                      Benchmark/Iperf/Inside which events a run has
--   Benchmark/Sitespeed  SitespeedBenchmark.run; Benchmark/Sitespeed/Matches the search for load
--                      times; Benchmark/Sitespeed/Keeps what is kept; Benchmark/Sitespeed/Rounds
--                      the deployments between rounds
--   Benchmark/Speedtest  SpeedtestBenchmark.run; Benchmark/Printed the print_results methods,
--                      that of Scenario too
--   Simulation         opensand-testbed/simulation_examples.py: what its functions share;
--                      Simulation/Ack ack_bundling_iperf_scenario, Simulation/Transfers
--                      iperf_test_scenario, Simulation/Loss plr_test_scenario,
--                      Simulation/PageLoads plt_test_scenario and plr_plt_scenario; the files
--                      below them say what they do; Simulation/Loops loops and the history
--   Browser            opensand-testbed/browser_examples.py; Browser/Launch what a start does
--   SpeedtestCli       opensand-testbed/proxy-st/speedtest.py, the command of SpeedtestBenchmark:
--                      SpeedtestCli/Servers get_servers, and SpeedtestCli/Servers/Wanted what it
--                      is asked for; SpeedtestCli/Closest get_closest_servers, SpeedtestCli/Best get_best_server,
--                      SpeedtestCli/Select the choice of a server in shell,
--                      SpeedtestCli/Report the dict that --json prints
--   Configurator       opensand-testbed/configurator.py; Configurator/Lines reading and writing
--                      lines; Configurator/Line one edit; Configurator/Changes lists of edits
--   Header             src/qpep/shared/qpep_header.go; Header/Encoding the bytes;
--                      Header/RoundTrip what is read back; Header/Faults what is misread
--   Proxy              src/qpep/main.go, src/qpep/shared/quic_optimizations.go
--   Proxy/Client       src/qpep/client/client.go up to the copying: sessions, streams, the header;
--                      Proxy/Client/Dials the retries, Proxy/Client/Written what is written
--   Proxy/Server       src/qpep/server/server.go up to the copying; Proxy/Server/Reads what is done
--                      with a header; Proxy/Tunnel both ends together
--   Proxy/Setup        the set-ups of client.go as they interleave on the package's quicSession, a
--                      step relation; Proxy/Setup/NilSession when it is nil
--   Proxy/Relay        the copying of both ends as a step relation; Proxy/Relay/Order order,
--                      Proxy/Relay/Delivery progress, Proxy/Relay/HalfClose connections that close
--   */Examples         runs on concrete inputs
--
-- The `while` loops of testbeds.py take fuel; running out of it is a result of its own
-- (`spinning`), which no handler catches. Fuel above the number of connections since
-- a restart and the number of status requests since a start that OpenSAND takes is enough for
-- start_testbed.
--
-- Parameters, with the behaviour that is relied on as named hypotheses: the replies of
-- docker-compose, docker-py, nclib and OpenSAND (`Services`, `Healthy`), tc with netem (`Tc`),
-- ElementTree.write (`Write`), os.getenv and Python's int (`Services`), bytes.decode, json.loads and
-- Python's floats (`Numbers`), numpy's
-- levels and their texts (`Numpy`), statistics.mean, ipaddress.IPv4Network, the web, XML and floats
-- of the Speedtest command (`Answer`, `Probe`, `Libraries`, `IsOrder`), and in Go the stream that is
-- read (`Reader`), quic-go (`Quic`) and net.DialTimeout. Numbers that the environment gives, and ids
-- of servers, are taken not to be negative.
--
-- Not modelled: log messages; prints other than print_results; XML's syntax; argparse's splitting
-- of the command line; the TLS configuration and the socket options of the Go program; of
-- opensand-testbed/proxy-st/speedtest.py, which is a copy of speedtest-cli, all but the choice of a
-- server and the report; the container images.
pub mod Prelude
pub mod World
pub mod Testbed
pub mod Configurator
pub mod Header
pub mod Scenario
pub mod Dict
pub mod Benchmark
pub mod Simulation
pub mod Browser
pub mod SpeedtestCli
pub mod Proxy
