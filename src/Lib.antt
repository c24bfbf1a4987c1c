-- ===== src/Lib.antt =====
-- Models and theorems for tuna, a peer-to-peer tunnel: an exit offers TCP and UDP services, an entry
-- connects to an exit over one encrypted connection, forwards local connections to it, and pays for
-- the traffic with NanoPay transactions. In reverse mode the roles of the two hosts are exchanged.
--
-- How the program's parts interact, and which file models which part:
--   * An entry looks for exits. `nknFilterContext` asks the chain for subscribers, `filterSubscribers`
--     drops what the price limit, the NKN filter or the IP filter refuse, `measureDelay` and
--     `measureBandwidth` order the rest (tuna.go, types/node.go). Nodes.antt has the records and the
--     filtering, Nodes/Subscribers.antt the directory, Nodes/Bandwidth.antt the bandwidth jobs, and
--     Bandwidth.antt the measurement over one connection (util/measurement.go).
--   * An exit is found because it publishes its metadata: Publish.antt has the subscription queue
--     (subqueue.go) and the rounds of `UpdateMetadata` (tuna.go).
--   * The filters are filter/nkn_filter.go, in Filter.antt, and geo/*.go, in Geo.antt (locations and
--     the filter), Geo/Provider.antt (the location providers) and Geo/Maxmind.antt (the database file
--     of the MaxMind provider).
--   * Measurements are kept in storage/measure.go: Storage.antt has the favorite nodes and
--     Storage/Avoid.antt the avoided subnets, Storage/File.antt the files (with util/util.go).
--   * Messages (util.go, pb/tuna.proto, parts of tuna.go): Wire.antt has length-prefixed bytes,
--     metadata, and the connection identifiers of UDP packets.
--   * Connections (tuna.go, encryption.go): Conn.antt has the handshake of `wrapConn`, and Connect.antt
--     how an entry gets to it: `CreateServerConn` searches for a candidate, `UpdateServerConn` makes its
--     TCP and UDP connections, `wrapUDPConn` takes over the key of the handshake.
--   * UDP (udp.go, tuna.go): Udp.antt has the encrypted connection with its codecs, and the reader of
--     `startUDPReaderWriter`, which registers clients and counts their bytes.
--   * Tunnels (exit.go, entry.go): Tunnel.antt has how an exit finds the service and the port of a
--     stream or packet, and how an entry sends UDP packets and delivers the answers.
--   * Pipes (tuna.go): Pipe.antt has `copyBuffer`, and the counts that concurrent calls of `pipe` share
--     with `WaitSessions`. Closing.antt has how entries and exits close (entry.go, exit.go, util.go).
--   * Reverse mode (entry.go): Reverse.antt has the UDP reader of `StartReverse`, which all exits share,
--     and the steps of a connection that it waits for.
--   * Sessions (entry.go): Session.antt has the session of an entry, its payment stream and how they
--     are made again.
--   * Payment (tuna.go, util.go, entry.go, exit.go): Payment.antt has prices and the cost of traffic,
--     Payment/Cost.antt the total of an entry, Payment/Exit.antt that of an exit, Payment/Client.antt
--     the loop of `startPayment` and Payment/Server.antt the goroutines of a session that is paid for.
--
-- Conventions. A text or a byte slice is the list of its bytes. An error is `none`. A Go map is an
-- association list, in Common/Dict.antt; the order of the list stands for the order of an iteration,
-- which Go leaves open, so each theorem about a map holds for every order. `int64` amounts are
-- integers that wrap at 2 ^ 63 (Common/Int.antt), `uint64` counters natural numbers that wrap at
-- 2 ^ 64. Where goroutines share variables, a run is a list of events, and a theorem about all lists
-- is one about all interleavings; the steps are as large as the code's critical sections.
--
-- What stands outside this repository is a parameter: addresses and networks of the package `net`
-- (the interface `Net`, with an instance for dotted quads in Net/Ipv4.antt), JSON (`Json`, for which
-- Tests/Files.antt has an encoding), protocol buffers and base64 (`Proto`, `Base64`, whose decoders
-- undo their encoders), `float32` and `float64` (`FloatOps`, `FloatPart`, `FeeOps`), `sort.Sort`
-- (`Sorter`, with insertion sort as the instance of the tests), `common.StringToFixed64`, the NKN
-- client, the cryptography (`KeyOps`, `CipherOps`), the reader of MaxMind databases.
--
-- Loops over lists are structural recursion. The loops of the bandwidth measurement run on fuel, for
-- which the number of wanted bytes is enough, since each round moves a byte or fails. Other fuel is only
-- the attempts of `retry`, of the request to ip2c and of the subscription worker, whose number is the
-- code's own. The waits of the payment loops and of `UpdateMetadata` are turns or events of the
-- environment, as is each round of the search of `CreateServerConn`, so a run is as long as its list.
--
-- Not modelled: the accept loops of the listeners and what only sets up a run, the start of an exit in
-- reverse mode, the choice of the ports and the writer of the UDP answers in reverse mode, the
-- configuration, the command line, the generated protocol buffers, the wallet, locks as such,
-- and the upper and lower case of letters outside ASCII.
pub mod Common
pub mod Filter
pub mod Storage
pub mod Net
pub mod Payment
pub mod Wire
pub mod Geo
pub mod Conn
pub mod Udp
pub mod Connect
pub mod Reverse
pub mod Closing
pub mod Tunnel
pub mod Session
pub mod Nodes
pub mod Bandwidth
pub mod Pipe
pub mod Publish
pub mod Tests
