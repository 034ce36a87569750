-- ===== src/Lib.antt =====
-- Verification of go-tor, a Tor client in Go.
--
-- The client talks to a guard relay over a TLS link. What goes over the link are cells
-- (pkg/cell/cell.go); a RELAY cell carries a relay cell (pkg/cell/relay.go), encrypted once for every
-- hop of a circuit (pkg/circuit/circuit.go). A circuit stamps what it sends with a running digest, looks
-- for the hop that recognizes what it is delivered, passes it through replay protection
-- (pkg/cell/replay.go) and flow control, and hands it to the streams that read from it. The manager of
-- the circuits gives them identifiers and closes them. Around these, pkg/errors tries operations again
-- and guards them with a circuit breaker, pkg/stream names the streams, and pkg/security has the checked
-- conversions that the encoders use. Paths are chosen (pkg/path) among the relays of the consensus
-- (pkg/directory), circuits are built along them and extended (pkg/circuit), kept in a pool (pkg/pool),
-- and handed to the requests of the SOCKS5 proxy (pkg/socks), which asks for the isolation of one stream
-- from another.
--
-- Files, with the code they model:
--   Prelude          numbers, lists, bytes, results and exclusive-or, shared by all the others
--   Security.Int     the integers of the conversions
--   Security.Convert pkg/security/conversion.go, function by function under the same names
--   Security.Limits  pkg/security/helpers.go: the rate limiter and the resource manager
--   Cell.Io          the io.Writer and io.Reader that the codec uses: a writer may fail after any number
--                    of bytes, a reader is the bytes that are left
--   Cell.Codec       pkg/cell/cell.go: Encode and DecodeCell, with every read and write that can fail
--   Cell.Relay       pkg/cell/relay.go: Encode and DecodeRelayCell, the buffer written piece by piece
--   Cell.Replay      pkg/cell/replay.go: the source writes each function twice, once for each direction;
--                    here it is one function on the fields of a direction
--   Errors.Breaker   pkg/errors/breaker.go: a call of Execute is beforeRequest, the function, afterRequest
--   Errors.Value     pkg/errors/errors.go: errors and what they wrap
--   Errors.Retry     pkg/errors/retry.go: the loops that call a function on a state again; the function
--                    that ExecuteWithRetry hands to them is in Errors.Breaker.Guarded
--   Circuit.Crypto   pkg/circuit/circuit.go: hops, onion encryption, digests
--   Circuit.Core     pkg/circuit/circuit.go: a circuit's state, padding, its own digests
--   Circuit.Flow     pkg/circuit/circuit.go: the windows, SendRelayCell, DeliverRelayCell
--   Circuit.Streams  pkg/circuit/circuit.go: OpenStream, ReadFromStream, WriteToStream, EndStream
--   Circuit.Manager  pkg/circuit/circuit.go: Manager
--   Circuit.Isolation  pkg/circuit/isolation.go: the keys that keep streams on circuits of their own
--   Circuit.Dns      pkg/circuit/dns.go: queries through a circuit, and the parser of the answers
--   Circuit.Extension  pkg/circuit/extension.go: the handshakes that add hops
--   Circuit.Builder  pkg/circuit/builder.go: a circuit built along a path, in two steps
--   Text             what the parsers of text use of strings.Fields and fmt.Sscanf
--   Directory        pkg/directory/directory.go: the relays of a consensus, with their sharing by pointer
--   Path.Guards      pkg/path/guards.go: the guards that are kept
--   Path             pkg/path/path.go: guard, exit and middle
--   Pool             pkg/pool/circuit_pool.go: the circuits kept for reuse, one list for each isolation key
--   Socks            pkg/socks/socks.go: greeting, authentication, request and replies
--   Socks.Connect    pkg/socks/socks.go: isolation key, circuit and destination of a CONNECT request,
--                    with the test of pkg/onion/onion.go for onion addresses
--   Protocol         pkg/protocol/protocol.go: the link handshake, over the cells of Cell.Codec
--   Stream           pkg/stream/stream.go: the queues of a stream, and the manager of the streams
--
-- A module's children prove what their names say; a child named Tests runs the theorems at concrete
-- inputs.
--
-- State is passed explicitly: an operation takes the record and returns the new one with its result. The
-- mutexes make each call a step, so a run is a list of calls in some order. What is asynchronous is an
-- event: in Circuit.Flow.Accounting the goroutines that DeliverRelayCell starts run at any later point of
-- the list, and in Pool a round of ensureMinCircuits takes what others do to the pool during each of its
-- builds. Clocks, random choices, what the circuit builder gives, whether an onion service is reached and
-- the success of a write to the connection are arguments; SHA-1, SHA-256 and the key streams of the
-- ciphers are functions that the theorems take, with no assumption except where a theorem names one.
--
-- Bounds: uint8, uint16, uint32 and uint64 wrap around where the code lets them; the windows of a circuit
-- (int) and the counters of the breaker are taken as unbounded, since 2^63 cells or failures do not
-- occur. The search for a circuit identifier is recursion on fuel, one round more than there are circuits:
-- the identifiers it tries are distinct and all in use until it ends. The parser of RESOLVED cells has the
-- length of the cell as fuel, and each of its rounds takes two bytes or more. The retry loops have as
-- many turns as their policy allows attempts. Every other loop is structural recursion.
--
-- Not modelled: the text of errors and of String methods; the logger; the getters of one field; sockets,
-- TLS, HTTP, the hidden-service protocols, configuration, metrics and the command line tools.
pub mod Cell
pub mod Circuit
pub mod Directory
pub mod Errors
pub mod Path
pub mod Pool
pub mod Prelude
pub mod Protocol
pub mod Security
pub mod Socks
pub mod Stream
pub mod Text
