-- ===== src/Lib.antt =====
-- A forward proxy: it accepts clients, finds out from their first bytes which protocol they speak,
-- answers a SOCKS4 request, connects to where the request leads, and then moves the bytes of both
-- sides. One thread asks a poller for events and handles one at a time.
--
-- The parts, and where each is modelled:
--   * Net: core/network.h, the interface to the operating system, as a record of operations on a
--     state of the machine (`World`) that every call threads through. Net/Laws states what the other
--     parts rely on: which descriptors the calls open and close, that a stream keeps its order,
--     that no call moves the bytes of another socket, and that only so much will ever come. Net/Sim is a small machine for the examples, and Net/SimLaws
--     shows that it meets the laws.
--   * Protocol: the data of core/protocol/protocol.h, socks4.h and socks5.h. A pointer to a `Protocol`
--     is a value with one constructor for each class.
--   * Detector: core/protocol/detector.cc. `probe_protocol` is `ProbeProtocol`, whose out parameter is
--     an argument and a part of the result.
--   * Connection: core/connection.h and connection.cc. `read`, `write`, `close`, `set_protocol`, the
--     moves and the destructor stand in Connection, the functions that accept and connect in
--     Connection/Open; the map of connections is an association list.
--   * Socks4: core/protocol/socks4.cc. `Peer` says what the pointer to the other connection points to:
--     nothing, the connection itself, or another one.
--   * Config: server/config.h and config.cc, the options of the command line; `std::atoi` is an
--     argument.
--   * Server: server/proxy_server.h and proxy_server.cc. Server holds the state and the look-up of
--     peers, Server/Steps the body of the loop for one connection, Server/Loop the loop over the
--     events, the cleaning up and `Run`; the other files of Server prove what these do. Where the
--     code changes an entry of the map through a pointer, the model carries the entry beside the map
--     and writes it back at the end of the turn. Server/Tunnel follows a tunnel from the request
--     that makes it (Made, Opening) through the halves of a turn (Passing, Turning, Emptying) to any
--     batch of events (Batches) and to the delivery of what is sent (Delivery), over what
--     Connection/Streaming says of `read` and `write`; Pipelined is about bytes that come behind a
--     request, Server/Reused about a link that outlives the connection it leads to, and Server/Bugs
--     about the beginning of a request and the member `poller_`.
--   * Linux: core/os/linux/network_linux.cc. The system calls are the fields of `Kernel` (Linux/Syscalls),
--     and `linux` is the interface of Net over them; Linux/Listening, Linux/Descriptors, Linux/Streams
--     and Linux/Supply show the laws of Net/Laws, Linux/Refinement puts them together, and Linux/Info
--     has the look-ups of addresses, with `std::stoi` from Base/Decimal.
--   * Macos: core/os/macos/network_macos.cc. Macos has the pollers, which the program keeps itself:
--     `PollerStore` is `g_pollers` with the next identifier, and `poll` is a parameter. Macos/Sockets
--     has the operations on sockets, over the same `Kernel` as Linux, and Macos/Whole puts both
--     together as an implementation of Net.
--   * Main: server/main.cc, from the arguments to the end of the program.
--   * Cache: core/cache/LRUCache.h and LRUCache.cc. A node of the list has a number, and an iterator is
--     such a number. Cache/Refinement has the list of entries that it stands for, and Cache/Sequences
--     any calls of `get` and `put` in a row.
--   * Encoding: core/utils/encoding.cc, Base64. Sha256: core/utils/sha256.cc. Dns: core/dns.h and the
--     three files of `ResolveHostname`.
--   * Logger: core/logger/logger.h and logger.cc, the lines that each level writes to the file and to
--     the console.
--   * StringUtils: core/utils/string_utils.cc, bytes as text.
--   * Base: what all of these share: tests, lists, integers, maps and bits over the native numbers.
--
-- Bytes are numbers; descriptors, which may be -1, are integers. `uint16_t` and `uint8_t` values keep
-- the reduction written out. A result of `none` means out of fuel, or, of `run` and of
-- `wait_for_events`, a negative number of events, for which the standard library throws and nothing
-- catches it; arrays and vectors that are too large for the memory are left out. `read` and
-- `accept_new_client_connection` ask the machine until it has nothing more, so their fuel must
-- exceed what `Supply` says is still to come, and `run` counts the rounds of the poller in the same
-- way, which the loop leaves when the wait fails: `Rounds` takes it that a wait without an end,
-- with nothing left to come, is at last interrupted by a signal; `write` needs no fuel from outside, since each round sends a byte. The loops of the cache,
-- of Base64 and of SHA-256 have as much fuel as the list or the block has elements, which their
-- theorems show to be enough.
--
-- Not modelled: the lines that the server and the connections log, with the look-ups of addresses
-- that feed them; the unit tests; the lines that `ParseConfig` prints before it exits.
pub mod Base
pub mod Logger
pub mod Net
pub mod Protocol
pub mod Detector
pub mod Connection
pub mod Socks4
pub mod Config
pub mod Server
pub mod Linux
pub mod Macos
pub mod Main
pub mod StringUtils
pub mod Cache
pub mod Encoding
pub mod Sha256
pub mod Dns
