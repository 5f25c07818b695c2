-- ===== src/Lib.antt =====
-- firelink-net: a library for TCP and UDP sockets with synchronous and asynchronous operations, on
-- Winsock and the Windows thread pool.
--
-- The parts of the program and how they interact. `IOCore::create` makes a `WinIOCore`, which starts
-- Winsock, loads four extension functions and sets up two thread pools: one runs the completion
-- routine of the sockets, the other the handlers of the user. A `WinSocket` has a native handle and a
-- thread-pool IO in the first pool. Its `start_` methods allocate an `IOData` and begin an
-- operation; when it has completed, `socket_io_routine` posts the handler to the second pool or
-- calls it itself, and the `IOData` is deleted. `run` blocks threads until `stop` is called. The two
-- example programs are clients of all this.
--
-- Which file models which part:
--   Types, Endpoint: the enums, addresses and the endpoint (include/firelink/types.hpp,
--     error_codes.hpp, options.hpp, endpoint.hpp). An `int` and an enum are 32-bit patterns.
--   Os: the system as a parameter. `Os.Calls` lists the calls that the library makes; `Os.Base` has
--     the record `Os`, which answers a call from a world of its own and nothing else is known of, and
--     the monad `M` of the synchronous methods, which also records the trace of calls. `Os.Ledger`
--     reads from a trace what is held, where a closing that failed leaves the handle behind;
--     `Os.Overlapped` which overlapped calls the system accepted; `Os.Laws` states what is documented
--     of the calls, as hypotheses; `Os.Script` is a concrete system for the runs in Tests.
--   Socket: `WinSocket` without its asynchronous half (src/platform/windows/win_socket.cpp):
--     `Socket.State` the fields, `socket`, `close` and the destructor; `Socket.Sync` the other
--     synchronous methods, `accept` to `get_peer_name`; `Socket.Address` the conversions
--     `sockaddr_to_endpoint` and `endpoint_to_sockaddr`; `Socket.Disconnect` the loop of `disconnect`.
--     `Socket.Lifecycle` and `Socket.Contracts` have proofs on the first two. `Socket.Context` is
--     `Socket::create` and `Socket::stop_io_context` (src/socket.cpp). `Socket.Objects` has the
--     sequences of calls of the synchronous methods on any number of objects.
--   IoCore: `WinIOCore` (src/platform/windows/win_io_core.cpp, src/io_core.cpp): `IoCore.Threadpool`
--     `initialize_threadpool` and `release_threadpool`; `IoCore.Extensions`
--     `get_extended_socket_functions`; `IoCore.Core` `initialize`, `release` and `create`;
--     `IoCore.Post` the posting of work as a step relation over the closures on the heap;
--     `IoCore.RunStop` `run` and `stop` as a step relation over any number of threads, with its
--     invariants in `Invariant` and, for a number of threads, its progress in `Threads` and `Progress`.
--   Async: the asynchronous half of `WinSocket`: `Async.Store` the memory, in which sockets and
--     `IOData` have numbers for addresses; `Async.Start` the seven `start_` methods;
--     `Async.Completion` `socket_io_routine` and the work that it posts; `Async.Lifecycle` has a proof
--     on both. `Async.System` interleaves whole operations: a step starts one, completes one, runs
--     posted work, or changes whatever else there is; `Async.System.Phases` is the abstract view, in
--     which every `IOData` is in one phase, `Follows` says which change of the phases each step may make,
--     and `Refines` relates the two. An operation is in flight from the acceptance of its overlapped
--     call by the system on, whatever the start method returns. `Async.System.Drains`
--     is about the steps after the last start.
--   Text: `inet_ntop` and `inet_pton` (src/endpoint.cpp), with `rfind`, `stoi` and `to_string` of the
--     standard library in `Text.Strings`; the functions of the same names of Winsock are the
--     parameter `Inet`. `Text.Sockaddr` has the text helpers of `WinSocket`, `addr_to_str` to
--     `str_to_addr6` (src/platform/windows/win_socket.cpp).
--   Examples: `main` and the handlers of examples/async_echo_server/async_echo_server.cpp
--     (`Examples.EchoServer`) and examples/async_echo_client/async_echo_client.cpp
--     (`Examples.EchoClient`).
--   Prelude: shared names and lemmas. Tests: runs of the theorems at concrete inputs.
--
-- Bounds and fuel. Only the loop of `disconnect` runs on fuel, since it has no bound of its own: with
-- a clock and a peer as `Peer` describes them, one round for each read that is left, for each
-- millisecond of the timeout and of the resolution of the clock, and one more are enough. A signed
-- 32-bit number keeps its bit pattern, and the clock wraps at 64 bits.
--
-- Not modelled: several cores (`core_alive` stands for the one that all sockets refer to, instead of a
-- weak pointer in each); the bytes in buffers, which the library only passes on; what a user does in a
-- handler or in posted work, beyond the handlers of the examples; reference counts, except that the
-- `IOData` keeps its socket; the console output of the examples and the destructors at the end of
-- their `main`; steps of `Async.System` smaller than a whole method; the Linux header, which is empty;
-- export macros and build files. A read of the inactive member of an endpoint is a parameter (`Pun`).
pub mod Prelude
pub mod Types
pub mod Endpoint
pub mod Os
pub mod Socket
pub mod IoCore
pub mod Async
pub mod Text
pub mod Examples
mod Tests
