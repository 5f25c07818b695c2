-- ===== src/Tests/ExampleRuns.antt =====
-- The theorems on the example programs, at runs in which every call succeeds.
use firelink_net.Prelude.{refl, none, List, [], ◌∷◌, ◌++◌, arith}
use firelink_net.Os.Base.{Reply}
use firelink_net.Os.{pure}
use firelink_net.Os.Ledger.{sock, winsock, Holds}
use firelink_net.Os.Script.{returns, scripted, start, scripted-SetsLastError}
use firelink_net.Socket.State.{socket, close}
use firelink_net.Socket.Sync.{bind, listen}
use firelink_net.IoCore.Threadpool.{
  Threadpool, ThreadpoolRollback, initialize_threadpool, release_threadpool,
}
use firelink_net.IoCore.Extensions.{Extensions, get_extended_socket_functions}
use firelink_net.IoCore.Core.{winsock_version, initialize, release, create}
use firelink_net.Async.Store.{Store, S}
use firelink_net.Async.Start.{start_accept, start_connect}
use firelink_net.Async.Start.Ledger.{Kept}
use firelink_net.Examples.Ledger.{IsTame}
use firelink_net.Examples.EchoServer.{server_main, open_listener}
use firelink_net.Examples.EchoServer.Ledger.{server_main_ledger}
use firelink_net.Examples.EchoClient.{client_main, open_connection}
use firelink_net.Examples.EchoClient.Ledger.{client_main_ledger}
use firelink_net.Tests.Fixtures.{closed}

-- A pool that is not initialised yet, and function pointers that are loaded.
abbrev unused : Threadpool
unused = record {
  environ = 3;
  cleanup_group = 0;
  threadpool = 0;
  rollback = ThreadpoolRollback.none;
}

abbrev loaded : Extensions
loaded = record { accept_ex = 1; get_accept_ex_sockaddrs = 2; connect_ex = 3; disconnect_ex = 4 }

-- The answers to `initialize_threadpool`, to `initialize`, and to `release`.
abbrev pool_answers : List Reply
pool_answers =
    returns 0 ∷ returns 5 ∷ returns 0 ∷ returns 1 ∷ returns 6 ∷ returns 0 ∷ returns 0 ∷ []

abbrev initialize_answers : List Reply
initialize_answers =
    record (returns 0) { out = winsock_version }
    ∷ returns 7
    ∷ returns 0
    ∷ (pool_answers ++ pool_answers)

abbrev release_answers : List Reply
release_answers =
    returns 11 ∷ returns 0 ∷ returns 1 ∷ returns 0 ∷ returns 0 ∷ returns 0 ∷ returns 12 ∷ []

abbrev store_of : List Reply → Store (List Reply)
store_of rs = record {
  machine = start rs;
  sockets = λ i. closed;
  heap = λ p. none;
  next_io = 0;
  posted = [];
  called = [];
  deleted = [];
}

-- Two initialisations, a socket that is bound and listens, another one, and `AcceptEx`; nothing
-- happens in `run`; then both sockets are closed.
abbrev server_start : Store (List Reply)
server_start = store_of (
    initialize_answers
    ++ (initialize_answers
        ++ (returns 20
            ∷ returns 21
            ∷ returns 0
            ∷ returns 0
            ∷ returns 22
            ∷ returns 23
            ∷ returns 0
            ∷ returns 1
            ∷ returns 0
            ∷ returns 0
            ∷ returns 0
            ∷ returns 0
            ∷ returns 0
            ∷ returns 0
            ∷ release_answers)))

-- Two initialisations, a socket that is bound to any port, and `ConnectEx`.
abbrev client_start : Store (List Reply)
client_start = store_of (
    initialize_answers
    ++ (initialize_answers
        ++ (returns 20
            ∷ returns 21
            ∷ returns 0
            ∷ returns 0
            ∷ returns 1
            ∷ returns 0
            ∷ returns 0
            ∷ returns 0
            ∷ release_answers)))

abbrev nothing : S (List Reply) (Unit {0})
nothing = pure tt

nothing-IsTame : IsTame 20 nothing
nothing-IsTame s = ground arith

server_main_ledger_example :
    let t = (server_main scripted nothing unused unused loaded server_start).1 in
    Holds winsock 0 [] t.machine.trace 1 × Kept sock 20 server_start t
unfolding server_main open_listener create initialize release initialize_threadpool
    release_threadpool get_extended_socket_functions socket bind listen start_accept close
server_main_ledger_example =
    server_main_ledger scripted nothing 20 nothing-IsTame scripted-SetsLastError unused unused
      loaded server_start refl

client_main_ledger_example :
    let t = (client_main scripted nothing unused unused loaded client_start).1 in
    Holds winsock 0 [] t.machine.trace 1 × Kept sock 20 client_start t
unfolding client_main open_connection create initialize release initialize_threadpool
    release_threadpool get_extended_socket_functions socket bind start_connect close
client_main_ledger_example =
    client_main_ledger scripted nothing 20 nothing-IsTame scripted-SetsLastError unused unused
      loaded client_start refl
