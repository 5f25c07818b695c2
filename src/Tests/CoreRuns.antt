-- ===== src/Tests/CoreRuns.antt =====
-- The theorems on the core, at concrete answers of the system and a concrete interleaving.
use firelink_net.Prelude.{◌+◌, ◌⊎◌, ℕ, ◌≡◌, ◌≢◌, refl, true, List, [], ◌∷◌, arith}
use firelink_net.Types.{success}
use firelink_net.Endpoint.{any4, any6}
use firelink_net.Os.Base.{Reply}
use firelink_net.Os.{Os, Machine, Call}
use firelink_net.Os.Laws.{SetsLastError}
use firelink_net.Os.Ledger.{
  sock, lost_sock, pool, group, environ, winsock, cleanup_thread, lost_thread, Holds, Remains,
}
use firelink_net.Os.Script.{scripted-SetsLastError, returns, scripted, start}
use firelink_net.IoCore.Threadpool.{
  Threadpool, ThreadpoolRollback, create_cleanup_group, initialize_threadpool, release_threadpool,
}
use firelink_net.IoCore.Threadpool.Balance.{initialize-release_balanced}
use firelink_net.IoCore.Extensions.{Extensions, get_extended_socket_functions}
use firelink_net.IoCore.Extensions.Loading.{
  GivesPointers, get_extended_socket_functions_loads, get_extended_socket_functions-sock,
}
use firelink_net.IoCore.Core.{
  IoCoreConfig, WinIoCore, initialize, release, create, user_threadpool_cleanup_timeout_ms,
  winsock_version,
}
use firelink_net.IoCore.Core.Shutdown.{initialize-release_core, create-winsock, release_stops_early}

-- A pool whose environment has the address 3, before it is initialised.
abbrev unused : Threadpool
unused = record {
  environ = 3;
  cleanup_group = 0;
  threadpool = 0;
  rollback = ThreadpoolRollback.none;
}

-- One that holds the pool 5 and the group 6.
abbrev in_use : Threadpool
in_use = record { environ = 3; cleanup_group = 6; threadpool = 5; rollback = create_cleanup_group }

abbrev quiet : Machine (List Reply)
quiet = start []

-- The environment, the pool 5, the limits, the group 6.
abbrev pool_opens : Machine (List Reply)
pool_opens = start (returns 0 ∷ returns 5 ∷ returns 0 ∷ returns 1 ∷ returns 6 ∷ [])

initialize-release_balanced_example :
    let ((err, t'), m') = initialize_threadpool scripted 1 4 unused pool_opens in
    let m'' = (release_threadpool scripted 5000 t' m').1 in
    Holds environ 5 [] m''.trace 0
    × Holds pool 5 [] m''.trace 0
    × Holds group 5 [] m''.trace 0
    × Remains cleanup_thread lost_thread 5 [] m''.trace 0
initialize-release_balanced_example =
    initialize-release_balanced scripted unused pool_opens 5 1 4 5000

-- No pointer has been loaded yet.
abbrev unloaded : Extensions
unloaded = record { accept_ex = 0; get_accept_ex_sockaddrs = 0; connect_ex = 0; disconnect_ex = 0 }

abbrev loaded : Extensions
loaded = record { accept_ex = 1; get_accept_ex_sockaddrs = 2; connect_ex = 3; disconnect_ex = 4 }

-- A system that gives the address `g + 1` for the GUID `g`, and writes a 1 at every other call. The
-- first call returns the number that its world is, the others 0.
abbrev giving_answer : Call → ℕ → Reply × ℕ
giving_answer Call.last_error w = (record (returns 5) { out = 1 }, w)
giving_answer (Call.wsa_ioctl s g) w = (record (returns w) { out = g + 1 }, 0)
giving_answer _ w = (record (returns w) { out = 1 }, 0)

abbrev giving : Os
giving = record {
  World = ℕ;
  answer = giving_answer;
  htons = λ p. p;
  ntohs = λ p. p;
  pun = record { as_ipv4 = λ e. any4 0; as_ipv6 = λ e. any6 0 };
}

giving-SetsLastError : SetsLastError giving
giving-SetsLastError c w h = ground arith

abbrev address_of : ℕ → ℕ
address_of g = g + 1

giving-GivesPointers : GivesPointers giving address_of
giving-GivesPointers s g w h = ground arith

-- The next call returns 7, the others 0.
abbrev dummy_opens : Machine ℕ
dummy_opens = record { world = 7; core_alive = true; trace = [] }

get_extended_socket_functions_loads_example :
    (get_extended_socket_functions giving unloaded dummy_opens).0.1 ≡ loaded
unfolding get_extended_socket_functions
get_extended_socket_functions_loads_example =
    get_extended_socket_functions_loads giving giving-SetsLastError address_of giving-GivesPointers
      unloaded dummy_opens refl

get_extended_socket_functions-sock_example :
    let ((err, x'), m') = get_extended_socket_functions giving unloaded dummy_opens in
    Remains sock lost_sock 7 [] m'.trace 0 × ((err ≢ success) ⊎ Holds sock 7 [] m'.trace 0)
get_extended_socket_functions-sock_example =
    get_extended_socket_functions-sock giving unloaded dummy_opens 7 giving-SetsLastError

abbrev conf : IoCoreConfig
conf = record {
  io_threadpool_min_threads = 1;
  io_threadpool_max_threads = 4;
  user_threadpool_min_threads = 1;
  user_threadpool_max_threads = 4;
}

abbrev core : WinIoCore
core = record { conf = conf; stop_requested = 0; io = unused; user = unused; extensions = loaded }

-- Winsock, the dummy socket 7, the pool 5 with the group 6, and the pool 8 with the group 9; then the
-- release of both with the cleanup threads 11 and 12.
abbrev whole_life : Machine (List Reply)
whole_life = start (
    record (returns 0) { out = winsock_version }
    ∷ returns 7
    ∷ returns 0
    ∷ returns 0
    ∷ returns 5
    ∷ returns 0
    ∷ returns 1
    ∷ returns 6
    ∷ returns 0
    ∷ returns 0
    ∷ returns 0
    ∷ returns 8
    ∷ returns 0
    ∷ returns 1
    ∷ returns 9
    ∷ returns 0
    ∷ returns 0
    ∷ returns 11
    ∷ returns 0
    ∷ returns 1
    ∷ returns 0
    ∷ returns 0
    ∷ returns 0
    ∷ returns 12
    ∷ [])

initialize-release_core_example :
    let r = initialize scripted core whole_life in
    let m'' = (release scripted r.0.1 r.1).1 in
    Holds environ 8 [] m''.trace 0
    × Holds pool 8 [] m''.trace 0
    × Holds group 8 [] m''.trace 0
    × Holds winsock 0 [] m''.trace 0
    × Holds sock 8 [] m''.trace 0
unfolding initialize release initialize_threadpool release_threadpool get_extended_socket_functions
initialize-release_core_example =
    initialize-release_core scripted core whole_life 8 scripted-SetsLastError refl refl

create-winsock_example :
    Holds winsock 0 [] (create scripted conf unused unused loaded quiet).1.trace 1
create-winsock_example = create-winsock scripted conf unused unused loaded quiet refl

-- A core with both pools in use.
abbrev running : WinIoCore
running = record core { io = in_use; user = in_use }

refused :
    (release_threadpool scripted user_threadpool_cleanup_timeout_ms in_use quiet).0.0 ≢ success
unfolding release_threadpool
refused = ground arith

release_stops_early_example :
    let user = release_threadpool scripted user_threadpool_cleanup_timeout_ms in_use quiet in
    let ((err, c'), m') = release scripted running quiet in
    (err ≡ user.0.0)
    × (c'.io ≡ in_use)
    × Holds environ 5 m'.trace [] 0
    × Holds pool 5 m'.trace [] 1
    × Holds group 5 m'.trace [] 0
    × Holds winsock 0 m'.trace [] 0
release_stops_early_example = release_stops_early scripted running quiet 5 refused
