-- ===== src/Os/Ledger.antt =====
-- Resources in a trace: how often it acquired and released each handle.
use firelink_net.Prelude.{
  ℕ, ◌+◌, ◌≡◌, Bool, true, false, ◌&&◌, Option, none, some, List, [], ◌∷◌, ◌==◌, if◌then◌else◌,
}
use firelink_net.Types.{invalid_socket, socket_error}
use firelink_net.Os.Calls.{Call, Event}

pub data Kind : Type 0 where
  sock lost_sock thread_io started pool group environ winsock cleanup_thread lost_thread : Kind

abbrev pub same_kind : Kind → Kind → Bool
same_kind sock sock = true
same_kind lost_sock lost_sock = true
same_kind lost_thread lost_thread = true
same_kind thread_io thread_io = true
same_kind started started = true
same_kind pool pool = true
same_kind group group = true
same_kind environ environ = true
same_kind winsock winsock = true
same_kind cleanup_thread cleanup_thread = true
same_kind _ _ = false

-- A handle that the system returned, unless it is the value that means failure.
abbrev valid : Kind → ℕ → ℕ → Option (Kind × ℕ)
valid k bad r = if r == bad then none else some (k, r)

-- What a call that returned `r` acquired. A `closesocket` or `CloseHandle` that failed leaves a
-- handle behind that nobody may have any more: it counts as one of a kind of its own.
abbrev gains : Call → ℕ → Option (Kind × ℕ)
gains (Call.wsa_socket f s p) r = valid sock invalid_socket r
gains (Call.accept_socket s) r = valid sock invalid_socket r
gains (Call.create_io s) r = valid thread_io 0 r
gains (Call.start_io h) r = some (started, h)
gains Call.create_pool r = valid pool 0 r
gains Call.create_group r = valid group 0 r
gains (Call.init_environ e) r = some (environ, e)
gains (Call.wsa_startup v) r = if r == 0 then some (winsock, 0) else none
gains (Call.create_cleanup_thread g) r = valid cleanup_thread 0 r
gains (Call.close_socket s) r = if r == socket_error then some (lost_sock, s) else none
gains (Call.close_thread t) r = if r == 0 then some (lost_thread, t) else none
gains _ r = none

-- What a call that returned `r` gave back; `closesocket` and `WSACleanup` return 0 or `SOCKET_ERROR`.
abbrev gives_back : Call → ℕ → Option (Kind × ℕ)
gives_back (Call.close_socket s) r = if r == socket_error then none else some (sock, s)
gives_back (Call.close_io h) r = some (thread_io, h)
gives_back (Call.cancel_io h) r = some (started, h)
gives_back (Call.close_pool p) r = some (pool, p)
gives_back (Call.close_group g) r = some (group, g)
gives_back (Call.destroy_environ e) r = some (environ, e)
gives_back Call.wsa_cleanup r = if r == socket_error then none else some (winsock, 0)
gives_back (Call.close_thread t) r = if r == 0 then none else some (cleanup_thread, t)
gives_back _ r = none

abbrev hit : Kind → ℕ → Option (Kind × ℕ) → ℕ
hit k h none = 0
hit k h (some (k', h')) = if same_kind k k' && h == h' then 1 else 0

abbrev pub acquired : Kind → ℕ → List Event → ℕ
acquired k h [] = 0
acquired k h ((c, r) ∷ t) = hit k h (gains c r) + acquired k h t

abbrev pub released : Kind → ℕ → List Event → ℕ
released k h [] = 0
released k h ((c, r) ∷ t) = hit k h (gives_back c r) + released k h t

-- Between the traces `t` and `u`, the handle was acquired `n` times more often than released.
abbrev pub Holds : Kind → ℕ → List Event → List Event → ℕ → Type 0
Holds k h t u n = acquired k h u + released k h t ≡ acquired k h t + released k h u + n

-- The same for a kind of which closing may fail, with the failed closings counted as kind `lost`: the
-- handle was acquired `n` times more often than an attempt was made to close it.
abbrev pub Remains : Kind → Kind → ℕ → List Event → List Event → ℕ → Type 0
Remains k lost h t u n =
    acquired k h u + (released k h t + acquired lost h t)
    ≡ acquired k h t + (released k h u + acquired lost h u) + n
