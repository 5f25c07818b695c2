-- ===== src/Examples/Buffer.antt =====
-- What the examples share: the buffer that they receive into, the configuration of the core, and
-- how a step of `main` or of a handler goes on (examples/async_echo_server/async_echo_server.cpp,
-- examples/async_echo_client/async_echo_client.cpp).
use firelink_net.Prelude.{ℕ, true, ◌==◌, if◌then◌else◌}
use firelink_net.Types.{ErrorCode, success, minus}
use firelink_net.Endpoint.{Endpoint, of_ipv4}
use firelink_net.Os.{Os, Span, pure, ◌>>=◌}
use firelink_net.Socket.Context.{stop_io_context}
use firelink_net.IoCore.Core.{IoCoreConfig, WinIoCore, release}
use firelink_net.Async.Store.{S, lift}

-- `get_recv_span`: the static buffer of 512 bytes, at whatever address.
abbrev pub recv_span : ℕ → Span
recv_span address = record { address = address; size = 512 }

-- `{2, 2, 2, 2}`
abbrev pub two_threads : IoCoreConfig
two_threads = record {
  io_threadpool_min_threads = 2;
  io_threadpool_max_threads = 2;
  user_threadpool_min_threads = 2;
  user_threadpool_max_threads = 2;
}

-- 127.0.0.1:63000
abbrev pub echo_ep : Endpoint
echo_ep = of_ipv4 (record { bytes = record { b0 = 127; b1 = 0; b2 = 0; b3 = 1 }; port = 63000 })

-- `return -1`
abbrev pub exit_failure : ℕ
exit_failure = minus 1

-- The shared pointer of `main`: from here on `io_core_.lock()` finds the core.
abbrev pub share_core : {W : Type 0} → S W (Unit {0})
share_core s = (tt, record s { machine = record (s.machine) { core_alive = true } })

module _ (os : Os) where
  -- A handler: stop the core if the code is an error, else go on.
  abbrev pub or_stop : ErrorCode → S os.World (Unit {0}) → S os.World (Unit {0})
  or_stop err go_on = if err == success then go_on else lift (stop_io_context os)

  -- `io_core->release(); return -1;`
  unfoldable pub release_and_fail : WinIoCore → S os.World ℕ
  release_and_fail core = do _ ← lift (release os core); pure exit_failure
