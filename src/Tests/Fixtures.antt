-- ===== src/Tests/Fixtures.antt =====
-- Sockets, an endpoint and a buffer that the runs share.
use firelink_net.Prelude.{false}
use firelink_net.Types.{ipv4, stream, tcp, unsupported, invalid_socket}
use firelink_net.Endpoint.{Endpoint, of_ipv4}
use firelink_net.Os.{Span}
use firelink_net.Socket.State.{WinSocket}

-- An open socket with the handle 7 and the thread-pool IO 9.
abbrev pub opened : WinSocket
opened = record {
  native_handle = 7;
  addr_family = ipv4;
  sock_type = stream;
  protocol = tcp;
  is_bound = false;
  socket_io_handle = 9;
}

-- An object as the constructor makes it.
abbrev pub closed : WinSocket
closed = record {
  native_handle = invalid_socket;
  addr_family = unsupported;
  sock_type = unsupported;
  protocol = unsupported;
  is_bound = false;
  socket_io_handle = 0;
}

abbrev pub buffer : Span
buffer = record { address = 4096; size = 16 }

-- 127.0.0.1:8080
abbrev pub home : Endpoint
home = of_ipv4 (record { bytes = record { b0 = 127; b1 = 0; b2 = 0; b3 = 1 }; port = 8080 })
