-- ===== src/Socket/Contracts.antt =====
-- What the synchronous methods change and what they leave alone
-- (src/platform/windows/win_socket.cpp).
use firelink_net.Prelude.{ℕ, ◌≡◌, ◌≢◌, ◌⊎◌, refl, true, arith}
use firelink_net.Types.{ErrorCode, success, invalid_argument, address_family_not_supported, minus}
use firelink_net.Endpoint.{Endpoint}
use firelink_net.Os.{Span, Os, Machine}
use firelink_net.Os.Laws.{SetsLastError}
use firelink_net.Socket.State.{WinSocket, new_socket, close}
use firelink_net.Socket.Lifecycle.{close-new_socket}
use firelink_net.Socket.Sync.{
  bind, connect, send_to, recv_from, set_socket_option, get_socket_option, get_sock_name,
  get_peer_name,
}

-- The socket is bound afterwards, or the method failed and the object is as it was.
abbrev pub BoundOrKept : WinSocket → ErrorCode × WinSocket → Type 0
BoundOrKept s (err, s') =
    ((err ≡ success) × (s' ≡ record s { is_bound = true })) ⊎ ((err ≢ success) × (s' ≡ s))

module _ (os : Os) (s : WinSocket) (m : Machine os.World) where
  -- `bind` and `connect` mark the socket as bound exactly if they succeed, and change no other field.
  bind-connect_outcome :
      SetsLastError os
      → (ep : Endpoint) → BoundOrKept s (bind os s ep m).0 × BoundOrKept s (connect os s ep m).0
  unfolding bind connect
  bind-connect_outcome law ep = grind (arith, law)

  -- `send_to` marks the socket as bound exactly if it does not return -1, and changes no other field.
  send_to_outcome :
      (bytes : Span) (dst : Endpoint)
      → let (n, s') = (send_to os s bytes dst m).0 in
        ((n ≢ minus 1) × (s' ≡ record s { is_bound = true })) ⊎ ((n ≡ minus 1) × (s' ≡ s))
  unfolding send_to
  send_to_outcome bytes dst = ground arith

  -- A `recv_from` that returns -1, and a `get_sock_name` or `get_peer_name` that returns an error,
  -- have not written to the endpoint.
  endpoint_kept :
      (buffer : Span) (ep : Endpoint)
      → let received = (recv_from os s buffer ep m).0 in
        let own = (get_sock_name os s ep m).0 in
        let peer = (get_peer_name os s ep m).0 in
        ((received.0 ≢ minus 1) ⊎ (received.1 ≡ ep))
        × ((own.0 ≡ success) ⊎ (own.1 ≡ ep))
        × ((peer.0 ≡ success) ⊎ (peer.1 ≡ ep))
  unfolding recv_from get_sock_name get_peer_name
  endpoint_kept buffer ep = (ground arith, ground arith, ground arith)

  -- `set_socket_option` refuses an empty value, and both option methods refuse a level or an option
  -- of -1, before any call of the system; a `get_socket_option` that fails leaves the size that it is
  -- to fill.
  options_guarded :
      (level option size : ℕ) (value : Span)
      → let set = set_socket_option os s level option value m in
        let get = get_socket_option os s level option value size m in
        let named = (level ≢ minus 1) × (option ≢ minus 1) in
        (((value.size ≢ 0) × named) ⊎ (set ≡ (invalid_argument, m)))
        × (named ⊎ (get ≡ ((invalid_argument, size), m)))
        × ((get.0.0 ≡ success) ⊎ (get.0.1 ≡ size))
  unfolding set_socket_option get_socket_option
  options_guarded level option size value = (ground arith, ground arith, ground arith)

new_refuses :
    (os : Os) (m : Machine os.World) (ep : Endpoint) (bytes : Span)
    → (bind os new_socket ep m ≡ ((address_family_not_supported, new_socket), m))
      × (connect os new_socket ep m ≡ ((address_family_not_supported, new_socket), m))
      × (send_to os new_socket bytes ep m ≡ ((minus 1, new_socket), m))
unfolding bind connect send_to new_socket
new_refuses os m ep bytes = (refl, refl, refl)

-- After `close`, whatever it returned, `bind`, `connect` and `send_to` on the object fail without a
-- call of the system.
pub closed_refuses :
    (os : Os) (s : WinSocket) (m : Machine os.World) (ep : Endpoint) (bytes : Span)
    → let s' = (close os s m).0.1 in
      let m' = (close os s m).1 in
      (bind os s' ep m' ≡ ((address_family_not_supported, s'), m'))
      × (connect os s' ep m' ≡ ((address_family_not_supported, s'), m'))
      × (send_to os s' bytes ep m' ≡ ((minus 1, s'), m'))
closed_refuses os s m ep bytes =
    rw (close-new_socket os s m) (new_refuses os (close os s m).1 ep bytes)
