-- ===== src/IoCore/Extensions/Loading.antt =====
-- Loading the extension functions: what becomes of the dummy socket and of the four pointers
-- (src/platform/windows/win_io_core.cpp).
use firelink_net.Prelude.{ℕ, ◌≡◌, ◌≢◌, ◌⊎◌, inl, inr, Bool-cases, List, ◌==◌, if◌then◌else◌, arith}
use firelink_net.Types.{ErrorCode, success, ipv4, stream, invalid_socket}
use firelink_net.Os.{Call, Event, Os, M, Machine, pure, sys}
use firelink_net.Os.Ledger.{
  acquired, sock, lost_sock, Remains, environ, pool, group, winsock, Holds,
}
use firelink_net.Os.Laws.{SetsLastError}
use firelink_net.IoCore.Extensions.{
  Loaded, pointer, failed, retrieve, retrieve_all, Extensions, retrieve_then, close_dummy,
  retrieve_disconnect_ex, retrieve_connect_ex, retrieve_get_accept_ex_sockaddrs,
  get_extended_socket_functions, guid_acceptex, guid_getacceptexsockaddrs, guid_connectex,
  guid_disconnectex,
}

-- A `WSAIoctl` that succeeds writes the address of the function that its GUID names.
abbrev pub GivesPointers : Os → (ℕ → ℕ) → Type 0
GivesPointers os address =
    (s g : ℕ) (w : os.World)
    → (os.answer (Call.wsa_ioctl s g) w).0.ret ≡ 0
    → (os.answer (Call.wsa_ioctl s g) w).0.out ≡ address g

-- A pointer that is there stays; another becomes the address of its function.
abbrev pub pick : (ℕ → ℕ) → ℕ → ℕ → ℕ
pick address guid current = if current == 0 then address guid else current

-- What each pointer of the second record is, from its GUID and the pointer of the first.
abbrev AllGood : (ℕ → ℕ → ℕ → Type 0) → Extensions → Extensions → Type 0
AllGood good x y =
    good guid_acceptex x.accept_ex y.accept_ex
    × good guid_getacceptexsockaddrs x.get_accept_ex_sockaddrs y.get_accept_ex_sockaddrs
    × good guid_connectex x.connect_ex y.connect_ex
    × good guid_disconnectex x.disconnect_ex y.disconnect_ex

abbrev IsGood : (ℕ → Type 0) → Loaded → Type 0
IsGood good (pointer p) = good p
IsGood good (failed e) = e ≢ success

abbrev IfPointer : Type 0 → Loaded → Type 0
IfPointer A (pointer p) = A
IfPointer A (failed e) = Unit {0}

module _ (os : Os) (law : SetsLastError os) (h : ℕ) (t : List Event) (good : ℕ → ℕ → ℕ → Type 0)
    (x0 : Extensions)
    (asked : (d guid current : ℕ) (m : Machine os.World)
      → IsGood (good guid current) (retrieve os d guid current m).0) where
  -- Success comes with good pointers, and without a failed closing.
  Loads : (ErrorCode × Extensions) × Machine os.World → Type 0
  Loads r =
      r.0.0 ≡ success
      → AllGood good x0 r.0.1 × (acquired lost_sock h r.1.trace ≡ acquired lost_sock h t)

  abbrev Quiet : Machine os.World → Type 0
  Quiet m = acquired lost_sock h m.trace ≡ acquired lost_sock h t

  retrieve-Quiet :
      (d guid current : ℕ) (m : Machine os.World)
      → Quiet m
      → let (l, m') = retrieve os d guid current m in IfPointer (Quiet m') l
  unfolding retrieve
  retrieve-Quiet d guid current m q = ground arith

  retrieve_then-Loads :
      (d guid current : ℕ) (x : Extensions) (rest : ℕ → M os.World (ErrorCode × Extensions))
      (m : Machine os.World)
      → Quiet m
      → ((p : ℕ) (m' : Machine os.World) → good guid current p → Quiet m' → Loads (rest p m'))
      → Loads (retrieve_then os d guid current x rest m)
  unfolding retrieve_then Loads
  retrieve_then-Loads d guid current x rest m q next =
      go (retrieve os d guid current m).0 (retrieve os d guid current m).1 (asked d guid current m)
        (retrieve-Quiet d guid current m q)
    where
      after : Loaded → M os.World (ErrorCode × Extensions)
      after l = elim l [ pointer p ↦ rest p | failed e ↦ pure (e, x) ]

      go :
          (l : Loaded) (m' : Machine os.World)
          → IsGood (good guid current) l
          → IfPointer (Quiet m') l
          → Loads (after l m')
      go (pointer p) m' g quiet = next p m' g quiet
      go (failed e) m' g quiet = λ s. absurd (g s)

  close_dummy-Loads :
      (d : ℕ) (x : Extensions) (m : Machine os.World)
      → AllGood good x0 x
      → Quiet m
      → Loads (close_dummy os d x m)
  unfolding close_dummy Loads
  close_dummy-Loads d x m all q =
      let r = sys os (Call.close_socket d) m in ground (arith, law (Call.close_socket d) m.world)

  retrieve_all-Loads : (d : ℕ) (m : Machine os.World) → Quiet m → Loads (retrieve_all os d x0 m)
  unfolding retrieve_all retrieve_get_accept_ex_sockaddrs retrieve_connect_ex retrieve_disconnect_ex
  retrieve_all-Loads d m q = retrieve_then-Loads d _ x0.accept_ex _ _ m q λ a m1 ga q1.
      retrieve_then-Loads d _ x0.get_accept_ex_sockaddrs _ _ m1 q1 λ b m2 gb q2.
        retrieve_then-Loads d _ x0.connect_ex _ _ m2 q2 λ c m3 gc q3.
          retrieve_then-Loads d _ x0.disconnect_ex _ _ m3 q3
            λ e m4 ge q4. close_dummy-Loads d _ m4 (ga, gb, gc, ge) q4

  loads_all :
      (m : Machine os.World)
      → Quiet m
      → (get_extended_socket_functions os x0 m).0.0 ≡ success
      → AllGood good x0 (get_extended_socket_functions os x0 m).0.1
        × (acquired lost_sock h (get_extended_socket_functions os x0 m).1.trace
            ≡ acquired lost_sock h t)
  unfolding get_extended_socket_functions Loads
  loads_all m q =
      let c = Call.wsa_socket ipv4 stream 0 in
      let d = (sys os c m).0.ret in
      let m1 = (sys os c m).1 in
      let loads = retrieve_all-Loads d m1 (ground arith) in
      elim (Bool-cases (d == invalid_socket)) [
        | inl bad ↦ ground (arith, law c m.world)
        | inr opened ↦ ground (arith, loads)
      ]

retrieve-pick :
    (os : Os) (address : ℕ → ℕ)
    → SetsLastError os
    → GivesPointers os address
    → (d guid current : ℕ) (m : Machine os.World)
    → IsGood (λ p. p ≡ pick address guid current) (retrieve os d guid current m).0
unfolding retrieve
retrieve-pick os address law gives d guid current m = grind (arith, law, gives)

retrieve-failed :
    (os : Os)
    → SetsLastError os
    → (d guid current : ℕ) (m : Machine os.World)
    → IsGood (λ p. p ≡ p) (retrieve os d guid current m).0
unfolding retrieve
retrieve-failed os law d guid current m = grind (arith, law)

module _ (os : Os) (law : SetsLastError os) (address : ℕ → ℕ)
    (gives : GivesPointers os address) where
  -- If a `WSAIoctl` that succeeds gives the address of the function that its GUID names, and the call
  -- reports success, then each of the four pointers that was null is the address of its own function
  -- afterwards, and each other one is as it was.
  -- Condition: a failed call of the system sets the last error, to a code that is not 0.
  pub get_extended_socket_functions_loads :
      (x : Extensions) (m : Machine os.World)
      → (get_extended_socket_functions os x m).0.0 ≡ success
      → (get_extended_socket_functions os x m).0.1 ≡ record {
        accept_ex = pick address guid_acceptex x.accept_ex;
        get_accept_ex_sockaddrs = pick address guid_getacceptexsockaddrs x.get_accept_ex_sockaddrs;
        connect_ex = pick address guid_connectex x.connect_ex;
        disconnect_ex = pick address guid_disconnectex x.disconnect_ex;
      }
  get_extended_socket_functions_loads x m e =
      let all =
        loads_all os law 0 m.trace (λ guid current p. p ≡ pick address guid current) x
          (retrieve-pick os address law gives) m (omega arith) e in
      ground (arith, all.0)

module _ (os : Os) (x : Extensions) (m : Machine os.World) where
  closes_once :
      (h : ℕ) → Remains sock lost_sock h m.trace (get_extended_socket_functions os x m).1.trace 0
  unfolding get_extended_socket_functions
  closes_once h = ground arith

  -- Whatever the system answers, `closesocket` is called once on every way out for the dummy socket
  -- that was opened, if one was, and for no other. If the call returns success, the dummy socket is
  -- closed.
  -- Condition: a failed call of the system sets the last error, to a code that is not 0.
  pub get_extended_socket_functions-sock :
      (h : ℕ)
      → SetsLastError os
      → let ((err, x'), m') = get_extended_socket_functions os x m in
        Remains sock lost_sock h m.trace m'.trace 0
        × ((err ≢ success) ⊎ Holds sock h m.trace m'.trace 0)
  get_extended_socket_functions-sock h law =
      let quiet =
        loads_all os law h m.trace (λ guid current p. p ≡ p) x (retrieve-failed os law) m
          (omega arith) in
      let once = closes_once h in
      elim (Bool-cases ((get_extended_socket_functions os x m).0.0 == success)) [
        | inl e ↦ (once, inr (omega (arith, once, (quiet (ground arith)).1)))
        | inr e ↦ (once, inl (ground arith))
      ]

  -- Nor does the call touch anything that a thread pool or the start of Winsock holds.
  pub get_extended_socket_functions-environ :
      (h : ℕ) → Holds environ h m.trace (get_extended_socket_functions os x m).1.trace 0
  unfolding get_extended_socket_functions
  get_extended_socket_functions-environ h = ground arith

  pub get_extended_socket_functions-pool :
      (h : ℕ) → Holds pool h m.trace (get_extended_socket_functions os x m).1.trace 0
  unfolding get_extended_socket_functions
  get_extended_socket_functions-pool h = ground arith

  pub get_extended_socket_functions-group :
      (h : ℕ) → Holds group h m.trace (get_extended_socket_functions os x m).1.trace 0
  unfolding get_extended_socket_functions
  get_extended_socket_functions-group h = ground arith

  pub get_extended_socket_functions-winsock :
      (h : ℕ) → Holds winsock h m.trace (get_extended_socket_functions os x m).1.trace 0
  unfolding get_extended_socket_functions
  get_extended_socket_functions-winsock h = ground arith
