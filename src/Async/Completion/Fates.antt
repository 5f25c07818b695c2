-- ===== src/Async/Completion/Fates.antt =====
-- What may have become of an `IOData` and of its handler once its operation has completed
-- (src/platform/windows/win_socket.cpp).
use firelink_net.Prelude.{
  ℕ, ◌%◌, ◌^◌, ◌≡◌, ◌⊎◌, true, ◌&&◌, Option, none, some, List, [], ◌∷◌, if◌then◌else◌,
}
use firelink_net.Types.{success}
use firelink_net.Async.Store.{Handler, IoData, Work, Invocation, Store}
use firelink_net.Async.Completion.{is_given}

-- One more piece of work, for the operation `p`.
abbrev pub PostedOne : ℕ → Handler → List Work → List Work → Type 0
PostedOne p f [] old = ⊥
PostedOne p f (w ∷ ws) old = (w.io_data ≡ p) × (w.handler ≡ f) × (ws ≡ old)

-- One more call, of the handler that the operation was begun with, with the result of the operation:
-- an error of the operation itself is not overwritten by a later one.
abbrev pub CalledOnce : IoData → ℕ → ℕ → List Invocation → List Invocation → Type 0
CalledOnce d result n [] old = ⊥
CalledOnce d result n (i ∷ is) old =
    (i.handler ≡ d.user_handler)
    × (i.caller ≡ d.socket)
    × (i.bytes ≡ n % 2 ^ 32)
    × ((result ≡ success) ⊎ (i.error ≡ result))
    × (is ≡ old)

-- The `IOData` on the heap still belongs to the operation, and holds its result.
abbrev pub Waiting : IoData → ℕ → ℕ → Option IoData → Type 0
Waiting d result n none = ⊥
Waiting d result n (some e) =
    (e.socket ≡ d.socket)
    × (e.bytes_transferred ≡ n % 2 ^ 32)
    × ((result ≡ success) ⊎ (e.error_code ≡ result))

-- The routine posted the work and left the `IOData` to it.
abbrev pub Posted : {W : Type 0} → Store W → Store W → ℕ → IoData → ℕ → ℕ → Type 0
Posted s s' p d result n =
    PostedOne p d.user_handler s'.posted s.posted
    × Waiting d result n (s'.heap p)
    × (is_given d.user_handler ≡ true)
    × (s.machine.core_alive ≡ true)
    × (s'.called ≡ s.called)
    × (s'.deleted ≡ s.deleted)
    × (s'.sockets ≡ s.sockets)

-- The routine deleted the `IOData` itself, after a call of the handler if there is one to call.
abbrev pub Finished : {W : Type 0} → Store W → Store W → ℕ → IoData → ℕ → ℕ → Type 0
Finished s s' p d result n =
    (s'.posted ≡ s.posted)
    × (if is_given d.user_handler && s.machine.core_alive
        then CalledOnce d result n s'.called s.called
        else s'.called ≡ s.called)
    × (s'.deleted ≡ p ∷ s.deleted)
    × (s'.heap p ≡ none)
