-- ===== src/Async/System/Follows.antt =====
-- Which change of the phases each step of the system may make
-- (src/platform/windows/win_socket.cpp).
use firelink_net.Prelude.{update, ℕ, ◌≡◌, ◌≢◌, ◌⊎◌}
use firelink_net.Types.{success}
use firelink_net.Os.{Os}
use firelink_net.Async.System.{
  Sys, perform, Step, starts, completes, runs, others, Reach, here, next,
}
use firelink_net.Async.System.Phases.{Phase, unused, pending, queued, gone, lost}

-- Only the `IOData` `p` changes, from the phase `a` to the phase `b`.
abbrev pub Goes : ℕ → Phase → Phase → (ℕ → Phase) → (ℕ → Phase) → Type 0
Goes p a b f g = (f p ≡ a) × (g ≡ update f p b)

-- A start that succeeds begins the next `IOData`; one that fails deletes it, leaves it behind for
-- ever, or makes none. A completion posts or deletes one that is in flight. Posted work deletes its
-- own. Whatever else happens changes nothing.
abbrev pub Allowed :
    {os : Os} {s t : Sys os.World} → Step os s t → (ℕ → Phase) → (ℕ → Phase) → Type 0
Allowed {os} {s} (starts op) f g =
    (((perform os op s.store).0 ≡ success) × Goes s.store.next_io unused pending f g)
    ⊎ (((perform os op s.store).0 ≢ success)
        × (Goes s.store.next_io unused gone f g ⊎ (Goes s.store.next_io unused lost f g ⊎ (g ≡ f))))
Allowed (completes xs p ys result n e) f g = Goes p pending queued f g ⊎ Goes p pending gone f g
Allowed (runs xs w ys e) f g = Goes w.io_data queued gone f g
Allowed (others m sockets) f g = g ≡ f

-- The phases `f`, which every `IOData` enters unused, follow the run step by step.
abbrev pub Follows : {os : Os} {s t : Sys os.World} → Reach os s t → (ℕ → Phase) → Type 0
Follows here g = g ≡ (λ p. unused)
Follows (next r st) g = (f : ℕ → Phase) × Follows r f × Allowed st f g
