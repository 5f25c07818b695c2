-- ===== src/Async/System/Refines.antt =====
-- The asynchronous half implements the phases: every step is a change that it may make, on a
-- relation that ties the heap, the operations in flight, the posted work and the deletions to the
-- phase of each `IOData` (src/platform/windows/win_socket.cpp).
use firelink_net.Prelude.{update, one, count, count-middle, ◌-◌, if◌then◌else◌}
use firelink_net.Prelude.{
  ℕ, suc, ◌+◌, ◌≡◌, ◌≢◌, inl, inr, refl, Option, none, some, List, ◌∷◌, ◌++◌, true, leb, ◌==◌,
  arith,
}
use firelink_net.Os.{Os}
use firelink_net.Os.Laws.{SetsLastError}
use firelink_net.Os.Overlapped.{accepted}
use firelink_net.Async.Store.{IoData, Work, Store}
use firelink_net.Async.Start.Effect.{
  is_live, Effect, start_accept-Effect, start_connect-Effect, start_recv-Effect,
  start_recv_from-Effect, start_send-Effect, start_send_to-Effect, start_disconnect-Effect,
}
use firelink_net.Async.Completion.{socket_io_routine, run_work}
use firelink_net.Async.Completion.Lifetime.{socket_io_routine_outcome}
use firelink_net.Async.Completion.Local.{socket_io_routine-Kept, run_work-Kept, run_work_ends}
use firelink_net.Async.System.{
  Op, accept, connect, recv, recv_from, send, send_to, disconnect, perform, Sys, after_start, Step,
  starts, completes, runs, others, repeat,
}
use firelink_net.Async.System.Phases.{
  Phase, unused, pending, queued, gone, lost, is_unused, is_pending, is_queued, is_gone, on_heap,
}
use firelink_net.Async.System.Follows.{Allowed}
use firelink_net.Async.System.Counts.{
  count_work, count_work-middle, count_work-PostedOne, count-repeat,
}

-- The slot `p` of the state is in the phase that `f` says.
abbrev pub SimAt : {W : Type 0} → Sys W → (ℕ → Phase) → ℕ → Type 0
SimAt s f p =
    (is_unused (f p) ≡ leb s.store.next_io p)
    × (is_live (s.store.heap p) ≡ on_heap (f p))
    × (count p s.in_flight ≡ one (is_pending (f p)))
    × (count_work p s.store.posted ≡ one (is_queued (f p)))
    × (count p s.store.deleted ≡ one (is_gone (f p)))

abbrev pub Sim : {W : Type 0} → Sys W → (ℕ → Phase) → Type 0
Sim s f = (p : ℕ) → SimAt s f p

-- An allowed change leads to a relation with the new state.
abbrev pub Matched : (os : Os) (s t : Sys os.World) → Step os s t → (ℕ → Phase) → Type 0
Matched os s t st f = (g : ℕ → Phase) × Allowed st f g × Sim t g

is_live-some : (o : Option IoData) → is_live o ≡ true → (d : IoData) × (o ≡ some d)
is_live-some none e = cc
is_live-some (some d) e = (d, refl)

unused-phase : (ph : Phase) → is_unused ph ≡ true → ph ≡ unused
unused-phase unused e = refl
unused-phase pending e = cc
unused-phase queued e = cc
unused-phase gone e = cc
unused-phase lost e = cc

pending-phase : (ph : Phase) → one (is_pending ph) ≢ 0 → ph ≡ pending
pending-phase ph e = ground arith

queued-phase : (ph : Phase) → one (is_queued ph) ≢ 0 → ph ≡ queued
queued-phase ph e = ground arith

module _ (os : Os) (law : SetsLastError os) where
  perform-Effect :
      (op : Op) (s : Store os.World) (p : ℕ) → let (err, t) = perform os op s in Effect s t err p
  unfolding perform
  perform-Effect (accept self a h) s p = start_accept-Effect os law self a h s p
  perform-Effect (connect self dst h) s p = start_connect-Effect os law self dst h s p
  perform-Effect (recv self b h) s p = start_recv-Effect os law self b h s p
  perform-Effect (recv_from self b h) s p = start_recv_from-Effect os law self b h s p
  perform-Effect (send self b h) s p = start_send-Effect os law self b h s p
  perform-Effect (send_to self b dst h) s p = start_send_to-Effect os law self b dst h s p
  perform-Effect (disconnect self reuse h) s p = start_disconnect-Effect os law self reuse h s p

  starts-Matched :
      (s : Sys os.World) (f : ℕ → Phase) (op : Op)
      → Sim s f
      → Matched os s (after_start s (perform os op s.store)) (starts op) f
  starts-Matched s f op sim = elim (perform-Effect op s.store fresh).1 [
    | inl b ↦ (
      update f fresh pending,
      inl (b.0, (at_fresh, refl)),
      λ p. ground (arith, perform-Effect op s.store p, sim p, flying p),
    )
    | inr (e, a, inl b) ↦ (
      update f fresh gone,
      inr (e, inl (at_fresh, refl)),
      λ p. ground (arith, perform-Effect op s.store p, sim p, flying p),
    )
    | inr (e, a, inr (inl b)) ↦ (
      update f fresh lost,
      inr (e, inr (inl (at_fresh, refl))),
      λ p. ground (arith, perform-Effect op s.store p, sim p, flying p),
    )
    | inr (e, a, inr (inr b)) ↦ (
      f,
      inr (e, inr (inr refl)),
      λ p. ground (arith, perform-Effect op s.store p, sim p, flying p),
    )
  ]
    where
      fresh : ℕ
      fresh = s.store.next_io

      at_fresh : f fresh ≡ unused
      at_fresh = unused-phase (f fresh) (ground (arith, sim fresh))

      new : ℕ
      new =
          accepted fresh 0 (perform os op s.store).1.machine.trace
          - accepted fresh 0 s.store.machine.trace

      flying :
          (q : ℕ)
          → count q (repeat new fresh s.in_flight)
            ≡ (if fresh == q then new else 0) + count q s.in_flight
      flying q = count-repeat q new fresh s.in_flight

  completes-Matched :
      (s : Sys os.World) (f : ℕ → Phase) (xs : List ℕ) (p : ℕ) (ys : List ℕ) (result n : ℕ)
      (e : s.in_flight ≡ xs ++ p ∷ ys)
      → Sim s f
      → Matched os s _ (completes xs p ys result n e) f
  completes-Matched s f xs p ys result n e sim =
      elim (socket_io_routine_outcome os law s.store p result n live.0 live.1) [
        | inl out ↦ (
          update f p queued,
          inl (at_p, refl),
          λ q. ground (
            arith,
            sim q,
            taken q,
            kept q,
            kept (suc p) (omega arith),
            count_work-PostedOne q p live.0.user_handler t.posted s.store.posted,
          ),
        )
        | inr out ↦ (
          update f p gone,
          inr (at_p, refl),
          λ q. ground (arith, sim q, taken q, kept q, kept (suc p) (omega arith)),
        )
      ]
    where
      t : Store os.World
      t = (socket_io_routine os p result n s.store).1

      taken : (q : ℕ) → count q s.in_flight ≡ one (p == q) + count q (xs ++ ys)
      taken q = rw e (count-middle q xs p ys)

      at_p : f p ≡ pending
      at_p = pending-phase (f p) (ground (arith, sim p, taken p))

      live : (d : IoData) × (s.store.heap p ≡ some d)
      live = is_live-some (s.store.heap p) (ground (arith, sim p, at_p))

      kept : (q : ℕ) → q ≢ p → (t.heap q ≡ s.store.heap q) × (t.next_io ≡ s.store.next_io)
      kept q other = socket_io_routine-Kept os p q other result n s.store

  runs-Matched :
      (s : Sys os.World) (f : ℕ → Phase) (xs : List Work) (w : Work) (ys : List Work)
      (e : s.store.posted ≡ xs ++ w ∷ ys)
      → Sim s f
      → Matched os s _ (runs xs w ys e) f
  runs-Matched s f xs w ys e sim = (
    update f p gone,
    (at_p, refl),
    λ q. ground (
      arith,
      sim q,
      taken q,
      kept q,
      kept (suc p) (omega arith),
      run_work_ends w t live.0 live.1,
    ),
  )
    where
      p : ℕ
      p = w.io_data

      t : Store os.World
      t = record (s.store) { posted = xs ++ ys }

      taken : (q : ℕ) → count_work q s.store.posted ≡ one (p == q) + count_work q (xs ++ ys)
      taken q = rw e (count_work-middle q xs w ys)

      at_p : f p ≡ queued
      at_p = queued-phase (f p) (ground (arith, sim p, taken p))

      live : (d : IoData) × (s.store.heap p ≡ some d)
      live = is_live-some (s.store.heap p) (ground (arith, sim p, at_p))

      kept :
          (q : ℕ)
          → q ≢ p
          → ((run_work w t).1.heap q ≡ t.heap q) × ((run_work w t).1.next_io ≡ t.next_io)
      kept q other = run_work-Kept q w t other

  -- Every step of the asynchronous half is a change that it may make.
  pub Step-Matched :
      (s t : Sys os.World) (f : ℕ → Phase) (st : Step os s t) → Sim s f → Matched os s t st f
  Step-Matched s t f (starts op) sim = starts-Matched s f op sim
  Step-Matched s t f (completes xs p ys result n e) sim =
      completes-Matched s f xs p ys result n e sim
  Step-Matched s t f (runs xs w ys e) sim = runs-Matched s f xs w ys e sim
  Step-Matched s t f (others m sockets) sim = (f, refl, λ p. sim p)
