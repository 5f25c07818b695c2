-- ===== src/Os/Overlapped.antt =====
-- Overlapped calls in a trace: which were made, and which the system accepted.
use firelink_net.Prelude.{
  ℕ, ◌+◌, Bool, false, not, ◌&&◌, ◌||◌, Option, none, some, List, [], ◌∷◌, ◌==◌, if◌then◌else◌,
}
use firelink_net.Types.{error_io_pending}
use firelink_net.Os.Calls.{Call, Event}
use firelink_net.Os.Laws.{fails}

-- The `IOData` whose `OVERLAPPED` the call is given.
abbrev pub overlapped : Call → Option ℕ
overlapped (Call.accept_ex s a p) = some p
overlapped (Call.connect_ex s a p) = some p
overlapped (Call.wsa_recv s b n p) = some p
overlapped (Call.wsa_recv_from s b n p) = some p
overlapped (Call.wsa_send s b n p) = some p
overlapped (Call.wsa_send_to s b n a p) = some p
overlapped (Call.disconnect_ex s p f) = some p
overlapped _ = none

abbrev pub is_at : ℕ → Option ℕ → Bool
is_at p none = false
is_at p (some q) = q == p

-- The error code that an event tells.
abbrev error_told : Event → ℕ
error_told (Call.last_error, r) = r
error_told _ = 0

-- How many overlapped calls with the `IOData` the system has accepted: they did not fail, or the call
-- of the last error that follows at once told `ERROR_IO_PENDING`. Such a call has one completion, and
-- the system owns the `IOData` until then. `told` is what the event after the newest one tells.
abbrev pub accepted : ℕ → ℕ → List Event → ℕ
accepted p told [] = 0
accepted p told ((c, r) ∷ t) =
    (if is_at p (overlapped c) && (not (fails c r) || told == error_io_pending) then 1 else 0)
    + accepted p (error_told (c, r)) t

-- The newest overlapped call.
abbrev pub newest : List Event → Option Call
newest [] = none
newest ((c, r) ∷ t) = elim (overlapped c) [ none ↦ newest t | some p ↦ some c ]
