-- ===== src/Async/System/Phases.antt =====
-- What an `IOData` may go through: the specification that the asynchronous half implements.
use firelink_net.Prelude.{Bool, true, false}

-- Not made yet; in flight; its work posted to the user thread pool; deleted; left on the heap with
-- nobody to delete it.
pub data Phase : Type 0 where
  unused pending queued gone lost : Phase

abbrev pub is_unused : Phase → Bool
is_unused unused = true
is_unused pending = false
is_unused queued = false
is_unused gone = false
is_unused lost = false

abbrev pub is_pending : Phase → Bool
is_pending pending = true
is_pending unused = false
is_pending queued = false
is_pending gone = false
is_pending lost = false

abbrev pub is_queued : Phase → Bool
is_queued queued = true
is_queued unused = false
is_queued pending = false
is_queued gone = false
is_queued lost = false

abbrev pub is_gone : Phase → Bool
is_gone gone = true
is_gone unused = false
is_gone pending = false
is_gone queued = false
is_gone lost = false

abbrev pub on_heap : Phase → Bool
on_heap pending = true
on_heap queued = true
on_heap lost = true
on_heap unused = false
on_heap gone = false
