-- ===== src/DynamicController/Requeue.antt =====
-- pkg/requeue/requeue.go: errors that say whether an item goes back into the queue.
use kubernetes_resource_orch.Common.{[], Option, none, some, Text, ℤ, pos}

-- An `error`: nil, one that says nothing of requeues, or one of the three of the package around the
-- error that it was made of.
pub data GoError : Type 0 where
  nil : GoError
  failure : Text → GoError
  no_requeue : GoError → GoError
  requeue_needed : GoError → GoError
  requeue_needed_after : GoError → ℤ → GoError

-- `None`, `Needed` and `NeededAfter`
abbrev pub none_of : GoError → GoError
none_of e = no_requeue e

abbrev pub needed_of : GoError → GoError
needed_of e = requeue_needed e

abbrev pub needed_after_of : GoError → ℤ → GoError
needed_after_of e duration = requeue_needed_after e duration

-- `Error()`: each of the three gives "" around a nil error.
unfoldable pub error_text : GoError → Text
error_text nil = []
error_text (failure t) = t
error_text (no_requeue e) = error_text e
error_text (requeue_needed e) = error_text e
error_text (requeue_needed_after e duration) = error_text e

-- `Error()` on a pointer to one of the three, by the error in it; a nil pointer gives "".
unfoldable pub pointer_text : Option GoError → Text
pointer_text none = []
pointer_text (some e) = error_text e

-- `Unwrap()` on such a pointer.
unfoldable pub pointer_unwrap : Option GoError → GoError
pointer_unwrap none = nil
pointer_unwrap (some e) = e

-- `Duration()` on a pointer to a `RequeueNeededAfter`.
unfoldable pub pointer_duration : Option ℤ → ℤ
pointer_duration none = pos 0
pointer_duration (some d) = d
