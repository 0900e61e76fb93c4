-- ===== src/DynamicController/Examples.antt =====
-- A controller for one kind, with a queue made of lists, and the theorems at it.
use kubernetes_resource_orch.Common.{
  ℕ, suc, ◌≡◌, refl, true, false, List, [], ◌∷◌, ◌++◌, Option, none, some, if◌then◌else◌, arith,
  Text, codes, pos,
}
use kubernetes_resource_orch.Metadata.GroupVersion.{GroupVersionResource}
use kubernetes_resource_orch.DynamicController.{
  QueueItem, Workqueue, DynamicController, InformedObject, unstructured, Watch,
  new_dynamic_controller,
}
use kubernetes_resource_orch.DynamicController.Requeue.{GoError, failure}
use kubernetes_resource_orch.DynamicController.Kinds.{load}
use kubernetes_resource_orch.DynamicController.Served.{
  Operation, serve, process, enqueue, served, promise_all, perform_all, IsRegistered,
  perform_all-IsRegistered, perform_all-promise,
}
use kubernetes_resource_orch.DynamicController.Retries.{
  item_eq, item_eq_iff, CountsRequeues, IsBounded, perform_all-IsBounded,
}

-- The items that wait, and an entry for each time that an item was added with rate limits.
record Lists : Type 0 where
  waiting : List QueueItem
  tries : List QueueItem

occurrences : QueueItem → List QueueItem → ℕ
occurrences i [] = 0
occurrences i (j ∷ js) = let n = occurrences i js in if item_eq i j then suc n else n

without : QueueItem → List QueueItem → List QueueItem
without i [] = []
without i (j ∷ js) = let rest = without i js in if item_eq j i then rest else j ∷ rest

occurrences-without :
    (i j : QueueItem) (l : List QueueItem)
    → occurrences i (without j l) ≡ (if item_eq i j then 0 else occurrences i l)
unfolding occurrences without
occurrences-without i j [] = ground arith
occurrences-without i j (k ∷ l) =
    ground (arith, occurrences-without i j l, item_eq_iff i j, item_eq_iff k j, item_eq_iff i k)

first : List QueueItem → Option QueueItem
first [] = none
first (i ∷ l) = some i

rest : List QueueItem → List QueueItem
rest [] = []
rest (i ∷ l) = l

abbrev lists : Workqueue Lists
lists = record {
  get = λ q. (first q.waiting, record q { waiting = rest q.waiting });
  mark_done = λ i q. q;
  forget = λ i q. record q { tries = without i q.tries };
  add = λ i q. record q { waiting = q.waiting ++ i ∷ [] };
  add_after = λ i d q. record q { waiting = q.waiting ++ i ∷ [] };
  add_rate_limited = λ i q. record { waiting = q.waiting ++ i ∷ []; tries = i ∷ q.tries };
  num_requeues = λ i q. occurrences i q.tries;
}

lists-CountsRequeues : CountsRequeues lists
unfolding occurrences
lists-CountsRequeues = record {
  get_keeps = λ i q. refl;
  mark_done_keeps = λ i j q. refl;
  add_keeps = λ i j q. refl;
  add_after_keeps = λ i j d q. refl;
  forget_resets = λ i j q. occurrences-without i j q.tries;
  add_rate_limited_counts = λ i j q. refl;
}

abbrev web_apps : GroupVersionResource
web_apps = record { group = codes "kro.run"; version = codes "v1"; resource = codes "webapps" }

abbrev started : DynamicController Text Lists
started =
    new_dynamic_controller (record { workers = pos 1; queue_max_retries = pos 3 })
      (record { waiting = []; tries = [] })

abbrev healthy : Watch
healthy = record { adds_event_handler = λ g. true; syncs = λ g. true }

abbrev fails : Text → Text → GoError
fails h key = failure (codes "no")

abbrev key_of : InformedObject → Option Text
key_of obj = some (codes "default/blog")

abbrev plural : Text → Text
plural t = t ++ codes "s"

abbrev web_app : InformedObject
web_app =
    unstructured (pos 1)
      (record { group = codes "kro.run"; version = codes "v1"; kind = codes "WebApp" })

abbrev history : List (Operation Text)
history =
    serve healthy web_apps (codes "handler")
    ∷ enqueue plural key_of web_app
    ∷ process (λ e. false) fails
    ∷ process (λ e. false) fails
    ∷ []

nothing-IsRegistered : IsRegistered started
unfolding load
nothing-IsRegistered g h = cc

perform_all-IsRegistered_example : IsRegistered (perform_all lists history started)
perform_all-IsRegistered_example =
    perform_all-IsRegistered lists history started nothing-IsRegistered

perform_all-promise_example :
    served (perform_all lists history started) ≡ promise_all history (served started)
perform_all-promise_example = perform_all-promise lists history started nothing-IsRegistered

perform_all-IsBounded_example :
    IsBounded lists lists-CountsRequeues (perform_all lists history started)
unfolding occurrences
perform_all-IsBounded_example =
    perform_all-IsBounded lists lists-CountsRequeues history started (λ i. omega arith)
