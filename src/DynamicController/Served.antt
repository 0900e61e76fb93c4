-- ===== src/DynamicController/Served.antt =====
-- pkg/dynamiccontroller: which kinds are served, as a map from kinds to handlers.
use kubernetes_resource_orch.Common.{
  ◌≡◌, refl, ap, ◌∙◌, Bool, true, false, ◌&&◌, ◌||◌, inl, inr, List, [], ◌∷◌, Option, none, some,
  if◌then◌else◌, Bool-cases, arith, Text,
}
use mathlib.Core.Path.{fun_ext}
use kubernetes_resource_orch.Metadata.GroupVersion.{GroupVersionResource}
use kubernetes_resource_orch.DynamicController.{
  ObjectIdentifiers, QueueItem, Workqueue, InformerWrapper, DynamicController, InformedObject,
  unstructured, other_object, Watch, process_next_work_item, update_func, enqueue_object, int_eq,
  start_serving_gvk, stop_service_gvk, taken, sync_func,
}
use kubernetes_resource_orch.DynamicController.Requeue.{GoError}
use kubernetes_resource_orch.DynamicController.Kinds.{
  load, gvr_eq, gvr_eq_iff, load-store, load-delete,
}

abbrev pub Served : Type 0 → Type 0
Served H = GroupVersionResource → Option H

abbrev handler_if : {H : Type 0} → Option H → Option InformerWrapper → Option H
handler_if h none = none
handler_if h (some informer) = h

abbrev pub present : {A : Type 0} → Option A → Bool
present none = false
present (some a) = true

module _ {H Q : Type 0} where
  -- The handler of a kind that has an informer.
  unfoldable pub served : DynamicController H Q → Served H
  served dc g = handler_if (load g dc.handlers) (load g dc.informers)

  -- Each kind with an informer has a handler.
  abbrev pub IsRegistered : DynamicController H Q → Type 0
  IsRegistered dc =
      (g : GroupVersionResource)
      → present (load g dc.informers) ≡ true
      → present (load g dc.handlers) ≡ true

-- What can happen to the controller. Each has the answers of the outside to it.
pub data Operation (H : Type 0) : Type 0 where
  serve : Watch → GroupVersionResource → H → Operation H
  stop : GroupVersionResource → Operation H
  process : (GoError → Bool) → (H → Text → GoError) → Operation H
  update :
      (Text → Text) → (InformedObject → Option Text) → InformedObject → InformedObject → Operation H
  enqueue : (Text → Text) → (InformedObject → Option Text) → InformedObject → Operation H

abbrev pub put : {H : Type 0} → GroupVersionResource → Option H → Served H → Served H
put gvr h s = λ g. if gvr_eq g gvr then h else s g

module _ {H : Type 0} where
  -- What is promised: a kind that is served gets the new handler, another one is served if its
  -- informer can be started, a kind that is stopped is served no more, and nothing else counts.
  unfoldable pub promise : Operation H → Served H → Served H
  promise (serve watch gvr h) s =
      if present (s gvr) || (watch.adds_event_handler gvr && watch.syncs gvr)
      then put gvr (some h) s
      else s
  promise (stop gvr) s = put gvr none s
  promise _ s = s

  unfoldable pub promise_all : List (Operation H) → Served H → Served H
  promise_all [] s = s
  promise_all (op ∷ ops) s = promise_all ops (promise op s)

module _ {H Q : Type 0} where
  unfoldable pub perform : Workqueue Q → Operation H → DynamicController H Q → DynamicController H Q
  perform w (serve watch gvr h) dc = (start_serving_gvk watch gvr h dc).1
  perform w (stop gvr) dc = stop_service_gvk gvr dc
  perform w (process is_not_found call) dc = (process_next_work_item w is_not_found call dc).1
  perform w (update pluralize key_of old new) dc = update_func w pluralize key_of old new dc
  perform w (enqueue pluralize key_of obj) dc = enqueue_object w pluralize key_of obj dc

  unfoldable pub perform_all :
      Workqueue Q → List (Operation H) → DynamicController H Q → DynamicController H Q
  perform_all w [] dc = dc
  perform_all w (op ∷ ops) dc = perform_all w ops (perform w op dc)

  serve-IsRegistered :
      (watch : Watch) (gvr : GroupVersionResource) (h : H) (dc : DynamicController H Q)
      → IsRegistered dc
      → IsRegistered (start_serving_gvk watch gvr h dc).1
  unfolding start_serving_gvk
  serve-IsRegistered watch gvr h dc r g e = ground (
    arith,
    r g,
    load-store gvr g h dc.handlers,
    load-store gvr g (record { factory = gvr }) dc.informers,
  )

  stop-IsRegistered :
      (gvr : GroupVersionResource) (dc : DynamicController H Q)
      → IsRegistered dc
      → IsRegistered (stop_service_gvk gvr dc)
  unfolding stop_service_gvk
  stop-IsRegistered gvr dc r g e =
      ground (arith, r g, load-delete gvr g dc.handlers, load-delete gvr g dc.informers)

  serve-promise :
      (watch : Watch) (gvr : GroupVersionResource) (h : H) (dc : DynamicController H Q)
      → IsRegistered dc
      → (g : GroupVersionResource)
      → served (start_serving_gvk watch gvr h dc).1 g ≡ promise (serve watch gvr h) (served dc) g
  unfolding start_serving_gvk promise served
  serve-promise watch gvr h dc r g = ground (
    arith,
    r g,
    r gvr,
    gvr_eq_iff g gvr,
    load-store gvr g h dc.handlers,
    load-store gvr g (record { factory = gvr }) dc.informers,
  )

  stop-promise :
      (gvr : GroupVersionResource) (dc : DynamicController H Q) (g : GroupVersionResource)
      → served (stop_service_gvk gvr dc) g ≡ promise (stop gvr) (served dc) g
  unfolding stop_service_gvk promise served
  stop-promise gvr dc g =
      ground
        (arith, gvr_eq_iff g gvr, load-delete gvr g dc.handlers, load-delete gvr g dc.informers)

  process-handlers :
      (w : Workqueue Q) (is_not_found : GoError → Bool) (call : H → Text → GoError)
      (dc : DynamicController H Q)
      → ((process_next_work_item w is_not_found call dc).1.handlers ≡ dc.handlers)
        × ((process_next_work_item w is_not_found call dc).1.informers ≡ dc.informers)
  unfolding process_next_work_item
  process-handlers w is_not_found call dc = by_item (w.get dc.queue)
    where
      by_item :
          (p : Option QueueItem × Q)
          → ((taken w is_not_found call dc p).1.handlers ≡ dc.handlers)
            × ((taken w is_not_found call dc p).1.informers ≡ dc.informers)
      by_item (none, q) = (refl, refl)
      by_item (some item, q) = (refl, refl)

  update-handlers :
      (w : Workqueue Q) (pluralize : Text → Text) (key_of : InformedObject → Option Text)
      (old new : InformedObject) (dc : DynamicController H Q)
      → ((update_func w pluralize key_of old new dc).handlers ≡ dc.handlers)
        × ((update_func w pluralize key_of old new dc).informers ≡ dc.informers)
  unfolding update_func enqueue_object
  update-handlers w pluralize key_of (unstructured m a) (unstructured n b) dc =
      elim (Bool-cases (int_eq n m)) [
        | inl same ↦ rw same (refl, refl)
        | inr other ↦ rw other (refl, refl)
      ]
  update-handlers w pluralize key_of (other_object k) new dc = (refl, refl)
  update-handlers w pluralize key_of (unstructured m a) (other_object k) dc = (refl, refl)

  -- Where the two maps stay, all stays.
  kept-IsRegistered :
      (dc after : DynamicController H Q)
      → (after.handlers ≡ dc.handlers) × (after.informers ≡ dc.informers)
      → IsRegistered dc
      → IsRegistered after
  kept-IsRegistered dc after same r g = rw (same.0, same.1) (r g)

  kept-served :
      (dc after : DynamicController H Q)
      → (after.handlers ≡ dc.handlers) × (after.informers ≡ dc.informers)
      → (g : GroupVersionResource) → served after g ≡ served dc g
  unfolding served
  kept-served dc after same g = rw (same.0, same.1) refl

  perform-IsRegistered :
      (w : Workqueue Q) (op : Operation H) (dc : DynamicController H Q)
      → IsRegistered dc
      → IsRegistered (perform w op dc)
  unfolding perform
  perform-IsRegistered w (serve watch gvr h) dc r = serve-IsRegistered watch gvr h dc r
  perform-IsRegistered w (stop gvr) dc r = stop-IsRegistered gvr dc r
  perform-IsRegistered w (process is_not_found call) dc r =
      kept-IsRegistered dc (process_next_work_item w is_not_found call dc).1
        (process-handlers w is_not_found call dc) r
  perform-IsRegistered w (update pluralize key_of old new) dc r =
      kept-IsRegistered dc (update_func w pluralize key_of old new dc)
        (update-handlers w pluralize key_of old new dc) r
  perform-IsRegistered w (enqueue pluralize key_of obj) dc r =
      kept-IsRegistered dc (enqueue_object w pluralize key_of obj dc)
        (unfold enqueue_object in (refl, refl)) r

  perform-promise :
      (w : Workqueue Q) (op : Operation H) (dc : DynamicController H Q)
      → IsRegistered dc
      → (g : GroupVersionResource) → served (perform w op dc) g ≡ promise op (served dc) g
  unfolding perform promise
  perform-promise w (serve watch gvr h) dc r g = serve-promise watch gvr h dc r g
  perform-promise w (stop gvr) dc r g = stop-promise gvr dc g
  perform-promise w (process is_not_found call) dc r g =
      kept-served dc (process_next_work_item w is_not_found call dc).1
        (process-handlers w is_not_found call dc) g
  perform-promise w (update pluralize key_of old new) dc r g =
      kept-served dc (update_func w pluralize key_of old new dc)
        (update-handlers w pluralize key_of old new dc) g
  perform-promise w (enqueue pluralize key_of obj) dc r g =
      kept-served dc (enqueue_object w pluralize key_of obj dc)
        (unfold enqueue_object in (refl, refl)) g

  -- In every state that operations lead to from one in which each kind with an informer has a
  -- handler, each kind with an informer has a handler.
  pub perform_all-IsRegistered :
      (w : Workqueue Q) (ops : List (Operation H)) (dc : DynamicController H Q)
      → IsRegistered dc
      → IsRegistered (perform_all w ops dc)
  unfolding perform_all
  perform_all-IsRegistered w [] dc r = r
  perform_all-IsRegistered w (op ∷ ops) dc r =
      perform_all-IsRegistered w ops (perform w op dc) (perform-IsRegistered w op dc r)

  -- The controller does what is promised: after operations in any order, with any answers of the
  -- outside, from a state in which each kind with an informer has a handler, the kinds that are
  -- served and their handlers are those that the promises lead to.
  pub perform_all-promise :
      (w : Workqueue Q) (ops : List (Operation H)) (dc : DynamicController H Q)
      → IsRegistered dc
      → served (perform_all w ops dc) ≡ promise_all ops (served dc)
  unfolding perform_all promise_all
  perform_all-promise w [] dc r = refl
  perform_all-promise w (op ∷ ops) dc r =
      perform_all-promise w ops (perform w op dc) (perform-IsRegistered w op dc r)
      ∙ ap (promise_all ops) (fun_ext (perform-promise w op dc r))

  -- An item whose kind is served is handed to the handler of that kind.
  sync_func-served :
      (call : H → Text → GoError) (oi : ObjectIdentifiers) (dc : DynamicController H Q) (h : H)
      → served dc oi.gvr ≡ some h
      → sync_func call oi dc ≡ call h oi.namespaced_key
  unfolding sync_func served
  sync_func-served call oi dc h e = ground (arith, e)
