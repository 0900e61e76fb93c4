-- ===== src/DynamicController/Retries.antt =====
-- pkg/dynamiccontroller: how often an item is added again with a rate limit.
use kubernetes_resource_orch.Common.{
  ℕ, suc, ◌≤◌, ◌≡◌, ◌↔◌, Bool, true, false, ◌&&◌, inl, inr, List, [], ◌∷◌, Option, none, some, ◌==◌,
  if◌then◌else◌, Bool-cases, arith, Text, text_eq, text_eq_iff, ℤ, pos, negsuc,
}
use kubernetes_resource_orch.DynamicController.{
  QueueItem, identifiers, other_item, Workqueue, DynamicController, InformedObject, unstructured,
  other_object, below, settle, process_item, process_next_work_item, update_func, enqueue_object,
  start_serving_gvk, stop_service_gvk, taken, sync_func, int_eq, Watch, requeue_by_type,
  add_identifiers,
}
use kubernetes_resource_orch.DynamicController.Requeue.{
  GoError, nil, failure, no_requeue, requeue_needed, requeue_needed_after,
}
use kubernetes_resource_orch.DynamicController.Kinds.{gvr_eq, gvr_eq_iff}
use kubernetes_resource_orch.DynamicController.Served.{
  Operation, serve, stop, process, update, enqueue, perform, perform_all,
}
use kubernetes_resource_orch.Metadata.GroupVersion.{GroupVersionResource}

unfoldable pub item_eq : QueueItem → QueueItem → Bool
item_eq (identifiers a) (identifiers b) =
    text_eq a.namespaced_key b.namespaced_key && gvr_eq a.gvr b.gvr
item_eq (other_item a) (other_item b) = a == b
item_eq _ _ = false

pub item_eq_iff : (i j : QueueItem) → (item_eq i j ≡ true) ↔ (i ≡ j)
unfolding item_eq
item_eq_iff (identifiers a) (identifiers b) =
    ground (arith, text_eq_iff a.namespaced_key b.namespaced_key, gvr_eq_iff a.gvr b.gvr)
item_eq_iff (identifiers a) (other_item b) = ground arith
item_eq_iff (other_item a) (identifiers b) = ground arith
item_eq_iff (other_item a) (other_item b) = ground arith

-- What client-go documents of `NumRequeues`: it counts the calls of `AddRateLimited` for the item
-- since it was forgotten, and no other call changes it.
pub record CountsRequeues {Q : Type 0} (w : Workqueue Q) : Type 0 where
  pub get_keeps : (i : QueueItem) (q : Q) → w.num_requeues i (w.get q).1 ≡ w.num_requeues i q
  pub mark_done_keeps :
      (i j : QueueItem) (q : Q) → w.num_requeues i (w.mark_done j q) ≡ w.num_requeues i q
  pub add_keeps : (i j : QueueItem) (q : Q) → w.num_requeues i (w.add j q) ≡ w.num_requeues i q
  pub add_after_keeps :
      (i j : QueueItem) (d : ℤ) (q : Q) → w.num_requeues i (w.add_after j d q) ≡ w.num_requeues i q
  pub forget_resets :
      (i j : QueueItem) (q : Q)
      → w.num_requeues i (w.forget j q) ≡ (if item_eq i j then 0 else w.num_requeues i q)
  pub add_rate_limited_counts :
      (i j : QueueItem) (q : Q)
      → w.num_requeues i (w.add_rate_limited j q)
        ≡ (if item_eq i j then suc (w.num_requeues i q) else w.num_requeues i q)

abbrev pub limit : ℤ → ℕ
limit (pos n) = n
limit (negsuc n) = 0

module _ {Q : Type 0} (w : Workqueue Q) where
  -- No item has been added with a rate limit, since it was last forgotten, more often than the
  -- configuration says.
  abbrev pub IsWithinRetries : ℤ → Q → Type 0
  IsWithinRetries retries q = (i : QueueItem) → w.num_requeues i q ≤ limit retries

module _ {Q : Type 0} (w : Workqueue Q) (counts : CountsRequeues w) where
  kept-IsWithinRetries :
      (retries : ℤ) (q r : Q)
      → ((i : QueueItem) → w.num_requeues i r ≡ w.num_requeues i q)
      → IsWithinRetries w retries q
      → IsWithinRetries w retries r
  kept-IsWithinRetries retries q r same h i = omega (arith, same i, h i)

  forget-IsWithinRetries :
      (retries : ℤ) (item : QueueItem) (q : Q)
      → IsWithinRetries w retries q
      → IsWithinRetries w retries (w.forget item q)
  forget-IsWithinRetries retries item q h i = ground (arith, counts.forget_resets i item q, h i)

  rate_limited-IsWithinRetries :
      (retries : ℤ) (item : QueueItem) (q : Q)
      → below (w.num_requeues item q) retries ≡ true
      → IsWithinRetries w retries q
      → IsWithinRetries w retries (w.add_rate_limited item q)
  rate_limited-IsWithinRetries (pos n) item q b h i =
      ground (arith, counts.add_rate_limited_counts i item q, h i, item_eq_iff i item, b)
  rate_limited-IsWithinRetries (negsuc n) item q b h i = cc

  requeue-IsWithinRetries :
      (retries : ℤ) (item : QueueItem) (e : GoError) (q : Q)
      → IsWithinRetries w retries q
      → IsWithinRetries w retries (requeue_by_type w retries item e q)
  requeue-IsWithinRetries retries item nil q h = forget-IsWithinRetries retries item q h
  requeue-IsWithinRetries retries item (no_requeue e) q h = forget-IsWithinRetries retries item q h
  requeue-IsWithinRetries retries item (requeue_needed e) q h =
      kept-IsWithinRetries retries q (w.add item q) (λ i. counts.add_keeps i item q) h
  requeue-IsWithinRetries retries item (requeue_needed_after e d) q h =
      kept-IsWithinRetries retries q (w.add_after item d q) (λ i. counts.add_after_keeps i item d q)
        h
  requeue-IsWithinRetries retries item (failure t) q h =
      elim (Bool-cases (below (w.num_requeues item q) retries)) [
        | inl is ↦ rw is (rate_limited-IsWithinRetries retries item q is h)
        | inr other ↦ rw other (forget-IsWithinRetries retries item q h)
      ]

module _ {H Q : Type 0} (w : Workqueue Q) (counts : CountsRequeues w) where
  process-IsWithinRetries :
      (is_not_found : GoError → Bool) (call : H → Text → GoError) (dc : DynamicController H Q)
      (item : QueueItem) (q : Q)
      → IsWithinRetries w dc.config.queue_max_retries q
      → IsWithinRetries w dc.config.queue_max_retries (process_item w is_not_found call dc item q)
  unfolding process_item settle
  process-IsWithinRetries is_not_found call dc (other_item n) q h =
      forget-IsWithinRetries w counts dc.config.queue_max_retries (other_item n) q h
  process-IsWithinRetries is_not_found call dc (identifiers oi) q h =
      elim (Bool-cases (is_not_found (sync_func call oi dc))) [
        | inl is ↦
            rw is (forget-IsWithinRetries w counts dc.config.queue_max_retries (identifiers oi) q h)
        | inr other ↦ rw other (
            requeue-IsWithinRetries w counts dc.config.queue_max_retries (identifiers oi)
              (sync_func call oi dc) q h)
      ]

  abbrev pub IsBounded : DynamicController H Q → Type 0
  IsBounded dc = IsWithinRetries w dc.config.queue_max_retries dc.queue

  next-IsBounded :
      (is_not_found : GoError → Bool) (call : H → Text → GoError) (dc : DynamicController H Q)
      → IsBounded dc
      → IsBounded (process_next_work_item w is_not_found call dc).1
  unfolding process_next_work_item
  next-IsBounded is_not_found call dc h = by_item (w.get dc.queue) (
      kept-IsWithinRetries w counts dc.config.queue_max_retries dc.queue (w.get dc.queue).1
        (λ i. counts.get_keeps i dc.queue) h)
    where
      by_item :
          (p : Option QueueItem × Q)
          → IsWithinRetries w dc.config.queue_max_retries p.1
          → IsBounded (taken w is_not_found call dc p).1
      by_item (none, q) k = k
      by_item (some item, q) k =
          kept-IsWithinRetries w counts dc.config.queue_max_retries
            (process_item w is_not_found call dc item q)
            (w.mark_done item (process_item w is_not_found call dc item q))
            (λ i. counts.mark_done_keeps i item (process_item w is_not_found call dc item q))
            (process-IsWithinRetries is_not_found call dc item q k)

  enqueue-IsBounded :
      (pluralize : Text → Text) (key_of : InformedObject → Option Text) (obj : InformedObject)
      (dc : DynamicController H Q)
      → IsBounded dc
      → IsBounded (enqueue_object w pluralize key_of obj dc)
  unfolding enqueue_object
  enqueue-IsBounded pluralize key_of obj dc h = by_key obj (key_of obj)
    where
      by_key :
          (obj : InformedObject) (key : Option Text)
          → IsWithinRetries w dc.config.queue_max_retries
              (add_identifiers w pluralize obj key dc.queue)
      by_key (unstructured n gvk) (some key) =
          kept-IsWithinRetries w counts dc.config.queue_max_retries dc.queue _
            (λ i. counts.add_keeps i _ dc.queue) h
      by_key (unstructured n gvk) none = h
      by_key (other_object n) key = h

  update-IsBounded :
      (pluralize : Text → Text) (key_of : InformedObject → Option Text) (old new : InformedObject)
      (dc : DynamicController H Q)
      → IsBounded dc
      → IsBounded (update_func w pluralize key_of old new dc)
  unfolding update_func
  update-IsBounded pluralize key_of (unstructured m a) (unstructured n b) dc h =
      elim (Bool-cases (int_eq n m)) [
        | inl same ↦ rw same h
        | inr other ↦ rw other (enqueue-IsBounded pluralize key_of (unstructured n b) dc h)
      ]
  update-IsBounded pluralize key_of (other_object k) new dc h = h
  update-IsBounded pluralize key_of (unstructured m a) (other_object k) dc h = h

  serve-queue :
      (watch : Watch) (gvr : GroupVersionResource) (handler : H) (dc : DynamicController H Q)
      → ((start_serving_gvk watch gvr handler dc).1.queue ≡ dc.queue)
        × ((start_serving_gvk watch gvr handler dc).1.config ≡ dc.config)
  unfolding start_serving_gvk
  serve-queue watch gvr handler dc = ground arith

  stop-queue :
      (gvr : GroupVersionResource) (dc : DynamicController H Q)
      → ((stop_service_gvk gvr dc).queue ≡ dc.queue)
        × ((stop_service_gvk gvr dc).config ≡ dc.config)
  unfolding stop_service_gvk
  stop-queue gvr dc = ground arith

  perform-IsBounded :
      (op : Operation H) (dc : DynamicController H Q) → IsBounded dc → IsBounded (perform w op dc)
  unfolding perform
  perform-IsBounded (serve watch gvr handler) dc h =
      rw ((serve-queue watch gvr handler dc).0, (serve-queue watch gvr handler dc).1) h
  perform-IsBounded (stop gvr) dc h = rw ((stop-queue gvr dc).0, (stop-queue gvr dc).1) h
  perform-IsBounded (process is_not_found call) dc h = next-IsBounded is_not_found call dc h
  perform-IsBounded (update pluralize key_of old new) dc h =
      update-IsBounded pluralize key_of old new dc h
  perform-IsBounded (enqueue pluralize key_of obj) dc h =
      enqueue-IsBounded pluralize key_of obj dc h

  -- Whatever happens, in any order, the number of rate-limited additions of an item that the queue has
  -- counted since it last forgot the item is at most `QueueMaxRetries`, if it was so at first. The queue
  -- counts as client-go documents. An item whose handler asks for a requeue is added again without
  -- being counted, so this is no bound on how often it is tried.
  pub perform_all-IsBounded :
      (ops : List (Operation H)) (dc : DynamicController H Q)
      → IsBounded dc
      → IsBounded (perform_all w ops dc)
  unfolding perform_all
  perform_all-IsBounded [] dc h = h
  perform_all-IsBounded (op ∷ ops) dc h =
      perform_all-IsBounded ops (perform w op dc) (perform-IsBounded op dc h)
