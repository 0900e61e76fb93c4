-- ===== src/DynamicController.antt =====
-- pkg/dynamiccontroller/dynamic_controller.go: one controller for kinds that come and go.
pub mod Requeue
pub mod Kinds
pub mod Served
pub mod Retries
pub mod Events
mod Examples
use kubernetes_resource_orch.Common.{
  ℕ, zero, suc, Bool, true, false, not, ◌&&◌, ◌||◌, List, [], ◌∷◌, ◌++◌, Option, none, some, ltb,
  if◌then◌else◌, Text, codes, Run, done, out_of_fuel, ℤ, pos, negsuc, ◌==◌,
}
use kubernetes_resource_orch.Metadata.GroupVersion.{
  GroupVersionResource, GroupVersionKind, gvk_to_gvr,
}
use kubernetes_resource_orch.DynamicController.Requeue.{
  GoError, nil, failure, no_requeue, requeue_needed, requeue_needed_after,
}
use kubernetes_resource_orch.DynamicController.Kinds.{Registry, load, store, delete}

-- The part of the configuration that is read here. The number may be negative.
pub record Config : Type 0 where
  pub workers : ℤ
  pub queue_max_retries : ℤ

pub record ObjectIdentifiers : Type 0 where
  pub namespaced_key : Text
  pub gvr : GroupVersionResource

-- What the queue holds: identifiers, or a value of another type.
pub data QueueItem : Type 0 where
  identifiers : ObjectIdentifiers → QueueItem
  other_item : ℕ → QueueItem

-- workqueue.RateLimitingInterface of client-go. `get` gives no item when the queue is shut down.
pub record Workqueue (Q : Type 0) : Type 0 where
  pub get : Q → Option QueueItem × Q
  pub mark_done : QueueItem → Q → Q
  pub forget : QueueItem → Q → Q
  pub add : QueueItem → Q → Q
  pub add_after : QueueItem → ℤ → Q → Q
  pub add_rate_limited : QueueItem → Q → Q
  pub num_requeues : QueueItem → Q → ℕ

-- `*informerWrapper`: the factory, by the kind that it was made for.
pub record InformerWrapper : Type 0 where
  pub factory : GroupVersionResource

pub record DynamicController (H Q : Type 0) : Type 0 where
  pub config : Config
  pub informers : Registry InformerWrapper
  pub handlers : Registry H
  pub queue : Q

-- `a < b` for an `int` that may be negative.
abbrev pub below : ℕ → ℤ → Bool
below a (pos b) = ltb a b
below a (negsuc b) = false

abbrev pub int_eq : ℤ → ℤ → Bool
int_eq (pos a) (pos b) = a == b
int_eq (negsuc a) (negsuc b) = a == b
int_eq _ _ = false

-- `fmt.Sprintf("%s/%s/%s", group, version, resource)`
abbrev pub gvr_key : GroupVersionResource → Text
gvr_key g = g.group ++ b'/' ∷ (g.version ++ b'/' ∷ g.resource)

-- An object that an informer hands on: an unstructured one with its generation and kind, or a value
-- of another type, such as the tombstone of an object whose deletion was missed.
pub data InformedObject : Type 0 where
  unstructured : ℤ → GroupVersionKind → InformedObject
  other_object : ℕ → InformedObject

-- What the informer of a kind answers to `AddEventHandler` and `WaitForCacheSync`.
pub record Watch : Type 0 where
  pub adds_event_handler : GroupVersionResource → Bool
  pub syncs : GroupVersionResource → Bool

pub data ServeError : Type 0 where
  event_handler_failed informer_not_synced : ServeError

-- The loop over the informers; the flag is `allSynced`. `cast` is the type assertion with
-- `HasSynced()` behind it.
unfoldable pub range_informers :
    (InformerWrapper → Option Bool) → Bool → Registry InformerWrapper → Bool
range_informers cast all_synced [] = all_synced
range_informers cast all_synced ((g, i) ∷ more) =
    let rest = range_informers cast all_synced more in
    elim (cast i) [ none ↦ false | some synced ↦ if not synced then false else rest ]

abbrev none_or : Registry InformerWrapper → Bool → Bool
none_or [] all_synced = true
none_or (i ∷ more) all_synced = all_synced

abbrev call_handler : {H : Type 0} → (H → Text → GoError) → ObjectIdentifiers → Option H → GoError
call_handler call oi none = failure (codes "no handler found for GVR: " ++ gvr_key oi.gvr)
call_handler call oi (some h) = call h oi.namespaced_key

module _ {Q : Type 0} where
  -- The end of `processNextWorkItem`. `is_not_found` is `apierrors.IsNotFound`.
  abbrev requeue_by_type : Workqueue Q → ℤ → QueueItem → GoError → Q → Q
  requeue_by_type w retries item nil q = w.forget item q
  requeue_by_type w retries item (no_requeue e) q = w.forget item q
  requeue_by_type w retries item (requeue_needed e) q = w.add item q
  requeue_by_type w retries item (requeue_needed_after e d) q = w.add_after item d q
  requeue_by_type w retries item (failure t) q =
      if below (w.num_requeues item q) retries then w.add_rate_limited item q else w.forget item q

  unfoldable pub settle : Workqueue Q → (GoError → Bool) → ℤ → QueueItem → GoError → Q → Q
  settle w is_not_found retries item e q =
      if is_not_found e then w.forget item q else requeue_by_type w retries item e q

  -- `key_of` is `DeletionHandlingMetaNamespaceKeyFunc`, with none for its error.
  abbrev add_identifiers : Workqueue Q → (Text → Text) → InformedObject → Option Text → Q → Q
  add_identifiers w pluralize (unstructured generation gvk) (some key) q =
      w.add (identifiers (record { namespaced_key = key; gvr = gvk_to_gvr pluralize gvk })) q
  add_identifiers w pluralize _ _ q = q

module _ {H Q : Type 0} where
  abbrev pub new_dynamic_controller : Config → Q → DynamicController H Q
  new_dynamic_controller config queue = record {
    config = config;
    informers = [];
    handlers = [];
    queue = queue;
  }

  unfoldable pub all_informer_have_synced :
      (InformerWrapper → Option Bool) → DynamicController H Q → Bool
  all_informer_have_synced cast dc = none_or dc.informers (range_informers cast false dc.informers)

  -- A handler is called with the key as the name of the request.
  unfoldable pub sync_func :
      (H → Text → GoError) → ObjectIdentifiers → DynamicController H Q → GoError
  sync_func call oi dc = call_handler call oi (load oi.gvr dc.handlers)

  unfoldable pub process_item :
      Workqueue Q
      → (GoError → Bool)
      → (H → Text → GoError)
      → DynamicController H Q
      → QueueItem
      → Q
      → Q
  process_item w is_not_found call dc (other_item n) q = w.forget (other_item n) q
  process_item w is_not_found call dc (identifiers oi) q =
      settle w is_not_found dc.config.queue_max_retries (identifiers oi) (sync_func call oi dc) q

  abbrev pub taken :
      Workqueue Q
      → (GoError → Bool)
      → (H → Text → GoError)
      → DynamicController H Q
      → Option QueueItem × Q
      → Bool × DynamicController H Q
  taken w is_not_found call dc (none, q) = (false, record dc { queue = q })
  taken w is_not_found call dc (some item, q) =
      (true, record dc { queue = w.mark_done item (process_item w is_not_found call dc item q) })

  unfoldable pub process_next_work_item :
      Workqueue Q
      → (GoError → Bool)
      → (H → Text → GoError)
      → DynamicController H Q
      → Bool × DynamicController H Q
  process_next_work_item w is_not_found call dc = taken w is_not_found call dc (w.get dc.queue)

  unfoldable pub enqueue_object :
      Workqueue Q
      → (Text → Text)
      → (InformedObject → Option Text)
      → InformedObject
      → DynamicController H Q
      → DynamicController H Q
  enqueue_object w pluralize key_of obj dc = record dc {
    queue = add_identifiers w pluralize obj (key_of obj) dc.queue;
  }

  unfoldable pub update_func :
      Workqueue Q
      → (Text → Text)
      → (InformedObject → Option Text)
      → InformedObject
      → InformedObject
      → DynamicController H Q
      → DynamicController H Q
  update_func w pluralize key_of (unstructured m old_kind) (unstructured n new_kind) dc =
      if int_eq n m then dc else enqueue_object w pluralize key_of (unstructured n new_kind) dc
  update_func w pluralize key_of _ _ dc = dc

  -- The handler is stored before the informer is known to be synced.
  abbrev start_informer :
      Watch
      → GroupVersionResource
      → H
      → DynamicController H Q
      → Option ServeError × DynamicController H Q
  start_informer watch gvr handler dc =
      if not (watch.adds_event_handler gvr)
      then (some event_handler_failed, dc)
      else if not (watch.syncs gvr)
      then (some informer_not_synced, record dc { handlers = store gvr handler dc.handlers })
      else (
        none,
        record dc {
          handlers = store gvr handler dc.handlers;
          informers = store gvr (record { factory = gvr }) dc.informers;
        },
      )

  abbrev serve_new :
      Watch
      → GroupVersionResource
      → H
      → DynamicController H Q
      → Option InformerWrapper
      → Option ServeError × DynamicController H Q
  serve_new watch gvr handler dc (some informer) =
      (none, record dc { handlers = store gvr handler dc.handlers })
  serve_new watch gvr handler dc none = start_informer watch gvr handler dc

  unfoldable pub start_serving_gvk :
      Watch
      → GroupVersionResource
      → H
      → DynamicController H Q
      → Option ServeError × DynamicController H Q
  start_serving_gvk watch gvr handler dc = serve_new watch gvr handler dc (load gvr dc.informers)

  -- Every informer that is stored is an `*informerWrapper`, so the code returns no error.
  abbrev stop_served :
      GroupVersionResource → DynamicController H Q → Option InformerWrapper → DynamicController H Q
  stop_served gvr dc none = dc
  stop_served gvr dc (some informer) = record dc {
    informers = delete gvr dc.informers;
    handlers = delete gvr dc.handlers;
  }

  unfoldable pub stop_service_gvk :
      GroupVersionResource → DynamicController H Q → DynamicController H Q
  stop_service_gvk gvr dc = stop_served gvr dc (load gvr dc.informers)
