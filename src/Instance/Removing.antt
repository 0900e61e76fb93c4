-- ===== src/Instance/Removing.antt =====
-- internal/controller/instance: a deletion takes the resources in reverse order, and lets the
-- instance go only after them.
use kubernetes_resource_orch.Common.{
  ◌≤◌, ◌≡◌, inl, inr, refl, ap, ◌∙◌, Bool, true, false, ◌||◌, Bool-cases, List, [], ◌∷◌, Option,
  none, some, All, arith, Text, text_eq, text_eq_iff, lookup, ◌>>=◌, IfDone, >>=-IfDone,
  IfDone-always, IfDone-mono, Result, ok, err,
}
use kubernetes_resource_orch.Values.{Value}
use kubernetes_resource_orch.Runtime.{
  Resource, Cel, RuntimeError, ResourceGroupRuntime, resolved, waiting_on_dependencies,
  waiting_on_readiness, ignored_by_conditions, the_resource, get_resource, set_resource,
  ignore_resource, put_instance,
}
use kubernetes_resource_orch.Instance.{
  get_call, ApiError, Cluster, StateName, skipped, deleted, pending_deletion, ReconcileError,
  ResourceState, InstanceGraphReconciler, unless_err, with_runtime, with_call, set_state, object_of,
  get_resource_client, synchronize_runtime,
}
use kubernetes_resource_orch.Instance.Deleting.{
  is_gone, is_pending_deletion, mark_observed, mark_found, initialize_each,
}
use kubernetes_resource_orch.Instance.Progressing.{
  writes, writes-append, state_of, set_state_here, set_state_apart,
}
use kubernetes_resource_orch.Instance.Sequence.{Synced, synchronize_runtime-Synced}

-- The state after the resource was looked for: there is nothing to delete, or it is still to be deleted.
abbrev pub is_marked : Option ResourceState → Bool
is_marked none = false
is_marked (some s) = is_gone s.state || is_pending_deletion (some s)

-- Nothing is written, and without an error each of the resources is marked.
pub record Marked (ids : List Text) (igr : InstanceGraphReconciler)
    (out : Option ReconcileError × InstanceGraphReconciler) : Type 0 where
  pub no_writes : writes out.1.calls ≤ writes igr.calls
  pub keeps_state : out.1.state.state ≡ igr.state.state
  pub keeps_order : out.1.runtime.topological_order ≡ igr.runtime.topological_order
  pub stays : (x : Text) → is_marked (state_of x igr) ≡ true → is_marked (state_of x out.1) ≡ true
  pub marks : out.0 ≡ none → All (λ x. is_marked (state_of x out.1) ≡ true) ids

set_state-Marked :
    (id : Text) (s : StateName) (igr mid : InstanceGraphReconciler)
    → is_marked (some (record { state = s; error = none })) ≡ true
    → writes mid.calls ≤ writes igr.calls
    → mid.state ≡ igr.state
    → mid.runtime.topological_order ≡ igr.runtime.topological_order
    → Marked (id ∷ []) igr (none, set_state id s none mid)
set_state-Marked id s igr mid is reads same order = record {
  no_writes = reads;
  keeps_state = ap (λ x. x.state) same;
  keeps_order = order;
  stays = λ x h. elim (Bool-cases (text_eq x id)) [
    | inl here ↦ rw ((text_eq_iff x id).0 here) (rw (set_state_here id s none mid) is)
    | inr apart ↦
        rw (set_state_apart id x s none mid apart)
          (ap (λ y. is_marked (lookup x y.resource_states)) same ∙ h)
  ];
  marks = λ _. (rw (set_state_here id s none mid) is, tt);
}

failed-Marked :
    (ids : List Text) (igr mid : InstanceGraphReconciler) (e : ReconcileError)
    → writes mid.calls ≤ writes igr.calls
    → mid.state ≡ igr.state
    → mid.runtime.topological_order ≡ igr.runtime.topological_order
    → Marked ids igr (some e, mid)
failed-Marked ids igr mid e reads same order = record {
  no_writes = reads;
  keeps_state = ap (λ x. x.state) same;
  keeps_order = order;
  stays = λ x h. ap (λ y. is_marked (lookup x y.resource_states)) same ∙ h;
  marks = λ h. ground (arith, h);
}

module _ (cluster : Cluster) where
  mark_observed-Marked :
      (id : Text) (found : Result ApiError Value) (igr mid : InstanceGraphReconciler)
      → writes mid.calls ≤ writes igr.calls
      → mid.state ≡ igr.state
      → mid.runtime.topological_order ≡ igr.runtime.topological_order
      → IfDone (Marked (id ∷ []) igr) (mark_observed cluster id found mid)
  mark_observed-Marked id (err e) igr mid reads same order = elim (Bool-cases e.is_not_found) [
    | inl missing ↦ rw missing (set_state-Marked id deleted igr mid refl reads same order)
    | inr other ↦ rw other (failed-Marked (id ∷ []) igr mid _ reads same order)
  ]
  mark_observed-Marked id (ok v) igr mid reads same order =
      set_state-Marked id pending_deletion igr (with_runtime (set_resource id v mid.runtime) mid)
        refl reads same order

  mark_found-Marked :
      (id : Text) (found : Option Value × kubernetes_resource_orch.Runtime.ResourceState)
      (igr mid : InstanceGraphReconciler)
      → Synced igr (none, mid)
      → IfDone (Marked (id ∷ []) igr) (mark_found cluster id found mid)
  unfolding writes
  mark_found-Marked id (v, resolved) igr mid (same, calls, order) =
      >>=-IfDone (λ _. Unit {0}) (Marked (id ∷ []) igr) (get_resource_client cluster id mid) _
        (IfDone-always _ (get_resource_client cluster id mid) (λ _. tt))
        (λ rc _.
          >>=-IfDone (λ _. Unit {0}) (Marked (id ∷ []) igr) (object_of v) _
            (IfDone-always _ (object_of v) (λ _. tt))
            (λ resource _.
              mark_observed-Marked id _ igr
                (with_call (get_call rc (cluster.access.name resource)) mid)
                (omega (
                  arith,
                  ap writes calls,
                  writes-append mid.calls (get_call rc (cluster.access.name resource) ∷ []),
                ))
                same order))
  mark_found-Marked id (v, _) igr mid (same, calls, order) =
      set_state-Marked id skipped igr mid refl (omega (arith, ap writes calls)) same order

  Marked-append :
      (id : Text) (ids : List Text) (igr mid : InstanceGraphReconciler)
      (out : Option ReconcileError × InstanceGraphReconciler)
      → Marked (id ∷ []) igr (none, mid)
      → Marked ids mid out
      → Marked (id ∷ ids) igr out
  Marked-append id ids igr mid out first more = record {
    no_writes = omega (arith, first.no_writes, more.no_writes);
    keeps_state = more.keeps_state ∙ first.keeps_state;
    keeps_order = more.keeps_order ∙ first.keeps_order;
    stays = λ x h. more.stays x (first.stays x h);
    marks = λ h. (more.stays id (first.marks refl).0, more.marks h);
  }

  failed-Marked_more :
      (id : Text) (ids : List Text) (igr mid : InstanceGraphReconciler) (e : ReconcileError)
      → Marked (id ∷ []) igr (some e, mid)
      → Marked (id ∷ ids) igr (some e, mid)
  failed-Marked_more id ids igr mid e first = record {
    no_writes = first.no_writes;
    keeps_state = first.keeps_state;
    keeps_order = first.keeps_order;
    stays = first.stays;
    marks = λ h. ground (arith, h);
  }

  pub initialize_each-Marked :
      (ids : List Text) (igr : InstanceGraphReconciler)
      → IfDone (Marked ids igr) (initialize_each cluster ids igr)
  unfolding initialize_each
  initialize_each-Marked [] igr = record {
    no_writes = omega arith;
    keeps_state = refl;
    keeps_order = refl;
    stays = λ x h. h;
    marks = λ _. tt;
  }
  initialize_each-Marked (id ∷ ids) igr =
      >>=-IfDone _ (Marked (id ∷ ids) igr) (synchronize_runtime cluster igr) _
        (synchronize_runtime-Synced cluster igr)
        (synced_first (λ next. initialize_each-Marked ids next))
    where
      found_first :
          ((next : InstanceGraphReconciler)
            → IfDone (Marked ids next) (initialize_each cluster ids next))
          → (out : Option ReconcileError × InstanceGraphReconciler) → Marked (id ∷ []) igr out
          → IfDone (Marked (id ∷ ids) igr) (unless_err (initialize_each cluster ids) out)
      found_first later (some e, mid) first = failed-Marked_more id ids igr mid e first
      found_first later (none, mid) first =
          IfDone-mono (Marked ids mid) (Marked (id ∷ ids) igr) (initialize_each cluster ids mid)
            (λ out more. Marked-append id ids igr mid out first more) (later mid)

      synced_first :
          ((next : InstanceGraphReconciler)
            → IfDone (Marked ids next) (initialize_each cluster ids next))
          → (out : Option ReconcileError × InstanceGraphReconciler) → Synced igr out
          → IfDone (Marked (id ∷ ids) igr) (
              unless_err
                (λ igr1. get_resource id igr1.runtime >>= λ found.
                  mark_found cluster id found igr1 >>= unless_err (initialize_each cluster ids))
                out)
      synced_first later (some e, mid) (same, calls, order) =
          failed-Marked (id ∷ ids) igr mid e (omega (arith, ap writes calls)) same order
      synced_first later (none, mid) s =
          >>=-IfDone (λ _. Unit {0}) (Marked (id ∷ ids) igr) (get_resource id mid.runtime) _
            (IfDone-always _ (get_resource id mid.runtime) (λ _. tt))
            (λ found _.
              >>=-IfDone (Marked (id ∷ []) igr) (Marked (id ∷ ids) igr)
                (mark_found cluster id found mid) _ (mark_found-Marked id found igr mid s)
                (found_first later))
