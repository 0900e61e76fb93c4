-- ===== src/Instance/Releasing.antt =====
-- internal/controller/instance: which resources a deletion deletes, and when the instance is let go.
use kubernetes_resource_orch.Common.{
  ◌++◌, ◌≡◌, inl, inr, refl, sym, subst, true, false, Bool-cases, List, [], ◌∷◌, Option, none, some,
  arith, Text, Nodup, done, ◌>>=◌, IfDone, >>=-IfDone, IfDone-always, IfDone-mono,
}
use kubernetes_resource_orch.Runtime.{get_resource}
use kubernetes_resource_orch.Instance.{
  ResourceClient, delete_call, ApiError, Cluster, error_state, deleted, deleting, ReconcileError,
  initialize_failed, needed_after, waiting_for_deletion, InstanceGraphReconciler, unless_err,
  unless_err_wrap, object_of, get_resource_client,
}
use mathlib.Core.List.{reverse, append-nil}
use kubernetes_resource_orch.Instance.Finalizing.{release_instance}
use kubernetes_resource_orch.Instance.Deleting.{
  all_gone, is_pending_deletion, after_delete, delete_resource, initialize_each, delete_each,
  delete_resources_in_order, finalize_deletion, initialize_deletion_state, handle_instance_deletion,
}
use kubernetes_resource_orch.Instance.Progressing.{state_of}
use kubernetes_resource_orch.Instance.Removing.{Marked, initialize_each-Marked}
use kubernetes_resource_orch.Instance.Gone.{
  Deleted, set_state-Deleted, Deleted-OnlyDeletes, Removed, stopped, going_on, Nodup-reverse,
}

module _ (cluster : Cluster) where
  after_delete-Deleted :
      (rc : ResourceClient) (name id : Text) (e : Option ApiError)
      (igr mid : InstanceGraphReconciler)
      → cluster.delete igr.calls rc name ≡ e
      → mid.state ≡ igr.state
      → mid.calls ≡ igr.calls ++ delete_call rc name ∷ []
      → IfDone (Deleted cluster id igr) (after_delete cluster id e mid)
  after_delete-Deleted rc name id none igr mid said same made =
      set_state-Deleted cluster rc name id deleting none _ igr mid same refl
        (λ h. ground (arith, h)) made (λ h. ground (arith, h))
  after_delete-Deleted rc name id (some e) igr mid said same made =
      elim (Bool-cases e.is_not_found) [
        | inl missing ↦ rw missing (
            set_state-Deleted cluster rc name id deleted none none igr mid same refl (λ _. refl)
              made (λ _. (e, said, missing)))
        | inr other ↦ rw other (
            set_state-Deleted cluster rc name id error_state _ _ igr mid same refl
              (λ h. ground (arith, h)) made (λ h. ground (arith, h)))
      ]

  delete_resource-Deleted :
      (id : Text) (igr : InstanceGraphReconciler)
      → IfDone (Deleted cluster id igr) (delete_resource cluster id igr)
  unfolding delete_resource
  delete_resource-Deleted id igr =
      >>=-IfDone (λ _. Unit {0}) (Deleted cluster id igr) (get_resource id igr.runtime) _
        (IfDone-always _ (get_resource id igr.runtime) (λ _. tt))
        (λ found _.
          >>=-IfDone (λ _. Unit {0}) (Deleted cluster id igr) (get_resource_client cluster id igr) _
            (IfDone-always _ (get_resource_client cluster id igr) (λ _. tt))
            (λ rc _.
              >>=-IfDone (λ _. Unit {0}) (Deleted cluster id igr) (object_of found.0) _
                (IfDone-always _ (object_of found.0) (λ _. tt))
                (λ resource _.
                  after_delete-Deleted rc (cluster.access.name resource) id _ igr _ refl refl
                    refl)))

  delete_each-Removed :
      (ids : List Text) (igr : InstanceGraphReconciler)
      → Nodup ids
      → IfDone (Removed ids igr) (delete_each cluster ids igr)
  unfolding delete_each
  delete_each-Removed [] igr n = record {
    front = [];
    rest = [];
    split = refl;
    gone = tt;
    found_gone = tt;
    complete = λ _. refl;
    untouched = λ x _ _. refl;
    keeps_state = refl;
    calls = ([], sym (append-nil igr.calls), tt);
  }
  delete_each-Removed (id ∷ ids) igr n = elim (Bool-cases (is_pending_deletion (state_of id igr))) [
    | inl pending_ ↦ rw pending_ (
        >>=-IfDone (Deleted cluster id igr) (Removed (id ∷ ids) igr)
          (delete_resource cluster id igr) _ (delete_resource-Deleted id igr)
          (next (λ mid. delete_each-Removed ids mid n.1)))
    | inr free ↦ rw free (
        IfDone-mono (Removed ids igr) (Removed (id ∷ ids) igr) (delete_each cluster ids igr)
          (λ out r.
            going_on id ids igr igr out n.0 free (λ x _. refl) refl
              (λ pending_. ground (arith, free, pending_)) ([], sym (append-nil igr.calls), tt) r)
          (delete_each-Removed ids igr n.1))
  ]
    where
      next :
          ((mid : InstanceGraphReconciler) → IfDone (Removed ids mid) (delete_each cluster ids mid))
          → (out : Option ReconcileError × InstanceGraphReconciler) → Deleted cluster id igr out
          → IfDone (Removed (id ∷ ids) igr) (unless_err (delete_each cluster ids) out)
      next later (some e, mid) d = stopped cluster id ids igr mid e d
      next later (none, mid) d =
          IfDone-mono (Removed ids mid) (Removed (id ∷ ids) igr) (delete_each cluster ids mid)
            (λ out r.
              going_on id ids igr mid out n.0 d.not_pending d.keeps_others d.keeps_state
                (λ _. d.gone refl) (Deleted-OnlyDeletes cluster id igr (none, mid) d) r)
            (later mid)

  -- How a deletion goes from a reconciler `igr`, by where it ends.
  pub data Deletion (igr : InstanceGraphReconciler)
      : Option ReconcileError × InstanceGraphReconciler → Type 0 where
    not_initialized :
        (e : ReconcileError) (after : InstanceGraphReconciler)
        → Marked igr.runtime.topological_order igr (some e, after)
        → Deletion igr (some (initialize_failed e), after)
    stopped_by :
        (e : ReconcileError) (marked after : InstanceGraphReconciler)
        → Marked igr.runtime.topological_order igr (none, marked)
        → Removed (reverse igr.runtime.topological_order) marked (some e, after)
        → Deletion igr (some e, after)
    waiting :
        (marked after : InstanceGraphReconciler)
        → Marked igr.runtime.topological_order igr (none, marked)
        → Removed (reverse igr.runtime.topological_order) marked (none, after)
        → all_gone after.state.resource_states ≡ false
        → Deletion igr (some (needed_after waiting_for_deletion), after)
    released :
        (marked after : InstanceGraphReconciler)
        → Marked igr.runtime.topological_order igr (none, marked)
        → Removed (reverse igr.runtime.topological_order) marked (none, after)
        → all_gone after.state.resource_states ≡ true
        → Deletion igr (release_instance cluster after)

  pub handle_instance_deletion-Deletion :
      (igr : InstanceGraphReconciler)
      → Nodup igr.runtime.topological_order
      → IfDone (Deletion igr) (handle_instance_deletion cluster igr)
  unfolding handle_instance_deletion initialize_deletion_state delete_resources_in_order
      finalize_deletion
  handle_instance_deletion-Deletion igr n =
      >>=-IfDone (Marked igr.runtime.topological_order igr) (Deletion igr)
        (initialize_each cluster igr.runtime.topological_order igr) _
        (initialize_each-Marked cluster igr.runtime.topological_order igr) marked_first
    where
      finish :
          (marked : InstanceGraphReconciler) (out : Option ReconcileError × InstanceGraphReconciler)
          → Marked igr.runtime.topological_order igr (none, marked)
          → Removed (reverse igr.runtime.topological_order) marked out
          → IfDone (Deletion igr) (unless_err (λ igr2. done (finalize_deletion cluster igr2)) out)
      finish marked (some e, after) m r = stopped_by e marked after m r
      finish marked (none, after) m r = elim (Bool-cases (all_gone after.state.resource_states)) [
        | inl gone ↦ rw gone (released marked after m r gone)
        | inr not_gone ↦ rw not_gone (waiting marked after m r not_gone)
      ]

      marked_first :
          (out : Option ReconcileError × InstanceGraphReconciler)
          → Marked igr.runtime.topological_order igr out
          → IfDone (Deletion igr) (
              unless_err_wrap initialize_failed
                (λ igr1.
                  delete_each cluster (reverse igr1.runtime.topological_order) igr1
                  >>= unless_err (λ igr2. done (finalize_deletion cluster igr2)))
                out)
      marked_first (some e, after) m = not_initialized e after m
      marked_first (none, marked) m =
          subst
            (λ l. IfDone (Deletion igr) (
              delete_each cluster (reverse l) marked
              >>= unless_err (λ igr2. done (finalize_deletion cluster igr2))))
            (sym m.keeps_order)
            (>>=-IfDone (Removed (reverse igr.runtime.topological_order) marked) (Deletion igr)
              (delete_each cluster (reverse igr.runtime.topological_order) marked) _
              (delete_each-Removed (reverse igr.runtime.topological_order) marked
                (Nodup-reverse igr.runtime.topological_order n))
              (λ out r. finish marked out m r))
