-- ===== src/Instance/Sequence.antt =====
-- The loop over the resources of an instance: what it writes, and in which order.
use kubernetes_resource_orch.Common.{
  ◌+◌, ◌≤◌, ◌≡◌, ◌⊎◌, inl, inr, refl, sym, ap, subst, ◌∙◌, Bool, true, false, ◌||◌, Bool-cases,
  List, [], ◌∷◌, ◌++◌, Option, none, some, All, arith, Text, text_eq, text_eq_iff, mem, mem-append,
  Nodup, lookup, ◌>>=◌, IfDone, >>=-IfDone, IfDone-mono, Result, ok, err,
}
use kubernetes_resource_orch.Runtime.{RuntimeError, ResourceGroupRuntime}
use kubernetes_resource_orch.Runtime.Unchanged.{Keeps, synchronize-Keeps}
use kubernetes_resource_orch.Runtime.Evaluate.{synchronize}
use kubernetes_resource_orch.Instance.{
  Cluster, pending, ReconcileError, InstanceGraphReconciler, unless_err, set_state,
  synchronize_runtime, synchronized,
}
use kubernetes_resource_orch.Instance.Reconciling.{reconcile_resource, reconcile_each, all_pending}
use kubernetes_resource_orch.Instance.Progressing.{
  writes, state_of, IsSettled, Reconciled, reconcile_resource-Reconciled, set_state_here,
  set_state_apart,
}

abbrev pub first_of : List Text → List Text
first_of [] = []
first_of (x ∷ xs) = x ∷ []

-- The resources are settled one after the other up to the one that stops the reconciliation. Those
-- behind it are not touched, at most one write is made, and none without an error.
pub record Ordered (ids : List Text) (igr : InstanceGraphReconciler)
    (out : Option ReconcileError × InstanceGraphReconciler) : Type 0 where
  pub front : List Text
  pub rest : List Text
  pub split : ids ≡ front ++ rest
  pub settled : All (λ x. IsSettled (state_of x out.1)) front
  pub complete : out.0 ≡ none → rest ≡ []
  pub untouched :
      (x : Text)
      → mem x front ≡ false
      → mem x (first_of rest) ≡ false
      → state_of x out.1 ≡ state_of x igr
  pub few_writes : writes out.1.calls ≤ writes igr.calls + 1
  pub no_writes : out.0 ≡ none → writes out.1.calls ≤ writes igr.calls
  pub keeps_state : out.1.state.state ≡ igr.state.state

abbrev pub Synced :
    InstanceGraphReconciler → Option ReconcileError × InstanceGraphReconciler → Type 0
Synced mid (e, after) =
    (after.state ≡ mid.state)
    × (after.calls ≡ mid.calls)
    × (after.runtime.topological_order ≡ mid.runtime.topological_order)

pub synchronize_runtime-Synced :
    (cluster : Cluster) (mid : InstanceGraphReconciler)
    → IfDone (Synced mid) (synchronize_runtime cluster mid)
unfolding synchronize_runtime
synchronize_runtime-Synced cluster mid =
    >>=-IfDone (Keeps mid.runtime) (Synced mid) (synchronize cluster.cel mid.runtime) _
      (synchronize-Keeps cluster.cel mid.runtime) read
  where
    read :
        (out : Result RuntimeError Bool × ResourceGroupRuntime)
        → Keeps mid.runtime out
        → IfDone (Synced mid) (synchronized cluster mid out)
    read (err e, rt) k = (refl, refl, k.0)
    read (ok b, rt) k = (refl, refl, k.0)

mem-first_of : (x : Text) (xs : List Text) → mem x xs ≡ false → mem x (first_of xs) ≡ false
unfolding mem
mem-first_of x [] h = refl
mem-first_of x (y ∷ ys) h = ground (arith, h)

stopped :
    (id : Text) (ids : List Text) (igr mid : InstanceGraphReconciler) (e : ReconcileError)
    → Reconciled id igr (some e, mid)
    → Ordered (id ∷ ids) igr (some e, mid)
unfolding mem
stopped id ids igr mid e r = record {
  front = [];
  rest = id ∷ ids;
  split = refl;
  settled = tt;
  complete = λ h. ground (arith, h);
  untouched = λ x _ apart. r.touches.keeps_others x (ground (arith, apart));
  few_writes = r.touches.few_writes;
  no_writes = λ h. ground (arith, h);
  keeps_state = r.touches.keeps_state;
}

-- The runtime fails to synchronize after the resource is settled.
not_synchronized :
    (id : Text) (ids : List Text) (igr mid after : InstanceGraphReconciler) (e : ReconcileError)
    → Reconciled id igr (none, mid)
    → Synced mid (some e, after)
    → Ordered (id ∷ ids) igr (some e, after)
unfolding mem
not_synchronized id ids igr mid after e r (same, calls, _) = record {
  front = id ∷ [];
  rest = ids;
  split = refl;
  settled =
      (subst (λ s. IsSettled (lookup id s.resource_states)) (sym same) (r.settles refl).0, tt);
  complete = λ h. ground (arith, h);
  untouched = λ x apart _.
      ap (λ s. lookup x s.resource_states) same ∙ r.touches.keeps_others x (ground (arith, apart));
  few_writes = rw calls r.touches.few_writes;
  no_writes = λ h. ground (arith, h);
  keeps_state = ap (λ s. s.state) same ∙ r.touches.keeps_state;
}

going_on :
    (id : Text) (ids : List Text) (igr mid next : InstanceGraphReconciler)
    (out : Option ReconcileError × InstanceGraphReconciler)
    → mem id ids ≡ false
    → Reconciled id igr (none, mid)
    → Synced mid (none, next)
    → Ordered ids next out
    → Ordered (id ∷ ids) igr out
unfolding mem
going_on id ids igr mid next out fresh r (same, calls, _) o = record {
  front = id ∷ o.front;
  rest = o.rest;
  split = ap (◌∷◌ id) o.split;
  settled = (
    subst IsSettled
        (sym (
          o.untouched id (ground (arith, absent)) (mem-first_of id o.rest (ground (arith, absent)))
          ∙ ap (λ s. lookup id s.resource_states) same))
        (r.settles refl).0,
    o.settled,
  );
  complete = o.complete;
  untouched = λ x apart behind.
      o.untouched x (ground (arith, apart)) behind
      ∙ ap (λ s. lookup x s.resource_states) same
      ∙ r.touches.keeps_others x (ground (arith, apart));
  few_writes = omega (arith, o.few_writes, (r.settles refl).1, ap writes calls);
  no_writes = λ h. omega (arith, o.no_writes h, (r.settles refl).1, ap writes calls);
  keeps_state = o.keeps_state ∙ ap (λ s. s.state) same ∙ r.touches.keeps_state;
}
  where
    absent : (mem id o.front || mem id o.rest) ≡ false
    absent = sym (mem-append id o.front o.rest) ∙ sym (ap (mem id) o.split) ∙ fresh

pub reconcile_each-Ordered :
    (cluster : Cluster) (ids : List Text) (igr : InstanceGraphReconciler)
    → Nodup ids
    → IfDone (Ordered ids igr) (reconcile_each cluster ids igr)
unfolding reconcile_each
reconcile_each-Ordered cluster [] igr n = record {
  front = [];
  rest = [];
  split = refl;
  settled = tt;
  complete = λ _. refl;
  untouched = λ x _ _. refl;
  few_writes = omega arith;
  no_writes = λ _. omega arith;
  keeps_state = refl;
}
reconcile_each-Ordered cluster (id ∷ ids) igr n =
    >>=-IfDone (Reconciled id igr) (Ordered (id ∷ ids) igr) (reconcile_resource cluster id igr) _
      (reconcile_resource-Reconciled cluster id igr)
      (settled_first (λ next. reconcile_each-Ordered cluster ids next n.1))
  where
    continue :
        (mid : InstanceGraphReconciler)
        → ((next : InstanceGraphReconciler)
            → IfDone (Ordered ids next) (reconcile_each cluster ids next))
        → Reconciled id igr (none, mid)
        → (out : Option ReconcileError × InstanceGraphReconciler) → Synced mid out
        → IfDone (Ordered (id ∷ ids) igr) (unless_err (reconcile_each cluster ids) out)
    continue mid later r (some e, after) s = not_synchronized id ids igr mid after e r s
    continue mid later r (none, next) s =
        IfDone-mono (Ordered ids next) (Ordered (id ∷ ids) igr) (reconcile_each cluster ids next)
          (λ out o. going_on id ids igr mid next out n.0 r s o) (later next)

    settled_first :
        ((next : InstanceGraphReconciler)
          → IfDone (Ordered ids next) (reconcile_each cluster ids next))
        → (out : Option ReconcileError × InstanceGraphReconciler) → Reconciled id igr out
        → IfDone (Ordered (id ∷ ids) igr) (
            unless_err
              (λ igr1. synchronize_runtime cluster igr1 >>= unless_err (reconcile_each cluster ids))
              out)
    settled_first later (some e, mid) r = stopped id ids igr mid e r
    settled_first later (none, mid) r =
        >>=-IfDone (Synced mid) (Ordered (id ∷ ids) igr) (synchronize_runtime cluster mid) _
          (synchronize_runtime-Synced cluster mid) (continue mid later r)

pub all_pending-keeps :
    (ids : List Text) (igr : InstanceGraphReconciler)
    → ((all_pending ids igr).calls ≡ igr.calls)
      × ((all_pending ids igr).state.state ≡ igr.state.state)
      × ((all_pending ids igr).runtime ≡ igr.runtime)
unfolding all_pending
all_pending-keeps [] igr = (refl, refl, refl)
all_pending-keeps (id ∷ ids) igr = all_pending-keeps ids (set_state id pending none igr)

pub all_pending-state_of :
    (x : Text) (ids : List Text) (igr : InstanceGraphReconciler)
    → (mem x ids ≡ true) ⊎ (state_of x igr ≡ some (record { state = pending; error = none }))
    → state_of x (all_pending ids igr) ≡ some (record { state = pending; error = none })
unfolding all_pending mem
all_pending-state_of x [] igr (inl h) = ground (arith, h)
all_pending-state_of x [] igr (inr h) = h
all_pending-state_of x (id ∷ ids) igr (inl h) = elim (Bool-cases (text_eq x id)) [
  | inl same ↦
      all_pending-state_of x ids (set_state id pending none igr)
        (inr (rw ((text_eq_iff x id).0 same) (set_state_here id pending none igr)))
  | inr apart ↦
      all_pending-state_of x ids (set_state id pending none igr) (inl (ground (arith, h, apart)))
]
all_pending-state_of x (id ∷ ids) igr (inr h) = elim (Bool-cases (text_eq x id)) [
  | inl same ↦
      all_pending-state_of x ids (set_state id pending none igr)
        (inr (rw ((text_eq_iff x id).0 same) (set_state_here id pending none igr)))
  | inr apart ↦
      all_pending-state_of x ids (set_state id pending none igr)
        (inr (set_state_apart id x pending none igr apart ∙ h))
]
