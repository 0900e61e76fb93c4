-- ===== src/Instance/Progressing.antt =====
-- internal/controller/instance: what one step of a reconciliation changes.
use kubernetes_resource_orch.Common.{
  ℕ, suc, ◌+◌, ◌≤◌, ◌≡◌, ◌⊎◌, inl, inr, refl, sym, subst, ◌∙◌, Bool, true, false, Bool-cases, List,
  [], ◌∷◌, ◌++◌, Option, none, some, if◌then◌else◌, arith, Text, text_eq, text_eq_refl, lookup,
  lookup-insert, IfDone, >>=-IfDone, IfDone-always, Result, ok, err,
}
use kubernetes_resource_orch.Values.{Value}
use kubernetes_resource_orch.Runtime.{
  Resource, Cel, RuntimeError, ResourceGroupRuntime, resolved, waiting_on_dependencies,
  waiting_on_readiness, ignored_by_conditions, the_resource, get_resource, set_resource,
  ignore_resource, put_instance,
}
use kubernetes_resource_orch.Runtime.Conditions.{want_to_create_resource, is_resource_ready}
use kubernetes_resource_orch.Instance.{
  ResourceClient, Call, get_call, create_call, update_status_call, ApiError, Cluster, StateName,
  in_progress, skipped, synced, ReconcileError, ResourceState, InstanceGraphReconciler,
  with_runtime, with_call, set_state, get_resource_client,
}
use kubernetes_resource_orch.Instance.Reconciling.{
  after_create, handle_resource_creation, after_readiness, observe, handle_resource_reconciliation,
  when_resolved, when_wanted, reconcile_resource,
}

-- How many calls create or delete something.
abbrev is_write : Call → Bool
is_write (get_call _ _) = false
is_write (update_status_call _) = false
is_write _ = true

unfoldable pub writes : List Call → ℕ
writes [] = 0
writes (c ∷ cs) = if is_write c then suc (writes cs) else writes cs

pub writes-append : (cs ds : List Call) → writes (cs ++ ds) ≡ writes cs + writes ds
unfolding writes
writes-append [] ds = omega arith
writes-append (c ∷ cs) ds = ground (arith, writes-append cs ds)

abbrev pub state_of : Text → InstanceGraphReconciler → Option ResourceState
state_of id igr = lookup id igr.state.resource_states

-- Only the state of the one resource may change, and at most one write is made.
pub record Touches (id : Text) (igr after : InstanceGraphReconciler) (most : ℕ) : Type 0 where
  pub keeps_state : after.state.state ≡ igr.state.state
  pub keeps_others : (x : Text) → text_eq x id ≡ false → state_of x after ≡ state_of x igr
  pub few_writes : writes after.calls ≤ writes igr.calls + most

-- The resource is in the cluster and ready, or it is not wanted.
abbrev pub IsSettled : Option ResourceState → Type 0
IsSettled s =
    (s ≡ some (record { state = synced; error = none }))
    ⊎ (s ≡ some (record { state = skipped; error = none }))

-- One resource is reconciled: without an error it is settled and nothing was written.
pub record Reconciled (id : Text) (igr : InstanceGraphReconciler)
    (out : Option ReconcileError × InstanceGraphReconciler) : Type 0 where
  pub touches : Touches id igr out.1 1
  pub settles :
      out.0 ≡ none → IsSettled (state_of id out.1) × (writes out.1.calls ≤ writes igr.calls)

state_of-set_state :
    (id x : Text) (s : StateName) (e : Option ReconcileError) (igr : InstanceGraphReconciler)
    → state_of x (set_state id s e igr)
      ≡ (if text_eq x id then some (record { state = s; error = e }) else state_of x igr)
state_of-set_state id x s e igr = lookup-insert id x _ igr.state.resource_states

pub set_state_here :
    (id : Text) (s : StateName) (e : Option ReconcileError) (igr : InstanceGraphReconciler)
    → state_of id (set_state id s e igr) ≡ some (record { state = s; error = e })
set_state_here id s e igr = rw (state_of-set_state id id s e igr, text_eq_refl id) refl

pub set_state_apart :
    (id x : Text) (s : StateName) (e : Option ReconcileError) (igr : InstanceGraphReconciler)
    → text_eq x id ≡ false
    → state_of x (set_state id s e igr) ≡ state_of x igr
set_state_apart id x s e igr apart = rw (state_of-set_state id x s e igr, apart) refl

-- A step that ends with the state of the resource, from a reconciler that differs from the first one
-- in this state and in the calls only.
finished :
    (id : Text) (igr mid : InstanceGraphReconciler) (e : Option ReconcileError) (s : StateName)
    (f : Option ReconcileError)
    → Touches id igr mid 1
    → (e ≡ none
        → IsSettled (some (record { state = s; error = f }))
          × (writes mid.calls ≤ writes igr.calls))
    → Reconciled id igr (e, set_state id s f mid)
finished id igr mid e s f t good = record {
  touches = record {
    keeps_state = t.keeps_state;
    keeps_others = λ x apart. set_state_apart id x s f mid apart ∙ t.keeps_others x apart;
    few_writes = t.few_writes;
  };
  settles = λ h. (subst IsSettled (sym (set_state_here id s f mid)) (good h).0, (good h).1);
}

-- A call that does not write.
pub read_more :
    (id : Text) (igr mid : InstanceGraphReconciler) (c : Call) (rt : ResourceGroupRuntime)
    → writes (c ∷ []) ≤ 0
    → Touches id igr mid 0
    → Touches id igr (with_call c (with_runtime rt mid)) 0
read_more id igr mid c rt reads t = record {
  keeps_state = t.keeps_state;
  keeps_others = t.keeps_others;
  few_writes = omega (arith, t.few_writes, reads, writes-append mid.calls (c ∷ []));
}

pub weaker :
    (id : Text) (igr mid : InstanceGraphReconciler) → Touches id igr mid 0 → Touches id igr mid 1
weaker id igr mid t = record {
  keeps_state = t.keeps_state;
  keeps_others = t.keeps_others;
  few_writes = omega (arith, t.few_writes);
}

no_settled :
    (id : Text) (igr mid : InstanceGraphReconciler) (e : ReconcileError)
    → Touches id igr mid 1
    → Reconciled id igr (some e, mid)
no_settled id igr mid e t = record { touches = t; settles = λ h. ground (arith, h) }

module _ (cluster : Cluster) (id : Text) (igr : InstanceGraphReconciler) where
  after_create-Reconciled :
      (e : Option ApiError) (mid : InstanceGraphReconciler)
      → Touches id igr mid 1
      → IfDone (Reconciled id igr) (after_create cluster id e mid)
  after_create-Reconciled (some e) mid t = finished id igr mid _ _ _ t (λ h. ground (arith, h))
  after_create-Reconciled none mid t = finished id igr mid _ _ _ t (λ h. ground (arith, h))

  after_readiness-Reconciled :
      (ready : Result RuntimeError (Bool × Text)) (mid : InstanceGraphReconciler)
      → Touches id igr mid 0
      → IfDone (Reconciled id igr) (after_readiness cluster id ready mid)
  after_readiness-Reconciled (err e) mid t =
      finished id igr mid _ _ _ (weaker id igr mid t) (λ h. ground (arith, h))
  after_readiness-Reconciled (ok (false, reason)) mid t =
      finished id igr mid _ _ _ (weaker id igr mid t) (λ h. ground (arith, h))
  after_readiness-Reconciled (ok (true, reason)) mid t =
      finished id igr mid _ _ _ (weaker id igr mid t) (λ h. (inl refl, omega (arith, t.few_writes)))

  handle_resource_creation-Reconciled :
      (rc : ResourceClient) (resource : Value) (mid : InstanceGraphReconciler)
      → Touches id igr mid 0
      → IfDone (Reconciled id igr) (handle_resource_creation cluster rc resource id mid)
  unfolding handle_resource_creation writes
  handle_resource_creation-Reconciled rc resource mid t = after_create-Reconciled _ _ (record {
    keeps_state = t.keeps_state;
    keeps_others = t.keeps_others;
    few_writes = one_more (create_call rc _) (omega arith);
  })
    where
      one_more :
          (c : Call) → writes (c ∷ []) ≤ 1 → writes (mid.calls ++ c ∷ []) ≤ writes igr.calls + 1
      one_more c h = omega (arith, t.few_writes, h, writes-append mid.calls (c ∷ []))

  observe-Reconciled :
      (rc : ResourceClient) (resource : Value) (found : Result ApiError Value)
      (mid : InstanceGraphReconciler)
      → Touches id igr mid 0
      → IfDone (Reconciled id igr) (observe cluster rc resource id found mid)
  observe-Reconciled rc resource (err e) mid t = elim (Bool-cases e.is_not_found) [
    | inl missing ↦ rw missing (handle_resource_creation-Reconciled rc resource mid t)
    | inr other ↦
        rw other (finished id igr mid _ _ _ (weaker id igr mid t) (λ h. ground (arith, h)))
  ]
  observe-Reconciled rc resource (ok observed) mid t =
      >>=-IfDone (λ _. Unit {0}) (Reconciled id igr) (is_resource_ready cluster.cel id _) _
        (IfDone-always _ (is_resource_ready cluster.cel id _) (λ _. tt))
        (λ ready _. after_readiness-Reconciled ready _ (record {
          keeps_state = t.keeps_state;
          keeps_others = t.keeps_others;
          few_writes = t.few_writes;
        }))

  handle_resource_reconciliation-Reconciled :
      (resource : Value) (mid : InstanceGraphReconciler)
      → Touches id igr mid 0
      → IfDone (Reconciled id igr) (handle_resource_reconciliation cluster id resource mid)
  unfolding handle_resource_reconciliation writes
  handle_resource_reconciliation-Reconciled resource mid t =
      >>=-IfDone (λ _. Unit {0}) (Reconciled id igr) (get_resource_client cluster id mid) _
        (IfDone-always _ (get_resource_client cluster id mid) (λ _. tt))
        (λ rc _. observe-Reconciled rc resource _ _ (
          read_more id igr mid (get_call rc (cluster.access.name resource)) mid.runtime
            (omega arith) t))

  when_resolved-Reconciled :
      (found : Option Value × kubernetes_resource_orch.Runtime.ResourceState)
      (mid : InstanceGraphReconciler)
      → Touches id igr mid 0
      → IfDone (Reconciled id igr) (when_resolved cluster id found mid)
  when_resolved-Reconciled (none, resolved) mid t = tt
  when_resolved-Reconciled (some v, resolved) mid t =
      handle_resource_reconciliation-Reconciled v mid t
  when_resolved-Reconciled (v, _) mid t = no_settled id igr mid _ (weaker id igr mid t)

  skipped-Reconciled :
      (mid : InstanceGraphReconciler)
      → Touches id igr mid 0
      → Reconciled id igr
          (none, with_runtime (ignore_resource id mid.runtime) (set_state id skipped none mid))
  skipped-Reconciled mid t =
      let here =
        finished id igr mid none skipped none (weaker id igr mid t)
          (λ h. (inr refl, omega (arith, t.few_writes))) in
      record {
        touches = record {
          keeps_state = here.touches.keeps_state;
          keeps_others = here.touches.keeps_others;
          few_writes = here.touches.few_writes;
        };
        settles = here.settles;
      }

  when_wanted-Reconciled :
      (wanted : Bool × Option RuntimeError) (mid : InstanceGraphReconciler)
      → Touches id igr mid 0
      → IfDone (Reconciled id igr) (when_wanted cluster id wanted mid)
  when_wanted-Reconciled (true, none) mid t =
      >>=-IfDone (λ _. Unit {0}) (Reconciled id igr) (get_resource id mid.runtime) _
        (IfDone-always _ (get_resource id mid.runtime) (λ _. tt))
        (λ found _. when_resolved-Reconciled found mid t)
  when_wanted-Reconciled (true, some e) mid t = skipped-Reconciled mid t
  when_wanted-Reconciled (false, e) mid t = skipped-Reconciled mid t

  pub reconcile_resource-Reconciled : IfDone (Reconciled id igr) (reconcile_resource cluster id igr)
  unfolding reconcile_resource
  reconcile_resource-Reconciled =
      >>=-IfDone (λ _. Unit {0}) (Reconciled id igr)
        (want_to_create_resource cluster.cel id igr.runtime) _
        (IfDone-always _ (want_to_create_resource cluster.cel id igr.runtime) (λ _. tt))
        (λ wanted _. when_wanted-Reconciled wanted (set_state id in_progress none igr) (record {
          keeps_state = refl;
          keeps_others = λ x apart. set_state_apart id x in_progress none igr apart;
          few_writes = omega arith;
        }))
