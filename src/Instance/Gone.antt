-- ===== src/Instance/Gone.antt =====
-- The loop that deletes the resources of an instance: which are gone after it.
use kubernetes_resource_orch.Common.{
  All-append, ◌≡◌, refl, sym, ap, subst, ◌∙◌, true, false, ◌||◌, List, [], ◌∷◌, ◌++◌, Option, none,
  some, All, arith, Text, text_eq, text_eq_iff, mem, mem-append, Nodup, Nodup-concat, lookup,
}
use kubernetes_resource_orch.Instance.{
  ResourceClient, Call, delete_call, ApiError, Cluster, StateName, deleted, ReconcileError,
  ResourceState, InstanceGraphReconciler, set_state,
}
use mathlib.Core.List.{reverse, reverse-cons, append_assoc}
use kubernetes_resource_orch.Instance.Deleting.{is_pending_deletion}
use kubernetes_resource_orch.Instance.Progressing.{state_of, set_state_here, set_state_apart}
use kubernetes_resource_orch.Instance.Sequence.{first_of}

abbrev pub IsDelete : Call → Type 0
IsDelete (delete_call rc name) = Unit
IsDelete _ = ⊥

-- The calls that were made are deletions of resources.
abbrev pub OnlyDeletes : InstanceGraphReconciler → InstanceGraphReconciler → Type 0
OnlyDeletes igr after = (cs : List Call) × (after.calls ≡ igr.calls ++ cs) × All IsDelete cs

OnlyDeletes-trans :
    (igr mid after : InstanceGraphReconciler)
    → OnlyDeletes igr mid
    → OnlyDeletes mid after
    → OnlyDeletes igr after
OnlyDeletes-trans igr mid after (cs, e, h) (ds, f, k) = (
  cs ++ ds,
  f ∙ ap (λ l. l ++ ds) e ∙ append_assoc igr.calls cs ds,
  All-append IsDelete cs ds h k,
)

-- One resource is deleted: one call is made, to delete it, only its state changes, it is not to be
-- deleted any more, and the deletion goes on only if the answer was that it is not found.
pub record Deleted (cluster : Cluster) (id : Text) (igr : InstanceGraphReconciler)
    (out : Option ReconcileError × InstanceGraphReconciler) : Type 0 where
  pub keeps_state : out.1.state.state ≡ igr.state.state
  pub keeps_others : (x : Text) → text_eq x id ≡ false → state_of x out.1 ≡ state_of x igr
  pub not_pending : is_pending_deletion (state_of id out.1) ≡ false
  pub gone : out.0 ≡ none → state_of id out.1 ≡ some (record { state = deleted; error = none })
  pub client : ResourceClient
  pub name : Text
  pub calls : out.1.calls ≡ igr.calls ++ delete_call client name ∷ []
  pub not_found :
      out.0 ≡ none
      → (answer : ApiError) × (cluster.delete igr.calls client name ≡ some answer)
        × (answer.is_not_found ≡ true)

pub Deleted-OnlyDeletes :
    (cluster : Cluster) (id : Text) (igr : InstanceGraphReconciler)
    (out : Option ReconcileError × InstanceGraphReconciler)
    → Deleted cluster id igr out
    → OnlyDeletes igr out.1
Deleted-OnlyDeletes cluster id igr out d = (delete_call d.client d.name ∷ [], d.calls, (tt, tt))

pub set_state-Deleted :
    (cluster : Cluster) (rc : ResourceClient) (name id : Text) (s : StateName)
    (f e : Option ReconcileError) (igr mid : InstanceGraphReconciler)
    → mid.state ≡ igr.state
    → is_pending_deletion (some (record { state = s; error = f })) ≡ false
    → (e ≡ none
        → ◌≡◌ {A = Option ResourceState}
            (some (record { state = s; error = f }))
            (some (record { state = deleted; error = none })))
    → mid.calls ≡ igr.calls ++ delete_call rc name ∷ []
    → (e ≡ none
        → (answer : ApiError) × (cluster.delete igr.calls rc name ≡ some answer)
          × (answer.is_not_found ≡ true))
    → Deleted cluster id igr (e, set_state id s f mid)
set_state-Deleted cluster rc name id s f e igr mid same is good made answered = record {
  client = rc;
  name = name;
  calls = made;
  not_found = answered;
  keeps_state = ap (λ x. x.state) same;
  keeps_others =
      λ x apart. set_state_apart id x s f mid apart ∙ ap (λ y. lookup x y.resource_states) same;
  not_pending = rw (set_state_here id s f mid) is;
  gone = λ h. set_state_here id s f mid ∙ good h;
}

-- A resource that was still to be deleted is now deleted: the cluster did not find it.
abbrev pub FoundGone : Text → InstanceGraphReconciler → InstanceGraphReconciler → Type 0
FoundGone x igr after =
    is_pending_deletion (state_of x igr) ≡ true
    → state_of x after ≡ some (record { state = deleted; error = none })

-- The same, seen from a reconciler in which only a resource that is none of them differs.
All-FoundGone :
    (id : Text) (igr mid after : InstanceGraphReconciler) (front : List Text)
    → mem id front ≡ false
    → ((x : Text) → text_eq x id ≡ false → state_of x mid ≡ state_of x igr)
    → All (λ x. FoundGone x mid after) front
    → All (λ x. FoundGone x igr after) front
unfolding mem
All-FoundGone id igr mid after [] apart others h = tt
All-FoundGone id igr mid after (x ∷ front) apart others h =
    let ne : text_eq x id ≡ false = ground (arith, apart, text_eq_iff x id, text_eq_iff id x) in
    (
      λ pending_. h.0 (ap is_pending_deletion (others x ne) ∙ pending_),
      All-FoundGone id igr mid after front (ground (arith, apart)) others h.1,
    )

-- The resources are deleted one after the other, up to the one that stops the deletion, and no
-- other calls are made. No resource
-- before it in the order is still to be deleted, and none behind it is touched.
pub record Removed (ids : List Text) (igr : InstanceGraphReconciler)
    (out : Option ReconcileError × InstanceGraphReconciler) : Type 0 where
  pub front : List Text
  pub rest : List Text
  pub split : ids ≡ front ++ rest
  pub gone : All (λ x. is_pending_deletion (state_of x out.1) ≡ false) front
  pub found_gone : All (λ x. FoundGone x igr out.1) front
  pub complete : out.0 ≡ none → rest ≡ []
  pub untouched :
      (x : Text)
      → mem x front ≡ false
      → mem x (first_of rest) ≡ false
      → state_of x out.1 ≡ state_of x igr
  pub keeps_state : out.1.state.state ≡ igr.state.state
  pub calls : OnlyDeletes igr out.1

mem-first_of : (x : Text) (xs : List Text) → mem x xs ≡ false → mem x (first_of xs) ≡ false
unfolding mem
mem-first_of x [] h = refl
mem-first_of x (y ∷ ys) h = ground (arith, h)

pub stopped :
    (cluster : Cluster) (id : Text) (ids : List Text) (igr mid : InstanceGraphReconciler)
    (e : ReconcileError)
    → Deleted cluster id igr (some e, mid)
    → Removed (id ∷ ids) igr (some e, mid)
unfolding mem
stopped cluster id ids igr mid e d = record {
  calls = Deleted-OnlyDeletes cluster id igr (some e, mid) d;
  front = [];
  rest = id ∷ ids;
  split = refl;
  gone = tt;
  found_gone = tt;
  complete = λ h. ground (arith, h);
  untouched = λ x _ apart. d.keeps_others x (ground (arith, apart));
  keeps_state = d.keeps_state;
}

pub going_on :
    (id : Text) (ids : List Text) (igr mid : InstanceGraphReconciler)
    (out : Option ReconcileError × InstanceGraphReconciler)
    → mem id ids ≡ false
    → is_pending_deletion (state_of id mid) ≡ false
    → ((x : Text) → text_eq x id ≡ false → state_of x mid ≡ state_of x igr)
    → mid.state.state ≡ igr.state.state
    → FoundGone id igr mid
    → OnlyDeletes igr mid
    → Removed ids mid out
    → Removed (id ∷ ids) igr out
unfolding mem
going_on id ids igr mid out fresh free others state now made r = record {
  calls = OnlyDeletes-trans igr mid out.1 made r.calls;
  front = id ∷ r.front;
  rest = r.rest;
  split = ap (◌∷◌ id) r.split;
  gone = (
    ap is_pending_deletion (
          r.untouched id (ground (arith, absent)) (mem-first_of id r.rest (ground (arith, absent))))
        ∙ free,
    r.gone,
  );
  found_gone = (
    λ pending_.
        r.untouched id (ground (arith, absent)) (mem-first_of id r.rest (ground (arith, absent)))
        ∙ now pending_,
    All-FoundGone id igr mid out.1 r.front (ground (arith, absent)) others r.found_gone,
  );
  complete = r.complete;
  untouched = λ x apart behind.
      r.untouched x (ground (arith, apart)) behind ∙ others x (ground (arith, apart));
  keeps_state = r.keeps_state ∙ state;
}
  where
    absent : (mem id r.front || mem id r.rest) ≡ false
    absent = sym (mem-append id r.front r.rest) ∙ sym (ap (mem id) r.split) ∙ fresh

mem-reverse : (x : Text) (xs : List Text) → mem x (reverse xs) ≡ mem x xs
unfolding mem
mem-reverse x [] = refl
mem-reverse x (y ∷ ys) =
    ap (mem x) (reverse-cons y ys)
    ∙ ground (arith, mem-append x (reverse ys) (y ∷ []), mem-reverse x ys)

pub Nodup-reverse : (xs : List Text) → Nodup xs → Nodup (reverse xs)
Nodup-reverse [] n = tt
Nodup-reverse (x ∷ xs) n =
    subst Nodup (sym (reverse-cons x xs))
      (Nodup-concat x (reverse xs) (mem-reverse x xs ∙ n.0) (Nodup-reverse xs n.1))
