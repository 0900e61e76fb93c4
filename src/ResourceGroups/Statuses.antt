-- ===== src/ResourceGroups/Statuses.antt =====
-- internal/controller/resourcegroup/controller_status.go: what the status says of a failure.
use kubernetes_resource_orch.Common.{◌≡◌, [], ◌∷◌, ◌++◌, Option, none, some, Text, codes}
use kubernetes_resource_orch.Metadata.Ownership.{new_kro_meta_labeler}
use kubernetes_resource_orch.DynamicController.{DynamicController, ServeError}
use kubernetes_resource_orch.ResourceGroups.{
  micro_controller, status_of, api_error, patch_status, GroupResult, GroupError, graph_error,
  crd_error, micro_controller_error, ResourceGroupState, active, inactive, StatusProcessor, World,
  ResourceGroupReconciler, micro_controller,
}
use kubernetes_resource_orch.ResourceGroups.Conditions.{
  Condition, ConditionStatus, condition_true, condition_false, condition_unknown, get_condition,
  graph_verified, custom_resource_definition_synced, reconciler_ready,
}

-- The steps of a reconciliation, in order, and the condition of each.
pub data Stage : Type 0 where
  graph_stage crd_stage controller_stage : Stage

abbrev pub condition_of : Stage → Text
condition_of graph_stage = graph_verified
condition_of crd_stage = custom_resource_definition_synced
condition_of controller_stage = reconciler_ready

-- The verdict on a step, by the step that failed: true before it, false at it, unknown behind it.
unfoldable pub verdict : Option Stage → Stage → ConditionStatus
verdict none step = condition_true
verdict (some graph_stage) graph_stage = condition_false
verdict (some graph_stage) crd_stage = condition_unknown
verdict (some graph_stage) controller_stage = condition_unknown
verdict (some crd_stage) graph_stage = condition_true
verdict (some crd_stage) crd_stage = condition_false
verdict (some crd_stage) controller_stage = condition_unknown
verdict (some controller_stage) controller_stage = condition_false
verdict (some controller_stage) step = condition_true

abbrev status_if : Option Condition → Option ConditionStatus
status_if none = none
status_if (some c) = some c.status

-- The steps that the errors come from.
pub data Blames : Option GroupError → Option Stage → Type 0 where
  nothing : Blames none none
  graph_fails : (e : Text) → Blames (some (graph_error e)) (some graph_stage)
  crd_fails : (e : Text) → Blames (some (crd_error e)) (some crd_stage)
  controller_fails :
      (e : ServeError) → Blames (some (micro_controller_error e)) (some controller_stage)

abbrev state_if : Option Stage → ResourceGroupState
state_if none = active
state_if (some step) = inactive

-- The status that is written.
pub record IsVerdict (stage : Option Stage) (sp : StatusProcessor) : Type 0 where
  pub conditions :
      (step : Stage)
      → status_if (get_condition sp.conditions (condition_of step)) ≡ some (verdict stage step)
  pub state : sp.state ≡ state_if stage

module _ {Q : Type 0} (world : World) where
  -- The reconciler has the labels that it is made with.
  abbrev pub HasKroLabels : ResourceGroupReconciler Q → Type 0
  HasKroLabels r = r.metadata_labeler ≡ new_kro_meta_labeler (codes "0.1.0") (codes "kro-pod")

  abbrev IsBlamed : GroupResult × ResourceGroupReconciler Q → Type 0
  IsBlamed p = (stage : Option Stage) × Blames p.0.error stage

  -- What a reconciliation of a group that is not deleted comes to, by the result of its steps.
  pub record WritesVerdict (result : GroupResult × ResourceGroupReconciler Q)
      (p : Option GroupError × ResourceGroupReconciler Q) : Type 0 where
    pub stage : Option Stage
    pub blames : Blames result.0.error stage
    pub sp : StatusProcessor
    pub verdicts : IsVerdict stage sp
    pub written : p.1.calls ≡ result.1.calls ++ patch_status (status_of result.0 sp) ∷ []
    pub returned :
        p.0 ≡ api_error (world.answer result.1.calls (patch_status (status_of result.0 sp)))
