-- ===== src/ResourceGroups/Conditions.antt =====
-- api/v1alpha1/conditions.go: the conditions of a status. Their times are left out.
use kubernetes_resource_orch.Common.{
  ◌≡◌, refl, Bool, true, false, List, [], ◌∷◌, Option, none, some, if◌then◌else◌, arith, Text,
  text_eq, text_eq_iff, codes, mem, Nodup, ℤ, pos,
}

pub data ConditionStatus : Type 0 where
  condition_true condition_false condition_unknown : ConditionStatus

pub record Condition : Type 0 where
  pub type : Text
  pub status : ConditionStatus
  pub reason : Option Text
  pub message : Option Text
  pub observed_generation : ℤ

abbrev pub graph_verified : Text
graph_verified = codes "GraphVerified"

abbrev pub custom_resource_definition_synced : Text
custom_resource_definition_synced = codes "CustomResourceDefinitionSynced"

abbrev pub reconciler_ready : Text
reconciler_ready = codes "ReconcilerReady"

abbrev pub new_condition : Text → ConditionStatus → Text → Text → Condition
new_condition t status reason message = record {
  type = t;
  status = status;
  reason = some reason;
  message = some message;
  observed_generation = pos 0;
}

unfoldable pub get_condition : List Condition → Text → Option Condition
get_condition [] t = none
get_condition (c ∷ conditions) t = if text_eq c.type t then some c else get_condition conditions t

unfoldable pub set_condition : List Condition → Condition → List Condition
set_condition [] condition = condition ∷ []
set_condition (c ∷ conditions) condition =
    if text_eq c.type condition.type
    then condition ∷ conditions
    else c ∷ set_condition conditions condition

abbrev is_some : Option Condition → Bool
is_some none = false
is_some (some c) = true

unfoldable pub has_condition : List Condition → Text → Bool
has_condition conditions t = is_some (get_condition conditions t)

abbrev pub types_of : List Condition → List Text
types_of [] = []
types_of (c ∷ conditions) = c.type ∷ types_of conditions

get-set :
    (conditions : List Condition) (condition : Condition) (t : Text)
    → get_condition (set_condition conditions condition) t
      ≡ (if text_eq condition.type t then some condition else get_condition conditions t)
unfolding get_condition set_condition
get-set [] condition t = refl
get-set (c ∷ conditions) condition t = ground (
  arith,
  text_eq_iff c.type condition.type,
  text_eq_iff c.type t,
  text_eq_iff condition.type t,
  get-set conditions condition t,
)

mem-types :
    (conditions : List Condition) (condition : Condition) (t : Text)
    → mem t (types_of conditions) ≡ false
    → text_eq t condition.type ≡ false
    → mem t (types_of (set_condition conditions condition)) ≡ false
unfolding mem set_condition
mem-types [] condition t absent other = ground (arith, other)
mem-types (c ∷ conditions) condition t absent other =
    ground (arith, absent, other, mem-types conditions condition t)

set-Nodup :
    (conditions : List Condition) (condition : Condition)
    → Nodup (types_of conditions)
    → Nodup (types_of (set_condition conditions condition))
unfolding mem set_condition
set-Nodup [] condition h = (refl, tt)
set-Nodup (c ∷ conditions) condition h = ground (
  arith,
  text_eq_iff c.type condition.type,
  mem-types conditions condition c.type,
  set-Nodup conditions condition,
)

-- After `SetCondition` the condition is the one of its type, those of other types are as they were,
-- and no type is there twice if none was.
pub set_condition-get :
    (conditions : List Condition) (condition : Condition)
    → Nodup (types_of conditions)
    → ((t : Text)
        → get_condition (set_condition conditions condition) t
          ≡ (if text_eq condition.type t then some condition else get_condition conditions t))
      × Nodup (types_of (set_condition conditions condition))
set_condition-get conditions condition h =
    (get-set conditions condition, set-Nodup conditions condition h)
