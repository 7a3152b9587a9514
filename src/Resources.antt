-- ===== src/Resources.antt =====
-- internal/resources/common.go: which workloads are to be scaled, and to how many replicas.
pub mod Desired
pub mod Grouping
pub mod Limits
pub mod Lister
pub mod Placed
use pre_scaling_operator.Common.{
  ℤ, Text, ◌==◌, Map, lookup, insert, Bool, true, false, not, ◌||◌, Option, none, some, List, [],
  ◌∷◌, ◌++◌, eqb_ℤ, if◌then◌else◌, Result, ok, err,
}
use pre_scaling_operator.Global.{ScalingInfo, State}
use pre_scaling_operator.ResourceMath.{Quantity, add_lists, mul, replica_calc}
use pre_scaling_operator.StateReplicas.{
  StateReplica, StateReplicas, get_state, new_state_replicas_from_annotations,
}

module _ {Q : Type 0} where
  -- `none` is a panic.
  unfoldable pub state_replicas : State → ScalingInfo Q → Option (Result StateReplica)
  unfolding new_state_replicas_from_annotations get_state
  state_replicas state item = elim (new_state_replicas_from_annotations item.annotations) [
    | none ↦ none
    | some (err e) ↦ some (err e)
    | some (ok found) ↦ some (get_state state.name found)
  ]

  -- What the loop does with a workload whose state has a count: the workload as it stands in
  -- `items` afterwards, and whether it is appended to the list that is returned.
  desired_by : ScalingInfo Q → StateReplica → ScalingInfo Q × Bool
  desired_by item state_replica =
      let item' = record item { state = state_replica.name } in
      if item'.failure
      then (record item' { desired_replicas = item'.spec_replica }, false)
      else if not (eqb_ℤ item'.spec_replica state_replica.replicas)
          || not (eqb_ℤ item'.desired_replicas state_replica.replicas)
      then (record item' { desired_replicas = state_replica.replicas }, true)
      else (item', false)

  -- One round of the loop of DetermineDesiredReplicas; `none` is a panic.
  unfoldable pub determine_item : ScalingInfo Q → Option (ScalingInfo Q × Bool)
  unfolding desired_by
  determine_item item = elim (new_state_replicas_from_annotations item.annotations) [
    | none ↦ none
    | some (err e) ↦ some (item, false)
    | some (ok found) ↦ elim (get_state item.state found) [
      | err e ↦ some (item, false)
      | ok state_replica ↦ some (desired_by item state_replica)
    ]
  ]

  append_if : Bool → ScalingInfo Q → List (ScalingInfo Q) → List (ScalingInfo Q)
  append_if chosen item return_list = if chosen then return_list ++ item ∷ [] else return_list

  -- The items after the loop and the list returned. The error returned is always nil: the `err`
  -- that the loop sets is one of its own.
  determine_from :
      List (ScalingInfo Q)
      → List (ScalingInfo Q)
      → Option (List (ScalingInfo Q) × List (ScalingInfo Q))
  unfolding determine_item append_if
  determine_from [] return_list = some ([], return_list)
  determine_from (item ∷ items) return_list = elim (determine_item item) [
    | none ↦ none
    | some (item', chosen) ↦ elim (determine_from items (append_if chosen item' return_list)) [
      | none ↦ none
      | some (items', result) ↦ some (item' ∷ items', result)
    ]
  ]

  unfoldable pub determine_desired_replicas :
      List (ScalingInfo Q) → Option (List (ScalingInfo Q) × List (ScalingInfo Q))
  unfolding determine_from
  determine_desired_replicas items = determine_from items []

  -- The loop of GroupScalingItemByNamespace over the items that are left, by namespace, with the
  -- group that is being collected.
  group_from :
      List (ScalingInfo Q)
      → List (ScalingInfo Q)
      → Map (List (ScalingInfo Q))
      → Map (List (ScalingInfo Q))
  group_from [] group grouped = grouped
  group_from (item ∷ []) group grouped = insert item.namespace (group ++ item ∷ []) grouped
  group_from (item ∷ (next ∷ items)) group grouped =
      let same = next.namespace == item.namespace in
      group_from (next ∷ items) (if same then group ++ item ∷ [] else [])
        (if same then grouped else insert item.namespace (group ++ item ∷ []) grouped)

  -- `sort` is what sort.Slice makes of the items, by `items[i].Namespace < items[j].Namespace`.
  -- The nil map that comes back for no items has no entry.
  unfoldable pub group_scaling_item_by_namespace :
      (List (ScalingInfo Q) → List (ScalingInfo Q))
      → List (ScalingInfo Q)
      → Map (List (ScalingInfo Q))
  unfolding group_from
  group_scaling_item_by_namespace sort [] = []
  group_scaling_item_by_namespace sort (item ∷ items) = group_from (sort (item ∷ items)) [] []

module _ (k : Quantity) where
  open k use {Q}

  unfoldable pub limits_needed : ScalingInfo Q → ℤ → Map Q
  limits_needed item replicas = mul k (replica_calc replicas item.spec_replica) item.resource_list

  limits_needed_from : Map Q → List (ScalingInfo Q) → Map Q
  limits_needed_from limits [] = limits
  limits_needed_from limits (item ∷ items) =
      limits_needed_from
        (add_lists k limits
          (mul k (replica_calc item.desired_replicas item.spec_replica) item.resource_list))
        items

  unfoldable pub limits_needed_list : List (ScalingInfo Q) → Map Q
  unfolding limits_needed_from
  limits_needed_list items = limits_needed_from [] items
