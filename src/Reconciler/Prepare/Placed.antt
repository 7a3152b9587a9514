-- ===== src/Reconciler/Prepare/Placed.antt =====
-- The workloads that are picked in a namespace are of that namespace.
use mathlib.Core.Path.{subst}
use pre_scaling_operator.Common.{Text, Map, some, List, [], ◌∷◌, ◌≡◌, inl, inr, ◌∙◌}
use pre_scaling_operator.Global.{ScalingInfo, State}
use pre_scaling_operator.Api.{ClusterScalingState}
use pre_scaling_operator.Resources.{determine_desired_replicas}
use pre_scaling_operator.Resources.Placed.{
  Among, AllIn, AllPlaced, PickedIn, determine-PickedIn, AllIn-namespace,
}
use pre_scaling_operator.States.{get_applied_states_on_items}
use pre_scaling_operator.States.Classes.{get_applied_state-namespace}
use pre_scaling_operator.Decisions.Keeps.{IsEntry}

module _ {Q : Type 0} where
  pub entry-Placed :
      (namespace : Text) (group : List (ScalingInfo Q)) (m : Map (List (ScalingInfo Q)))
      → AllPlaced m
      → IsEntry namespace group m
      → AllIn namespace group
  entry-Placed namespace group [] a here = absurd here
  entry-Placed namespace group ((key, items) ∷ rest) a (inl (same, e)) =
      subst (AllIn namespace) e (subst (λ place. AllIn place items) same (a.0))
  entry-Placed namespace group ((key, items) ∷ rest) a (inr there) =
      entry-Placed namespace group rest (a.1) there

  applied-AllIn :
      (namespace : Text) (css : List ClusterScalingState) (state : State) (definitions : List State)
      (group : List (ScalingInfo Q))
      → AllIn namespace group
      → AllIn namespace (get_applied_states_on_items state css definitions group)
  unfolding get_applied_states_on_items
  applied-AllIn namespace css state definitions [] a = tt
  applied-AllIn namespace css state definitions (item ∷ group) a = (
    get_applied_state-namespace item state css definitions ∙ a.0,
    applied-AllIn namespace css state definitions group (a.1),
  )

  -- What is picked of a group of the namespace is of the namespace.
  pub picked-Placed :
      (namespace : Text) (group : List (ScalingInfo Q)) (css : List ClusterScalingState)
      (state : State) (definitions : List State) (stored picked : List (ScalingInfo Q))
      (item : ScalingInfo Q)
      → AllIn namespace group
      → determine_desired_replicas (get_applied_states_on_items state css definitions group)
        ≡ some (stored, picked)
      → Among item picked
      → item.namespace ≡ namespace
  picked-Placed namespace group css state definitions stored picked item a e among =
      AllIn-namespace namespace item picked
        (subst (PickedIn namespace) e (
          determine-PickedIn namespace (get_applied_states_on_items state css definitions group)
            (applied-AllIn namespace css state definitions group a)))
        among
