-- ===== src/Reconciler.antt =====
-- internal/reconciler/reconciler.go: ReconcileNamespace and ReconcileScalingItem, which start the
-- scaling of workloads, or redirect a scaling that runs.
pub mod Rounds
pub mod Items
pub mod Scaling
pub mod Prepare
use pre_scaling_operator.Common.{
  ℕ, suc, ℤ, negsuc, eqb_ℤ, Bool, true, false, not, ◌&&◌, ◌||◌, Option, none, some, List, [], ◌∷◌,
  ◌++◌, if◌then◌else◌, bytes, Error, plain, Result, ok, err,
}
use pre_scaling_operator.Global.{ScalingInfo, State}
use pre_scaling_operator.Api.{ClusterScalingState}
use pre_scaling_operator.ResourceMath.{Quantity}
use pre_scaling_operator.Quotas.{ResourceQuota, QuotaCheck, resource_quota_check}
use pre_scaling_operator.Resources.{determine_desired_replicas, limits_needed}
use pre_scaling_operator.States.{
  Client, get_cluster_scaling_states, fetch_namespace_state, get_applied_states_on_items,
}
use pre_scaling_operator.Global.Denylist.{
  get_deployment_info, set_scaling_item, is_deployment_in_failure_state,
}

module _ {Q : Type 0} where
  -- The desired replicas of the entry `fresh` become those of the item.
  redirect : ScalingInfo Q → ScalingInfo Q → List (ScalingInfo Q) → List (ScalingInfo Q)
  redirect fresh item denylist =
      if not (eqb_ℤ fresh.desired_replicas item.desired_replicas)
      then (set_scaling_item fresh fresh.failure fresh.failure_message item.desired_replicas
          denylist).1
      else denylist

  -- One round of the loop: the deny list, and whether ScaleOrStepScale is started for the item.
  unfoldable pub reconcile_item : ScalingInfo Q → List (ScalingInfo Q) → List (ScalingInfo Q) × Bool
  unfolding redirect
  reconcile_item item denylist =
      if eqb_ℤ item.spec_replica item.desired_replicas || eqb_ℤ item.desired_replicas (negsuc 0)
      then (denylist, false)
      else let (fresh, is_nil) = get_deployment_info item denylist in
        if is_nil
        then (redirect fresh item denylist, false)
        else (denylist, not (is_deployment_in_failure_state item denylist))

  -- The loop, with the items for which a scaling was started. `others` is what other goroutines,
  -- those started included, make of the deny list before each round.
  unfoldable pub reconcile_namespace :
      (ℕ → List (ScalingInfo Q) → List (ScalingInfo Q))
      → ℕ
      → List (ScalingInfo Q)
      → List (ScalingInfo Q)
      → List (ScalingInfo Q) × List (ScalingInfo Q)
  reconcile_namespace others round [] denylist = (denylist, [])
  reconcile_namespace others round (item ∷ items) denylist =
      let (denylist', started) = reconcile_item item (others round denylist) in
      let (final, rest) = reconcile_namespace others (suc round) items denylist' in
      (final, if started then item ∷ rest else rest)

-- How ReconcileScalingItem ends: it returns an error or nil, or it calls ScaleOrStepScale.
pub data Outcome (Q : Type 0) : Type 0 where
  returned : Option Error → Outcome Q
  scales : ScalingInfo Q → Outcome Q

module _ {Q : Type 0} where
  -- What is done once the quotas allow the scaling.
  start_or_redirect : ScalingInfo Q → List (ScalingInfo Q) → List (ScalingInfo Q) × Outcome Q
  unfolding redirect
  start_or_redirect item denylist =
      let (new, is_nil) = get_deployment_info item denylist in
      if is_nil && not new.failure
      then (redirect new item denylist, returned none)
      else (denylist, scales new)

  after_check : ScalingInfo Q → List (ScalingInfo Q) → QuotaCheck → List (ScalingInfo Q) × Outcome Q
  unfolding start_or_redirect
  after_check item denylist check = elim check.error [
    | some e ↦ (denylist, returned (some e))
    | none ↦ if check.allowed then start_or_redirect item denylist else (
      denylist,
      returned (some (plain (bytes "Can't scale due to ResourceQuota violation!"))),
    )
  ]

module _ (k : Quantity) where
  open k use {Q}

  unfoldable pub check_of :
      Result (Unit {0}) → Result (List (ResourceQuota Q)) → ScalingInfo Q → QuotaCheck
  unfolding limits_needed
  check_of client_set listed item =
      resource_quota_check k client_set listed (limits_needed k item item.desired_replicas)

  -- What is done with the item once its state and its desired replicas are determined.
  decide_item :
      Result (Unit {0})
      → Result (List (ResourceQuota Q))
      → List (ScalingInfo Q)
      → ScalingInfo Q
      → List (ScalingInfo Q) × Outcome Q
  unfolding after_check check_of
  decide_item client_set listed denylist item =
      if eqb_ℤ item.desired_replicas (negsuc 0)
      then (
        denylist,
        returned (
            some (
              plain (
                bytes "Desired replica count could not be determined! State: "
                ++ (item.state ++ (bytes " | Class: " ++ item.scaling_class))))),
      )
      else if eqb_ℤ item.ready_replicas item.desired_replicas
          && eqb_ℤ item.spec_replica item.desired_replicas
      then (denylist, returned none)
      else after_check item denylist (check_of client_set listed item)

  decide_first :
      Result (Unit {0})
      → Result (List (ResourceQuota Q))
      → List (ScalingInfo Q)
      → List (ScalingInfo Q)
      → List (ScalingInfo Q) × Outcome Q
  unfolding decide_item
  decide_first client_set listed denylist [] = (denylist, returned none)
  decide_first client_set listed denylist (item ∷ items) =
      decide_item client_set listed denylist item

  -- What is done with the states that were read; `none` is a panic.
  reconcile_known :
      Result (Unit {0})
      → Result (List (ResourceQuota Q))
      → ScalingInfo Q
      → List (ScalingInfo Q)
      → List State
      → Result State
      → Result (List ClusterScalingState)
      → Option (List (ScalingInfo Q) × Outcome Q)
  unfolding decide_first
  reconcile_known client_set listed item denylist definitions (err e) css =
      some (denylist, returned (some e))
  reconcile_known client_set listed item denylist definitions (ok state) (err e) =
      some (denylist, returned (some e))
  reconcile_known client_set listed item denylist definitions (ok state) (ok css) =
      elim (determine_desired_replicas
        (get_applied_states_on_items state css definitions (item ∷ []))) [
          | none ↦ none
          | some (items, picked) ↦ some (decide_first client_set listed denylist picked)
        ]

  reconcile_defined :
      Client
      → Result (Unit {0})
      → Result (List (ResourceQuota Q))
      → ScalingInfo Q
      → List (ScalingInfo Q)
      → Result (List State)
      → Option (List (ScalingInfo Q) × Outcome Q)
  unfolding reconcile_known fetch_namespace_state
  reconcile_defined client client_set listed item denylist (err e) =
      some (denylist, returned (some e))
  reconcile_defined client client_set listed item denylist (ok definitions) =
      reconcile_known client_set listed item denylist definitions
        (fetch_namespace_state client definitions item.namespace) client.cluster_scaling_states

  -- ReconcileScalingItem up to its call of ScaleOrStepScale, with the deny list.
  unfoldable pub reconcile_scaling_item :
      Client
      → Result (Unit {0})
      → Result (List (ResourceQuota Q))
      → ScalingInfo Q
      → List (ScalingInfo Q)
      → Option (List (ScalingInfo Q) × Outcome Q)
  unfolding reconcile_defined get_cluster_scaling_states
  reconcile_scaling_item client client_set listed item denylist =
      reconcile_defined client client_set listed item denylist (get_cluster_scaling_states client)
