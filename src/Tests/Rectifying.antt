-- ===== src/Tests/Rectifying.antt =====
-- The rectifier on two failed workloads, and the package variables of the lists.
use pre_scaling_operator.Common.{
  ℤ, ◌==◌, true, List, [], ◌∷◌, ◌≡◌, ◌↔◌, refl, inl, ok, lookup, has_prefix, insert, atoi, int32,
  contains, subst,
}
use pre_scaling_operator.Global.{ScalingInfo}
use pre_scaling_operator.Global.Denylist.{get_deployment_info}
use pre_scaling_operator.Resources.{determine_desired_replicas}
use pre_scaling_operator.StateReplicas.{new_state_replicas_from_annotations, get_state}
use pre_scaling_operator.Quotas.{resource_quota_check}
use pre_scaling_operator.States.{
  get_cluster_scaling_states, fetch_namespace_state, get_applied_states_on_items,
  get_applied_state_and_class_on_item,
}
use pre_scaling_operator.Reconciler.{reconcile_scaling_item}
use pre_scaling_operator.Rectifier.{
  touches, Rectifier, Consumer, start, Reach, here, next, send, touch, items_in_failure_state,
  rectify, body_of,
}
use pre_scaling_operator.Rectifier.Lock.{IsSkip, HasBlocker, rectifier_keeps_lock}
use pre_scaling_operator.Rectifier.Ends.{AllSkipToLast, Returns, rectifier_finishes_iff}
use pre_scaling_operator.Tests.{whole, web_item, db_item}
use pre_scaling_operator.Tests.Reconciling.{peak_client}

abbrev failed_web : ScalingInfo ℤ
failed_web = record web_item { failure = true }

abbrev failed_db : ScalingInfo ℤ
failed_db = record db_item { failure = true }

abbrev failed_list : List (ScalingInfo ℤ)
failed_list = failed_web ∷ (failed_db ∷ [])

web_touches : rectify whole peak_client (ok tt) (ok []) failed_list failed_web ≡ touches
unfolding rectify get_cluster_scaling_states fetch_namespace_state reconcile_scaling_item
    determine_desired_replicas get_applied_states_on_items new_state_replicas_from_annotations ◌==◌
    lookup has_prefix insert atoi get_state int32 resource_quota_check contains get_deployment_info
    get_applied_state_and_class_on_item body_of
web_touches = refl

-- The rectifier waits for the lock to scale "web", and "db" is still to be sent.
abbrev stuck : Rectifier ℤ
stuck = record {
  to_send = failed_db ∷ [];
  locked = true;
  consumer = Consumer.wants_lock failed_web;
}

two_failed :
    HasBlocker
      (rectify whole peak_client (ok tt) (ok []) failed_list)
      (items_in_failure_state failed_list)
unfolding items_in_failure_state
two_failed = inl (λ h. subst IsSkip web_touches h)

web_waits :
    Reach
      (rectify whole peak_client (ok tt) (ok []) failed_list)
      (start (items_in_failure_state failed_list))
      stuck
unfolding items_in_failure_state
web_waits =
    next (next here (send failed_web (failed_db ∷ []) refl refl))
      (touch failed_web refl web_touches refl)

rectifier_keeps_lock_example : stuck.locked ≡ true
rectifier_keeps_lock_example =
    rectifier_keeps_lock whole peak_client (ok tt) (ok []) failed_list stuck two_failed web_waits

abbrev one_failed : List (ScalingInfo ℤ)
one_failed = failed_web ∷ []

web_alone :
    AllSkipToLast
      (rectify whole peak_client (ok tt) (ok []) one_failed)
      (items_in_failure_state one_failed)
unfolding items_in_failure_state rectify get_cluster_scaling_states fetch_namespace_state
    reconcile_scaling_item determine_desired_replicas get_applied_states_on_items
    new_state_replicas_from_annotations ◌==◌ lookup has_prefix insert atoi get_state int32
    resource_quota_check contains get_deployment_info get_applied_state_and_class_on_item body_of
web_alone = tt

rectifier_finishes_iff_example :
    Returns
      (rectify whole peak_client (ok tt) (ok []) one_failed)
      (items_in_failure_state one_failed)
    ↔ AllSkipToLast
        (rectify whole peak_client (ok tt) (ok []) one_failed)
        (items_in_failure_state one_failed)
rectifier_finishes_iff_example = rectifier_finishes_iff whole peak_client (ok tt) (ok []) one_failed

-- The one failed workload is rectified.
one_ends :
    Returns
      (rectify whole peak_client (ok tt) (ok []) one_failed)
      (items_in_failure_state one_failed)
one_ends = (rectifier_finishes_iff whole peak_client (ok tt) (ok []) one_failed).1 web_alone
