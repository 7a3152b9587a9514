-- ===== src/Tests/Quiet.antt =====
-- What ClusterScalingStateReconciler records of the namespace "shop".
use mathlib.Core.List.Permᴰ
use pre_scaling_operator.Common.{
  ◌-ℤ◌, ◌==◌, false, none, some, [], ◌∷◌, ◌≡◌, refl, ok, lookup, has_prefix, insert, atoi, int32,
  contains,
}
use pre_scaling_operator.Global.Denylist.{get_deployment_info, is_being_scaled, is_any_being_scaled}
use pre_scaling_operator.Global.Convert.{convert_deployment_to_item}
use pre_scaling_operator.Resources.{determine_desired_replicas, group_scaling_item_by_namespace}
use pre_scaling_operator.Resources.Lister.{scaling_item_namespace_lister, convert_all}
use pre_scaling_operator.StateReplicas.{new_state_replicas_from_annotations, get_state}
use pre_scaling_operator.Quotas.{resource_quota_check}
use pre_scaling_operator.States.{fetch_namespace_state, get_applied_states_on_items}
use pre_scaling_operator.Decisions.{
  max_concurrent, limit_entries, limit_namespaces, decide_checked, decide_allowed, note_check_error,
  any_wants_scaling,
}
use pre_scaling_operator.Decisions.Rounds.{
  make_namespaces_scale_decisions, decide_namespaces, decide_namespace, decide_determined,
  check_namespace,
}
use pre_scaling_operator.Reconciler.Prepare.{
  prepare_for_namespace_reconcile, after_listing, reconcile_decided, prepared_of, info_of,
}
use pre_scaling_operator.Controllers.{
  Reconciled, cluster_scaling_state_reconcile, after_prepare, finish_cluster, ignore_errors,
  without_errors, exceeded, quota_events,
}
use pre_scaling_operator.Controllers.Silent.{cluster_scaling_state_reconcile-silent}
use pre_scaling_operator.Tests.{whole, peak}
use pre_scaling_operator.Tests.Deciding.{surroundings, shop_listing}

abbrev quiet_result : Reconciled
quiet_result = record { requeue_after = 0; error = none; events = [] }

-- The one namespace is reconciled, and nothing is left to come back for.
quiet_reconciled :
    cluster_scaling_state_reconcile
      (λ namespace known dry.
        prepare_for_namespace_reconcile whole surroundings
          (λ n round items. items)
          (λ items. items)
          (λ m. m)
          dry
          shop_listing
          namespace
          known
          [])
      (ok false)
      (ok (peak ∷ []))
    ≡ some quiet_result
unfolding cluster_scaling_state_reconcile after_prepare finish_cluster ignore_errors without_errors
    exceeded quota_events prepare_for_namespace_reconcile after_listing reconcile_decided
    prepared_of info_of group_scaling_item_by_namespace scaling_item_namespace_lister
    convert_deployment_to_item convert_all make_namespaces_scale_decisions decide_namespaces
    decide_namespace decide_determined check_namespace limit_namespaces limit_entries decide_checked
    decide_allowed note_check_error any_wants_scaling max_concurrent fetch_namespace_state
    determine_desired_replicas get_applied_states_on_items new_state_replicas_from_annotations ◌==◌
    lookup has_prefix insert atoi get_state int32 resource_quota_check contains get_deployment_info
    is_any_being_scaled is_being_scaled ◌-ℤ◌
quiet_reconciled = refl

cluster_scaling_state_reconcile-silent_example : quiet_result.events ≡ []
cluster_scaling_state_reconcile-silent_example =
    cluster_scaling_state_reconcile-silent whole surroundings (λ n round items. items)
      (λ items. items) (λ m. m) (λ round m. Permᴰ.refl m) shop_listing [] (ok false)
      (ok (peak ∷ [])) quiet_result refl quiet_reconciled
