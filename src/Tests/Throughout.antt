-- ===== src/Tests/Throughout.antt =====
-- The workload "web" is reconciled and scaled to the peak at once.
use pre_scaling_operator.Common.{
  ℤ, pos, bytes, ◌==◌, [], ◌∷◌, ◌≡◌, ◌⊎◌, refl, ok, lookup, has_prefix, insert, atoi, int32,
  contains, parse_bool, arith,
}
use pre_scaling_operator.Global.{ScalingInfo}
use pre_scaling_operator.Global.Denylist.{
  get_deployment_info, last_match, set_scaling_item, update_or_append, append_missing,
  is_in_concurrent_list, update, remove_from_list,
}
use pre_scaling_operator.Global.Registry.{UniqueItems}
use pre_scaling_operator.Global.Convert.{convert_deployment_to_item}
use pre_scaling_operator.Validations.{optin_label_exists}
use pre_scaling_operator.Resources.{determine_desired_replicas}
use pre_scaling_operator.StateReplicas.{new_state_replicas_from_annotations, get_state}
use pre_scaling_operator.Quotas.{resource_quota_check}
use pre_scaling_operator.States.{get_applied_states_on_items, get_rapid_scaling_setting}
use pre_scaling_operator.Scaler.{
  Cluster, World, scaled, get_refreshed_scaling_item, read_item, item_type, refresh, do_scaling,
  left_to_autoscaler, scaling_attempt, update_scaling_item, opted_in,
}
use pre_scaling_operator.Scaler.Named.{IsNamed}
use pre_scaling_operator.Scaler.Changes.{once}
use pre_scaling_operator.Scaler.Waiting.{
  Run, wait_for_ready, wait_loop, poll, after_poll, is_ready, register_events,
}
use pre_scaling_operator.Scaler.Loops.{
  scale_or_step_scale, rapid_scale, rapid_ready, after_rapid, finished,
}
use pre_scaling_operator.Reconciler.{reconcile_scaling_item}
use pre_scaling_operator.Reconciler.Scaling.{
  reconcile_and_scale, ReturnsEarly, ScalesChecked, reconcile_and_scale-ScalesChecked,
}
use pre_scaling_operator.Tests.{whole, web_item}
use pre_scaling_operator.Tests.Reconciling.{peak_client}
use pre_scaling_operator.Tests.Events.{cluster, web_deployment, before}
use pre_scaling_operator.Tests.Loops.{calm_runtime}

abbrev rapid_peak : ScalingInfo ℤ
rapid_peak = record web_item {
  annotations =
      (bytes "scaler/rapid-scaling", bytes "true")
      ∷ ((bytes "scaler/state-peak-replicas", bytes "5") ∷ []);
}

-- The cluster answers with the workload that it is asked for.
abbrev named_cluster : Cluster ℤ
named_cluster = record cluster {
  deployment =
      λ n name namespace. ok (record web_deployment { name = name; namespace = namespace });
}

-- One change was sent, to five replicas, with an event.
abbrev peak_world : World ℤ
peak_world = record before {
  calls = 5;
  changes =
      record {
        item_type_name = bytes "Deployment";
        name = web_item.name;
        namespace = web_item.namespace;
        replicas = pos 5;
      }
      ∷ [];
  events = scaled web_item.name web_item.namespace (pos 5) ∷ [];
}

rapid_reconciled :
    reconcile_and_scale whole peak_client
      (ok tt)
      (ok [])
      named_cluster
      calm_runtime
      0
      rapid_peak
      before
    ≡ Run.done (peak_world, ok tt)
unfolding reconcile_and_scale reconcile_scaling_item determine_desired_replicas
    get_applied_states_on_items new_state_replicas_from_annotations ◌==◌ lookup has_prefix insert
    atoi get_state int32 resource_quota_check contains get_deployment_info last_match
    scale_or_step_scale get_rapid_scaling_setting parse_bool rapid_scale rapid_ready after_rapid
    finished register_events wait_for_ready wait_loop poll after_poll is_ready
    get_refreshed_scaling_item read_item item_type refresh do_scaling left_to_autoscaler
    scaling_attempt update_scaling_item opted_in set_scaling_item update_or_append append_missing
    is_in_concurrent_list update convert_deployment_to_item optin_label_exists remove_from_list
rapid_reconciled = refl

cluster_named : IsNamed named_cluster
cluster_named = (
  (λ n name namespace d e. ground (arith, e)),
  (λ n name namespace d e. ground (arith, e)),
  (λ n name namespace r e. ground (arith, e)),
)

reconcile_and_scale-ScalesChecked_example :
    UniqueItems peak_world.denylist
    × (ReturnsEarly whole peak_client
          (ok tt)
          (ok [])
          named_cluster
          calm_runtime
          cluster_named
          (λ f w. once w.denylist (λ u. u))
          (λ n items u. u)
          0
          rapid_peak
          before
          peak_world
          (ok tt)
        ⊎ ScalesChecked whole peak_client
            (ok tt)
            (ok [])
            named_cluster
            calm_runtime
            cluster_named
            (λ f w. once w.denylist (λ u. u))
            (λ n items u. u)
            0
            rapid_peak
            before
            peak_world
            (ok tt))
reconcile_and_scale-ScalesChecked_example =
    reconcile_and_scale-ScalesChecked whole peak_client (ok tt) (ok []) named_cluster calm_runtime
      cluster_named (λ f w. once w.denylist (λ u. u)) (λ n items u. u) 0 rapid_peak before
      peak_world (ok tt) tt rapid_reconciled
