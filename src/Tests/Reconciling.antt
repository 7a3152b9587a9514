-- ===== src/Tests/Reconciling.antt =====
-- The workload "web" is scaled to the peak where no quota holds it back.
use pre_scaling_operator.Common.{
  ℤ, pos, bytes, ◌==◌, false, some, [], ◌∷◌, ◌≡◌, refl, ok, lookup, has_prefix, insert, atoi, int32,
  contains,
}
use pre_scaling_operator.Api.{ClusterScalingStateDefinition}
use pre_scaling_operator.Global.{ScalingInfo}
use pre_scaling_operator.Global.Denylist.{get_deployment_info}
use pre_scaling_operator.Resources.{determine_desired_replicas}
use pre_scaling_operator.StateReplicas.{new_state_replicas_from_annotations, get_state}
use pre_scaling_operator.Quotas.{resource_quota_check}
use pre_scaling_operator.States.{Client, get_applied_states_on_items}
use pre_scaling_operator.Reconciler.{Outcome, reconcile_scaling_item}
use pre_scaling_operator.Tests.{whole, web_item, peak, peak_css}

abbrev peak_definition : ClusterScalingStateDefinition
peak_definition = record {
  spec = record { name = bytes "peak"; description = []; priority = pos 1 } ∷ [];
  config = record { dry_run = false };
}

-- No ScalingState, and one ClusterScalingState.
abbrev pub peak_client : Client
peak_client = record {
  scaling_states = λ namespace. ok [];
  cluster_scaling_states = ok (peak_css ∷ []);
  definitions = ok (peak_definition ∷ []);
}

abbrev pub peak_item : ScalingInfo ℤ
peak_item = record web_item {
  cluster_class_state = peak;
  scaling_class = bytes "default";
  desired_replicas = pos 5;
}

web_scales :
    reconcile_scaling_item whole peak_client (ok tt) (ok []) web_item []
    ≡ some ([], Outcome.scales peak_item)
unfolding reconcile_scaling_item determine_desired_replicas get_applied_states_on_items
    new_state_replicas_from_annotations ◌==◌ lookup has_prefix insert atoi get_state int32
    resource_quota_check contains get_deployment_info
web_scales = refl
