-- ===== src/Global/Convert.antt =====
-- pkg/utils/global/concurrrent.go: the description of an object of the cluster. The records hold what
-- is read of the objects, whose types belong to Kubernetes, OpenShift and the Redis operator; an
-- optional field is a pointer.
use pre_scaling_operator.Common.{
  ℤ, pos, negsuc, ℕ, int32, Text, bytes, ◌==◌, Map, Option, none, some, List, [], ◌∷◌,
  if◌then◌else◌,
}
use pre_scaling_operator.Global.{ScalingInfo, no_item}

pub record Deployment (Q : Type 0) : Type 0 where
  pub name : Text
  pub namespace : Text
  pub annotations : Map Text
  pub labels : Map Text
  pub condition_reasons : List Text  -- Status.Conditions, their reasons
  pub container_limits : List (Map Q)  -- Spec.Template.Spec.Containers, their Resources.Limits
  pub replicas : Option ℤ  -- Spec.Replicas
  pub available_replicas : ℤ  -- Status.AvailableReplicas
  pub progress_deadline_seconds : Option ℤ  -- Spec.ProgressDeadlineSeconds

pub record DeploymentConfig (Q : Type 0) : Type 0 where
  pub name : Text
  pub namespace : Text
  pub annotations : Map Text
  pub labels : Map Text
  pub condition_reasons : List Text
  pub container_limits : Option (List (Map Q))  -- of Spec.Template
  pub replicas : ℤ
  pub available_replicas : ℤ
  pub strategy_type : Text  -- Spec.Strategy.Type
  pub rolling_timeout : Option ℤ  -- Spec.Strategy.RollingParams.TimeoutSeconds, an int64
  pub recreate_timeout : Option ℤ  -- Spec.Strategy.RecreateParams.TimeoutSeconds

pub record RedisCluster (Q : Type 0) : Type 0 where
  pub name : Text
  pub namespace : Text
  pub annotations : Map Text
  pub labels : Map Text
  pub limits : Map Q  -- Spec.Resources.Limits
  pub replicas : ℤ
  pub status : Text  -- Status.Status
  pub nodes : ℕ  -- len(Status.Nodes)

-- The last reason of a condition, or "".
unfoldable pub last_reason : List Text → Text
last_reason [] = []
last_reason (reason ∷ []) = reason
last_reason (reason ∷ (next ∷ reasons)) = last_reason (next ∷ reasons)

abbrev pub deadline_exceeded : Text
deadline_exceeded = bytes "ProgressDeadlineExceeded"

unfoldable pub failure_message_of : Text → Text
failure_message_of condition_reason =
    if condition_reason == deadline_exceeded
    then bytes "Can't scale. ProgressDeadlineExceeded on the cluster!"
    else []

-- int32(*timeout)
abbrev cut : Option ℤ → Option ℤ
cut none = none
cut (some seconds) = some (int32 seconds)

module _ {Q : Type 0} where
  -- The limits of the first container, or none.
  abbrev pub first_limits : List (Map Q) → Map Q
  first_limits [] = []
  first_limits (limits ∷ containers) = limits

  -- The description, with the replicas and the deadline that were read; no pointer is left.
  deployment_item : Deployment Q → ℤ → ℤ → ScalingInfo Q
  unfolding last_reason failure_message_of
  deployment_item deployment replicas deadline =
      let condition_reason = last_reason deployment.condition_reasons in
      record no_item {
        name = deployment.name;
        namespace = deployment.namespace;
        annotations = deployment.annotations;
        labels = deployment.labels;
        item_type_name = bytes "Deployment";
        failure = condition_reason == deadline_exceeded;
        failure_message = failure_message_of condition_reason;
        spec_replica = replicas;
        ready_replicas = deployment.available_replicas;
        desired_replicas = negsuc 0;
        resource_list = first_limits deployment.container_limits;
        condition_reason = condition_reason;
        progress_deadline = deadline;
      }

  -- `none` is the panic of a nil pointer.
  unfoldable pub convert_deployment_to_item : Deployment Q → Option (ScalingInfo Q)
  unfolding deployment_item
  convert_deployment_to_item deployment = elim deployment.replicas [
    | none ↦ none
    | some replicas ↦ elim deployment.progress_deadline_seconds [
      | none ↦ none
      | some deadline ↦ some (deployment_item deployment replicas deadline)
    ]
  ]

  progress_dead_line : DeploymentConfig Q → Option ℤ
  progress_dead_line deployment_config =
      if deployment_config.strategy_type == bytes "Rolling"
      then cut deployment_config.rolling_timeout
      else if deployment_config.strategy_type == bytes "Recreate"
      then cut deployment_config.recreate_timeout
      else some (pos 600)

  config_item : DeploymentConfig Q → List (Map Q) → ℤ → ScalingInfo Q
  unfolding last_reason failure_message_of
  config_item deployment_config containers deadline =
      let condition_reason = last_reason deployment_config.condition_reasons in
      record no_item {
        name = deployment_config.name;
        namespace = deployment_config.namespace;
        annotations = deployment_config.annotations;
        labels = deployment_config.labels;
        item_type_name = bytes "DeploymentConfig";
        failure = condition_reason == deadline_exceeded;
        failure_message = failure_message_of condition_reason;
        spec_replica = deployment_config.replicas;
        ready_replicas = deployment_config.available_replicas;
        desired_replicas = negsuc 0;
        resource_list = first_limits containers;
        condition_reason = condition_reason;
        progress_deadline = deadline;
      }

  unfoldable pub convert_deployment_config_to_item : DeploymentConfig Q → Option (ScalingInfo Q)
  unfolding config_item progress_dead_line
  convert_deployment_config_to_item deployment_config = elim deployment_config.container_limits [
    | none ↦ none
    | some containers ↦ elim (progress_dead_line deployment_config) [
      | none ↦ none
      | some deadline ↦ some (config_item deployment_config containers deadline)
    ]
  ]

  -- An empty list of limits and the one that is put in its place are the same here.
  unfoldable pub convert_redis_cluster_to_item : RedisCluster Q → ScalingInfo Q
  unfolding int32
  convert_redis_cluster_to_item rediscluster = record no_item {
    name = rediscluster.name;
    namespace = rediscluster.namespace;
    annotations = rediscluster.annotations;
    labels = rediscluster.labels;
    item_type_name = bytes "RedisCluster";
    spec_replica = rediscluster.replicas;
    ready_replicas = int32 (pos rediscluster.nodes);
    desired_replicas = negsuc 0;
    resource_list = rediscluster.limits;
    condition_reason = rediscluster.status;
    progress_deadline = pos 500;
  }
