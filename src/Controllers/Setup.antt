-- ===== src/Controllers/Setup.antt =====
-- controllers: SetupWithManager of the six controllers, which says what each watches, with which
-- filters of events, and how many Reconcile run at a time.
use pre_scaling_operator.Common.{ℕ, List, [], ◌∷◌}

-- The types of objects that are watched.
pub data Resource : Type 0 where
  cluster_scaling_state_definition : Resource
  cluster_scaling_state : Resource
  scaling_state : Resource
  deployment : Resource
  deployment_config : Resource
  redis_cluster : Resource

-- The filters of internal/validations, in the order in which they are asked.
pub data Filter : Type 0 where
  delete_filter : Filter
  startup_filter : Filter
  pre_filter : Filter

-- What a controller asks of the manager.
pub record Registration : Type 0 where
  pub watches : Resource
  pub filters : List Filter
  pub owns : List Resource
  pub max_concurrent_reconciles : ℕ

-- ClusterScalingStateDefinitionReconciler
abbrev pub cluster_scaling_state_definition_setup : Registration
cluster_scaling_state_definition_setup = record {
  watches = cluster_scaling_state_definition;
  filters = delete_filter ∷ [];
  owns = [];
  max_concurrent_reconciles = 1;
}

-- ClusterScalingStateReconciler
abbrev pub cluster_scaling_state_setup : Registration
cluster_scaling_state_setup = record {
  watches = cluster_scaling_state;
  filters = startup_filter ∷ [];
  owns = scaling_state ∷ [];
  max_concurrent_reconciles = 1;
}

-- ScalingStateReconciler
abbrev pub scaling_state_setup : Registration
scaling_state_setup = record {
  watches = scaling_state;
  filters = startup_filter ∷ [];
  owns = cluster_scaling_state ∷ [];
  max_concurrent_reconciles = 5;
}

-- DeploymentWatcher
abbrev pub deployment_setup : Registration
deployment_setup = record {
  watches = deployment;
  filters = pre_filter ∷ (startup_filter ∷ []);
  owns = [];
  max_concurrent_reconciles = 1;
}

-- DeploymentConfigWatcher
abbrev pub deployment_config_setup : Registration
deployment_config_setup = record deployment_setup { watches = deployment_config }

-- RedisClusterWatcher
abbrev pub redis_cluster_setup : Registration
redis_cluster_setup = record deployment_setup { watches = redis_cluster }
