-- ===== src/Controllers.antt =====
-- controllers: Reconcile of the watchers of workloads, and of the controllers of the custom resources.
pub mod Silent
pub mod Requeue
pub mod Watching
pub mod Setup
use pre_scaling_operator.Common.{
  ℕ, Text, ◌==◌, Map, Bool, true, false, not, ◌&&◌, ◌||◌, Option, none, some, List, [], ◌∷◌, ◌++◌,
  if◌then◌else◌, Error, Result, ok, err,
}
use pre_scaling_operator.Global.{ScalingInfo, State}
use pre_scaling_operator.Global.Denylist.{is_deployment_in_failure_state}
use pre_scaling_operator.Global.Convert.{
  Deployment, DeploymentConfig, RedisCluster, convert_deployment_to_item,
  convert_deployment_config_to_item, convert_redis_cluster_to_item,
}
use pre_scaling_operator.Reconciler.Prepare.{NamespaceInfo, Prepared, Progress}

-- What Reconcile of a watcher returns, and the item it starts ReconcileScalingItem for.
pub record Watched (Q : Type 0) : Type 0 where
  pub error : Option Error
  pub starts : Option (ScalingInfo Q)

module _ {Q : Type 0} where
  -- Failed items are left to the rectifier.
  unfoldable pub watch_item : List (ScalingInfo Q) → ScalingInfo Q → Watched Q
  watch_item denylist item = record {
    error = none;
    starts = if is_deployment_in_failure_state item denylist then none else some item;
  }

  -- `none` is the panic of the conversion.
  unfoldable pub deployment_reconcile :
      List (ScalingInfo Q) → Result (Deployment Q) → Option (Watched Q)
  unfolding watch_item
  deployment_reconcile denylist (err e) = some (record { error = some e; starts = none })
  deployment_reconcile denylist (ok deployment) = elim (convert_deployment_to_item deployment) [
    | none ↦ none
    | some item ↦ some (watch_item denylist item)
  ]

  unfoldable pub deployment_config_reconcile :
      List (ScalingInfo Q) → Result (DeploymentConfig Q) → Option (Watched Q)
  unfolding watch_item
  deployment_config_reconcile denylist (err e) = some (record { error = some e; starts = none })
  deployment_config_reconcile denylist (ok config) =
      elim (convert_deployment_config_to_item config) [
        | none ↦ none
        | some item ↦ some (watch_item denylist item)
      ]

  unfoldable pub redis_cluster_reconcile :
      List (ScalingInfo Q) → Result (RedisCluster Q) → Watched Q
  unfolding watch_item
  redis_cluster_reconcile denylist (err e) = record { error = some e; starts = none }
  redis_cluster_reconcile denylist (ok cluster) =
      watch_item denylist (convert_redis_cluster_to_item cluster)

-- An event of the recorder on the custom resource.
pub data Event : Type 0 where
  quota_exceeded : List Text → Event  -- with the namespaces
  dry_run : Text → Event
  no_changes : Event

-- What Reconcile returns: the seconds until it is to be called again, 0 for never, and the error;
-- with the events it recorded.
pub record Reconciled : Type 0 where
  pub requeue_after : ℕ
  pub error : Option Error
  pub events : List Event

-- constants.RetriggerControllerSeconds
abbrev pub retrigger_controller_seconds : ℕ
retrigger_controller_seconds = 15

abbrev pub failed : Error → Reconciled
failed e = record { requeue_after = 0; error = some e; events = [] }

abbrev pub entries : Option (Map NamespaceInfo) → Map NamespaceInfo
entries none = []
entries (some infos) = infos

-- The namespaces whose quotas are exceeded, in the order of the visit.
unfoldable pub exceeded : Map NamespaceInfo → List Text
exceeded [] = []
exceeded ((namespace, info) ∷ rest) =
    if not (info.ns_events.quota_exceeded == [])
    then info.ns_events.quota_exceeded ∷ exceeded rest
    else exceeded rest

-- The event of exceeded quotas, if there are any.
unfoldable pub quota_events : List Text → List Event
quota_events [] = []
quota_events (namespace ∷ namespaces) = quota_exceeded (namespace ∷ namespaces) ∷ []

-- The event of a dry run.
unfoldable pub dry_run_event : Text → Event
dry_run_event text = if text == [] then no_changes else dry_run text

-- ClusterScalingStateReconciler: the namespaces that would be scaled, or cannot be.
unfoldable pub concerned_text : Map NamespaceInfo → Text
concerned_text [] = []
concerned_text ((namespace, info) ∷ rest) =
    if info.scale_namespace || not (info.ns_events.quota_exceeded == [])
    then info.ns_events.dry_run_info ++ concerned_text rest
    else concerned_text rest

-- ClusterScalingStateDefinitionReconciler: all namespaces.
unfoldable pub whole_text : Map NamespaceInfo → Text
whole_text [] = []
whole_text ((namespace, info) ∷ rest) = info.ns_events.dry_run_info ++ whole_text rest

-- A dry run of the object that was read; one that is gone counts as not dry.
abbrev pub dry_of : Result Bool → Bool
dry_of (ok dry) = dry
dry_of (err e) = false

-- The namespaces that were reconciled without an error, the only ones that
-- ClusterScalingStateReconciler looks at.
unfoldable pub without_errors : Map NamespaceInfo → Map NamespaceInfo
without_errors [] = []
without_errors ((namespace, info) ∷ rest) = elim info.error [
  | none ↦ (namespace, info) ∷ without_errors rest
  | some e ↦ without_errors rest
]

unfoldable pub ignore_errors : Prepared → Prepared
unfolding without_errors
ignore_errors prepared = record prepared {
  ns_infos = elim prepared.ns_infos [ none ↦ none | some infos ↦ some (without_errors infos) ];
}

-- The end of Reconcile of the two cluster-wide controllers, `text` being that of a dry run, and `more`
-- whether to come back for another reason than the retrigger.
unfoldable pub finish_cluster : (Map NamespaceInfo → Text) → Bool → Bool → Prepared → Reconciled
finish_cluster text dry more prepared = elim prepared.error [
  | some e ↦ failed e
  | none ↦ elim prepared.ns_infos [
    | none ↦
        if prepared.retrigger
        then record {
          requeue_after = retrigger_controller_seconds;
          error = none;
          events = if dry then no_changes ∷ [] else [];
        }
        else record { requeue_after = 0; error = none; events = [] }
    | some infos ↦ record {
      requeue_after = if prepared.retrigger || more then retrigger_controller_seconds else 0;
      error = none;
      events = if dry then dry_run_event (text infos) ∷ [] else quota_events (exceeded infos);
    }
  ]
]

-- The events of ScalingStateReconciler, which has one namespace.
unfoldable pub namespace_events : Bool → Map NamespaceInfo → List Event
namespace_events dry [] = []
namespace_events dry ((namespace, info) ∷ rest) =
    let more = namespace_events dry rest in
    if dry
    then dry_run info.ns_events.dry_run_info ∷ more
    else if not (info.ns_events.quota_exceeded == [])
    then quota_exceeded (info.ns_events.quota_exceeded ∷ []) ∷ more
    else more

unfoldable pub finish_namespace : Bool → Prepared → Reconciled
finish_namespace dry prepared = elim prepared.error [
  | some e ↦ failed e
  | none ↦ record {
    requeue_after = 0;
    error = none;
    events = elim (entries prepared.ns_infos) [
      | [] ↦ if dry then no_changes ∷ [] else []
      | info ∷ rest ↦ namespace_events dry (info ∷ rest)
    ];
  }
]

-- `prepare` is PrepareForNamespaceReconcile with the client and the recorder, and `none` a panic.
module _ {A : Type 0} (prepare : Text → List State → Bool → Option (A × Prepared)) where
  unfoldable pub after_prepare : Option (A × Prepared) → (Prepared → Reconciled) → Option Reconciled
  after_prepare none finish = none
  after_prepare (some (a, prepared)) finish = some (finish prepared)

  unfoldable pub scaling_state_reconcile :
      Text → Result Bool → Result (List State) → Option Reconciled
  unfolding after_prepare
  scaling_state_reconcile namespace read (err e) = some (failed e)
  scaling_state_reconcile namespace read (ok definitions) =
      after_prepare (prepare namespace definitions (dry_of read)) (finish_namespace (dry_of read))

  unfoldable pub cluster_scaling_state_reconcile :
      Result Bool → Result (List State) → Option Reconciled
  unfolding after_prepare
  cluster_scaling_state_reconcile read (err e) = some (failed e)
  cluster_scaling_state_reconcile read (ok definitions) =
      after_prepare (prepare [] definitions (dry_of read))
        (λ prepared. finish_cluster concerned_text (dry_of read) false (ignore_errors prepared))

  -- `namespaces` is the answer to the list of all namespaces, which is not used, and `starting`
  -- whether the operator runs for less than 12 seconds.
  unfoldable pub cluster_scaling_state_definition_reconcile :
      Result Bool → Result (List State) → Result (Unit {0}) → Bool → Option Reconciled
  unfolding after_prepare
  cluster_scaling_state_definition_reconcile (err e) definitions namespaces starting =
      some (failed e)
  cluster_scaling_state_definition_reconcile (ok dry) (err e) namespaces starting = some (failed e)
  cluster_scaling_state_definition_reconcile (ok dry) (ok definitions) (err e) starting =
      some (failed e)
  cluster_scaling_state_definition_reconcile (ok dry) (ok definitions) (ok _) starting =
      after_prepare (prepare [] definitions dry) (finish_cluster whole_text dry starting)
