-- ===== src/Scaler.antt =====
-- internal/resources/common.go and scaler.go: reading a workload from the cluster anew, and one change of its
-- replicas. What the cluster answers may change with every call.
pub mod Refresh
pub mod Named
pub mod Attempts
pub mod Changes
pub mod Waiting
pub mod Loops
use pre_scaling_operator.Common.{
  ℕ, ◌+◌, ℤ, negsuc, leb_ℤ, Text, bytes, ◌==◌, ◌++◌, Map, lookup, Bool, true, false, not, ◌||◌,
  Option, none, some, List, [], ◌∷◌, if◌then◌else◌, Error, plain, Result, ok, err,
}
use pre_scaling_operator.Global.{ScalingInfo, no_item}
use pre_scaling_operator.Global.Denylist.{get_deployment_info, set_scaling_item}
use pre_scaling_operator.Global.Convert.{
  Deployment, DeploymentConfig, RedisCluster, convert_deployment_to_item,
  convert_deployment_config_to_item, convert_redis_cluster_to_item,
}
use pre_scaling_operator.Validations.{optin_label_exists}

-- What the client answers to the call with the number `n`, for a name and a namespace.
pub record Cluster (Q : Type 0) : Type 0 where
  pub deployment : ℕ → Text → Text → Result (Deployment Q)
  pub deployment_config : ℕ → Text → Text → Result (DeploymentConfig Q)
  pub redis_cluster : ℕ → Text → Text → Result (RedisCluster Q)
  pub updated : ℕ → Result (Unit {0})

-- An update that was sent: the workload, its type, and the replicas that it is to have.
pub record Change : Type 0 where
  pub item_type_name : Text
  pub name : Text
  pub namespace : Text
  pub replicas : ℤ

-- An event of the recorder, on the object that it is about.
pub data Event : Type 0 where
  scaled : Text → Text → ℤ → Event  -- name, namespace, desired replicas
  scale_error : Text → Text → Text → ℤ → ℤ → Event  -- with the error, and the replicas it is stuck on

pub record World (Q : Type 0) : Type 0 where
  pub denylist : List (ScalingInfo Q)
  pub calls : ℕ  -- of the client so far
  pub changes : List Change  -- the latest first
  pub events : List Event  -- the latest first

-- ScalingItemType.ItemTypeName, as the code compares it.
pub data ItemType : Type 0 where
  a_deployment_config : ItemType
  a_deployment : ItemType
  a_redis_cluster : ItemType
  unknown : ItemType

unfoldable pub item_type : Text → ItemType
item_type name =
    if name == bytes "DeploymentConfig"
    then a_deployment_config
    else if name == bytes "Deployment"
    then a_deployment
    else if name == bytes "RedisCluster"
    then a_redis_cluster
    else unknown

-- OptinLabel is there, is true and was parsed.
unfoldable pub opted_in : Bool × Option Error → Bool
opted_in (exists, none) = exists
opted_in (exists, some e) = false

module _ {Q : Type 0} where
  -- The refresh of the deny list with what was read, `known` being what the list had.
  unfoldable pub refresh :
      ScalingInfo Q → ScalingInfo Q → List (ScalingInfo Q) → ScalingInfo Q × List (ScalingInfo Q)
  refresh known fresh denylist =
      let item = record fresh { is_being_scaled = known.is_being_scaled } in
      let denylist' =
        (set_scaling_item item item.failure item.failure_message known.desired_replicas
          denylist).1 in
      ((get_deployment_info item denylist').0, denylist')

  -- The guard of DoScaling: an autoscaled workload is not scaled down.
  unfoldable pub left_to_autoscaler : ScalingInfo Q → ℤ → Bool
  left_to_autoscaler item replicas =
      elim (lookup (bytes "scaler/allow-autoscaling") item.annotations) [
        | none ↦ false
        | some v ↦ if v == bytes "true" then leb_ℤ replicas item.spec_replica else false
      ]

module _ {Q : Type 0} (cluster : Cluster Q) where
  abbrev pub called : World Q → World Q
  called w = record w { calls = w.calls + 1 }

  -- The world after the read; an unknown type is not asked for.
  asked : ItemType → World Q → World Q
  asked a_deployment_config w = called w
  asked a_deployment w = called w
  asked a_redis_cluster w = called w
  asked unknown w = w

  -- A converted object; the outer `none` is a panic.
  abbrev converted :
      {A : Type 0} → (A → Option (ScalingInfo Q)) → Result A → Option (Result (ScalingInfo Q))
  converted convert (err e) = some (err e)
  converted convert (ok a) = elim (convert a) [ none ↦ none | some item ↦ some (ok item) ]

  -- The object as the cluster has it, by the type of the item.
  unfoldable pub read_item : ItemType → ℕ → Text → Text → Option (Result (ScalingInfo Q))
  read_item a_deployment_config n name namespace =
      converted convert_deployment_config_to_item (cluster.deployment_config n name namespace)
  read_item a_deployment n name namespace =
      converted convert_deployment_to_item (cluster.deployment n name namespace)
  read_item a_redis_cluster n name namespace =
      converted (λ r. some (convert_redis_cluster_to_item r))
        (cluster.redis_cluster n name namespace)
  read_item unknown n name namespace =
      some (err (plain (bytes "type of the item could not be determined!")))

  after_read : ScalingInfo Q → World Q → Result (ScalingInfo Q) → World Q × Result (ScalingInfo Q)
  unfolding refresh
  after_read known w (err e) = (w, err e)
  after_read known w (ok fresh) =
      let (item, denylist') = refresh known fresh w.denylist in
      (record w { denylist = denylist' }, ok item)

  unfoldable pub get_refreshed_scaling_item :
      ScalingInfo Q → World Q → Option (World Q × Result (ScalingInfo Q))
  unfolding after_read item_type read_item asked
  get_refreshed_scaling_item deployment_info w =
      let known = (get_deployment_info deployment_info w.denylist).0 in
      let type = item_type known.item_type_name in
      elim (read_item type w.calls known.name known.namespace) [
        | none ↦ none
        | some answer ↦ some (after_read known (asked type w) answer)
      ]

  sent : ScalingInfo Q → World Q → World Q × Result (Unit {0})
  sent item w = (
    record w {
      calls = w.calls + 1;
      changes =
          record {
            item_type_name = item.item_type_name;
            name = item.name;
            namespace = item.namespace;
            replicas = item.spec_replica;
          }
          ∷ w.changes;
    },
    cluster.updated w.calls,
  )

  -- The update is sent once the object was read again.
  after_get : {A : Type 0} → ScalingInfo Q → World Q → Result A → World Q × Result (Unit {0})
  unfolding sent
  after_get item w (err e) = (w, err e)
  after_get item w (ok object) = sent item w

  update_by_type : ItemType → ScalingInfo Q → World Q → World Q × Result (Unit {0})
  unfolding after_get
  update_by_type a_deployment_config item w =
      after_get item (called w) (cluster.deployment_config w.calls item.name item.namespace)
  update_by_type a_deployment item w =
      after_get item (called w) (cluster.deployment w.calls item.name item.namespace)
  update_by_type a_redis_cluster item w =
      after_get item (called w) (cluster.redis_cluster w.calls item.name item.namespace)
  update_by_type unknown item w =
      (w, err (plain (bytes "type of the item could not be determined! No update")))

  unfoldable pub update_scaling_item : ScalingInfo Q → World Q → World Q × Result (Unit {0})
  unfolding update_by_type item_type
  update_scaling_item item w = update_by_type (item_type item.item_type_name) item w

  attempt_fresh : ScalingInfo Q → ℤ → World Q → World Q × Result (Unit {0})
  unfolding update_scaling_item opted_in optin_label_exists
  attempt_fresh fresh replicas w =
      let item = record fresh { spec_replica = replicas } in
      if item.failure
      then (
        w,
        err (
            plain (
              bytes "Error scaling the Deployment!. The Deployment is in failure state! Message: "
              ++ item.failure_message)),
      )
      else if not (opted_in (optin_label_exists item.labels))
      then (w, err (plain (bytes "Error scaling the Deployment! The deployment is opted out!")))
      else update_scaling_item item w

  after_refresh : ℤ → World Q → Result (ScalingInfo Q) → World Q × Result (Unit {0})
  unfolding attempt_fresh
  after_refresh replicas w (err e) = (w, err e)
  after_refresh replicas w (ok fresh) = attempt_fresh fresh replicas w

  -- The function that DoScaling retries, after its sleep of a second; `none` is a panic.
  unfoldable pub scaling_attempt :
      ScalingInfo Q → ℤ → World Q → Option (World Q × Result (Unit {0}))
  unfolding get_refreshed_scaling_item after_refresh
  scaling_attempt item replicas w = elim (get_refreshed_scaling_item item w) [
    | none ↦ none
    | some (w', answer) ↦ some (after_refresh replicas w' answer)
  ]

  -- `retry` is retry.RetryOnConflict with the default back-off, and with the second that each attempt
  -- sleeps first: other goroutines may change the deny list in these pauses.
  unfoldable pub do_scaling :
      ((World Q → Option (World Q × Result (Unit {0})))
        → World Q
        → Option (World Q × Result (Unit {0})))
      → ScalingInfo Q
      → ℤ
      → World Q
      → Option (World Q × Result (Unit {0}))
  unfolding scaling_attempt left_to_autoscaler
  do_scaling retry item replicas w =
      if left_to_autoscaler item replicas
      then some (w, ok tt)
      else retry (scaling_attempt item replicas) w

  set_refreshed : Bool → World Q × Result (ScalingInfo Q) → World Q × (ScalingInfo Q × Option Error)
  unfolding set_scaling_item
  set_refreshed failure (w, err e) =
      let (item, denylist) = set_scaling_item no_item failure [] (negsuc 0) w.denylist in
      (record w { denylist = denylist }, (item, some e))
  set_refreshed failure (w, ok fresh) =
      let (item, denylist) = set_scaling_item fresh failure [] (negsuc 0) w.denylist in
      (record w { denylist = denylist }, (item, none))

  -- GetRefreshedScalingItemSetError, which nothing calls: where the refresh fails, the empty item is
  -- put on the deny list.
  unfoldable pub get_refreshed_scaling_item_set_error :
      ScalingInfo Q → Bool → World Q → Option (World Q × (ScalingInfo Q × Option Error))
  unfolding set_refreshed
  get_refreshed_scaling_item_set_error deployment_info failure w =
      elim (get_refreshed_scaling_item deployment_info w) [
        | none ↦ none
        | some answer ↦ some (set_refreshed failure answer)
      ]
