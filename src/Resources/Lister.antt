-- ===== src/Resources/Lister.antt =====
-- internal/resources/common.go: ScalingItemNamespaceLister, the workloads that opted in.
use pre_scaling_operator.Common.{
  Text, Bool, true, false, Option, none, some, List, [], ◌∷◌, ◌++◌, map, Result, ok, err,
}
use pre_scaling_operator.Global.{ScalingInfo}
use pre_scaling_operator.Global.Convert.{
  Deployment, DeploymentConfig, RedisCluster, convert_deployment_to_item,
  convert_deployment_config_to_item, convert_redis_cluster_to_item,
}

-- What the client lists of the opted in objects of a namespace, or of all where it is empty, and
-- whether the cluster has the two optional kinds (constants.OpenshiftCluster, RedisCluster).
pub record Listing (Q : Type 0) : Type 0 where
  pub deployments : Text → Result (List (Deployment Q))
  pub deployment_configs : Text → Result (List (DeploymentConfig Q))
  pub redis_clusters : Text → Result (List (RedisCluster Q))
  pub openshift : Bool
  pub redis : Bool

-- The objects of a kind; none where the cluster does not have it.
unfoldable pub of_kind : {A : Type 0} → Bool → Result (List A) → Result (List A)
of_kind true listed = listed
of_kind false listed = ok []

module _ {Q : Type 0} where
  -- The items of the objects; `none` is a panic of a conversion.
  unfoldable pub convert_all :
      {A : Type 0} → (A → Option (ScalingInfo Q)) → List A → Option (List (ScalingInfo Q))
  convert_all convert [] = some []
  convert_all convert (a ∷ rest) = elim (convert a) [
    | none ↦ none
    | some item ↦ elim (convert_all convert rest) [ none ↦ none | some items ↦ some (item ∷ items) ]
  ]

  both :
      Option (List (ScalingInfo Q)) → Option (List (ScalingInfo Q)) → Option (List (ScalingInfo Q))
  both none more = none
  both (some items) none = none
  both (some items) (some more) = some (items ++ more)

  unfoldable pub converted_items :
      List (Deployment Q)
      → List (DeploymentConfig Q)
      → List (RedisCluster Q)
      → Option (List (ScalingInfo Q))
  unfolding convert_all both
  converted_items deployments deployment_configs redis_clusters =
      both (convert_all convert_deployment_to_item deployments) (
        both (convert_all convert_deployment_config_to_item deployment_configs)
          (some (map convert_redis_cluster_to_item redis_clusters)))

  -- Once the lists are there, the first error counts.
  unfoldable pub list_kinds :
      Result (List (Deployment Q))
      → Result (List (DeploymentConfig Q))
      → Result (List (RedisCluster Q))
      → Option (Result (List (ScalingInfo Q)))
  unfolding converted_items
  list_kinds (err e) configs clusters = some (err e)
  list_kinds (ok deployments) (err e) clusters = some (err e)
  list_kinds (ok deployments) (ok configs) (err e) = some (err e)
  list_kinds (ok deployments) (ok configs) (ok clusters) =
      elim (converted_items deployments configs clusters) [
        | none ↦ none
        | some items ↦ some (ok items)
      ]

  unfoldable pub scaling_item_namespace_lister :
      Listing Q → Text → Option (Result (List (ScalingInfo Q)))
  unfolding list_kinds of_kind
  scaling_item_namespace_lister listing namespace =
      list_kinds (listing.deployments namespace)
        (of_kind listing.openshift (listing.deployment_configs namespace))
        (of_kind listing.redis (listing.redis_clusters namespace))
