-- ===== src/Validations/Discovery.antt =====
-- internal/validations/cluster_validation.go: which types of objects the cluster has; and
-- pkg/utils/client/client.go, the client that asks it.
pub mod Found
use pre_scaling_operator.Common.{
  Text, bytes, ◌==◌, ==_iff, contains, Bool, true, false, ◌||◌, Option, none, some, List, [], ◌∷◌,
  if◌then◌else◌, Error, message, Result, ok, err, ◌>>=◌, ◌≡◌, ◌↔◌, ◌⊎◌, inl, inr, refl, arith,
  Bool-cases,
}

-- constants.ResourceNotFound
abbrev pub resource_not_found : Text
resource_not_found = bytes "the server could not find the requested resource"

-- constants.OpenshiftObjectGroup
abbrev pub openshift_object_group : Text
openshift_object_group = bytes "apps.openshift.io/v1"

-- constants.RedisClusterObjectGroup
abbrev pub redis_cluster_object_group : Text
redis_cluster_object_group = bytes "redis.containersolutions.com/v1alpha1"

-- constants.OpenshiftResources
abbrev pub openshift_resources : Text
openshift_resources = bytes "DeploymentConfig"

-- What the libraries and the cluster answer: the loading of the configuration, the making of the
-- client, and the kinds of the resources that a group and version has.
pub record Discovery : Type 0 where
  pub client_config : Result (Unit {0})
  pub new_for_config : Result (Unit {0})
  pub server_resources : Text → Result (List Text)

unfoldable pub get_client_set : Discovery → Result (Unit {0})
get_client_set d = d.client_config >>= λ config. d.new_for_config

-- A group that is missing is no error.
unfoldable pub missing_or_error : Error → Bool × Option Error
missing_or_error e =
    if contains (message e) resource_not_found then (false, none) else (false, some e)

unfoldable pub redis_cluster_installed : Discovery → Bool × Option Error
unfolding get_client_set missing_or_error
redis_cluster_installed d = elim (get_client_set d) [
  | err e ↦ (false, some e)
  | ok client ↦ elim (d.server_resources redis_cluster_object_group) [
    | err e ↦ missing_or_error e
    | ok kinds ↦ (true, none)
  ]
]

-- The loop over the resources of the group.
unfoldable pub any_deployment_config : List Text → Bool
any_deployment_config [] = false
any_deployment_config (kind ∷ kinds) = kind == openshift_resources || any_deployment_config kinds

unfoldable pub openshift_cluster_check : Discovery → Bool × Option Error
unfolding get_client_set missing_or_error any_deployment_config
openshift_cluster_check d = elim (get_client_set d) [
  | err e ↦ (false, some e)
  | ok client ↦ elim (d.server_resources openshift_object_group) [
    | err e ↦ missing_or_error e
    | ok kinds ↦ (any_deployment_config kinds, none)
  ]
]
