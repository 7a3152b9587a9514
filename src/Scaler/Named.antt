-- ===== src/Scaler/Named.antt =====
-- internal/resources/common.go: GetRefreshedScalingItem reads the workload that it is asked for.
use pre_scaling_operator.Common.{
  ℕ, Text, ◌==◌, ==_iff, Bool-cases, false, not, ◌&&◌, Option, none, some, List, [], ◌∷◌, Result,
  ok, err, ◌≡◌, ◌⊎◌, subst, if◌then◌else◌, inl, inr, refl, arith, ◌∙◌,
}
use pre_scaling_operator.Global.{ScalingInfo, no_item, same_key}
use pre_scaling_operator.Global.Denylist.{get_deployment_info, last_match, set_scaling_item}
use pre_scaling_operator.Global.Convert.{
  Deployment, DeploymentConfig, RedisCluster, convert_deployment_to_item,
  convert_deployment_config_to_item, convert_redis_cluster_to_item,
}
use pre_scaling_operator.Scaler.{
  Cluster, World, ItemType, item_type, read_item, refresh, after_read, asked, converted,
  get_refreshed_scaling_item,
}

-- The client answers with the object of the name and the namespace that it is asked for.
abbrev pub IsNamed : {Q : Type 0} → Cluster Q → Type 0
IsNamed {Q} cluster =
    ((n : ℕ) (name namespace : Text) (d : Deployment Q)
      → cluster.deployment n name namespace ≡ ok d
      → (d.name ≡ name) × (d.namespace ≡ namespace))
    × ((n : ℕ) (name namespace : Text) (d : DeploymentConfig Q)
        → cluster.deployment_config n name namespace ≡ ok d
        → (d.name ≡ name) × (d.namespace ≡ namespace))
    × ((n : ℕ) (name namespace : Text) (r : RedisCluster Q)
        → cluster.redis_cluster n name namespace ≡ ok r
        → (r.name ≡ name) × (r.namespace ≡ namespace))

module _ {Q : Type 0} where
  -- The two are one workload.
  abbrev pub Same : ScalingInfo Q → ScalingInfo Q → Type 0
  Same a b = (a.name ≡ b.name) × (a.namespace ≡ b.namespace)

  -- A value read for a name and a namespace.
  abbrev Has : Text → Text → Option (Result (ScalingInfo Q)) → Type 0
  Has name namespace none = Unit
  Has name namespace (some (err e)) = Unit
  Has name namespace (some (ok x)) = (x.name ≡ name) × (x.namespace ≡ namespace)

  abbrev SameOrUnnamed : ScalingInfo Q → ScalingInfo Q → Type 0
  SameOrUnnamed found item = Same found item ⊎ (found.name ≡ [])

  matched :
      (item found value : ScalingInfo Q)
      → SameOrUnnamed found item
      → SameOrUnnamed (if same_key item value then value else found) item
  matched item found value s = elim (Bool-cases (same_key item value)) [
    | inl same ↦ rw same (
        inl (
          ground (arith, ==_iff item.name value.name, ==_iff item.namespace value.namespace),
          ground (arith, ==_iff item.name value.name, ==_iff item.namespace value.namespace),
        ))
    | inr other ↦ rw other s
  ]

  last_match-Same :
      (item found : ScalingInfo Q) (items : List (ScalingInfo Q))
      → SameOrUnnamed found item
      → SameOrUnnamed (last_match item found items) item
  unfolding last_match
  last_match-Same item found [] s = s
  last_match-Same item found (value ∷ items) s =
      last_match-Same item (if same_key item value then value else found) items
        (matched item found value s)

  pub get_deployment_info-Same :
      (item : ScalingInfo Q) (items : List (ScalingInfo Q))
      → Same (get_deployment_info item items).0 item
  unfolding get_deployment_info
  get_deployment_info-Same item items =
      let found = last_match item no_item items in
      elim (last_match-Same item no_item items (inr refl)) [
        | inl same ↦ elim (Bool-cases (not (found.name == []) && not (found.namespace == []))) [
          | inl named ↦ rw named same
          | inr unnamed ↦ rw unnamed (refl, refl)
        ]
        | inr empty ↦
            let e : (not (found.name == []) && not (found.namespace == [])) ≡ false =
              ground (arith, ==_iff found.name []) in
            rw e (refl, refl)
      ]

module _ {Q : Type 0} (cluster : Cluster Q) where
  -- A converter keeps the name and the namespace.
  abbrev Converts : {A : Type 0} → (A → Text) → (A → Text) → (A → Option (ScalingInfo Q)) → Type 0
  Converts {A} name_of place_of convert =
      (a : A) → Has (name_of a) (place_of a) (converted cluster convert (ok a))

  deployment-Converts :
      Converts {A = Deployment Q} (λ d. d.name) (λ d. d.namespace) convert_deployment_to_item
  unfolding convert_deployment_to_item
  deployment-Converts d = ground arith

  config-Converts :
      Converts {A = DeploymentConfig Q}
        (λ d. d.name)
        (λ d. d.namespace)
        convert_deployment_config_to_item
  unfolding convert_deployment_config_to_item
  config-Converts d = ground arith

  redis-Converts :
      Converts {A = RedisCluster Q}
        (λ r. r.name)
        (λ r. r.namespace)
        (λ r. some (convert_redis_cluster_to_item r))
  unfolding convert_redis_cluster_to_item
  redis-Converts r = (refl, refl)

  answer-Has :
      {A : Type 0} (name_of place_of : A → Text) (convert : A → Option (ScalingInfo Q))
      (name namespace : Text) (answer : Result A)
      → Converts name_of place_of convert
      → ((a : A) → answer ≡ ok a → (name_of a ≡ name) × (place_of a ≡ namespace))
      → Has name namespace (converted cluster convert answer)
  answer-Has name_of place_of convert name namespace (err e) keeps named = tt
  answer-Has name_of place_of convert name namespace (ok a) keeps named =
      let (n, s) = named a refl in
      subst (λ t. Has t namespace (converted cluster convert (ok a))) n
        (subst (λ t. Has (name_of a) t (converted cluster convert (ok a))) s (keeps a))

  module _ (named : IsNamed cluster) where
    read_item-Has :
        (type : ItemType) (n : ℕ) (name namespace : Text)
        → Has name namespace (read_item cluster type n name namespace)
    unfolding read_item
    read_item-Has ItemType.a_deployment n name namespace =
        answer-Has (λ (d : Deployment Q). d.name) (λ d. d.namespace) convert_deployment_to_item name
          namespace (cluster.deployment n name namespace) deployment-Converts
          (named.0 n name namespace)
    read_item-Has ItemType.a_deployment_config n name namespace =
        answer-Has (λ (d : DeploymentConfig Q). d.name) (λ d. d.namespace)
          convert_deployment_config_to_item name namespace
          (cluster.deployment_config n name namespace) config-Converts (named.1 n name namespace)
    read_item-Has ItemType.a_redis_cluster n name namespace =
        answer-Has (λ (r : RedisCluster Q). r.name) (λ r. r.namespace)
          (λ r. some (convert_redis_cluster_to_item r)) name namespace
          (cluster.redis_cluster n name namespace) redis-Converts (named.2 n name namespace)
    read_item-Has ItemType.unknown n name namespace = tt

    -- What is read is the workload.
    abbrev pub ReadsSame : ScalingInfo Q → Option (World Q × Result (ScalingInfo Q)) → Type 0
    ReadsSame item none = Unit
    ReadsSame item (some (w, err e)) = Unit
    ReadsSame item (some (w, ok fresh)) = Same fresh item

    after_read-ReadsSame :
        (item known : ScalingInfo Q) (w : World Q) (answer : Result (ScalingInfo Q))
        → Same known item
        → Has known.name known.namespace (some answer)
        → ReadsSame item (some (after_read cluster known w answer))
    unfolding after_read refresh
    after_read-ReadsSame item known w (err e) same has = tt
    after_read-ReadsSame item known w (ok fresh) same has =
        let read = record fresh { is_being_scaled = known.is_being_scaled } in
        let (n, s) =
          get_deployment_info-Same read
            (set_scaling_item read read.failure read.failure_message known.desired_replicas
              w.denylist).1 in
        (n ∙ has.0 ∙ same.0, s ∙ has.1 ∙ same.1)

    pub get_refreshed-ReadsSame :
        (item : ScalingInfo Q) (w : World Q)
        → ReadsSame item (get_refreshed_scaling_item cluster item w)
    unfolding get_refreshed_scaling_item
    get_refreshed-ReadsSame item w =
        let known = (get_deployment_info item w.denylist).0 in
        let type = item_type known.item_type_name in
        elim (read_item cluster type w.calls known.name known.namespace)
            as (λ o.
              Has known.name known.namespace o
              → ReadsSame item (elim o [
                | none ↦ none
                | some answer ↦ some (after_read cluster known (asked cluster type w) answer)
              ])) [
                | none ↦ λ h. tt
                | some answer ↦ λ h.
                    after_read-ReadsSame item known (asked cluster type w) answer
                      (get_deployment_info-Same item w.denylist) h
              ]
          (read_item-Has type w.calls known.name known.namespace)
