-- ===== src/Global/Registry.antt =====
-- The deny list as a map from the name and the namespace of a workload to its entry.
use pre_scaling_operator.Common.{
  Bool, true, false, ◌&&◌, ◌≡◌, ◌≢◌, refl, Option, none, some, List, [], ◌∷◌, ◌++◌, Text, ◌==◌,
  ==_iff, arith, if◌then◌else◌, inl, inr, Option-cases, ==_refl, ℤ,
}
use pre_scaling_operator.Global.{ScalingInfo, no_item, same_key}
use pre_scaling_operator.Global.Denylist.{
  update, is_in_concurrent_list, update_or_append, last_match, get_deployment_info,
  set_scaling_item,
}

module _ {Q : Type 0} where
  -- The abstract view: the entry of a workload, if it has one.
  unfoldable pub find : Text → Text → List (ScalingInfo Q) → Option (ScalingInfo Q)
  find name namespace [] = none
  find name namespace (value ∷ items) =
      if name == value.name && namespace == value.namespace
      then some value
      else find name namespace items

  abbrev pub entry : ScalingInfo Q → List (ScalingInfo Q) → Option (ScalingInfo Q)
  entry item = find item.name item.namespace

  -- No two entries have one key.
  abbrev pub UniqueItems : List (ScalingInfo Q) → Type 0
  UniqueItems [] = Unit
  UniqueItems (value ∷ items) = (entry value items ≡ none) × UniqueItems items

  abbrev pub is_some : Option (ScalingInfo Q) → Bool
  is_some none = false
  is_some (some v) = true

  pub is_in_concurrent_list-find :
      (item : ScalingInfo Q) (items : List (ScalingInfo Q))
      → is_in_concurrent_list item items ≡ is_some (entry item items)
  unfolding is_in_concurrent_list find
  is_in_concurrent_list-find item [] = refl
  is_in_concurrent_list-find item (value ∷ items) =
      ground (arith, is_in_concurrent_list-find item items)

  pub find-update :
      (name namespace : Text) (item : ScalingInfo Q) (items : List (ScalingInfo Q))
      → find name namespace (update item items) ≡ (
          if name == item.name && namespace == item.namespace && is_some (entry item items)
          then some item
          else find name namespace items)
  unfolding update find
  find-update name namespace item [] = ground arith
  find-update name namespace item (value ∷ items) = ground (
    arith,
    ==_iff name item.name,
    ==_iff namespace item.namespace,
    ==_iff name value.name,
    ==_iff namespace value.namespace,
    ==_iff item.name value.name,
    ==_iff item.namespace value.namespace,
    find-update name namespace item items,
  )

  pub find-append :
      (name namespace : Text) (items : List (ScalingInfo Q)) (item : ScalingInfo Q)
      → find name namespace (items ++ item ∷ []) ≡ (
          if is_some (find name namespace items)
          then find name namespace items
          else if name == item.name && namespace == item.namespace
          then some item
          else none)
  unfolding find
  find-append name namespace [] item = refl
  find-append name namespace (value ∷ items) item =
      ground (arith, find-append name namespace items item)

  -- UpdateOrAppend is insertion into the map: the entry of the item's own workload becomes the
  -- item, whether or not there was one, and every other workload keeps its entry.
  pub find-update_or_append :
      (name namespace : Text) (item : ScalingInfo Q) (items : List (ScalingInfo Q))
      → find name namespace (update_or_append item items) ≡ (
          if name == item.name && namespace == item.namespace
          then some item
          else find name namespace items)
  unfolding update_or_append
  find-update_or_append name namespace item items = ground (
    arith,
    is_in_concurrent_list-find item items,
    find-update name namespace item items,
    find-append name namespace (update item items) item,
    ==_iff name item.name,
    ==_iff namespace item.namespace,
  )

  pub update-UniqueItems :
      (item : ScalingInfo Q) (items : List (ScalingInfo Q))
      → UniqueItems items
      → UniqueItems (update item items)
  unfolding update
  update-UniqueItems item [] u = tt
  update-UniqueItems item (value ∷ items) u = ground (
    arith,
    update-UniqueItems item items u.1,
    find-update value.name value.namespace item items,
    find-update item.name item.namespace item items,
    ==_iff item.name value.name,
    ==_iff item.namespace value.namespace,
    ==_iff value.name item.name,
    ==_iff value.namespace item.namespace,
  )

  pub append-UniqueItems :
      (items : List (ScalingInfo Q)) (item : ScalingInfo Q)
      → UniqueItems items
      → entry item items ≡ none
      → UniqueItems (items ++ item ∷ [])
  unfolding find
  append-UniqueItems [] item u h = (refl, tt)
  append-UniqueItems (value ∷ items) item u h = ground (
    arith,
    append-UniqueItems items item u.1,
    find-append value.name value.namespace items item,
    ==_iff item.name value.name,
    ==_iff item.namespace value.namespace,
    ==_iff value.name item.name,
    ==_iff value.namespace item.namespace,
  )

  -- UpdateOrAppend keeps the keys of the list distinct.
  pub update_or_append-UniqueItems :
      (item : ScalingInfo Q) (items : List (ScalingInfo Q))
      → UniqueItems items
      → UniqueItems (update_or_append item items)
  unfolding update_or_append
  update_or_append-UniqueItems item items u = ground (
    arith,
    is_in_concurrent_list-find item items,
    update-UniqueItems item items u,
    find-update item.name item.namespace item items,
    append-UniqueItems (update item items) item (update-UniqueItems item items u),
  )

  last_match-find :
      (item result : ScalingInfo Q) (items : List (ScalingInfo Q))
      → UniqueItems items
      → last_match item result items
        ≡ elim (entry item items) [ none ↦ result | some value ↦ value ]
  unfolding last_match find
  last_match-find item result [] u = refl
  last_match-find item result (value ∷ items) u = ground (
    arith,
    last_match-find item value items u.1,
    last_match-find item result items u.1,
    ==_iff item.name value.name,
    ==_iff item.namespace value.namespace,
  )

  pub entry_key :
      (item : ScalingInfo Q) (items : List (ScalingInfo Q)) (value : ScalingInfo Q)
      → entry item items ≡ some value
      → (item.name ≡ value.name) × (item.namespace ≡ value.namespace)
  unfolding find
  entry_key item [] value h = ground arith
  entry_key item (v ∷ items) value h = ground (
    arith,
    entry_key item items value,
    ==_iff item.name v.name,
    ==_iff item.namespace v.namespace,
  )

  -- What GetDeploymentInfoFromList gives for an entry, or the lack of one.
  abbrev pub or_passed_in : ScalingInfo Q → Option (ScalingInfo Q) → ScalingInfo Q × Bool
  or_passed_in item none = (item, false)
  or_passed_in item (some value) = (value, true)

  -- On a list with distinct keys GetDeploymentInfoFromList is a lookup of the item's workload in
  -- the map, for a workload that has a name and a namespace.
  pub get_deployment_info-find :
      (item : ScalingInfo Q) (items : List (ScalingInfo Q))
      → UniqueItems items
      → item.name ≢ []
      → item.namespace ≢ []
      → get_deployment_info item items ≡ or_passed_in item (entry item items)
  unfolding get_deployment_info
  get_deployment_info-find item items u named placed = elim (Option-cases (entry item items)) [
    | inl e ↦
        rw (e, last_match-find item no_item items u)
          (ground (arith, e, last_match-find item no_item items u, ==_refl []))
    | inr (value, e) ↦ ground (
      arith,
      last_match-find item no_item items u,
      entry_key item items value e,
      ==_iff value.name [],
      ==_iff value.namespace [],
    )
  ]

  -- On a list with distinct keys, SetScalingItemOnList followed by GetDeploymentInfoFromList for
  -- a workload that has a name and a namespace: the same workload gets the item with the failure,
  -- the message and the desired replicas that were set, another one gets what it got before, and
  -- the keys stay distinct.
  pub get_deployment_info-set_scaling_item :
      (item other : ScalingInfo Q) (failure : Bool) (message : Text) (desired : ℤ)
      (items : List (ScalingInfo Q))
      → UniqueItems items
      → other.name ≢ []
      → other.namespace ≢ []
      → let (item', items') = set_scaling_item item failure message desired items in
        (get_deployment_info other items'
          ≡ (if same_key other item then (item', true) else get_deployment_info other items))
        × (item' ≡ record item {
          failure = failure;
          failure_message = message;
          desired_replicas = desired;
        })
        × UniqueItems items'
  unfolding set_scaling_item
  get_deployment_info-set_scaling_item item other failure message desired items u named placed =
      let item' : ScalingInfo Q = record item {
        failure = failure;
        failure_message = message;
        desired_replicas = desired;
      } in
      let u' = update_or_append-UniqueItems item' items u in
      (
        ground (
          arith,
          get_deployment_info-find other (update_or_append item' items) u' named placed,
          get_deployment_info-find other items u named placed,
          find-update_or_append other.name other.namespace item' items,
        ),
        refl,
        u',
      )
