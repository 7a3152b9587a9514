-- ===== src/Reconciler/Rounds.antt =====
-- What a round of ReconcileNamespace does, and what the loop keeps.
use pre_scaling_operator.Common.{
  ℕ, suc, ℤ, negsuc, eqb_ℤ, eqb_ℤ_iff, Bool, true, false, not, ◌&&◌, ◌||◌, Option, none, some, List,
  [], ◌∷◌, Text, ◌==◌, ==_iff, if◌then◌else◌, ◌≡◌, ◌≢◌, refl, arith, Bool-cases, Option-cases, inl,
  inr, ap, ◌∙◌,
}
use pre_scaling_operator.Global.{ScalingInfo}
use pre_scaling_operator.Global.Denylist.{
  get_deployment_info, set_scaling_item, is_deployment_in_failure_state,
}
use pre_scaling_operator.Global.Registry.{
  find, entry, UniqueItems, is_some, or_passed_in, get_deployment_info-find, find-update_or_append,
  update_or_append-UniqueItems, entry_key,
}
use pre_scaling_operator.Reconciler.{redirect, reconcile_item, reconcile_namespace}

module _ {Q : Type 0} where
  -- The item is to have other replicas than it has, and it is known how many.
  abbrev pub needs_scaling : ScalingInfo Q → Bool
  needs_scaling item =
      not (eqb_ℤ item.spec_replica item.desired_replicas || eqb_ℤ item.desired_replicas (negsuc 0))

  abbrev pub redirected : ℤ → Option (ScalingInfo Q) → Option (ScalingInfo Q)
  redirected desired none = none
  redirected desired (some value) = some (record value { desired_replicas = desired })

  redirect_lem :
      (name namespace : Text) (value item : ScalingInfo Q) (d : List (ScalingInfo Q))
      → UniqueItems d
      → entry item d ≡ some value
      → (find name namespace (redirect value item d) ≡ (
          if name == item.name && namespace == item.namespace
          then redirected item.desired_replicas (entry item d)
          else find name namespace d))
        × UniqueItems (redirect value item d)
  unfolding redirect set_scaling_item
  redirect_lem name namespace value item d u e =
      let value' : ScalingInfo Q = record value { desired_replicas = item.desired_replicas } in
      let (k, l) = entry_key item d value e in
      elim (Bool-cases (eqb_ℤ value.desired_replicas item.desired_replicas)) [
        | inl same ↦ rw same (
          ground (
            arith,
            e,
            ==_iff name item.name,
            ==_iff namespace item.namespace,
            eqb_ℤ_iff value.desired_replicas item.desired_replicas,
            same,
          ),
          u,
        )
        | inr differs ↦ rw differs (
          ground (arith, e, k, l, find-update_or_append name namespace value' d),
          update_or_append-UniqueItems value' d u,
        )
      ]

  untouched :
      (name namespace : Text) (item : ScalingInfo Q) (d : List (ScalingInfo Q))
      → entry item d ≡ none
      → find name namespace d
        ≡ (if name == item.name && namespace == item.namespace then none else find name namespace d)
  untouched name namespace item d e =
      ground (arith, e, ==_iff name item.name, ==_iff namespace item.namespace)

  looked_up :
      (item : ScalingInfo Q) (d : List (ScalingInfo Q)) (o : Option (ScalingInfo Q))
      → UniqueItems d
      → item.name ≢ []
      → item.namespace ≢ []
      → entry item d ≡ o
      → get_deployment_info item d ≡ or_passed_in item o
  looked_up item d o u named placed e =
      get_deployment_info-find item d u named placed ∙ ap (or_passed_in item) e

  reconcile_item-idle :
      (item : ScalingInfo Q) (d : List (ScalingInfo Q))
      → needs_scaling item ≡ false
      → reconcile_item item d ≡ (d, false)
  unfolding reconcile_item
  reconcile_item-idle item d h =
      let idle : (eqb_ℤ item.spec_replica item.desired_replicas
            || eqb_ℤ item.desired_replicas (negsuc 0))
          ≡ true =
        ground (arith, h) in
      rw idle

  reconcile_item-listed :
      (item value : ScalingInfo Q) (d : List (ScalingInfo Q))
      → needs_scaling item ≡ true
      → get_deployment_info item d ≡ (value, true)
      → reconcile_item item d ≡ (redirect value item d, false)
  unfolding reconcile_item
  reconcile_item-listed item value d h e =
      let needed : (eqb_ℤ item.spec_replica item.desired_replicas
            || eqb_ℤ item.desired_replicas (negsuc 0))
          ≡ false =
        ground (arith, h) in
      rw needed (rw e)

  reconcile_item-fresh :
      (item : ScalingInfo Q) (d : List (ScalingInfo Q))
      → needs_scaling item ≡ true
      → get_deployment_info item d ≡ (item, false)
      → reconcile_item item d ≡ (d, true)
  unfolding reconcile_item is_deployment_in_failure_state
  reconcile_item-fresh item d h e =
      let needed : (eqb_ℤ item.spec_replica item.desired_replicas
            || eqb_ℤ item.desired_replicas (negsuc 0))
          ≡ false =
        ground (arith, h) in
      rw needed (rw e)

  -- On a deny list with distinct keys, a round for an item with a name and a namespace starts a
  -- scaling just if the item needs one and is not on the deny list; if it needs one and is there,
  -- its entry is to have the desired replicas of the item; every other entry stays, and the keys
  -- stay distinct.
  pub reconcile_item_lem :
      (item : ScalingInfo Q) (d : List (ScalingInfo Q))
      → UniqueItems d
      → item.name ≢ []
      → item.namespace ≢ []
      → ((reconcile_item item d).1 ≡ (needs_scaling item && not (is_some (entry item d))))
        × ((name namespace : Text)
            → find name namespace (reconcile_item item d).0 ≡ (
                if needs_scaling item && (name == item.name && namespace == item.namespace)
                then redirected item.desired_replicas (entry item d)
                else find name namespace d))
        × UniqueItems (reconcile_item item d).0
  reconcile_item_lem item d u named placed = elim (Bool-cases (needs_scaling item)) [
    | inr idle ↦ rw (reconcile_item-idle item d idle, idle) (refl, (λ name namespace. refl), u)
    | inl needed ↦ elim (Option-cases (entry item d)) [
      | inl absent ↦
          rw
            (
              reconcile_item-fresh item d needed (looked_up item d none u named placed absent),
              needed,
              absent,
            )
            (refl, (λ name namespace. untouched name namespace item d absent), u)
      | inr (value, e) ↦
          rw
            (
              reconcile_item-listed item value d needed
                  (looked_up item d (some value) u named placed e),
              needed,
            )
            (
              ground (arith, e),
              (λ name namespace. (redirect_lem name namespace value item d u e).0),
              (redirect_lem [] [] value item d u e).1,
            )
    ]
  ]

  abbrev pub AllNamed : List (ScalingInfo Q) → Type 0
  AllNamed [] = Unit
  AllNamed (item ∷ items) = (item.name ≢ []) × (item.namespace ≢ []) × AllNamed items

  abbrev pub AllNeed : List (ScalingInfo Q) → Type 0
  AllNeed [] = Unit
  AllNeed (item ∷ items) = (needs_scaling item ≡ true) × AllNeed items

  -- For items with a name and a namespace and a deny list with distinct keys, whatever the other
  -- goroutines do to the list between the rounds, as long as they keep its keys distinct,
  -- ReconcileNamespace keeps them distinct and starts a scaling only for items that need one.
  pub reconcile_namespace_lem :
      (others : ℕ → List (ScalingInfo Q) → List (ScalingInfo Q)) (round : ℕ)
      (items d : List (ScalingInfo Q))
      → ((n : ℕ) (v : List (ScalingInfo Q)) → UniqueItems v → UniqueItems (others n v))
      → AllNamed items
      → UniqueItems d
      → UniqueItems (reconcile_namespace others round items d).0
        × AllNeed (reconcile_namespace others round items d).1
  unfolding reconcile_namespace
  reconcile_namespace_lem others round [] d keeps named u = (u, tt)
  reconcile_namespace_lem others round (item ∷ items) d keeps (n, m, named) u =
      let (starts, _, unique) = reconcile_item_lem item (others round d) (keeps round d u) n m in
      let (final, need) =
        reconcile_namespace_lem others (suc round) items (reconcile_item item (others round d)).0
          keeps named unique in
      (final, ground (arith, starts, need))
