-- ===== src/Reconciler/Prepare/Cleared.antt =====
-- PrepareForNamespaceReconcile starts scalings where the quotas allow them.
use mathlib.Core.List.{Permᴰ}
use pre_scaling_operator.Common.{
  ℕ, suc, Text, Map, Bool, true, false, Option, none, some, List, [], ◌∷◌, ◌++◌, if◌then◌else◌,
  Result, ok, err, ◌≡◌, inl, inr, refl, sym, subst, Bool-cases,
}
use pre_scaling_operator.Global.{ScalingInfo, State}
use pre_scaling_operator.ResourceMath.{Quantity}
use pre_scaling_operator.Resources.{group_scaling_item_by_namespace}
use pre_scaling_operator.Resources.Lister.{Listing, scaling_item_namespace_lister}
use pre_scaling_operator.Decisions.{NamespaceScaleInfo, Surroundings}
use pre_scaling_operator.Decisions.Rounds.{make_namespaces_scale_decisions}
use pre_scaling_operator.Decisions.Cleared.{
  IsPickedCleared, AllCleared, make_namespaces_scale_decisions-AllCleared,
}
use pre_scaling_operator.Resources.Placed.{Among, AllPlaced, AllPlaced-perm, grouped-Placed}
use pre_scaling_operator.Reconciler.Prepare.Placed.{entry-Placed, picked-Placed}
use pre_scaling_operator.Reconciler.{reconcile_item, reconcile_namespace}
use pre_scaling_operator.Reconciler.Prepare.{
  Prepared, Progress, reconcile_decided, nothing_started, after_decisions, after_listing,
  prepare_for_namespace_reconcile,
}

module _ {Q : Type 0} where
  abbrev AllAmong : List (ScalingInfo Q) → List (ScalingInfo Q) → Type 0
  AllAmong items [] = Unit
  AllAmong items (x ∷ xs) = Among x items × AllAmong items xs

  AllAmong-cons :
      (item : ScalingInfo Q) (items xs : List (ScalingInfo Q))
      → AllAmong items xs
      → AllAmong (item ∷ items) xs
  AllAmong-cons item items [] a = tt
  AllAmong-cons item items (x ∷ xs) a = (inr (a.0), AllAmong-cons item items xs (a.1))

  started_if :
      (start : Bool) (item : ScalingInfo Q) (items rest : List (ScalingInfo Q))
      → AllAmong items rest
      → AllAmong (item ∷ items) (if start then item ∷ rest else rest)
  started_if true item items rest a = (inl refl, AllAmong-cons item items rest a)
  started_if false item items rest a = AllAmong-cons item items rest a

  reconcile_namespace-AllAmong :
      (others : ℕ → List (ScalingInfo Q) → List (ScalingInfo Q)) (round : ℕ)
      (items denylist : List (ScalingInfo Q))
      → AllAmong items (reconcile_namespace others round items denylist).1
  unfolding reconcile_namespace
  reconcile_namespace-AllAmong others round [] denylist = tt
  reconcile_namespace-AllAmong others round (item ∷ items) denylist =
      started_if (reconcile_item item (others round denylist)).1 item items _
        (reconcile_namespace-AllAmong others (suc round) items _)

module _ (k : Quantity) (run : Surroundings k.Q) (grouped : Map (List (ScalingInfo k.Q)))
    (definitions : List State) where
  open k use {Q}

  -- The workload is one of those that were picked of the group of its namespace, and the quotas of
  -- the namespace allow all of these together.
  abbrev pub StartsCleared : ScalingInfo Q → Type 0
  StartsCleared item =
      (picked : List (ScalingInfo Q)) × IsPickedCleared k run grouped definitions item.namespace
        picked
      × Among item picked

  abbrev pub AllStartCleared : List (ScalingInfo Q) → Type 0
  AllStartCleared [] = Unit
  AllStartCleared (item ∷ items) = StartsCleared item × AllStartCleared items

  picked-placed :
      (namespace : Text) (items : List (ScalingInfo Q)) (item : ScalingInfo Q)
      → AllPlaced grouped
      → IsPickedCleared k run grouped definitions namespace items
      → Among item items
      → StartsCleared item
  picked-placed namespace items item placed
        (css, state, read, (group, stored, at, known, det), room) among =
      let in_place : item.namespace ≡ namespace =
        picked-Placed namespace group css state definitions stored items item
          (entry-Placed namespace group grouped placed at) det among in
      (
        items,
        subst (λ place. IsPickedCleared k run grouped definitions place items) (sym in_place)
            (css, state, read, (group, stored, at, known, det), room),
        among,
      )

  add_cleared :
      (namespace : Text) (items before started : List (ScalingInfo Q))
      → AllPlaced grouped
      → IsPickedCleared k run grouped definitions namespace items
      → AllStartCleared before
      → AllAmong items started
      → AllStartCleared (before ++ started)
  add_cleared namespace items [] [] placed cleared b a = tt
  add_cleared namespace items [] (x ∷ started) placed cleared b a = (
    picked-placed namespace items x placed cleared (a.0),
    add_cleared namespace items [] started placed cleared b (a.1),
  )
  add_cleared namespace items (x ∷ before) started placed cleared b a =
      (b.0, add_cleared namespace items before started placed cleared (b.1) a)

  reconcile_decided-AllStartCleared :
      (others : ℕ → ℕ → List (ScalingInfo Q) → List (ScalingInfo Q)) (n : ℕ)
      (m : Map (NamespaceScaleInfo Q)) (progress : Progress Q)
      → AllPlaced grouped
      → AllCleared k run grouped definitions m
      → AllStartCleared progress.started
      → AllStartCleared (reconcile_decided others false n m progress).started
  unfolding reconcile_decided
  reconcile_decided-AllStartCleared others n [] progress placed c a = a
  reconcile_decided-AllStartCleared others n ((namespace, value) ∷ rest) progress placed c a =
      elim (Bool-cases value.scale_name_space) [
        | inl scale ↦ rw scale (
            reconcile_decided-AllStartCleared others (suc n) rest _ placed (c.1) (
              add_cleared namespace value.scaling_items progress.started _ placed (c.0 scale) a
                (reconcile_namespace-AllAmong (others n) 0 value.scaling_items progress.denylist)))
        | inr stays ↦
            rw stays (reconcile_decided-AllStartCleared others (suc n) rest _ placed (c.1) a)
      ]

module _ {Q : Type 0} (sort : List (ScalingInfo Q) → List (ScalingInfo Q))
    (visit : Map (List (ScalingInfo Q)) → Map (List (ScalingInfo Q))) where
  -- The groups of what was listed, in the order of the visit; none after an error.
  abbrev pub groups_of : Option (Result (List (ScalingInfo Q))) → Map (List (ScalingInfo Q))
  groups_of none = []
  groups_of (some (err e)) = []
  groups_of (some (ok items)) = visit (group_scaling_item_by_namespace sort items)

module _ (k : Quantity) (run : Surroundings k.Q)
    (others : ℕ → ℕ → List (ScalingInfo k.Q) → List (ScalingInfo k.Q))
    (sort : List (ScalingInfo k.Q) → List (ScalingInfo k.Q))
    (visit : Map (List (ScalingInfo k.Q)) → Map (List (ScalingInfo k.Q)))
    (visited : (m : Map (List (ScalingInfo k.Q))) → Permᴰ m (visit m))
    (visits : (round : ℕ) (m : Map (NamespaceScaleInfo k.Q)) → Permᴰ m (run.order round m)) where
  open k use {Q}

  abbrev ClearedIf :
      Map (List (ScalingInfo Q)) → List State → Option (Progress Q × Prepared) → Type 0
  ClearedIf grouped definitions none = Unit
  ClearedIf grouped definitions (some (progress, prepared)) =
      AllStartCleared k run grouped definitions progress.started

  after_listing-ClearedIf :
      (definitions : List State) (denylist : List (ScalingInfo Q))
      (listed : Result (List (ScalingInfo Q)))
      → ClearedIf
          (groups_of sort visit (some listed))
          definitions
          (after_listing k run others sort visit false definitions denylist listed)
  unfolding after_listing after_decisions
  after_listing-ClearedIf definitions denylist (err e) = tt
  after_listing-ClearedIf definitions denylist (ok []) = tt
  after_listing-ClearedIf definitions denylist (ok (item ∷ items)) =
      let grouped = groups_of sort visit (some (ok (item ∷ items))) in
      elim (make_namespaces_scale_decisions k run grouped definitions false denylist)
          as (λ o.
            make_namespaces_scale_decisions k run grouped definitions false denylist ≡ o
            → ClearedIf grouped definitions (elim o [
              | none ↦ none
              | some (denylist', decided) ↦
                  some (after_decisions k run others sort visit false denylist' decided)
            ])) [
              | none ↦ λ e. tt
              | some (denylist', err f) ↦ λ e. tt
              | some (denylist', ok info) ↦ λ e.
                  reconcile_decided-AllStartCleared k run grouped definitions others 0
                    info.ns_scale_info
                    (nothing_started k run others sort visit false info.number_of_ns_to_scale
                      denylist')
                    (AllPlaced-perm _ _
                      (visited (group_scaling_item_by_namespace sort (item ∷ items)))
                      (grouped-Placed sort (item ∷ items)))
                    (make_namespaces_scale_decisions-AllCleared k run grouped definitions denylist
                      denylist' info visits e)
                    tt
            ]
        refl

  -- Where a range visits the entries of a map once each: outside a dry run PrepareForNamespaceReconcile
  -- starts a scaling only of a workload that was picked, by the states that apply to its namespace, of
  -- the group of its namespace among the listed workloads, where the quotas of that namespace allow what
  -- all of the workloads picked of that group need together.
  pub prepare_for_namespace_reconcile-AllStartCleared :
      (listing : Listing Q) (namespace : Text) (definitions : List State)
      (denylist : List (ScalingInfo Q)) (progress : Progress Q) (prepared : Prepared)
      → prepare_for_namespace_reconcile k run others sort visit false listing namespace definitions
          denylist
        ≡ some (progress, prepared)
      → AllStartCleared k run
          (groups_of sort visit (scaling_item_namespace_lister listing namespace))
          definitions
          progress.started
  unfolding prepare_for_namespace_reconcile
  prepare_for_namespace_reconcile-AllStartCleared listing namespace definitions denylist progress
        prepared e =
      let listed = scaling_item_namespace_lister listing namespace in
      subst (ClearedIf (groups_of sort visit listed) definitions) e
        (elim listed
          as (λ o. ClearedIf (groups_of sort visit o) definitions (elim o [
            | none ↦ none
            | some listed ↦ after_listing k run others sort visit false definitions denylist listed
          ])) [ none ↦ tt | some listed ↦ after_listing-ClearedIf definitions denylist listed ])
