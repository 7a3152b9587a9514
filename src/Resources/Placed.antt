-- ===== src/Resources/Placed.antt =====
-- GroupScalingItemByNamespace and DetermineDesiredReplicas keep the workloads of a namespace together.
use mathlib.Core.List.{Permᴰ}
use pre_scaling_operator.Common.{
  Text, ◌==◌, ==_iff, Map, insert, Bool, true, false, Option, none, some, List, [], ◌∷◌, ◌++◌, ◌≡◌,
  ◌⊎◌, inl, inr, refl, arith, sym, subst, ap, ◌∙◌, Bool-cases,
}
use pre_scaling_operator.Global.{ScalingInfo}
use pre_scaling_operator.Resources.{
  desired_by, determine_item, append_if, determine_from, determine_desired_replicas, group_from,
  group_scaling_item_by_namespace,
}

module _ {Q : Type 0} where
  -- The workload is one of the items.
  abbrev pub Among : ScalingInfo Q → List (ScalingInfo Q) → Type 0
  Among item [] = ⊥
  Among item (x ∷ items) = (x ≡ item) ⊎ Among item items

  -- All workloads are of the namespace.
  abbrev pub AllIn : Text → List (ScalingInfo Q) → Type 0
  AllIn namespace [] = Unit
  AllIn namespace (item ∷ items) = (item.namespace ≡ namespace) × AllIn namespace items

  -- Every group is of its namespace.
  abbrev pub AllPlaced : Map (List (ScalingInfo Q)) → Type 0
  AllPlaced [] = Unit
  AllPlaced ((namespace, items) ∷ rest) = AllIn namespace items × AllPlaced rest

  AllIn-append :
      (namespace : Text) (items : List (ScalingInfo Q)) (item : ScalingInfo Q)
      → AllIn namespace items
      → item.namespace ≡ namespace
      → AllIn namespace (items ++ item ∷ [])
  AllIn-append namespace [] item a e = (e, tt)
  AllIn-append namespace (x ∷ items) item a e = (a.0, AllIn-append namespace items item (a.1) e)

  insert-AllPlaced :
      (namespace : Text) (items : List (ScalingInfo Q)) (m : Map (List (ScalingInfo Q)))
      → AllIn namespace items
      → AllPlaced m
      → AllPlaced (insert namespace items m)
  unfolding insert
  insert-AllPlaced namespace items [] h a = (h, tt)
  insert-AllPlaced namespace items ((stored, old) ∷ rest) h a =
      elim (Bool-cases (stored == namespace)) [
        | inl same ↦ rw same (h, a.1)
        | inr other ↦ rw other (a.0, insert-AllPlaced namespace items rest h (a.1))
      ]

  -- The group that is being collected is of the namespace of the next workload.
  abbrev Collects : List (ScalingInfo Q) → List (ScalingInfo Q) → Type 0
  Collects [] group = Unit
  Collects (item ∷ items) group = AllIn item.namespace group

  group_from-Placed :
      (items group : List (ScalingInfo Q)) (grouped : Map (List (ScalingInfo Q)))
      → Collects items group
      → AllPlaced grouped
      → AllPlaced (group_from items group grouped)
  unfolding group_from
  group_from-Placed [] group grouped c a = a
  group_from-Placed (item ∷ []) group grouped c a =
      insert-AllPlaced item.namespace (group ++ item ∷ []) grouped
        (AllIn-append item.namespace group item c refl) a
  group_from-Placed (item ∷ (next ∷ items)) group grouped c a =
      let collected = AllIn-append item.namespace group item c refl in
      elim (Bool-cases (next.namespace == item.namespace)) [
        | inl same ↦
            let e : next.namespace ≡ item.namespace =
              (==_iff next.namespace item.namespace).0 same in
            rw (same, group_from)
              (group_from-Placed (next ∷ items) (group ++ item ∷ []) grouped
                (subst (λ place. AllIn place (group ++ item ∷ [])) (sym e) collected) a)
        | inr other ↦
            rw (other, group_from)
              (group_from-Placed (next ∷ items) []
                (insert item.namespace (group ++ item ∷ []) grouped) tt
                (insert-AllPlaced item.namespace (group ++ item ∷ []) grouped collected a))
      ]

  nothing_before : (items : List (ScalingInfo Q)) → Collects items []
  nothing_before [] = tt
  nothing_before (item ∷ items) = tt

  pub grouped-Placed :
      (sort : List (ScalingInfo Q) → List (ScalingInfo Q)) (items : List (ScalingInfo Q))
      → AllPlaced (group_scaling_item_by_namespace sort items)
  unfolding group_scaling_item_by_namespace
  grouped-Placed sort [] = tt
  grouped-Placed sort (item ∷ items) =
      group_from-Placed (sort (item ∷ items)) [] [] (nothing_before (sort (item ∷ items))) tt

  abbrev EntryPlaced : Text × List (ScalingInfo Q) → Type 0
  EntryPlaced (namespace, items) = AllIn namespace items

  pub AllPlaced-perm :
      (xs ys : Map (List (ScalingInfo Q))) → Permᴰ xs ys → AllPlaced xs → AllPlaced ys
  AllPlaced-perm xs ys Permᴰ.nil a = tt
  AllPlaced-perm (x ∷ xs) (y ∷ ys) (Permᴰ.cons e p) a =
      (subst EntryPlaced e a.0, AllPlaced-perm xs ys p a.1)
  AllPlaced-perm xs ys (Permᴰ.swap e f) (a, (b, rest)) =
      (subst EntryPlaced f b, (subst EntryPlaced e a, rest))
  AllPlaced-perm xs ys (Permᴰ.trans p q) a = AllPlaced-perm _ ys q (AllPlaced-perm xs _ p a)

  abbrev ItemIn : Text → Option (ScalingInfo Q × Bool) → Type 0
  ItemIn namespace none = Unit
  ItemIn namespace (some (item, chosen)) = item.namespace ≡ namespace

  determine_item-ItemIn : (item : ScalingInfo Q) → ItemIn item.namespace (determine_item item)
  unfolding determine_item desired_by
  determine_item-ItemIn item = ground arith

  append_if-AllIn :
      (namespace : Text) (chosen : Bool) (item : ScalingInfo Q) (items : List (ScalingInfo Q))
      → item.namespace ≡ namespace
      → AllIn namespace items
      → AllIn namespace (append_if chosen item items)
  unfolding append_if
  append_if-AllIn namespace true item items e a = AllIn-append namespace items item a e
  append_if-AllIn namespace false item items e a = a

  abbrev pub PickedIn : Text → Option (List (ScalingInfo Q) × List (ScalingInfo Q)) → Type 0
  PickedIn namespace none = Unit
  PickedIn namespace (some (stored, picked)) = AllIn namespace picked

  determine_from-PickedIn :
      (namespace : Text) (items chosen : List (ScalingInfo Q))
      → AllIn namespace items
      → AllIn namespace chosen
      → PickedIn namespace (determine_from items chosen)
  unfolding determine_from
  determine_from-PickedIn namespace [] chosen a c = c
  determine_from-PickedIn namespace (item ∷ items) chosen a c =
      elim (determine_item item)
          as (λ o.
            ItemIn item.namespace o
            → PickedIn namespace (elim o [
              | none ↦ none
              | some (item', choose) ↦ elim (determine_from items (append_if choose item' chosen)) [
                | none ↦ none
                | some (items', result) ↦ some (item' ∷ items', result)
              ]
            ])) [
              | none ↦ λ h. tt
              | some (item', choose) ↦ λ h.
                  elim (determine_from items (append_if choose item' chosen))
                      as (λ o.
                        PickedIn namespace o
                        → PickedIn namespace (elim o [
                          | none ↦ none
                          | some (items', result) ↦ some (item' ∷ items', result)
                        ])) [ none ↦ λ p. tt | some (items', result) ↦ λ p. p ]
                    (determine_from-PickedIn namespace items (append_if choose item' chosen) (a.1)
                      (append_if-AllIn namespace choose item' chosen (h ∙ a.0) c))
            ]
        (determine_item-ItemIn item)

  pub AllIn-namespace :
      (namespace : Text) (item : ScalingInfo Q) (items : List (ScalingInfo Q))
      → AllIn namespace items
      → Among item items
      → item.namespace ≡ namespace
  AllIn-namespace namespace item [] a h = absurd h
  AllIn-namespace namespace item (x ∷ items) a (inl e) =
      ap (λ (value : ScalingInfo Q). value.namespace) (sym e) ∙ a.0
  AllIn-namespace namespace item (x ∷ items) a (inr h) =
      AllIn-namespace namespace item items (a.1) h

  pub determine-PickedIn :
      (namespace : Text) (items : List (ScalingInfo Q))
      → AllIn namespace items
      → PickedIn namespace (determine_desired_replicas items)
  unfolding determine_desired_replicas
  determine-PickedIn namespace items a = determine_from-PickedIn namespace items [] a tt
