-- ===== src/Resources/Grouping.antt =====
-- GroupScalingItemByNamespace puts each workload in the group of its namespace.
use mathlib.Core.List.{append_assoc, Perm, Permᴰ}
use mathlib.Core.List.Permᴰ
use mathlib.Core.List.Perm
use mathlib.Core.Logic.{∥∥₁_map}
use pre_scaling_operator.Common.{
  Text, ◌==◌, ==_iff, lt_text, lt_text_total, Map, lookup, insert, lookup-insert, Bool, true, false,
  Option, none, some, List, [], ◌∷◌, ◌++◌, if◌then◌else◌, ◌≡◌, refl, arith, Bool-cases, inl, inr,
  ◌∙◌, ◌≢◌,
}
use pre_scaling_operator.Global.{ScalingInfo}
use pre_scaling_operator.Resources.{group_from, group_scaling_item_by_namespace}

module _ {Q : Type 0} where
  -- The workloads of a namespace, in order.
  unfoldable pub in_namespace : Text → List (ScalingInfo Q) → List (ScalingInfo Q)
  in_namespace namespace [] = []
  in_namespace namespace (item ∷ items) =
      let rest = in_namespace namespace items in
      if item.namespace == namespace then item ∷ rest else rest

  -- A group that is there, or none for no workload.
  abbrev pub or_missing : List (ScalingInfo Q) → Option (List (ScalingInfo Q))
  or_missing [] = none
  or_missing (item ∷ items) = some (item ∷ items)

  -- `items[i].Namespace < items[j].Namespace` holds of none that stand the other way round.
  abbrev AllAfter : ScalingInfo Q → List (ScalingInfo Q) → Type 0
  AllAfter item [] = Unit
  AllAfter item (other ∷ items) =
      (lt_text other.namespace item.namespace ≡ false) × AllAfter item items

  abbrev pub IsSorted : List (ScalingInfo Q) → Type 0
  IsSorted [] = Unit
  IsSorted (item ∷ items) = AllAfter item items × IsSorted items

  -- Beyond a workload of another namespace there is none of the namespace left.
  none_left :
      (item next : ScalingInfo Q) (items : List (ScalingInfo Q))
      → AllAfter item items
      → AllAfter next items
      → lt_text next.namespace item.namespace ≡ false
      → item.namespace ≢ next.namespace
      → in_namespace item.namespace items ≡ []
  unfolding in_namespace
  none_left item next [] a b l n = refl
  none_left item next (other ∷ items) a b l n = ground (
    arith,
    none_left item next items a.1 b.1 l n,
    ==_iff other.namespace item.namespace,
    lt_text_total item.namespace next.namespace,
  )

  or_missing-cons :
      (xs : List (ScalingInfo Q)) (before : Option (List (ScalingInfo Q)))
      → Option (List (ScalingInfo Q))
  or_missing-cons [] before = before
  or_missing-cons (x ∷ xs) before = some (x ∷ xs)

  group_from_lem :
      (namespace : Text) (item : ScalingInfo Q) (items group : List (ScalingInfo Q))
      (grouped : Map (List (ScalingInfo Q)))
      → IsSorted (item ∷ items)
      → lookup namespace (group_from (item ∷ items) group grouped) ≡ (
          if item.namespace == namespace
          then some (group ++ in_namespace namespace (item ∷ items))
          else or_missing-cons (in_namespace namespace items) (lookup namespace grouped))
  unfolding group_from in_namespace or_missing-cons
  group_from_lem namespace item [] group grouped s =
      ground (arith, lookup-insert item.namespace namespace (group ++ item ∷ []) grouped)
  group_from_lem namespace item (next ∷ items) group grouped ((l, a), s) =
      elim (Bool-cases (next.namespace == item.namespace)) [
        | inl same ↦
            rw (same, group_from)
              (group_from_lem namespace next items (group ++ item ∷ []) grouped s
                ∙ ground (
                  arith,
                  ==_iff next.namespace item.namespace,
                  ==_iff next.namespace namespace,
                  ==_iff item.namespace namespace,
                  append_assoc group (item ∷ []) (next ∷ in_namespace namespace items),
                ))
        | inr differs ↦
            rw (differs, group_from)
              (group_from_lem namespace next items []
                  (insert item.namespace (group ++ item ∷ []) grouped) s
                ∙ ground (
                  arith,
                  ==_iff next.namespace item.namespace,
                  ==_iff next.namespace namespace,
                  ==_iff item.namespace namespace,
                  lookup-insert item.namespace namespace (group ++ item ∷ []) grouped,
                  none_left item next items a s.0 l,
                ))
      ]

  cons_if :
      (c : Bool) (a : ScalingInfo Q) {xs ys : List (ScalingInfo Q)}
      → Permᴰ xs ys
      → Permᴰ (if c then a ∷ xs else xs) (if c then a ∷ ys else ys)
  cons_if true a p = Permᴰ.cons refl p
  cons_if false a p = p

  swap_if :
      (c d : Bool) (a b : ScalingInfo Q) (l : List (ScalingInfo Q))
      → Permᴰ
          (if c then a ∷ (if d then b ∷ l else l) else if d then b ∷ l else l)
          (if d then b ∷ (if c then a ∷ l else l) else if c then a ∷ l else l)
  swap_if true true a b l = Permᴰ.swap refl refl
  swap_if true false a b l = Permᴰ.refl (a ∷ l)
  swap_if false true a b l = Permᴰ.refl (b ∷ l)
  swap_if false false a b l = Permᴰ.refl l

  in_namespace-Permᴰ :
      (namespace : Text) {xs ys : List (ScalingInfo Q)}
      → Permᴰ xs ys
      → Permᴰ (in_namespace namespace xs) (in_namespace namespace ys)
  unfolding in_namespace
  in_namespace-Permᴰ namespace Permᴰ.nil = Permᴰ.nil
  in_namespace-Permᴰ namespace (Permᴰ.cons {a = a} {b = b} e p) =
      rw e (cons_if (b.namespace == namespace) b (in_namespace-Permᴰ namespace p))
  in_namespace-Permᴰ namespace (Permᴰ.swap {a' = a'} {b' = b'} {l = l} e f) =
      rw (e, f)
        (swap_if (b'.namespace == namespace) (a'.namespace == namespace) b' a'
          (in_namespace namespace l))
  in_namespace-Permᴰ namespace (Permᴰ.trans p q) =
      Permᴰ.trans (in_namespace-Permᴰ namespace p) (in_namespace-Permᴰ namespace q)

  or_missing-cons-none : (xs : List (ScalingInfo Q)) → or_missing-cons xs none ≡ or_missing xs
  unfolding or_missing-cons
  or_missing-cons-none [] = refl
  or_missing-cons-none (x ∷ xs) = refl

  lookup_empty : (key : Text) → lookup {V = List (ScalingInfo Q)} key [] ≡ none
  unfolding lookup
  lookup_empty key = refl

  in_namespace-cons :
      (namespace : Text) (item : ScalingInfo Q) (items : List (ScalingInfo Q))
      → in_namespace namespace (item ∷ items) ≡ (
          if item.namespace == namespace
          then item ∷ in_namespace namespace items
          else in_namespace namespace items)
  unfolding in_namespace
  in_namespace-cons namespace item items = refl

  grouped_sorted :
      (namespace : Text) (items : List (ScalingInfo Q))
      → IsSorted items
      → lookup namespace (group_from items [] []) ≡ or_missing (in_namespace namespace items)
  unfolding group_from
  grouped_sorted namespace [] s = unfold lookup in unfold in_namespace in refl
  grouped_sorted namespace (item ∷ items) s =
      group_from_lem namespace item items [] [] s
      ∙ ground (
        arith,
        lookup_empty namespace,
        or_missing-cons-none (in_namespace namespace items),
        in_namespace-cons namespace item items,
      )

  -- Where sort.Slice sorts the items by namespace, the group under a namespace is the workloads
  -- of that namespace, each as often as it was listed, and there is a group just for the
  -- namespaces that have a workload.
  pub group_scaling_item_by_namespace_lem :
      (sort : List (ScalingInfo Q) → List (ScalingInfo Q)) (namespace : Text)
      (items : List (ScalingInfo Q))
      → Perm (sort items) items × IsSorted (sort items)
      → (lookup namespace (group_scaling_item_by_namespace sort items)
          ≡ or_missing (in_namespace namespace (sort items)))
        × Perm (in_namespace namespace (sort items)) (in_namespace namespace items)
  unfolding group_scaling_item_by_namespace
  group_scaling_item_by_namespace_lem sort namespace [] sorts =
      let e : sort [] ≡ [] = Perm.eq-nil sorts.0 in
      rw e (lookup_empty namespace ∙ (unfold in_namespace in refl), Perm.refl _)
  group_scaling_item_by_namespace_lem sort namespace (item ∷ items) sorts = (
    grouped_sorted namespace (sort (item ∷ items)) sorts.1,
    ∥∥₁_map sorts.0 (in_namespace-Permᴰ namespace),
  )
