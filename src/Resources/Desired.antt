-- ===== src/Resources/Desired.antt =====
-- Which workloads DetermineDesiredReplicas picks, and what their annotations make of them.
use mathlib.Core.List.{append_assoc, append-nil}
use pre_scaling_operator.Common.{
  ℤ, int32, Text, lookup, UniqueKeys, Bool, true, false, not, ◌&&◌, Option, none, some, List, [],
  ◌∷◌, ◌++◌, eqb_ℤ, eqb_ℤ_iff, if◌then◌else◌, ok, ◌≡◌, refl, arith, Option-cases, inl, inr, ap,
  atoi, map,
}
use pre_scaling_operator.Global.{ScalingInfo}
use pre_scaling_operator.StateReplicas.{
  StateReplicas, get_state, new_state_replicas_from_annotations,
}
use pre_scaling_operator.StateReplicas.Annotated.{
  key_of, WellFormed, wanted, new_state_replicas_lem,
}
use pre_scaling_operator.Resources.{
  determine_item, desired_by, determine_from, determine_desired_replicas, append_if,
}

module _ {Q : Type 0} where
  -- The count that the annotations state for the workload's state.
  abbrev pub stated : ScalingInfo Q → Option ℤ
  stated item = elim (lookup (key_of item.state) item.annotations) [
    | none ↦ none
    | some value ↦ elim (atoi value) [ none ↦ none | some count ↦ some (int32 count) ]
  ]

  -- What is to become of a workload, and whether it is to be scaled, from the count stated.
  abbrev pub decided : ScalingInfo Q → Option ℤ → ScalingInfo Q × Bool
  decided item none = (item, false)
  decided item (some count) =
      if item.failure then (record item { desired_replicas = item.spec_replica }, false) else (
        record item { desired_replicas = count },
        not (eqb_ℤ item.spec_replica count && eqb_ℤ item.desired_replicas count),
      )

  desired_by_lem :
      (item : ScalingInfo Q) (count : ℤ)
      → desired_by item (record { name = item.state; replicas = count }) ≡ decided item (some count)
  unfolding desired_by
  desired_by_lem item count =
      ground (arith, eqb_ℤ_iff item.spec_replica count, eqb_ℤ_iff item.desired_replicas count)

  decided-wanted :
      (item : ScalingInfo Q) (found : StateReplicas) (o : Option Text)
      → get_state item.state found ≡ wanted item.state o
      → new_state_replicas_from_annotations item.annotations ≡ some (ok found)
      → determine_item item
        ≡ some (
            decided item (elim o [
              | none ↦ none
              | some value ↦ elim (atoi value) [ none ↦ none | some count ↦ some (int32 count) ]
            ]))
  unfolding determine_item
  decided-wanted item found none g n = rw (n, determine_item) (rw (g, determine_item))
  decided-wanted item found (some value) g n = elim (Option-cases (atoi value)) [
    | inl e ↦ rw (n, determine_item) (rw (g, determine_item) (rw e))
    | inr (count, e) ↦
        rw (n, determine_item)
          (rw (g, determine_item) (rw e (ap some (desired_by_lem item (int32 count)))))
  ]

  -- A workload whose state annotations are well formed is decided by the count that they state for
  -- its state: without one it is left alone; in failure it is to stay as it is; else it is to have
  -- that count, and is picked for scaling just if its replicas or its former aim differ from it.
  pub determine_item-decided :
      (item : ScalingInfo Q)
      → UniqueKeys item.annotations
      → WellFormed item.annotations
      → determine_item item ≡ some (decided item (stated item))
  determine_item-decided item u w =
      let (found, n, gets) = new_state_replicas_lem item.annotations u w in
      decided-wanted item found (lookup (key_of item.state) item.annotations) (gets item.state) n

  -- The workloads that are to be scaled, in order.
  abbrev pub picked : List (ScalingInfo Q) → List (ScalingInfo Q)
  picked [] = []
  picked (item ∷ items) =
      if (decided item (stated item)).1
      then (decided item (stated item)).0 ∷ picked items
      else picked items

  abbrev pub AllWellFormed : List (ScalingInfo Q) → Type 0
  AllWellFormed [] = Unit
  AllWellFormed (item ∷ items) =
      UniqueKeys item.annotations × WellFormed item.annotations × AllWellFormed items

  append_if_lem :
      (b : Bool) (item : ScalingInfo Q) (before rest : List (ScalingInfo Q))
      → append_if b item before ++ rest ≡ before ++ (if b then item ∷ rest else rest)
  unfolding append_if
  append_if_lem true item before rest = append_assoc before (item ∷ []) rest
  append_if_lem false item before rest = refl

  determine_from_lem :
      (items before : List (ScalingInfo Q))
      → AllWellFormed items
      → determine_from items before
        ≡ some (map (λ i. (decided i (stated i)).0) items, before ++ picked items)
  unfolding determine_from
  determine_from_lem [] before w = rw append-nil
  determine_from_lem (item ∷ items) before w =
      let d = decided item (stated item) in
      rw (determine_item-decided item w.0 w.1, determine_from)
        (rw (determine_from_lem items (append_if d.1 d.0 before) w.2) (
          ap (λ r. some (map (λ i. (decided i (stated i)).0) (item ∷ items), r))
            (append_if_lem d.1 d.0 before (picked items))))

  -- DetermineDesiredReplicas, on workloads with well-formed state annotations, does not panic: each
  -- workload is left as it is decided by its annotations, and those that are to be scaled come
  -- back in their order.
  pub determine_desired_replicas_lem :
      (items : List (ScalingInfo Q))
      → AllWellFormed items
      → determine_desired_replicas items
        ≡ some (map (λ i. (decided i (stated i)).0) items, picked items)
  unfolding determine_desired_replicas
  determine_desired_replicas_lem items w = determine_from_lem items [] w
