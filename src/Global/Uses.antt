-- ===== src/Global/Uses.antt =====
-- A sequence of uses of the deny list, each of them one method that runs to its end.
pub mod Interleaved
use pre_scaling_operator.Common.{
  ℕ, ℤ, Text, ◌==◌, ==_iff, Bool, true, false, ◌&&◌, Option, none, some, List, [], ◌∷◌,
  if◌then◌else◌, ◌≡◌, refl, arith,
}
use pre_scaling_operator.Global.{ScalingInfo}
use pre_scaling_operator.Global.Denylist.{
  update_or_append, set_scaling_item, set_progress_deadline, remove_from_list,
}
use pre_scaling_operator.Global.Registry.{
  find, UniqueItems, find-update_or_append, update_or_append-UniqueItems,
}
use pre_scaling_operator.Global.Removal.{find-remove_from_list}

-- The methods that change entries of the deny list, with their arguments.
pub data Use (Q : Type 0) : Type 0 where
  puts : ScalingInfo Q → Use Q
  sets : ScalingInfo Q → Bool → Text → ℤ → Use Q
  delays : ScalingInfo Q → ℤ → Use Q
  removes : (ℕ → Bool) → ScalingInfo Q → Use Q

module _ {Q : Type 0} where
  -- `none` is a panic.
  pub run_use : Use Q → List (ScalingInfo Q) → Option (List (ScalingInfo Q))
  run_use (puts item) items = some (update_or_append item items)
  run_use (sets item failure message desired) items =
      some (set_scaling_item item failure message desired items).1
  run_use (delays item deadline) items = some (set_progress_deadline item deadline items)
  run_use (removes early item) items = remove_from_list early item items

  unfoldable pub run_uses : List (Use Q) → List (ScalingInfo Q) → Option (List (ScalingInfo Q))
  unfolding run_use
  run_uses [] items = some items
  run_uses (use' ∷ uses) items = elim (run_use use' items) [
    | none ↦ none
    | some items' ↦ run_uses uses items'
  ]

  -- The workload that a use is about, and the entry that it leaves there.
  abbrev pub subject : Use Q → ScalingInfo Q
  subject (puts item) = item
  subject (sets item failure message desired) = item
  subject (delays item deadline) = item
  subject (removes early item) = item

  abbrev pub leaves : Use Q → Option (ScalingInfo Q)
  leaves (puts item) = some item
  leaves (sets item failure message desired) =
      some
        (record item { failure = failure; failure_message = message; desired_replicas = desired })
  leaves (delays item deadline) = some (record item { progress_deadline = deadline })
  leaves (removes early item) = none

  abbrev pub touches : Text → Text → Use Q → Bool
  touches name namespace use' = name == (subject use').name && namespace == (subject use').namespace

  -- The map: what the last use of a workload left there.
  abbrev pub entry_after :
      Text → Text → List (Use Q) → Option (ScalingInfo Q) → Option (ScalingInfo Q)
  entry_after name namespace [] before = before
  entry_after name namespace (use' ∷ uses) before =
      entry_after name namespace uses (if touches name namespace use' then leaves use' else before)

  -- What is promised of a use, or of many: no panic, the entries, and distinct keys.
  abbrev pub Serves :
      Option (List (ScalingInfo Q)) → (Text → Text → Option (ScalingInfo Q)) → Type 0
  Serves result entries =
      (items : List (ScalingInfo Q)) × (result ≡ some items)
      × ((name namespace : Text) → find name namespace items ≡ entries name namespace)
      × UniqueItems items

  run_use_lem :
      (use' : Use Q) (items : List (ScalingInfo Q))
      → UniqueItems items
      → Serves (run_use use' items) (λ name namespace.
        if touches name namespace use' then leaves use' else find name namespace items)
  unfolding run_use set_scaling_item set_progress_deadline
  run_use_lem (puts item) items u = (
    update_or_append item items,
    refl,
    (λ name namespace. find-update_or_append name namespace item items),
    update_or_append-UniqueItems item items u,
  )
  run_use_lem (sets item failure message desired) items u =
      let item' = record item {
        failure = failure;
        failure_message = message;
        desired_replicas = desired;
      } in
      (
        update_or_append item' items,
        refl,
        (λ name namespace. find-update_or_append name namespace item' items),
        update_or_append-UniqueItems item' items u,
      )
  run_use_lem (delays item deadline) items u =
      let item' = record item { progress_deadline = deadline } in
      (
        update_or_append item' items,
        refl,
        (λ name namespace. find-update_or_append name namespace item' items),
        update_or_append-UniqueItems item' items u,
      )
  run_use_lem (removes early item) items u = find-remove_from_list early item items u

  -- Any sequence of uses of a list with distinct keys, each run to its end, gives what the same
  -- sequence of insertions and deletions makes of the map by name and namespace: there is no panic,
  -- each workload has what the last use about it left, or its entry of before, and the keys stay
  -- distinct.
  pub run_uses_lem :
      (uses : List (Use Q)) (items : List (ScalingInfo Q))
      → UniqueItems items
      → Serves
          (run_uses uses items)
          (λ name namespace. entry_after name namespace uses (find name namespace items))
  unfolding run_uses
  run_uses_lem [] items u = (items, refl, (λ name namespace. refl), u)
  run_uses_lem (use' ∷ uses) items u =
      let (items1, e1, finds1, u1) = run_use_lem use' items u in
      let (items2, e2, finds2, u2) = run_uses_lem uses items1 u1 in
      (
        items2,
        rw (e1, run_uses) e2,
        (λ name namespace. rw (← finds1 name namespace) (finds2 name namespace)),
        u2,
      )
