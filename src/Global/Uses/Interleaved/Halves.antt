-- ===== src/Global/Uses/Interleaved/Halves.antt =====
-- What one step of a goroutine does for the entry of a workload.
use pre_scaling_operator.Common.{
  Text, ◌==◌, ==_iff, ==_refl, Bool, true, false, ◌&&◌, Option, some, List, [], ◌∷◌, if◌then◌else◌,
  ◌≡◌, refl, ap, ◌∙◌, arith,
}
use pre_scaling_operator.Global.{ScalingInfo}
use pre_scaling_operator.Global.Denylist.{update, is_in_concurrent_list, append_missing}
use pre_scaling_operator.Global.Registry.{
  find, entry, UniqueItems, is_some, is_in_concurrent_list-find, find-update, find-append,
  update-UniqueItems, append-UniqueItems,
}
use pre_scaling_operator.Global.Removal.{find-remove_from_list}
use pre_scaling_operator.Global.Uses.{Use, puts, sets, delays, removes, entry_after}
use pre_scaling_operator.Global.Uses.Interleaved.{
  Task, before, appending, removed, step_task, Quiet,
}

module _ {Q : Type 0} where
  -- The entry of a workload once the goroutine has come to its end alone.
  abbrev pub finally : Text → Text → Task Q → Option (ScalingInfo Q) → Option (ScalingInfo Q)
  finally name namespace (before uses) o = entry_after name namespace uses o
  finally name namespace (appending found item uses) o = entry_after name namespace uses (
      if name == item.name && namespace == item.namespace
      then (if is_some o then o else some item)
      else o)

  abbrev pub Silent : Text → Text → Task Q → Type 0
  Silent name namespace (before uses) = Quiet name namespace uses
  Silent name namespace (appending found item uses) =
      ((name == item.name && namespace == item.namespace) ≡ false) × Quiet name namespace uses

  -- What the loop of UpdateOrAppend found still holds.
  abbrev pub Remembers : Task Q → List (ScalingInfo Q) → Type 0
  Remembers (before uses) items = Unit
  Remembers (appending found item uses) items = found ≡ is_some (entry item items)

  -- For each workload the step leaves what will be its entry, and one of which nothing is said its
  -- entry.
  abbrev pub Same : Task Q → List (ScalingInfo Q) → Task Q → List (ScalingInfo Q) → Type 0
  Same task items task' items' =
      (name namespace : Text)
      → (finally name namespace task' (find name namespace items')
          ≡ finally name namespace task (find name namespace items))
        × (Silent name namespace task
            → Silent name namespace task'
              × (find name namespace items' ≡ find name namespace items))

  abbrev pub Steps : Task Q → List (ScalingInfo Q) → Type 0
  Steps task items =
      (task' : Task Q) × (items' : List (ScalingInfo Q)) × (step_task task items
        ≡ some (task', items'))
      × UniqueItems items'
      × Remembers task' items'
      × Same task items task' items'

  search_lem :
      (item : ScalingInfo Q) (uses : List (Use Q)) (items : List (ScalingInfo Q))
      → Remembers (appending (is_in_concurrent_list item items) item uses) (update item items)
  search_lem item uses items = ground (
    arith,
    is_in_concurrent_list-find item items,
    find-update item.name item.namespace item items,
    ==_refl item.name,
    ==_refl item.namespace,
  )

  search_entry :
      (name namespace : Text) (item : ScalingInfo Q) (items : List (ScalingInfo Q))
      → (if name == item.name && namespace == item.namespace
          then (if is_some (find name namespace (update item items))
              then find name namespace (update item items)
              else some item)
          else find name namespace (update item items))
        ≡ (if name == item.name && namespace == item.namespace
            then some item
            else find name namespace items)
  search_entry name namespace item items = ground (
    arith,
    find-update name namespace item items,
    ==_iff name item.name,
    ==_iff namespace item.namespace,
  )

  search_quiet :
      (name namespace : Text) (item : ScalingInfo Q) (items : List (ScalingInfo Q))
      → (name == item.name && namespace == item.namespace) ≡ false
      → find name namespace (update item items) ≡ find name namespace items
  search_quiet name namespace item items h = ground (arith, find-update name namespace item items)

  -- The first half of UpdateOrAppend, for a use that leaves `item`.
  search_Same :
      (item : ScalingInfo Q) (uses : List (Use Q)) (items : List (ScalingInfo Q))
      (name namespace : Text)
      → (finally name namespace
            (appending (is_in_concurrent_list item items) item uses)
            (find name namespace (update item items))
          ≡ finally name namespace (before (puts item ∷ uses)) (find name namespace items))
        × (Silent name namespace (before (puts item ∷ uses))
            → Silent name namespace (appending (is_in_concurrent_list item items) item uses)
              × (find name namespace (update item items) ≡ find name namespace items))
  search_Same item uses items name namespace = (
    ap (entry_after name namespace uses) (search_entry name namespace item items),
    λ h. (h, search_quiet name namespace item items (h.0)),
  )

  append_entry :
      (found : Bool) (name namespace : Text) (item : ScalingInfo Q) (items : List (ScalingInfo Q))
      → found ≡ is_some (entry item items)
      → find name namespace (append_missing found item items) ≡ (
          if name == item.name && namespace == item.namespace
          then (if is_some (find name namespace items)
              then find name namespace items
              else some item)
          else find name namespace items)
  unfolding append_missing
  append_entry found name namespace item items h = ground (
    arith,
    h,
    find-append name namespace items item,
    ==_iff name item.name,
    ==_iff namespace item.namespace,
  )

  append_missing-UniqueItems :
      (found : Bool) (item : ScalingInfo Q) (items : List (ScalingInfo Q))
      → found ≡ is_some (entry item items)
      → UniqueItems items
      → UniqueItems (append_missing found item items)
  unfolding append_missing
  append_missing-UniqueItems true item items h u = u
  append_missing-UniqueItems false item items h u =
      append-UniqueItems items item u (ground (arith, h))

  -- A step of a goroutine whose loop of UpdateOrAppend, if it stands behind one, still holds: there
  -- is no panic, the keys stay distinct, what the loop found holds then, and each workload will have
  -- the same entry in the end.
  pub step_task_lem :
      (task : Task Q) (items : List (ScalingInfo Q))
      → UniqueItems items
      → Remembers task items
      → Steps task items
  unfolding step_task
  step_task_lem (before []) items u r =
      (before [], items, refl, u, tt, (λ name namespace. (refl, λ h. (h, refl))))
  step_task_lem (before (puts item ∷ uses)) items u r = (
    appending (is_in_concurrent_list item items) item uses,
    update item items,
    refl,
    update-UniqueItems item items u,
    search_lem item uses items,
    search_Same item uses items,
  )
  step_task_lem (before (sets item failure message desired ∷ uses)) items u r =
      let item' = record item {
        failure = failure;
        failure_message = message;
        desired_replicas = desired;
      } in
      (
        appending (is_in_concurrent_list item' items) item' uses,
        update item' items,
        refl,
        update-UniqueItems item' items u,
        search_lem item' uses items,
        search_Same item' uses items,
      )
  step_task_lem (before (delays item deadline ∷ uses)) items u r =
      let item' = record item { progress_deadline = deadline } in
      (
        appending (is_in_concurrent_list item' items) item' uses,
        update item' items,
        refl,
        update-UniqueItems item' items u,
        search_lem item' uses items,
        search_Same item' uses items,
      )
  step_task_lem (before (removes early item ∷ uses)) items u r =
      let (rest, e, finds, u') = find-remove_from_list early item items u in
      (
        before uses,
        rest,
        rw (e, removed) refl,
        u',
        tt,
        (λ name namespace. (
          ap (entry_after name namespace uses) (finds name namespace),
          λ h. (h.1, finds name namespace ∙ rw (h.0) refl),
        )),
      )
  step_task_lem (appending found item uses) items u r = (
    before uses,
    append_missing found item items,
    refl,
    append_missing-UniqueItems found item items r u,
    tt,
    (λ name namespace. (
      ap (entry_after name namespace uses) (append_entry found name namespace item items r),
      λ h. (h.1, append_entry found name namespace item items r ∙ rw (h.0) refl),
    )),
  )
