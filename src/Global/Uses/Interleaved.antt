-- ===== src/Global/Uses/Interleaved.antt =====
-- Two goroutines use the deny list, and may run between the halves of each other's UpdateOrAppend. The
-- loop of a method is one step here. The code gives the lock back once the last entry is sent, so that
-- what the loop does with that entry may come after a step of another goroutine; these schedules are
-- left out.
pub mod Halves
pub mod Agree
use pre_scaling_operator.Common.{
  Text, ◌==◌, ==_iff, Bool, Bool-cases, true, false, ◌&&◌, Option, none, some, List, [], ◌∷◌,
  if◌then◌else◌, ◌≡◌, ◌⊎◌, inl, inr,
}
use pre_scaling_operator.Global.{ScalingInfo}
use pre_scaling_operator.Global.Denylist.{
  update, is_in_concurrent_list, append_missing, set_scaling_item, remove_from_list,
}
use pre_scaling_operator.Global.Uses.{
  Use, puts, sets, delays, removes, subject, touches, leaves, entry_after,
}

-- Where a goroutine stands: before the uses that are left, or between the halves of an
-- UpdateOrAppend whose loop found the item or not.
pub data Task (Q : Type 0) : Type 0 where
  before : List (Use Q) → Task Q
  appending : Bool → ScalingInfo Q → List (Use Q) → Task Q

pub record Pair (Q : Type 0) : Type 0 where
  pub denylist : List (ScalingInfo Q)
  pub first : Task Q
  pub second : Task Q

module _ {Q : Type 0} where
  -- The loop of UpdateOrAppend.
  abbrev pub search :
      ScalingInfo Q → List (Use Q) → List (ScalingInfo Q) → Option (Task Q × List (ScalingInfo Q))
  search item uses items =
      some (appending (is_in_concurrent_list item items) item uses, update item items)

  abbrev pub removed :
      List (Use Q) → Option (List (ScalingInfo Q)) → Option (Task Q × List (ScalingInfo Q))
  removed uses none = none
  removed uses (some items) = some (before uses, items)

  -- A step of a goroutine, which no other one interrupts: a whole loop, with what it does with the last
  -- entry after the lock was given back, or an append.
  unfoldable pub step_task : Task Q → List (ScalingInfo Q) → Option (Task Q × List (ScalingInfo Q))
  step_task (before []) items = some (before [], items)
  step_task (before (puts item ∷ uses)) items = search item uses items
  step_task (before (sets item failure message desired ∷ uses)) items =
      search
        (record item { failure = failure; failure_message = message; desired_replicas = desired })
        uses items
  step_task (before (delays item deadline ∷ uses)) items =
      search (record item { progress_deadline = deadline }) uses items
  step_task (before (removes early item ∷ uses)) items =
      removed uses (remove_from_list early item items)
  step_task (appending found item uses) items = some (before uses, append_missing found item items)

  abbrev pub first_stepped : Pair Q → Option (Task Q × List (ScalingInfo Q)) → Option (Pair Q)
  first_stepped p none = none
  first_stepped p (some (task, items)) = some (record p { denylist = items; first = task })

  abbrev pub second_stepped : Pair Q → Option (Task Q × List (ScalingInfo Q)) → Option (Pair Q)
  second_stepped p none = none
  second_stepped p (some (task, items)) = some (record p { denylist = items; second = task })

  unfoldable pub step_pair : Bool → Pair Q → Option (Pair Q)
  unfolding step_task
  step_pair true p = first_stepped p (step_task p.first p.denylist)
  step_pair false p = second_stepped p (step_task p.second p.denylist)

  -- A schedule says of each step whether the first goroutine makes it; `none` is a panic.
  unfoldable pub run_schedule : List Bool → Pair Q → Option (Pair Q)
  unfolding step_pair
  run_schedule [] p = some p
  run_schedule (turn ∷ turns) p = elim (step_pair turn p) [
    | none ↦ none
    | some p' ↦ run_schedule turns p'
  ]

  abbrev pub start : List (Use Q) → List (Use Q) → List (ScalingInfo Q) → Pair Q
  start us vs items = record { denylist = items; first = before us; second = before vs }

  -- No use is about the workload.
  abbrev pub Quiet : Text → Text → List (Use Q) → Type 0
  Quiet name namespace [] = Unit
  Quiet name namespace (use' ∷ uses) =
      (touches name namespace use' ≡ false) × Quiet name namespace uses

  -- Of each workload at most one of the two speaks.
  abbrev pub Apart : List (Use Q) → List (Use Q) → Type 0
  Apart us vs = (name namespace : Text) → Quiet name namespace us ⊎ Quiet name namespace vs

  -- Every use is about a workload of that name.
  abbrev pub AllNamed : Text → List (Use Q) → Type 0
  AllNamed name [] = Unit
  AllNamed name (use' ∷ uses) = ((subject use').name ≡ name) × AllNamed name uses

  Quiet-of_name :
      (name namespace other : Text) (uses : List (Use Q))
      → name == other ≡ false
      → AllNamed other uses
      → Quiet name namespace uses
  Quiet-of_name name namespace other [] differs named = tt
  Quiet-of_name name namespace other (use' ∷ uses) differs (e, named) =
      (rw e (rw differs), Quiet-of_name name namespace other uses differs named)

  -- Uses about two names are apart.
  pub names-Apart :
      (a b : Text) (us vs : List (Use Q))
      → a == b ≡ false
      → AllNamed a us
      → AllNamed b vs
      → Apart us vs
  names-Apart a b us vs differs named named' name namespace = elim (Bool-cases (name == a)) [
    | inl same ↦
        let is_a : name ≡ a = (==_iff name a).0 same in
        inr (Quiet-of_name name namespace b vs (rw is_a differs) named')
    | inr other ↦ inl (Quiet-of_name name namespace a us other named)
  ]
