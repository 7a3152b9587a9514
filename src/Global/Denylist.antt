-- ===== src/Global/Denylist.antt =====
-- pkg/utils/global/concurrrent.go: the methods of ConcurrentSlice, run one at a time on the deny
-- list. `Iter` visits the entries in order and holds the lock until the last is taken.
use pre_scaling_operator.Common.{
  ℕ, zero, suc, ◌+◌, ◌-◌, ℤ, Bool, true, false, ◌||◌, ◌&&◌, not, Option, none, some, List, [], ◌∷◌,
  ◌++◌, Text, ◌==◌, leb, length, get_elem?, take, drop, if◌then◌else◌,
}
use pre_scaling_operator.Global.{ScalingInfo, no_item, same_key}

module _ {Q : Type 0} where
  -- The loop that UpdateOrAppend and Update share: every entry with the key becomes `item`.
  unfoldable pub update : ScalingInfo Q → List (ScalingInfo Q) → List (ScalingInfo Q)
  update item [] = []
  update item (value ∷ items) = (if same_key item value then item else value) ∷ update item items

  unfoldable pub is_in_concurrent_list : ScalingInfo Q → List (ScalingInfo Q) → Bool
  is_in_concurrent_list item [] = false
  is_in_concurrent_list item (value ∷ items) =
      same_key item value || is_in_concurrent_list item items

  -- What UpdateOrAppend does after its loop, under the lock taken anew.
  unfoldable pub append_missing : Bool → ScalingInfo Q → List (ScalingInfo Q) → List (ScalingInfo Q)
  append_missing found item items = if found then items else items ++ item ∷ []

  unfoldable pub update_or_append : ScalingInfo Q → List (ScalingInfo Q) → List (ScalingInfo Q)
  unfolding append_missing
  update_or_append item items =
      append_missing (is_in_concurrent_list item items) item (update item items)

  unfoldable pub is_being_scaled : ScalingInfo Q → List (ScalingInfo Q) → Bool
  is_being_scaled item [] = false
  is_being_scaled item (value ∷ items) =
      (same_key item value && value.is_being_scaled) || is_being_scaled item items

  unfoldable pub is_any_being_scaled : List (ScalingInfo Q) → List (ScalingInfo Q) → Bool
  is_any_being_scaled [] denylist = false
  is_any_being_scaled (item ∷ items) denylist =
      is_being_scaled item denylist || is_any_being_scaled items denylist

  -- The loop of GetDeploymentInfoFromList: the last entry with the key, else what `result` was.
  unfoldable pub last_match : ScalingInfo Q → ScalingInfo Q → List (ScalingInfo Q) → ScalingInfo Q
  last_match item result [] = result
  last_match item result (value ∷ items) =
      last_match item (if same_key item value then value else result) items

  -- The item and whether the error is nil; with the NotFound error comes the item passed in.
  unfoldable pub get_deployment_info : ScalingInfo Q → List (ScalingInfo Q) → ScalingInfo Q × Bool
  unfolding last_match
  get_deployment_info item items =
      let result = last_match item no_item items in
      if not (result.name == []) && not (result.namespace == [])
      then (result, true)
      else (item, false)

  unfoldable pub is_deployment_in_failure_state : ScalingInfo Q → List (ScalingInfo Q) → Bool
  is_deployment_in_failure_state item items =
      let (found, is_nil) = get_deployment_info item items in
      if is_nil then found.failure else false

  unfoldable pub get_desired_replicas : ScalingInfo Q → List (ScalingInfo Q) → ℤ
  get_desired_replicas item items = (get_deployment_info item items).0.desired_replicas

  -- The item returned, and the list.
  unfoldable pub set_scaling_item :
      ScalingInfo Q → Bool → Text → ℤ → List (ScalingInfo Q) → ScalingInfo Q × List (ScalingInfo Q)
  set_scaling_item item failure failure_message desired_replicas items =
      let item' = record item {
        failure = failure;
        failure_message = failure_message;
        desired_replicas = desired_replicas;
      } in
      (item', update_or_append item' items)

  unfoldable pub set_progress_deadline :
      ScalingInfo Q → ℤ → List (ScalingInfo Q) → List (ScalingInfo Q)
  set_progress_deadline item progress_deadline =
      update_or_append (record item { progress_deadline = progress_deadline })

-- RemoveIndex on the first `len` cells of an array: the cells after `index` move down one place in
-- the same array, and the last cell keeps its value behind the shorter slice. `none` is the panic
-- of s[index+1:] beyond the length.
unfoldable pub remove_index {ℓ} : {A : Type ℓ} → List A → ℕ → ℕ → Option (List A × ℕ)
remove_index array len index =
    if leb (index + 1) len
    then some
        (take index array ++ (drop (index + 1) (take len array) ++ drop (len - 1) array), len - 1)
    else none

module _ {Q : Type 0} where
  -- One round of the consumer in RemoveFromList.
  remove_round :
      ScalingInfo Q
      → ScalingInfo Q
      → ℕ
      → List (ScalingInfo Q) × ℕ
      → Option (List (ScalingInfo Q) × ℕ)
  unfolding remove_index
  remove_round item value i (array, len) =
      if same_key item value then remove_index array len i else some (array, len)

  -- The rounds left to a `range` over the slice as it was at the start. The goroutine of `Iter`
  -- reads the next entry before (`early i`) or after the consumer is done with entry `i`.
  unfoldable pub remove_rounds :
      (ℕ → Bool)
      → ScalingInfo Q
      → ℕ
      → ℕ
      → Option (ScalingInfo Q)
      → List (ScalingInfo Q) × ℕ
      → Option (List (ScalingInfo Q))
  unfolding remove_round
  remove_rounds early item zero i value (array, len) = some (take len array)
  remove_rounds early item (suc rounds) i none (array, len) = some (take len array)
  remove_rounds early item (suc rounds) i (some value) (array, len) =
      elim (remove_round item value i (array, len)) [
        | none ↦ none
        | some (array', len') ↦
            remove_rounds early item rounds (i + 1)
              (get_elem? (if early i then array else array') (i + 1)) (array', len')
      ]

  -- RemoveFromList; `none` is a panic.
  unfoldable pub remove_from_list :
      (ℕ → Bool) → ScalingInfo Q → List (ScalingInfo Q) → Option (List (ScalingInfo Q))
  unfolding remove_rounds
  remove_from_list early item items =
      remove_rounds early item (length items) 0 (get_elem? items 0) (items, length items)

  -- The rounds of PurgeList, one for each entry that the slice had at the start.
  unfoldable pub purge_rounds : ℕ → List (ScalingInfo Q) × ℕ → Option (List (ScalingInfo Q))
  unfolding remove_index
  purge_rounds zero (array, len) = some (take len array)
  purge_rounds (suc rounds) (array, len) = elim (remove_index array len 0) [
    | none ↦ none
    | some (array', len') ↦ purge_rounds rounds (array', len')
  ]

  unfoldable pub purge_list : List (ScalingInfo Q) → Option (List (ScalingInfo Q))
  unfolding purge_rounds
  purge_list items = purge_rounds (length items) (items, length items)
