-- ===== src/Global/Removal.antt =====
-- RemoveFromList and PurgeList take entries out of an array that the goroutine of `Iter` is still
-- reading. Every schedule of that reading is considered.
mod Arrays
pub mod Rounds
use mathlib.Core.List.{append_assoc, append-nil}
use pre_scaling_operator.Common.{
  ℕ, zero, suc, ◌+◌, ◌-◌, ◌≤◌, ◌<◌, Bool, true, false, ◌&&◌, ◌≡◌, refl, ap, sym, ◌∙◌, Option, none,
  some, List, [], ◌∷◌, ◌++◌, Text, ◌==◌, ==_iff, arith, if◌then◌else◌, length, get_elem?, take,
  drop, leb, length-append, Bool-cases, inl, inr,
}
use pre_scaling_operator.Global.{ScalingInfo, same_key}
use pre_scaling_operator.Global.Denylist.{
  remove_index, remove_rounds, remove_from_list, purge_list, purge_rounds,
}
use pre_scaling_operator.Global.Registry.{find, entry, UniqueItems}
use pre_scaling_operator.Global.Removal.Arrays.{
  take_whole, remove_index_lem, get_elem?_after, drop_after, take_kept, same_read,
}
use pre_scaling_operator.Global.Removal.Rounds.{
  Misses, without, remove_rounds-hit, remove_rounds-miss,
}

module _ {Q : Type 0} where
  without-Misses :
      (item : ScalingInfo Q) (items : List (ScalingInfo Q))
      → Misses item items
      → without item items ≡ items
  unfolding without
  without-Misses item [] m = refl
  without-Misses item (value ∷ items) m = ground (arith, without-Misses item items m.1)

  pub Misses-find :
      (item : ScalingInfo Q) (items : List (ScalingInfo Q))
      → entry item items ≡ none
      → Misses item items
  unfolding find
  Misses-find item [] e = tt
  Misses-find item (value ∷ items) e = ground (arith, Misses-find item items)

  -- Where the keys are distinct, an entry that is found stands alone.
  alone :
      (item : ScalingInfo Q) (value : ScalingInfo Q) (items : List (ScalingInfo Q))
      → same_key item value ≡ true
      → entry value items ≡ none
      → Misses item items
  alone item value items h u =
      Misses-find item items
        (ground (arith, ==_iff item.name value.name, ==_iff item.namespace value.namespace))

  without-hit :
      (item x : ScalingInfo Q) (items : List (ScalingInfo Q))
      → same_key item x ≡ true
      → Misses item items
      → without item (x ∷ items) ≡ items
  unfolding without
  without-hit item x items h m = ground (arith, without-Misses item items m)

  without-miss :
      (item x : ScalingInfo Q) (items : List (ScalingInfo Q))
      → same_key item x ≡ false
      → without item (x ∷ items) ≡ x ∷ without item items
  unfolding without
  without-miss item x items h = ground arith

  remove_rounds_done :
      (early : ℕ → Bool) (item : ScalingInfo Q) (front : List (ScalingInfo Q))
      → remove_rounds early item 0 (length front) none (front ++ [], length (front ++ []))
        ≡ some (front ++ [])
  unfolding remove_rounds
  remove_rounds_done early item front = ap some (take_whole (front ++ []))

  remove_rounds-without :
      (early : ℕ → Bool) (item : ScalingInfo Q) (front items : List (ScalingInfo Q))
      → UniqueItems items
      → remove_rounds early item
          (length items)
          (length front)
          (get_elem? items 0)
          (front ++ items, length (front ++ items))
        ≡ some (front ++ without item items)
  unfolding without
  remove_rounds-without early item front [] u = remove_rounds_done early item front
  remove_rounds-without early item front (x ∷ items) u = elim (Bool-cases (same_key item x)) [
    | inl hit ↦
        let m = alone item x items hit u.0 in
        remove_rounds-hit early item front x items hit m
        ∙ ap (λ r. some (front ++ r)) (sym (without-hit item x items hit m))
    | inr miss ↦
        remove_rounds-miss early item front x items miss
        ∙ remove_rounds-without early item (front ++ x ∷ []) items u.1
        ∙ ap some (append_assoc front (x ∷ []) (without item items))
        ∙ ap (λ r. some (front ++ r)) (sym (without-miss item x items miss))
  ]

  -- On a list with distinct keys RemoveFromList takes out the entry of the item's workload and
  -- nothing else, and does not panic, whichever way the goroutine of `Iter` is scheduled.
  pub remove_from_list-without :
      (early : ℕ → Bool) (item : ScalingInfo Q) (items : List (ScalingInfo Q))
      → UniqueItems items
      → remove_from_list early item items ≡ some (without item items)
  unfolding remove_from_list
  remove_from_list-without early item items u = remove_rounds-without early item [] items u

  pub find-without :
      (name namespace : Text) (item : ScalingInfo Q) (items : List (ScalingInfo Q))
      → find name namespace (without item items) ≡ (
          if name == item.name && namespace == item.namespace
          then none
          else find name namespace items)
  unfolding find without
  find-without name namespace item [] = ground arith
  find-without name namespace item (value ∷ items) = ground (
    arith,
    ==_iff name item.name,
    ==_iff namespace item.namespace,
    ==_iff name value.name,
    ==_iff namespace value.namespace,
    ==_iff item.name value.name,
    ==_iff item.namespace value.namespace,
    find-without name namespace item items,
  )

  without-UniqueItems :
      (item : ScalingInfo Q) (items : List (ScalingInfo Q))
      → UniqueItems items
      → UniqueItems (without item items)
  unfolding without
  without-UniqueItems item [] u = tt
  without-UniqueItems item (value ∷ items) u = ground (
    arith,
    without-UniqueItems item items u.1,
    find-without value.name value.namespace item items,
  )

  -- On a list with distinct keys RemoveFromList does not panic, whichever way the goroutine of
  -- `Iter` is scheduled; it is deletion from the map by name and namespace, and keeps the keys
  -- distinct.
  pub find-remove_from_list :
      (early : ℕ → Bool) (item : ScalingInfo Q) (items : List (ScalingInfo Q))
      → UniqueItems items
      → (rest : List (ScalingInfo Q)) × (remove_from_list early item items ≡ some rest)
        × ((name namespace : Text)
            → find name namespace rest ≡ (
                if name == item.name && namespace == item.namespace
                then none
                else find name namespace items))
        × UniqueItems rest
  find-remove_from_list early item items u = (
    without item items,
    remove_from_list-without early item items u,
    (λ name namespace. find-without name namespace item items),
    without-UniqueItems item items u,
  )

  both_reads :
      (b : Bool) (xs ys : List (ScalingInfo Q)) (k : ℕ) (o : Option (ScalingInfo Q))
      → get_elem? xs k ≡ o
      → get_elem? ys k ≡ o
      → get_elem? (if b then xs else ys) k ≡ o
  both_reads true xs ys k o p q = p
  both_reads false xs ys k o p q = q

  remove_rounds-second :
      (early : ℕ → Bool) (item : ScalingInfo Q) (front : List (ScalingInfo Q)) (x y : ScalingInfo Q)
      → same_key item x ≡ true
      → same_key item y ≡ true
      → remove_rounds early item 2
          (length front)
          (some x)
          (front ++ x ∷ (y ∷ []), length (front ++ x ∷ (y ∷ [])))
        ≡ none
  unfolding remove_rounds remove_index
  remove_rounds-second early item front x y h k =
      let snoc : length (front ++ y ∷ []) ≡ length front + 1 =
        omega (arith, length-append front (y ∷ [])) in
      let array = front ++ x ∷ (y ∷ []) in
      let stale = drop (length (front ++ y ∷ [])) array in
      let stays : stale ≡ y ∷ [] = rw snoc (drop_after front (x ∷ (y ∷ [])) 1) in
      let read : get_elem? (if early (length front) then array else front ++ y ∷ stale)
            (length front + 1)
          ≡ some y =
        both_reads (early (length front)) array (front ++ y ∷ stale) (length front + 1) (some y)
          (get_elem?_after front (x ∷ (y ∷ [])) 1)
          (rw stays (get_elem?_after front (y ∷ (y ∷ [])) 1)) in
      let beyond : leb (length front + 1 + 1) (length (front ++ y ∷ [])) ≡ false =
        ground (arith, snoc) in
      rw (h, remove_rounds)
        (rw (remove_index_lem front x (y ∷ []))
          (rw read (rw (k, remove_rounds) (rw (beyond, remove_index)))))

  remove_rounds-twice :
      (early : ℕ → Bool) (item : ScalingInfo Q) (front pre : List (ScalingInfo Q))
      (x y : ScalingInfo Q)
      → Misses item pre
      → same_key item x ≡ true
      → same_key item y ≡ true
      → remove_rounds early item
          (length (pre ++ x ∷ (y ∷ [])))
          (length front)
          (get_elem? (pre ++ x ∷ (y ∷ [])) 0)
          (front ++ (pre ++ x ∷ (y ∷ [])), length (front ++ (pre ++ x ∷ (y ∷ []))))
        ≡ none
  remove_rounds-twice early item front [] x y m h k = remove_rounds-second early item front x y h k
  remove_rounds-twice early item front (p ∷ pre) x y m h k =
      remove_rounds-miss early item front p (pre ++ x ∷ (y ∷ [])) m.0
      ∙ remove_rounds-twice early item (front ++ p ∷ []) pre x y m.1 h k

  -- Two entries of one workload at the end of the list make RemoveFromList panic: after the first
  -- is taken out, the second is met at an index that the shorter slice does not have.
  pub remove_from_list_panics :
      (early : ℕ → Bool) (item : ScalingInfo Q) (pre : List (ScalingInfo Q)) (x y : ScalingInfo Q)
      → Misses item pre
      → same_key item x ≡ true
      → same_key item y ≡ true
      → remove_from_list early item (pre ++ x ∷ (y ∷ [])) ≡ none
  unfolding remove_from_list
  remove_from_list_panics early item pre x y m h k = remove_rounds-twice early item [] pre x y m h k

  purge_rounds-nil : (n : ℕ) (array : List (ScalingInfo Q)) → purge_rounds n (array, n) ≡ some []
  unfolding purge_rounds remove_index
  purge_rounds-nil zero array = refl
  purge_rounds-nil (suc n) array =
      let fits : leb (0 + 1) (suc n) ≡ true = ground arith in
      let less : suc n - 1 ≡ n = omega arith in
      rw (fits, purge_rounds) (rw less (purge_rounds-nil n _))

  -- PurgeList empties the list, and does not panic.
  pub purge_list-nil : (items : List (ScalingInfo Q)) → purge_list items ≡ some []
  unfolding purge_list
  purge_list-nil items = purge_rounds-nil (length items) items
