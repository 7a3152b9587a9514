-- ===== src/Global/Removal/Rounds.antt =====
-- The rounds of RemoveFromList, one by one. Every schedule of the goroutine that reads the array is
-- considered.
use mathlib.Core.List.{append_assoc}
use pre_scaling_operator.Common.{
  ℕ, zero, suc, ◌+◌, Bool, true, false, ◌≡◌, refl, ap, ◌∙◌, Option, none, some, List, [], ◌∷◌, ◌++◌,
  arith, if◌then◌else◌, length, get_elem?, take, drop, length-append,
}
use pre_scaling_operator.Global.{ScalingInfo, same_key}
use pre_scaling_operator.Global.Denylist.{remove_rounds}
use pre_scaling_operator.Global.Removal.Arrays.{
  remove_index_lem, get_elem?_after, drop_after, take_kept, same_read,
}

module _ {Q : Type 0} where
  -- No entry has the item's key.
  abbrev pub Misses : ScalingInfo Q → List (ScalingInfo Q) → Type 0
  Misses item [] = Unit
  Misses item (value ∷ items) = (same_key item value ≡ false) × Misses item items

  abbrev MissesRead : ScalingInfo Q → Option (ScalingInfo Q) → Type 0
  MissesRead item none = Unit
  MissesRead item (some value) = same_key item value ≡ false

  -- The list that is left when the entries of the item's workload are taken out.
  unfoldable pub without : ScalingInfo Q → List (ScalingInfo Q) → List (ScalingInfo Q)
  without item [] = []
  without item (value ∷ items) =
      if same_key item value then without item items else value ∷ without item items

  Misses-read :
      (item : ScalingInfo Q) (k : ℕ) (items : List (ScalingInfo Q))
      → Misses item (drop k items)
      → MissesRead item (get_elem? items k)
  Misses-read item zero [] m = tt
  Misses-read item zero (value ∷ items) m = m.0
  Misses-read item (suc k) [] m = tt
  Misses-read item (suc k) (value ∷ items) m = Misses-read item k items m

  Misses-drop :
      (item : ScalingInfo Q) (k : ℕ) (items : List (ScalingInfo Q))
      → Misses item items
      → Misses item (drop k items)
  Misses-drop item zero items m = m
  Misses-drop item (suc k) [] m = tt
  Misses-drop item (suc k) (value ∷ items) m = Misses-drop item k items m.1

  Misses-drop_suc :
      (item : ScalingInfo Q) (k : ℕ) (items : List (ScalingInfo Q))
      → Misses item (drop k items)
      → Misses item (drop (k + 1) items)
  Misses-drop_suc item zero [] m = tt
  Misses-drop_suc item zero (value ∷ items) m = m.1
  Misses-drop_suc item (suc k) [] m = let e : suc k + 1 ≡ suc (k + 1) = omega arith in rw e tt
  Misses-drop_suc item (suc k) (value ∷ items) m =
      let e : suc k + 1 ≡ suc (k + 1) = omega arith in rw e (Misses-drop_suc item k items m)

  Misses-append :
      (item : ScalingInfo Q) (xs ys : List (ScalingInfo Q))
      → Misses item xs
      → Misses item ys
      → Misses item (xs ++ ys)
  Misses-append item [] ys m n = n
  Misses-append item (x ∷ xs) ys m n = (m.0, Misses-append item xs ys m.1 n)

  read_choice :
      (item : ScalingInfo Q) (b : Bool) (xs ys : List (ScalingInfo Q)) (k : ℕ)
      → MissesRead item (get_elem? xs k)
      → MissesRead item (get_elem? ys k)
      → MissesRead item (get_elem? (if b then xs else ys) k)
  read_choice item true xs ys k m n = m
  read_choice item false xs ys k m n = n

  -- Where nothing ahead has the key, the remaining rounds change nothing.
  remove_rounds-Misses :
      (early : ℕ → Bool) (item : ScalingInfo Q) (rounds i : ℕ) (value : Option (ScalingInfo Q))
      (array : List (ScalingInfo Q)) (len : ℕ)
      → MissesRead item value
      → Misses item (drop (i + 1) array)
      → remove_rounds early item rounds i value (array, len) ≡ some (take len array)
  unfolding remove_rounds
  remove_rounds-Misses early item zero i value array len m ahead = refl
  remove_rounds-Misses early item (suc rounds) i none array len m ahead = refl
  remove_rounds-Misses early item (suc rounds) i (some value) array len m ahead =
      rw (m, remove_rounds)
        (remove_rounds-Misses early item rounds (i + 1) _ array len
          (read_choice item (early i) array array (i + 1) (Misses-read item (i + 1) array ahead)
            (Misses-read item (i + 1) array ahead))
          (Misses-drop_suc item (i + 1) array ahead))

  -- What the last cell keeps behind the shorter slice does not have the key either.
  stale_Misses :
      (item x : ScalingInfo Q) (xs ys : List (ScalingInfo Q))
      → Misses item ys
      → (y : ScalingInfo Q) → Misses item (y ∷ ys)
      → Misses item (drop (length (xs ++ y ∷ ys)) (xs ++ x ∷ (y ∷ ys)))
  stale_Misses item x xs ys m y n =
      let e : length (xs ++ y ∷ ys) ≡ length xs + suc (length ys) =
        omega (arith, length-append xs (y ∷ ys)) in
      rw (e, drop_after xs (x ∷ (y ∷ ys)) (suc (length ys)))
        (Misses-drop item (length ys) (y ∷ ys) n)

  -- After the round that finds the entry, the rounds left see entries of other workloads alone.
  pub remove_rounds-hit :
      (early : ℕ → Bool) (item : ScalingInfo Q) (front : List (ScalingInfo Q)) (x : ScalingInfo Q)
      (post : List (ScalingInfo Q))
      → same_key item x ≡ true
      → Misses item post
      → remove_rounds early item
          (length (x ∷ post))
          (length front)
          (some x)
          (front ++ x ∷ post, length (front ++ x ∷ post))
        ≡ some (front ++ post)
  unfolding remove_rounds
  remove_rounds-hit early item front x [] h m =
      rw (h, remove_rounds) (rw (remove_index_lem front x []) (ap some (take_kept front [] _)))
  remove_rounds-hit early item front x (y ∷ post) h m =
      let stale = drop (length (front ++ y ∷ post)) (front ++ x ∷ (y ∷ post)) in
      let array = front ++ x ∷ (y ∷ post) in
      let array' = front ++ y ∷ (post ++ stale) in
      let ahead : Misses item (drop (length front + 1) array) =
        rw (drop_after front (x ∷ (y ∷ post)) 1) m in
      let ahead' : Misses item (drop (length front + 1) array') =
        rw (drop_after front (y ∷ (post ++ stale)) 1)
          (Misses-append item post stale m.1 (stale_Misses item x front post m.1 y m)) in
      rw (h, remove_rounds)
        (rw (remove_index_lem front x (y ∷ post)) (
          remove_rounds-Misses early item (suc (length post)) (length front + 1) _ array'
            (length (front ++ y ∷ post))
            (read_choice item (early (length front)) array array' (length front + 1)
              (Misses-read item (length front + 1) array ahead)
              (Misses-read item (length front + 1) array' ahead'))
            (Misses-drop_suc item (length front + 1) array' ahead')
          ∙ ap some (take_kept front (y ∷ post) stale)))

  -- A round for another workload changes nothing.
  pub remove_rounds-miss :
      (early : ℕ → Bool) (item : ScalingInfo Q) (front : List (ScalingInfo Q)) (p : ScalingInfo Q)
      (rest : List (ScalingInfo Q))
      → same_key item p ≡ false
      → remove_rounds early item
          (length (p ∷ rest))
          (length front)
          (some p)
          (front ++ p ∷ rest, length (front ++ p ∷ rest))
        ≡ remove_rounds early item
            (length rest)
            (length (front ++ p ∷ []))
            (get_elem? rest 0)
            ((front ++ p ∷ []) ++ rest, length ((front ++ p ∷ []) ++ rest))
  unfolding remove_rounds
  remove_rounds-miss early item front p rest m =
      let snoc : length (front ++ p ∷ []) ≡ length front + 1 =
        omega (arith, length-append front (p ∷ [])) in
      rw (m, remove_rounds)
        (rw (same_read (early (length front)) (front ++ p ∷ rest) (length front + 1))
          (rw (get_elem?_after front (p ∷ rest) 1) (rw (snoc, append_assoc front (p ∷ []) rest))))
