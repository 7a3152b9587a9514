-- ===== src/Global/Race.antt =====
-- UpdateOrAppend takes the lock twice: once in its loop, once to append. Two goroutines may run
-- between each other's halves.
use pre_scaling_operator.Common.{
  ℕ, Bool, true, false, ◌≡◌, refl, none, List, [], ◌∷◌, ◌++◌, arith, ==_refl, ==_iff,
}
use mathlib.Core.List.{append_assoc}
use pre_scaling_operator.Global.{ScalingInfo, same_key}
use pre_scaling_operator.Global.Denylist.{
  update, is_in_concurrent_list, append_missing, remove_from_list,
}
use pre_scaling_operator.Global.Registry.{entry}
use pre_scaling_operator.Global.Removal.Rounds.{Misses}
use pre_scaling_operator.Global.Removal.{Misses-find, remove_from_list_panics}

-- One UpdateOrAppend in flight: where it stands, and what its loop found.
pub data Phase : Type 0 where
  searching : Phase
  appending : Bool → Phase
  returned : Phase

pub record World (Q : Type 0) : Type 0 where
  pub denylist : List (ScalingInfo Q)
  pub first : Phase
  pub second : Phase

module _ {Q : Type 0} (a b : ScalingInfo Q) where
  -- No step is interrupted by another one: a whole loop, with its write for the last entry, or an append.
  pub data Step : World Q → World Q → Type 0 where
    first_searches :
        (d : List (ScalingInfo Q)) (p : Phase)
        → Step
            (record { denylist = d; first = searching; second = p })
            (record {
              denylist = update a d;
              first = appending (is_in_concurrent_list a d);
              second = p;
            })
    first_appends :
        (d : List (ScalingInfo Q)) (found : Bool) (p : Phase)
        → Step
            (record { denylist = d; first = appending found; second = p })
            (record { denylist = append_missing found a d; first = returned; second = p })
    second_searches :
        (d : List (ScalingInfo Q)) (p : Phase)
        → Step
            (record { denylist = d; first = p; second = searching })
            (record {
              denylist = update b d;
              first = p;
              second = appending (is_in_concurrent_list b d);
            })
    second_appends :
        (d : List (ScalingInfo Q)) (found : Bool) (p : Phase)
        → Step
            (record { denylist = d; first = p; second = appending found })
            (record { denylist = append_missing found b d; first = p; second = returned })

  pub data Reach (s : World Q) : World Q → Type 0 where
    here : Reach s s
    next : {t u : World Q} → Reach s t → Step t u → Reach s u

  abbrev pub start : List (ScalingInfo Q) → World Q
  start d = record { denylist = d; first = searching; second = searching }

  abbrev pub finished : List (ScalingInfo Q) → World Q
  finished d = record { denylist = d; first = returned; second = returned }

  interleaved :
      (d : List (ScalingInfo Q))
      → Reach (start d) (
          finished (
            append_missing
              (is_in_concurrent_list b (update a d))
              b
              (append_missing (is_in_concurrent_list a d) a (update b (update a d)))))
  interleaved d =
      next
        (next (next (next here (first_searches d searching)) (second_searches (update a d) _))
          (first_appends (update b (update a d)) (is_in_concurrent_list a d) _))
        (second_appends _ (is_in_concurrent_list b (update a d)) returned)

module _ {Q : Type 0} where
  update-Misses :
      (item : ScalingInfo Q) (items : List (ScalingInfo Q))
      → Misses item items
      → update item items ≡ items
  unfolding update
  update-Misses item [] m = refl
  update-Misses item (value ∷ items) m = ground (arith, update-Misses item items m.1)

  Misses-absent :
      (item : ScalingInfo Q) (items : List (ScalingInfo Q))
      → Misses item items
      → is_in_concurrent_list item items ≡ false
  unfolding is_in_concurrent_list
  Misses-absent item [] m = refl
  Misses-absent item (value ∷ items) m = ground (arith, Misses-absent item items m.1)

  Misses-same :
      (a b : ScalingInfo Q) (items : List (ScalingInfo Q))
      → same_key a b ≡ true
      → Misses a items
      → Misses b items
  Misses-same a b [] h m = tt
  Misses-same a b (value ∷ items) h m = (
    ground (arith, ==_iff a.name b.name, ==_iff a.namespace b.namespace, m.0),
    Misses-same a b items h m.1,
  )

  -- Two concurrent calls of UpdateOrAppend for one workload that is not on the deny list can both
  -- append, and whoever then removes the workload panics, under every schedule of the removal.
  pub race_panics :
      (a b : ScalingInfo Q) (d : List (ScalingInfo Q))
      → same_key a b ≡ true
      → entry a d ≡ none
      → Reach a b (start a b d) (finished a b (d ++ a ∷ (b ∷ [])))
        × ((early : ℕ → Bool) → remove_from_list early a (d ++ a ∷ (b ∷ [])) ≡ none)
  unfolding append_missing
  race_panics a b d h e =
      let m = Misses-find a d e in
      let n = Misses-same a b d h m in
      (
        rw
            (
              update-Misses a d m,
              update-Misses b d n,
              Misses-absent a d m,
              Misses-absent b d n,
              append_assoc d (a ∷ []) (b ∷ []),
            )
            at (interleaved a b d),
        λ early.
            remove_from_list_panics early a d a b m
              (ground (arith, ==_refl a.name, ==_refl a.namespace)) h,
      )
