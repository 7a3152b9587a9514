-- ===== src/Scaler/Loops/Listed.antt =====
-- ScaleOrStepScale and the deny list.
use mathlib.Core.Path.{subst}
use pre_scaling_operator.Common.{
  ℕ, eqb_ℤ, true, false, not, ◌&&◌, none, Result, ◌≡◌, inl, inr, refl, sym, ap, ◌∙◌, Bool-cases,
  if◌then◌else◌,
}
use pre_scaling_operator.Global.{ScalingInfo}
use pre_scaling_operator.Global.Registry.{entry, UniqueItems}
use pre_scaling_operator.States.{get_rapid_scaling_setting}
use pre_scaling_operator.Scaler.{Cluster, World}
use pre_scaling_operator.Scaler.Waiting.{Runtime, Run, after, put_on_list}
use pre_scaling_operator.Scaler.Waiting.Keeps.{
  put_on_list-Kept, register_events-none, take_off_list_lem,
}
use pre_scaling_operator.Scaler.Loops.{
  Scaled, step_scale, rapid_scale, finished, scale_or_step_scale,
}
use pre_scaling_operator.Scaler.Loops.Retries.{Unique, RunUnique, Retries, IsCalm}
use pre_scaling_operator.Scaler.Loops.Unique.{rapid_scale-RunUnique, step_loop-RunUnique}

module _ {Q : Type 0} (cluster : Cluster Q) (runtime : Runtime Q) (retries : Retries runtime)
    (calm : IsCalm runtime) where
  -- The scaler that ScaleOrStepScale calls for the item, with the deny list that it gets.
  abbrev pub scaled_by : ℕ → ScalingInfo Q → World Q → Scaled cluster runtime
  scaled_by rounds item w =
      let item' = record item { is_being_scaled = true } in
      let listed =
        put_on_list cluster item' item.failure item.failure_message item.desired_replicas w in
      if get_rapid_scaling_setting item
      then rapid_scale cluster runtime item' listed
      else step_scale cluster runtime rounds item' listed

  pub scaled_by-RunUnique :
      (rounds : ℕ) (item : ScalingInfo Q) (w : World Q)
      → Unique w
      → RunUnique (scaled_by rounds item w)
  unfolding step_scale
  scaled_by-RunUnique rounds item w u =
      let item' = record item { is_being_scaled = true } in
      let listed =
        put_on_list-Kept cluster item' item.failure item.failure_message item.desired_replicas
          w.changes w (u, refl) in
      elim (Bool-cases (get_rapid_scaling_setting item)) [
        | inl rapid ↦ rw rapid (rapid_scale-RunUnique cluster runtime retries calm item' _ listed.0)
        | inr stepwise ↦ rw stepwise (
            step_loop-RunUnique cluster runtime retries calm rounds item.desired_replicas
              item.spec_replica item' _ listed.0)
      ]

  -- The result is given, without the workload on the deny list, and no change is sent.
  abbrev pub TakenOff :
      ScalingInfo Q → World Q → Result (Unit {0}) → Scaled cluster runtime → Type 0
  TakenOff item w1 answer result =
      (w' : World Q) × (result ≡ Run.done (w', answer))
      × (entry item w'.denylist ≡ none)
      × UniqueItems w'.denylist
      × (w'.changes ≡ w1.changes)

  pub finished-TakenOff :
      (item : ScalingInfo Q) (w : World Q) (answer : Result (Unit {0}))
      → Unique w
      → TakenOff item w answer (finished cluster runtime item (w, answer))
  unfolding finished
  finished-TakenOff item w answer u =
      let (w1, e1, d, c) = register_events-none cluster item w in
      let (w2, e2, unique, gone, c') =
        take_off_list_lem cluster runtime item w1 (subst UniqueItems (sym d) u) in
      (w2, rw e1 (rw e2 refl), gone, unique, c' ∙ c)

  pub scale_or_step_scale-busy :
      (rounds : ℕ) (item : ScalingInfo Q) (w : World Q)
      → eqb_ℤ item.spec_replica item.desired_replicas && not item.failure ≡ false
      → scale_or_step_scale cluster runtime rounds item w
        ≡ after
            (scaled_by rounds item w)
            (finished cluster runtime (record item { is_being_scaled = true }))
  unfolding scale_or_step_scale
  scale_or_step_scale-busy rounds item w busy = rw busy refl

  -- On a deny list with distinct keys, where other goroutines keep them distinct and
  -- RetryOnConflict makes attempts one after the other: for a workload that is not at its desired
  -- count or is in failure, whenever RapidScale or StepScale returns, with an error or without,
  -- ScaleOrStepScale returns the same answer and sends no further change, and the deny list has no
  -- entry of the workload, and distinct keys.
  pub scale_or_step_scale-TakenOff :
      (rounds : ℕ) (item : ScalingInfo Q) (w w1 : World Q) (answer : Result (Unit {0}))
      → UniqueItems w.denylist
      → eqb_ℤ item.spec_replica item.desired_replicas && not item.failure ≡ false
      → scaled_by rounds item w ≡ Run.done (w1, answer)
      → TakenOff item w1 answer (scale_or_step_scale cluster runtime rounds item w)
  scale_or_step_scale-TakenOff rounds item w w1 answer u busy e =
      let item' = record item { is_being_scaled = true } in
      let unique : Unique w1 = subst RunUnique e (scaled_by-RunUnique rounds item w u) in
      subst (TakenOff item w1 answer)
        (sym (
          scale_or_step_scale-busy rounds item w busy
          ∙ ap (λ r. after r (finished cluster runtime item')) e))
        (finished-TakenOff item' w1 answer unique)
