-- ===== src/Scaler/Loops/Sent.antt =====
-- What ScaleOrStepScale sends, and what an answer without an error says.
use mathlib.Core.Path.{subst}
use pre_scaling_operator.Common.{
  ℕ, eqb_ℤ, Bool, true, false, not, ◌&&◌, none, Result, ok, ◌≡◌, ◌⊎◌, inl, inr, refl, sym, ◌∙◌,
  Bool-cases,
}
use pre_scaling_operator.Global.{ScalingInfo}
use pre_scaling_operator.Global.Registry.{entry}
use pre_scaling_operator.States.{get_rapid_scaling_setting}
use pre_scaling_operator.Scaler.{Cluster, World}
use pre_scaling_operator.Scaler.Named.{IsNamed}
use pre_scaling_operator.Scaler.Waiting.{Runtime, Run, after, put_on_list}
use pre_scaling_operator.Scaler.Waiting.Keeps.{put_on_list-Kept}
use pre_scaling_operator.Scaler.Loops.{scale_or_step_scale, finished}
use pre_scaling_operator.Scaler.Loops.Retries.{Unique, RunUnique, Retries, IsCalm}
use pre_scaling_operator.Scaler.Loops.Listed.{
  scaled_by, scaled_by-RunUnique, finished-TakenOff, scale_or_step_scale-busy,
}
use pre_scaling_operator.Scaler.Loops.Rapid.{SendsCount, rapid_scale-SendsCount}
use pre_scaling_operator.Scaler.Loops.Nearer.{SendsSteps, Reached, step_scale-SendsSteps}

-- The workload is at its desired count and not in failure.
abbrev pub idle : {Q : Type 0} → ScalingInfo Q → Bool
idle item = eqb_ℤ item.spec_replica item.desired_replicas && not item.failure

module _ {Q : Type 0} (cluster : Cluster Q) (runtime : Runtime Q) where
  -- The item as it is scaled, and the world that its scaler starts in.
  abbrev pub scaling : ScalingInfo Q → ScalingInfo Q
  scaling item = record item { is_being_scaled = true }

  abbrev pub scales_in : ScalingInfo Q → World Q → World Q
  scales_in item w =
      put_on_list cluster (scaling item) item.failure item.failure_message item.desired_replicas w

  -- What the scaler of the item sent, by the answer: with rapid scaling changes to its desired count,
  -- else steps towards the one that the deny list has.
  abbrev pub Sends : ScalingInfo Q → World Q → World Q → Result (Unit {0}) → Type 0
  Sends item w w' a =
      ((get_rapid_scaling_setting item ≡ true)
        × SendsCount cluster runtime (scaling item) (scales_in item w) w' a)
      ⊎ ((get_rapid_scaling_setting item ≡ false)
          × SendsSteps cluster runtime (scaling item) (scales_in item w) w'
          × Reached cluster runtime (scaling item) (scales_in item w) a)

  -- The item was at its count, and nothing was done; or it was scaled, and has left the deny list.
  abbrev pub Leaves : ScalingInfo Q → World Q → World Q → Result (Unit {0}) → Type 0
  Leaves item w w' a =
      ((idle item ≡ true) × (w' ≡ w) × (a ≡ ok tt))
      ⊎ ((idle item ≡ false) × (entry item w'.denylist ≡ none) × Sends item w w' a)

  same-Sends :
      (item : ScalingInfo Q) (w w1 w2 : World Q) (a : Result (Unit {0}))
      → w2.changes ≡ w1.changes
      → Sends item w w1 a
      → Sends item w w2 a
  same-Sends item w w1 w2 a q (inl (rapid, (new, e, all, answers))) =
      inl (rapid, (new, q ∙ e, all, answers))
  same-Sends item w w1 w2 a q (inr (stepwise, (new, e, all), reached)) =
      inr (stepwise, (new, q ∙ e, all), reached)

module _ {Q : Type 0} (cluster : Cluster Q) (runtime : Runtime Q) (named : IsNamed cluster)
    (retries : Retries runtime) (calm : IsCalm runtime) (rounds : ℕ) where
  scaled_by-Sends :
      (item : ScalingInfo Q) (w w' : World Q) (a : Result (Unit {0}))
      → Unique w
      → idle item ≡ false
      → scaled_by cluster runtime retries calm rounds item w ≡ Run.done (w', a)
      → Sends cluster runtime item w w' a
  scaled_by-Sends item w w' a u busy e =
      let item' = record item { is_being_scaled = true } in
      let start =
        put_on_list cluster item' item.failure item.failure_message item.desired_replicas w in
      let (u', q) =
        put_on_list-Kept cluster item' item.failure item.failure_message item.desired_replicas
          w.changes w (u, refl) in
      elim (Bool-cases (get_rapid_scaling_setting item)) [
        | inl rapid ↦ inl (
          rapid,
          rapid_scale-SendsCount cluster runtime named retries calm item' start w' a u' busy
              (rw rapid at e),
        )
        | inr stepwise ↦
            let (sends, reached) =
              step_scale-SendsSteps cluster runtime named retries calm rounds item' start w' a u'
                (rw stepwise at e) in
            inr (stepwise, sends, reached)
      ]

  abbrev pub RunLeaves : ScalingInfo Q → World Q → Run (World Q × Result (Unit {0})) → Type 0
  RunLeaves item w Run.exhausted = Unit
  RunLeaves item w Run.panicked = Unit
  RunLeaves item w (Run.done (w', a)) = Unique w' × Leaves cluster runtime item w w' a

  finished-RunLeaves :
      (item : ScalingInfo Q) (w : World Q) (r : Run (World Q × Result (Unit {0})))
      → Unique w
      → idle item ≡ false
      → scaled_by cluster runtime retries calm rounds item w ≡ r
      → RunLeaves item w
          (after r (finished cluster runtime (record item { is_being_scaled = true })))
  finished-RunLeaves item w Run.exhausted u busy e = tt
  finished-RunLeaves item w Run.panicked u busy e = tt
  finished-RunLeaves item w (Run.done (w1, a)) u busy e =
      let (w2, ended, gone, unique, q) =
        finished-TakenOff cluster runtime retries calm (record item { is_being_scaled = true }) w1 a
          (subst RunUnique e (scaled_by-RunUnique cluster runtime retries calm rounds item w u)) in
      let sends = scaled_by-Sends item w w1 a u busy e in
      subst (RunLeaves item w) (sym ended)
        (unique, inr (busy, gone, same-Sends cluster runtime item w w1 w2 a q sends))

  pub scale_or_step_scale-RunLeaves :
      (item : ScalingInfo Q) (w : World Q)
      → Unique w
      → RunLeaves item w (scale_or_step_scale cluster runtime rounds item w)
  unfolding scale_or_step_scale
  scale_or_step_scale-RunLeaves item w u = elim (Bool-cases (idle item)) [
    | inl still ↦ rw still (u, inl (still, refl, refl))
    | inr busy ↦
        subst (RunLeaves item w)
          (sym (scale_or_step_scale-busy cluster runtime retries calm rounds item w busy))
          (finished-RunLeaves item w _ u busy refl)
  ]
