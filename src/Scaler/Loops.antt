-- ===== src/Scaler/Loops.antt =====
-- internal/resources/scaler.go: StepScale and RapidScale; internal/resources/common.go:
-- ScaleOrStepScale, which puts a workload on the deny list while one of them scales it.
pub mod Steps
pub mod Retries
pub mod Unique
pub mod Listed
pub mod Ends
pub mod Nearer
pub mod Rapid
pub mod Sent
use pre_scaling_operator.Common.{
  ℕ, zero, suc, ℤ, pos, negsuc, ◌+ℤ◌, ◌-ℤ◌, ltb_ℤ, eqb_ℤ, Bool, true, false, not, ◌&&◌, Option,
  none, some, Error, message, Result, ok, err, if◌then◌else◌,
}
use pre_scaling_operator.Global.{ScalingInfo}
use pre_scaling_operator.Global.Denylist.{get_deployment_info}
use pre_scaling_operator.States.{get_rapid_scaling_setting}
use pre_scaling_operator.Scaler.{Cluster, World, do_scaling}
use pre_scaling_operator.Scaler.Waiting.{
  Runtime, Run, after, run_of, Waited, register_events, put_on_list, take_off_list, wait_for_ready,
}

-- One replica nearer to the desired count; where it is reached, the count of the step before.
unfoldable pub next_step : ℤ → ℤ → ℤ → ℤ
next_step old desired step =
    if ltb_ℤ old desired then old +ℤ pos 1 else if ltb_ℤ desired old then old -ℤ pos 1 else step

-- The count that is asked for while the entry of the list has none (-1).
unfoldable pub desired_or : ℤ → ℤ → ℤ
desired_or initial desired = if eqb_ℤ desired (negsuc 0) then initial else desired

-- A round of StepScale ends it, or goes on with an item and the count of its step.
pub data Round (Q : Type 0) : Type 0 where
  ends : Run (World Q × Result (Unit {0})) → Round Q
  steps : ℤ → ScalingInfo Q → World Q → Round Q

module _ {Q : Type 0} (cluster : Cluster Q) (runtime : Runtime Q) where
  abbrev pub Scaled : Type 0
  Scaled = Run (World Q × Result (Unit {0}))

  -- What both scalers do where DoScaling returns an error.
  unfoldable pub scaling_failed : Error → ScalingInfo Q → ℤ → World Q → Scaled
  scaling_failed e item desired w =
      let item' = record item { is_being_scaled = false } in
      after
        (run_of (
          register_events cluster (some e) item'
            (put_on_list cluster item' true (message e) desired w)))
        (λ w'. Run.done (w', err e))

  unfoldable pub after_step :
      ℤ → ScalingInfo Q → ℤ → ScalingInfo Q → Option (World Q × Result (Unit {0})) → Round Q
  after_step step item desired fresh none = ends Run.panicked
  after_step step item desired fresh (some (w, ok _)) = steps step item w
  after_step step item desired fresh (some (w, err e)) = ends (scaling_failed e fresh desired w)

  -- The rest of a round of StepScale once the workload `fresh` is ready; `item` is what the list had.
  unfoldable pub step_ready : ℤ → ℤ → ScalingInfo Q → ScalingInfo Q → World Q → Round Q
  step_ready initial step item fresh w =
      let desired = desired_or initial item.desired_replicas in
      let step' = next_step fresh.spec_replica desired step in
      if eqb_ℤ fresh.ready_replicas fresh.desired_replicas
      then ends (Run.done (w, ok tt))
      else after_step step' item desired fresh (do_scaling cluster runtime.retry fresh step' w)

  unfoldable pub step_round : ℤ → ℤ → ScalingInfo Q → World Q → Round Q
  step_round initial step deployment_item w =
      let item = (get_deployment_info deployment_item w.denylist).0 in
      elim (wait_for_ready cluster runtime item w) [
        | Run.exhausted ↦ ends Run.exhausted
        | Run.panicked ↦ ends Run.panicked
        | Run.done (w', (fresh, err e)) ↦ ends (Run.done (w', err e))
        | Run.done (w', (fresh, ok _)) ↦ step_ready initial step item fresh w'
      ]

  unfoldable pub step_loop : ℕ → ℤ → ℤ → ScalingInfo Q → World Q → Scaled
  step_loop zero initial step item w = Run.exhausted
  step_loop (suc rounds) initial step item w = elim (step_round initial step item w) [
    | ends result ↦ result
    | steps step' item' w' ↦ step_loop rounds initial step' item' w'
  ]

  -- StepScale, for at most so many rounds.
  unfoldable pub step_scale : ℕ → ScalingInfo Q → World Q → Scaled
  step_scale rounds item w = step_loop rounds item.desired_replicas item.spec_replica item w

  unfoldable pub after_rapid : ScalingInfo Q → ℤ → Option (World Q × Result (Unit {0})) → Scaled
  after_rapid item desired none = Run.panicked
  after_rapid item desired (some (w, ok _)) = Run.done (w, ok tt)
  after_rapid item desired (some (w, err e)) = scaling_failed e item desired w

  -- The rest of RapidScale once WaitForReady has returned.
  unfoldable pub rapid_ready : ℤ → Waited cluster → Scaled
  rapid_ready desired (w, (item, err e)) = Run.done (w, err e)
  rapid_ready desired (w, (item, ok _)) =
      after_rapid item desired (do_scaling cluster runtime.retry item desired w)

  unfoldable pub rapid_scale : ScalingInfo Q → World Q → Scaled
  rapid_scale item w =
      let desired = item.desired_replicas in
      let item' = record item { is_being_scaled = true } in
      if eqb_ℤ item.spec_replica desired && not item.failure
      then Run.done (w, ok tt)
      else after
          (wait_for_ready cluster runtime item'
            (put_on_list cluster item' item'.failure item'.failure_message desired w))
          (rapid_ready desired)

  -- What ScaleOrStepScale does when the scaler has returned: an event, and off the deny list.
  unfoldable pub finished : ScalingInfo Q → World Q × Result (Unit {0}) → Scaled
  finished item (w, answer) =
      after (run_of (register_events cluster none item w)) (λ w'.
        after (run_of (take_off_list cluster runtime item w')) (λ w''. Run.done (w'', answer)))

  unfoldable pub scale_or_step_scale : ℕ → ScalingInfo Q → World Q → Scaled
  scale_or_step_scale rounds item w =
      let desired = item.desired_replicas in
      let item' = record item { is_being_scaled = true } in
      let listed = put_on_list cluster item' item'.failure item'.failure_message desired w in
      if eqb_ℤ item.spec_replica desired && not item.failure
      then Run.done (w, ok tt)
      else after
          (if get_rapid_scaling_setting item
            then rapid_scale item' listed
            else step_scale rounds item' listed)
          (finished item')
