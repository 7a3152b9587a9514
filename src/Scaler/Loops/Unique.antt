-- ===== src/Scaler/Loops/Unique.antt =====
-- The scalers keep the keys of the deny list distinct.
use mathlib.Core.Path.{subst}
use pre_scaling_operator.Common.{
  ℕ, zero, suc, ℤ, eqb_ℤ, true, false, not, ◌&&◌, Option, none, some, Error, message, Result, ok,
  err, inl, inr, refl, sym, Bool-cases,
}
use pre_scaling_operator.Global.{ScalingInfo}
use pre_scaling_operator.Global.Denylist.{get_deployment_info}
use pre_scaling_operator.Global.Registry.{UniqueItems}
use pre_scaling_operator.Scaler.{Cluster, World}
use pre_scaling_operator.Scaler.Waiting.{Runtime, Run, after, wait_for_ready}
use pre_scaling_operator.Scaler.Waiting.Keeps.{put_on_list-Kept, after_events}
use pre_scaling_operator.Scaler.Waiting.Outcomes.{WaitOutcome, wait_for_ready-WaitOutcome}
use pre_scaling_operator.Scaler.Waiting.Ends.{EndsIn}
use pre_scaling_operator.Scaler.Loops.{
  Round, ends, steps, scaling_failed, after_step, step_ready, step_round, step_loop, after_rapid,
  rapid_ready, rapid_scale,
}
use pre_scaling_operator.Scaler.Loops.Retries.{
  go_on, step_loop-suc, Unique, UniqueBy, RunUnique, Retries, IsCalm, do_scaling-UniqueBy,
}

module _ {Q : Type 0} (cluster : Cluster Q) (runtime : Runtime Q) (retries : Retries runtime)
    (calm : IsCalm runtime) where
  wait-RunUnique :
      (item : ScalingInfo Q) (w : World Q)
      → Unique w
      → RunUnique (wait_for_ready cluster runtime item w)
  wait-RunUnique item w u =
      elim (wait_for_ready cluster runtime item w)
          as (λ r. EndsIn (WaitOutcome cluster w.changes item.spec_replica) r → RunUnique r) [
            | Run.exhausted ↦ λ h. tt
            | Run.panicked ↦ λ h. tt
            | Run.done (w', (fresh, ok _)) ↦ λ h. h.0.0
            | Run.done (w', (fresh, err e)) ↦ λ h. h.0.0
          ]
        (wait_for_ready-WaitOutcome cluster runtime item w calm u)

  EndsIn-RunUnique :
      {A : Type 0} (r : Run (World Q × A)) → EndsIn (λ (w, a). Unique w) r → RunUnique r
  EndsIn-RunUnique Run.exhausted h = tt
  EndsIn-RunUnique Run.panicked h = tt
  EndsIn-RunUnique (Run.done (w, a)) h = h

  after-RunUnique :
      {A B : Type 0} (r : Run (World Q × A)) (f : World Q × A → Run (World Q × B))
      → RunUnique r
      → ((w : World Q) (a : A) → Unique w → RunUnique (f (w, a)))
      → RunUnique (after r f)
  after-RunUnique Run.exhausted f u h = tt
  after-RunUnique Run.panicked f u h = tt
  after-RunUnique (Run.done (w, a)) f u h = h w a u

  scaling_failed-RunUnique :
      (e : Error) (item : ScalingInfo Q) (desired : ℤ) (w : World Q)
      → Unique w
      → RunUnique (scaling_failed cluster runtime e item desired w)
  unfolding scaling_failed
  scaling_failed-RunUnique e item desired w u =
      let item' = record item { is_being_scaled = false } in
      let listed = put_on_list-Kept cluster item' true (message e) desired w.changes w (u, refl) in
      EndsIn-RunUnique _ (
        after_events cluster (λ (w', a). Unique w') _ _ _ _
          (λ w' d q. subst UniqueItems (sym d) listed.0))

  after_rapid-RunUnique :
      (item : ScalingInfo Q) (desired : ℤ) (o : Option (World Q × Result (Unit {0})))
      → UniqueBy o
      → RunUnique (after_rapid cluster runtime item desired o)
  unfolding after_rapid
  after_rapid-RunUnique item desired none u = tt
  after_rapid-RunUnique item desired (some (w, ok a)) u = u
  after_rapid-RunUnique item desired (some (w, err e)) u =
      scaling_failed-RunUnique e item desired w u

  rapid_ready-RunUnique :
      (desired : ℤ) (w : World Q) (item : ScalingInfo Q) (a : Result (Unit {0}))
      → Unique w
      → RunUnique (rapid_ready cluster runtime desired (w, (item, a)))
  unfolding rapid_ready
  rapid_ready-RunUnique desired w item (err e) u = u
  rapid_ready-RunUnique desired w item (ok a) u =
      after_rapid-RunUnique item desired _
        (do_scaling-UniqueBy cluster runtime retries calm item desired w u)

  pub rapid_scale-RunUnique :
      (item : ScalingInfo Q) (w : World Q)
      → Unique w
      → RunUnique (rapid_scale cluster runtime item w)
  unfolding rapid_scale
  rapid_scale-RunUnique item w u =
      elim (Bool-cases (eqb_ℤ item.spec_replica item.desired_replicas && not item.failure)) [
        | inl idle ↦ rw idle u
        | inr busy ↦
            let item' = record item { is_being_scaled = true } in
            let listed =
              put_on_list-Kept cluster item' item.failure item.failure_message item.desired_replicas
                w.changes w (u, refl) in
            rw busy (
              after-RunUnique _ _ (wait-RunUnique item' _ listed.0)
                (λ w' (fresh, a) u'. rapid_ready-RunUnique item.desired_replicas w' fresh a u'))
      ]

  abbrev RoundUnique : Round Q → Type 0
  RoundUnique (ends r) = RunUnique r
  RoundUnique (steps step item w) = Unique w

  after_step-RoundUnique :
      (step : ℤ) (item : ScalingInfo Q) (desired : ℤ) (fresh : ScalingInfo Q)
      (o : Option (World Q × Result (Unit {0})))
      → UniqueBy o
      → RoundUnique (after_step cluster runtime step item desired fresh o)
  unfolding after_step
  after_step-RoundUnique step item desired fresh none u = tt
  after_step-RoundUnique step item desired fresh (some (w, ok a)) u = u
  after_step-RoundUnique step item desired fresh (some (w, err e)) u =
      scaling_failed-RunUnique e fresh desired w u

  step_ready-RoundUnique :
      (initial step : ℤ) (item fresh : ScalingInfo Q) (w : World Q)
      → Unique w
      → RoundUnique (step_ready cluster runtime initial step item fresh w)
  unfolding step_ready
  step_ready-RoundUnique initial step item fresh w u =
      elim (Bool-cases (eqb_ℤ fresh.ready_replicas fresh.desired_replicas)) [
        | inl reached ↦ rw reached u
        | inr away ↦ rw away (
            after_step-RoundUnique _ item _ fresh _
              (do_scaling-UniqueBy cluster runtime retries calm fresh _ w u))
      ]

  step_round-RoundUnique :
      (initial step : ℤ) (item : ScalingInfo Q) (w : World Q)
      → Unique w
      → RoundUnique (step_round cluster runtime initial step item w)
  unfolding step_round
  step_round-RoundUnique initial step deployment_item w u =
      let item = (get_deployment_info deployment_item w.denylist).0 in
      elim (wait_for_ready cluster runtime item w)
          as (λ r.
            RunUnique r
            → RoundUnique (elim r [
              | Run.exhausted ↦ ends Run.exhausted
              | Run.panicked ↦ ends Run.panicked
              | Run.done (w', (fresh, err e)) ↦ ends (Run.done (w', err e))
              | Run.done (w', (fresh, ok _)) ↦ step_ready cluster runtime initial step item fresh w'
            ])) [
              | Run.exhausted ↦ λ h. tt
              | Run.panicked ↦ λ h. tt
              | Run.done (w', (fresh, err e)) ↦ λ h. h
              | Run.done (w', (fresh, ok _)) ↦
                  λ h. step_ready-RoundUnique initial step item fresh w' h
            ]
        (wait-RunUnique item w u)

  pub step_loop-RunUnique :
      (rounds : ℕ) (initial step : ℤ) (item : ScalingInfo Q) (w : World Q)
      → Unique w
      → RunUnique (step_loop cluster runtime rounds initial step item w)
  unfolding step_loop
  step_loop-RunUnique zero initial step item w u = tt
  step_loop-RunUnique (suc rounds) initial step item w u =
      subst RunUnique (sym (step_loop-suc cluster runtime rounds initial step item w)) (
        elim (step_round cluster runtime initial step item w)
            as (λ r. RoundUnique r → RunUnique (go_on cluster runtime rounds initial r)) [
              | ends result ↦ λ h. h
              | steps step' item' w' ↦ λ h. step_loop-RunUnique rounds initial step' item' w' h
            ]
          (step_round-RoundUnique initial step item w u))
