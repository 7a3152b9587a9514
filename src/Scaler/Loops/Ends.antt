-- ===== src/Scaler/Loops/Ends.antt =====
-- ScaleOrStepScale of a workload with rapid scaling comes to an end.
use mathlib.Core.Path.{subst}
use pre_scaling_operator.Common.{
  ℕ, ℤ, eqb_ℤ, true, not, ◌&&◌, Option, none, some, Error, Result, ok, err, ◌≡◌, ◌≢◌, inl, inr,
  refl, Bool-cases,
}
use pre_scaling_operator.Global.{ScalingInfo}
use pre_scaling_operator.States.{get_rapid_scaling_setting}
use pre_scaling_operator.Scaler.{Cluster, World}
use pre_scaling_operator.Scaler.Waiting.{
  Runtime, Run, after, run_of, Waited, register_events, take_off_list,
}
use pre_scaling_operator.Scaler.Waiting.Ends.{wait_for_ready_ends}
use pre_scaling_operator.Scaler.Loops.{
  scaling_failed, after_rapid, rapid_ready, rapid_scale, finished, scale_or_step_scale,
}

module _ {Q : Type 0} (cluster : Cluster Q) (runtime : Runtime Q) where
  abbrev IsEnd : {A : Type 0} → Run A → Type 0
  IsEnd Run.exhausted = ⊥
  IsEnd r = Unit

  done_ends : {A : Type 0} (a : A) → Run.done a ≢ Run.exhausted
  done_ends a e = subst IsEnd e tt

  panicked_ends : {A : Type 0} → ◌≢◌ {A = Run A} Run.panicked Run.exhausted
  panicked_ends e = subst IsEnd e tt

  run_of_ends : {A : Type 0} (o : Option A) → run_of o ≢ Run.exhausted
  run_of_ends none = panicked_ends
  run_of_ends (some a) = done_ends a

  after_ends :
      {A B : Type 0} (r : Run A) (f : A → Run B)
      → r ≢ Run.exhausted
      → ((a : A) → f a ≢ Run.exhausted)
      → after r f ≢ Run.exhausted
  after_ends Run.exhausted f h g = absurd (h refl)
  after_ends Run.panicked f h g = panicked_ends
  after_ends (Run.done a) f h g = g a

  scaling_failed_ends :
      (e : Error) (item : ScalingInfo Q) (desired : ℤ) (w : World Q)
      → scaling_failed cluster runtime e item desired w ≢ Run.exhausted
  unfolding scaling_failed
  scaling_failed_ends e item desired w = after_ends _ _ (run_of_ends _) (λ w'. done_ends _)

  after_rapid_ends :
      (item : ScalingInfo Q) (desired : ℤ) (o : Option (World Q × Result (Unit {0})))
      → after_rapid cluster runtime item desired o ≢ Run.exhausted
  unfolding after_rapid
  after_rapid_ends item desired none = panicked_ends
  after_rapid_ends item desired (some (w, ok a)) = done_ends _
  after_rapid_ends item desired (some (w, err e)) = scaling_failed_ends e item desired w

  rapid_ready_ends :
      (desired : ℤ) (a : Waited cluster) → rapid_ready cluster runtime desired a ≢ Run.exhausted
  unfolding rapid_ready
  rapid_ready_ends desired (w, (item, err e)) = done_ends _
  rapid_ready_ends desired (w, (item, ok a)) = after_rapid_ends item desired _

  rapid_scale_ends :
      (item : ScalingInfo Q) (w : World Q) → rapid_scale cluster runtime item w ≢ Run.exhausted
  unfolding rapid_scale
  rapid_scale_ends item w =
      elim (Bool-cases (eqb_ℤ item.spec_replica item.desired_replicas && not item.failure)) [
        | inl idle ↦ rw idle (done_ends _)
        | inr busy ↦ rw busy (
            after_ends _ _ (wait_for_ready_ends cluster runtime _ _)
              (λ a. rapid_ready_ends item.desired_replicas a))
      ]

  finished_ends :
      (item : ScalingInfo Q) (a : World Q × Result (Unit {0}))
      → finished cluster runtime item a ≢ Run.exhausted
  unfolding finished
  finished_ends item (w, answer) =
      after_ends (run_of (register_events cluster none item w)) _ (run_of_ends _) (λ w'.
        after_ends (run_of (take_off_list cluster runtime item w')) _ (run_of_ends _)
          (λ w''. done_ends (w'', answer)))

  -- As long as the lock of the deny list is given back whenever it is waited for (the rectifier may keep
  -- it, by Rectifier.Lock): ScaleOrStepScale of a workload with rapid scaling returns or panics, whatever
  -- the cluster answers, however long its calls take and whatever other goroutines write to the deny
  -- list while WaitForReady sleeps.
  pub scale_or_step_scale_ends :
      (rounds : ℕ) (item : ScalingInfo Q) (w : World Q)
      → get_rapid_scaling_setting item ≡ true
      → scale_or_step_scale cluster runtime rounds item w ≢ Run.exhausted
  unfolding scale_or_step_scale
  scale_or_step_scale_ends rounds item w rapid =
      elim (Bool-cases (eqb_ℤ item.spec_replica item.desired_replicas && not item.failure)) [
        | inl idle ↦ rw idle (done_ends _)
        | inr busy ↦
            rw (busy, rapid) (after_ends _ _ (rapid_scale_ends _ _) (λ a. finished_ends _ a))
      ]
