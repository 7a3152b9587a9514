-- ===== src/Reconciler/Scaling.antt =====
-- internal/reconciler/reconciler.go: ReconcileScalingItem in whole, with its call of ScaleOrStepScale.
use mathlib.Core.Path.{subst}
use pre_scaling_operator.Common.{
  ℕ, Option, none, some, List, Error, Result, ok, err, ◌≡◌, ◌⊎◌, inl, inr, refl, sym,
}
use pre_scaling_operator.Global.{ScalingInfo}
use pre_scaling_operator.Global.Registry.{UniqueItems}
use pre_scaling_operator.ResourceMath.{Quantity}
use pre_scaling_operator.Quotas.{ResourceQuota}
use pre_scaling_operator.States.{Client}
use pre_scaling_operator.Scaler.{Cluster, World}
use pre_scaling_operator.Scaler.Named.{IsNamed}
use pre_scaling_operator.Scaler.Waiting.{Runtime, Run}
use pre_scaling_operator.Scaler.Loops.{scale_or_step_scale}
use pre_scaling_operator.Scaler.Loops.Retries.{Unique, Retries, IsCalm}
use pre_scaling_operator.Scaler.Loops.Sent.{Leaves, RunLeaves, scale_or_step_scale-RunLeaves}
use pre_scaling_operator.Reconciler.{Outcome, reconcile_scaling_item}
use pre_scaling_operator.Reconciler.Items.{
  Determines, Checked, reconcile_scaling_item_lem, reconcile_scaling_item-UniqueItems,
}

module _ (k : Quantity) (client : Client) (client_set : Result (Unit {0}))
    (listed : Result (List (ResourceQuota k.Q))) (cluster : Cluster k.Q) (runtime : Runtime k.Q)
    (rounds : ℕ) where
  open k use {Q}

  -- The end of ReconcileScalingItem.
  unfoldable pub run_outcome :
      World Q → Option (List (ScalingInfo Q) × Outcome Q) → Run (World Q × Result (Unit {0}))
  run_outcome w none = Run.panicked
  run_outcome w (some (denylist, Outcome.returned none)) =
      Run.done (record w { denylist = denylist }, ok tt)
  run_outcome w (some (denylist, Outcome.returned (some e))) =
      Run.done (record w { denylist = denylist }, err e)
  run_outcome w (some (denylist, Outcome.scales item)) =
      scale_or_step_scale cluster runtime rounds item (record w { denylist = denylist })

  -- ReconcileScalingItem; `w` is the world once the states and the quotas were read, and `rounds`
  -- bounds those of StepScale.
  unfoldable pub reconcile_and_scale : ScalingInfo Q → World Q → Run (World Q × Result (Unit {0}))
  unfolding run_outcome
  reconcile_and_scale item w =
      run_outcome w (reconcile_scaling_item k client client_set listed item w.denylist)

-- What is returned for the error, nil as `none`.
abbrev pub answer_of : Option Error → Result (Unit {0})
answer_of none = ok tt
answer_of (some e) = err e

module _ (k : Quantity) (client : Client) (client_set : Result (Unit {0}))
    (listed : Result (List (ResourceQuota k.Q))) (cluster : Cluster k.Q) (runtime : Runtime k.Q)
    (named : IsNamed cluster) (retries : Retries runtime) (calm : IsCalm runtime) (rounds : ℕ)
    (item : ScalingInfo k.Q) where
  open k use {Q}

  -- It returned before it came to scale, and left all but the deny list as it was.
  abbrev pub ReturnsEarly : World Q → World Q → Result (Unit {0}) → Type 0
  ReturnsEarly w w' a =
      (d : List (ScalingInfo Q)) × (e : Option Error) × (reconcile_scaling_item k client client_set
          listed item w.denylist
        ≡ some (d, Outcome.returned e))
      × (w' ≡ record w { denylist = d })
      × (a ≡ answer_of e)

  -- It came to scale what was determined and what the quotas allow.
  abbrev pub ScalesChecked : World Q → World Q → Result (Unit {0}) → Type 0
  ScalesChecked w w' a =
      (determined : ScalingInfo Q) × (scaled : ScalingInfo Q) × Determines client item determined
      × Checked k client_set listed w.denylist determined scaled
      × Leaves cluster runtime scaled w w' a

  abbrev RunChecked : World Q → Run (World Q × Result (Unit {0})) → Type 0
  RunChecked w Run.exhausted = Unit
  RunChecked w Run.panicked = Unit
  RunChecked w (Run.done (w', a)) = Unique w' × (ReturnsEarly w w' a ⊎ ScalesChecked w w' a)

  scaled-RunChecked :
      (determined scaled : ScalingInfo Q) (w : World Q) (r : Run (World Q × Result (Unit {0})))
      → Determines client item determined
      → Checked k client_set listed w.denylist determined scaled
      → RunLeaves cluster runtime named retries calm rounds scaled w r
      → RunChecked w r
  scaled-RunChecked determined scaled w Run.exhausted d c h = tt
  scaled-RunChecked determined scaled w Run.panicked d c h = tt
  scaled-RunChecked determined scaled w (Run.done (w', a)) d c (u, leaves) =
      (u, inr (determined, scaled, d, c, leaves))

  early-RunChecked :
      (w : World Q) (d : List (ScalingInfo Q)) (e : Option Error)
      → Unique w
      → reconcile_scaling_item k client client_set listed item w.denylist
        ≡ some (d, Outcome.returned e)
      → RunChecked w (Run.done (record w { denylist = d }, answer_of e))
  early-RunChecked w d e u h = (
    reconcile_scaling_item-UniqueItems k client_set listed w.denylist client item d e u h,
    inl (d, e, h, refl, refl),
  )

  outcome-RunChecked :
      (w : World Q) (o : Option (List (ScalingInfo Q) × Outcome Q))
      → Unique w
      → reconcile_scaling_item k client client_set listed item w.denylist ≡ o
      → RunChecked w (run_outcome k client client_set listed cluster runtime rounds w o)
  unfolding run_outcome
  outcome-RunChecked w none u h = tt
  outcome-RunChecked w (some (d, Outcome.returned none)) u h = early-RunChecked w d none u h
  outcome-RunChecked w (some (d, Outcome.returned (some e))) u h = early-RunChecked w d (some e) u h
  outcome-RunChecked w (some (d, Outcome.scales scaled)) u h =
      let (same, (determined, determines, checked)) =
        reconcile_scaling_item_lem k client_set listed w.denylist client item scaled d h in
      subst
        (λ l.
          RunChecked w
            (scale_or_step_scale cluster runtime rounds scaled (record w { denylist = l })))
        (sym same)
        (scaled-RunChecked determined scaled w _ determines checked
          (scale_or_step_scale-RunLeaves cluster runtime named retries calm rounds scaled w u))

  -- On a deny list with distinct keys, where other goroutines keep them distinct, RetryOnConflict makes
  -- attempts one after the other and the client answers with the objects it is asked for: whenever
  -- ReconcileScalingItem returns, with an error or without, the keys are distinct. Either it returned
  -- before it came to scale, and left all but the deny list as it was; or it came to scale
  -- the workload, whose desired replicas were determined by the states that apply to it and not reached
  -- yet, and for which the quota check allowed them without an error, as it was determined or as the
  -- deny list had it in failure. What it scaled
  -- was at its count and not in failure, and nothing was done, without an error; or it has left the
  -- deny list, and every change that was sent is of that workload. Then, with rapid scaling, every
  -- change carries its desired replicas, and without an error some was sent, or WaitForReady had found
  -- it left to the autoscaler; without rapid scaling, every change belongs to a round of its StepScale
  -- in which WaitForReady had found it ready, and carries a count one replica nearer to the one that
  -- the deny list has at the start of that round (the one it was scaled with, where the list has -1),
  -- or, where the workload was at that count, the count of the step before; and without an error
  -- WaitForReady had found it, in a round, with as many replicas ready as it is to have.
  pub reconcile_and_scale-ScalesChecked :
      (w w' : World Q) (a : Result (Unit {0}))
      → UniqueItems w.denylist
      → reconcile_and_scale k client client_set listed cluster runtime rounds item w
        ≡ Run.done (w', a)
      → UniqueItems w'.denylist × (ReturnsEarly w w' a ⊎ ScalesChecked w w' a)
  unfolding reconcile_and_scale
  reconcile_and_scale-ScalesChecked w w' a u e =
      subst (RunChecked w) e (outcome-RunChecked w _ u refl)
