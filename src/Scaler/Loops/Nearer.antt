-- ===== src/Scaler/Loops/Nearer.antt =====
-- StepScale changes a workload by one replica at a time.
use mathlib.Core.Path.{subst}
use mathlib.Core.List.{append_assoc}
use pre_scaling_operator.Common.{
  ℕ, zero, suc, ◌+◌, ℤ, eqb_ℤ, eqb_ℤ_iff, Option, none, some, List, [], ◌++◌, ◌∷◌, Error, message,
  Result, ok, err, ◌≡◌, ◌⊎◌, inl, inr, refl, arith, sym, ap, ◌∙◌, Bool-cases, true, false,
}
use pre_scaling_operator.Global.{ScalingInfo}
use pre_scaling_operator.Global.Denylist.{get_deployment_info}
use pre_scaling_operator.Global.Registry.{UniqueItems}
use pre_scaling_operator.Scaler.{Cluster, Change, World, do_scaling}
use pre_scaling_operator.Scaler.Named.{IsNamed, Same, get_deployment_info-Same}
use pre_scaling_operator.Scaler.Waiting.Named.{wait_for_ready-Same}
use pre_scaling_operator.Scaler.Changes.{AllCarry, do_scaling-Carries}
use pre_scaling_operator.Scaler.Waiting.{Runtime, Run, wait_for_ready}
use pre_scaling_operator.Scaler.Waiting.Keeps.{put_on_list-Kept, after_events}
use pre_scaling_operator.Scaler.Waiting.Outcomes.{WaitOutcome, wait_for_ready-WaitOutcome}
use pre_scaling_operator.Scaler.Waiting.Ends.{EndsIn}
use pre_scaling_operator.Scaler.Loops.{
  Round, ends, steps, next_step, desired_or, scaling_failed, after_step, step_ready, step_round,
  step_loop, step_scale,
}
use pre_scaling_operator.Scaler.Loops.Retries.{
  go_on, step_loop-suc, Unique, UniqueBy, Retries, IsCalm, do_scaling-UniqueBy,
}
use pre_scaling_operator.Scaler.Loops.Steps.{distance, distance-zero, next_step-distance}

-- A count that is one replica nearer to the desired one, or, where the workload was there, the count of
-- the step before.
abbrev pub Nearer : ℤ → ℤ → ℤ → ℤ → Type 0
Nearer step count old desired =
    (distance count desired + 1 ≡ distance old desired) ⊎ ((old ≡ desired) × (count ≡ step))

next_step-same : (old desired step : ℤ) → old ≡ desired → next_step old desired step ≡ step
unfolding next_step
next_step-same old desired step e = ground arith

next_step-Nearer : (old desired step : ℤ) → Nearer step (next_step old desired step) old desired
next_step-Nearer old desired step = by_distance (distance old desired) refl
  where
    by_distance :
        (n : ℕ) → distance old desired ≡ n → Nearer step (next_step old desired step) old desired
    by_distance zero e =
        let there : old ≡ desired = distance-zero old desired e in
        inr (there, next_step-same old desired step there)
    by_distance (suc n) e = inl (omega (arith, next_step-distance old desired step n e, e))

-- A run of StepScale that starts with the workload `item0` in the world `w0`.
module _ {Q : Type 0} (cluster : Cluster Q) (runtime : Runtime Q) (item0 : ScalingInfo Q)
    (w0 : World Q) where
  -- The rounds that the run comes to: the count of the step before, and the item and the world that
  -- the round starts with.
  pub data Comes : ℤ → ScalingInfo Q → World Q → Type 0 where
    first : Comes item0.spec_replica item0 w0
    later :
        {step step' : ℤ} {item item' : ScalingInfo Q} {w w' : World Q}
        → Comes step item w
        → step_round cluster runtime item0.desired_replicas step item w ≡ steps step' item' w'
        → Comes step' item' w'

  -- In a round of the run that starts in the world `v`, WaitForReady found the workload ready;
  -- `step` is the count of the step before, and `item` what the deny list has of the workload then.
  abbrev pub Found : ℤ → ScalingInfo Q → ScalingInfo Q → Type 0
  Found step item fresh =
      (known : ScalingInfo Q) × (v : World Q) × (v' : World Q) × Comes step known v
      × (item ≡ (get_deployment_info known v.denylist).0)
      × (wait_for_ready cluster runtime item v ≡ Run.done (v', (fresh, ok tt)))

  -- A change of the workload, in a round where it was found ready, to a count nearer to the one
  -- that the deny list has, or, where that has none, that StepScale was called with.
  abbrev pub IsStep : Change → Type 0
  IsStep change =
      (change.name ≡ item0.name)
      × (change.namespace ≡ item0.namespace)
      × ((step : ℤ) × (item : ScalingInfo Q) × (fresh : ScalingInfo Q) × Found step item fresh
          × Nearer step change.replicas fresh.spec_replica
              (desired_or item0.desired_replicas item.desired_replicas))

  abbrev pub AllSteps : List Change → Type 0
  AllSteps [] = Unit
  AllSteps (change ∷ changes) = IsStep change × AllSteps changes

  -- The changes that the run sent are steps.
  abbrev pub SendsSteps : World Q → Type 0
  SendsSteps w = (new : List Change) × (w.changes ≡ new ++ w0.changes) × AllSteps new

  AllSteps-append : (cs ds : List Change) → AllSteps cs → AllSteps ds → AllSteps (cs ++ ds)
  AllSteps-append [] ds h k = k
  AllSteps-append (c ∷ cs) ds h k = (h.0, AllSteps-append cs ds (h.1) k)

  carried-AllSteps :
      (step count : ℤ) (item fresh : ScalingInfo Q) (cs : List Change)
      → Found step item fresh
      → Same fresh item0
      → Nearer step count fresh.spec_replica
          (desired_or item0.desired_replicas item.desired_replicas)
      → AllCarry fresh count cs
      → AllSteps cs
  carried-AllSteps step count item fresh [] f same n h = tt
  carried-AllSteps step count item fresh (c ∷ cs) f same n ((name, namespace, carried), more) = (
    (
      name ∙ same.0,
      namespace ∙ same.1,
      (
        step,
        item,
        fresh,
        f,
        subst
            (λ r.
              Nearer step r fresh.spec_replica
                (desired_or item0.desired_replicas item.desired_replicas))
            (sym carried) n,
      ),
    ),
    carried-AllSteps step count item fresh cs f same n more,
  )

  SendsSteps-more :
      (new : List Change) (w w' : World Q)
      → SendsSteps w
      → w'.changes ≡ new ++ w.changes
      → AllSteps new
      → SendsSteps w'
  SendsSteps-more new w w' (old, e, all) e' all' = (
    new ++ old,
    e' ∙ ap (λ cs. new ++ cs) e ∙ sym (append_assoc new old w0.changes),
    AllSteps-append new old all' all,
  )

  abbrev Fine : World Q → Type 0
  Fine w = Unique w × SendsSteps w

  -- Without an error the workload was found, in a round of the run, with as many replicas ready as
  -- it is to have.
  abbrev pub Reached : Result (Unit {0}) → Type 0
  Reached (ok _) =
      (step : ℤ) × (item : ScalingInfo Q) × (fresh : ScalingInfo Q) × Found step item fresh
      × (fresh.ready_replicas ≡ fresh.desired_replicas)
  Reached (err e) = Unit

  abbrev RunFine : Run (World Q × Result (Unit {0})) → Type 0
  RunFine Run.exhausted = Unit
  RunFine Run.panicked = Unit
  RunFine (Run.done (w, a)) = Fine w × Reached a

  abbrev RoundFine : Round Q → Type 0
  RoundFine (ends r) = RunFine r
  RoundFine (steps step item w) = Fine w × Same item item0

  EndsIn-RunFine :
      (r : Run (World Q × Result (Unit {0}))) → EndsIn (λ (w, a). Fine w × Reached a) r → RunFine r
  EndsIn-RunFine Run.exhausted h = tt
  EndsIn-RunFine Run.panicked h = tt
  EndsIn-RunFine (Run.done (w, a)) h = h

  unchanged : (w w' : World Q) → SendsSteps w → w'.changes ≡ w.changes → SendsSteps w'
  unchanged w w' s e = SendsSteps-more [] w w' s e tt

  scaling_failed-RunFine :
      (e : Error) (item : ScalingInfo Q) (desired : ℤ) (w : World Q)
      → Fine w
      → RunFine (scaling_failed cluster runtime e item desired w)
  unfolding scaling_failed
  scaling_failed-RunFine e item desired w (u, s) =
      let item' = record item { is_being_scaled = false } in
      let listed = put_on_list-Kept cluster item' true (message e) desired w.changes w (u, refl) in
      EndsIn-RunFine _ (
        after_events cluster (λ (w', a). Fine w' × Reached a) _ _ _ _
          (λ w' d q. ((subst UniqueItems (sym d) listed.0, unchanged w w' s (q ∙ listed.1)), tt)))

  after_step-RoundFine :
      (step : ℤ) (item : ScalingInfo Q) (desired : ℤ) (fresh : ScalingInfo Q)
      (o : Option (World Q × Result (Unit {0})))
      → Same item item0
      → ((w : World Q) (a : Result (Unit {0})) → o ≡ some (w, a) → Fine w)
      → RoundFine (after_step cluster runtime step item desired fresh o)
  unfolding after_step
  after_step-RoundFine step item desired fresh none same h = tt
  after_step-RoundFine step item desired fresh (some (w, ok a)) same h = (h w (ok a) refl, same)
  after_step-RoundFine step item desired fresh (some (w, err e)) same h =
      scaling_failed-RunFine e fresh desired w (h w (err e) refl)

module _ {Q : Type 0} (cluster : Cluster Q) (runtime : Runtime Q) (named : IsNamed cluster)
    (retries : Retries runtime) (calm : IsCalm runtime) (item0 : ScalingInfo Q) (w0 : World Q) where
  do_scaling-Fine :
      (item fresh : ScalingInfo Q) (step count : ℤ) (w w' : World Q) (a : Result (Unit {0}))
      → Fine cluster runtime item0 w0 w
      → Found cluster runtime item0 w0 step item fresh
      → Same fresh item0
      → Nearer step count fresh.spec_replica
          (desired_or item0.desired_replicas item.desired_replicas)
      → do_scaling cluster runtime.retry fresh count w ≡ some (w', a)
      → Fine cluster runtime item0 w0 w'
  do_scaling-Fine item fresh step count w w' a (u, s) found same nearer e =
      let (new, grown, carried, delivered) =
        do_scaling-Carries cluster fresh count named runtime.retry w w' a retries e in
      (
        subst UniqueBy e (do_scaling-UniqueBy cluster runtime retries calm fresh count w u),
        SendsSteps-more cluster runtime item0 w0 new w w' s grown (
            carried-AllSteps cluster runtime item0 w0 step count item fresh new found same nearer
              carried),
      )

  step_ready-RoundFine :
      (step : ℤ) (item fresh : ScalingInfo Q) (w : World Q)
      → Fine cluster runtime item0 w0 w
      → Found cluster runtime item0 w0 step item fresh
      → Same item item0
      → Same fresh item0
      → RoundFine cluster runtime item0 w0
          (step_ready cluster runtime item0.desired_replicas step item fresh w)
  unfolding step_ready
  step_ready-RoundFine step item fresh w f found known same =
      elim (Bool-cases (eqb_ℤ fresh.ready_replicas fresh.desired_replicas)) [
        | inl reached ↦ rw reached (
          f,
          (
            step,
            item,
            fresh,
            found,
            (eqb_ℤ_iff fresh.ready_replicas fresh.desired_replicas).0 reached,
          ),
        )
        | inr away ↦ rw away (
            after_step-RoundFine cluster runtime item0 w0 _ item _ fresh _ known (λ w' a e.
              do_scaling-Fine item fresh step _ w w' a f found same (next_step-Nearer _ _ step) e))
      ]

  step_round-RoundFine :
      (step : ℤ) (item : ScalingInfo Q) (w : World Q)
      → Comes cluster runtime item0 w0 step item w
      → Fine cluster runtime item0 w0 w
      → Same item item0
      → RoundFine cluster runtime item0 w0
          (step_round cluster runtime item0.desired_replicas step item w)
  unfolding step_round
  step_round-RoundFine step deployment_item w comes f known =
      let item = (get_deployment_info deployment_item w.denylist).0 in
      let (n, s) = get_deployment_info-Same deployment_item w.denylist in
      let listed : Same item item0 = (n ∙ known.0, s ∙ known.1) in
      elim (wait_for_ready cluster runtime item w)
          as (λ r.
            wait_for_ready cluster runtime item w ≡ r
            → EndsIn (WaitOutcome cluster w.changes item.spec_replica) r
            → RoundFine cluster runtime item0 w0 (elim r [
              | Run.exhausted ↦ ends Run.exhausted
              | Run.panicked ↦ ends Run.panicked
              | Run.done (w', (fresh, err e)) ↦ ends (Run.done (w', err e))
              | Run.done (w', (fresh, ok _)) ↦
                  step_ready cluster runtime item0.desired_replicas step item fresh w'
            ])) [
              | Run.exhausted ↦ λ e h. tt
              | Run.panicked ↦ λ e h. tt
              | Run.done (w', (fresh, err x)) ↦
                  λ e h. ((h.0.0, unchanged cluster runtime item0 w0 w w' f.1 h.0.1), tt)
              | Run.done (w', (fresh, ok _)) ↦ λ e h.
                  let (n', s') = wait_for_ready-Same cluster runtime named item fresh w w' e in
                  step_ready-RoundFine step item fresh w'
                    (h.0.0, unchanged cluster runtime item0 w0 w w' f.1 h.0.1)
                    (deployment_item, w, w', comes, refl, e) listed (n' ∙ listed.0, s' ∙ listed.1)
            ]
        refl (wait_for_ready-WaitOutcome cluster runtime item w calm f.0)

  step_loop-RunFine :
      (rounds : ℕ) (step : ℤ) (item : ScalingInfo Q) (w : World Q)
      → Comes cluster runtime item0 w0 step item w
      → Fine cluster runtime item0 w0 w
      → Same item item0
      → RunFine cluster runtime item0 w0
          (step_loop cluster runtime rounds item0.desired_replicas step item w)
  unfolding step_loop
  step_loop-RunFine zero step item w comes f known = tt
  step_loop-RunFine (suc rounds) step item w comes f known =
      subst (RunFine cluster runtime item0 w0)
        (sym (step_loop-suc cluster runtime rounds item0.desired_replicas step item w))
        (elim (step_round cluster runtime item0.desired_replicas step item w)
            as (λ r.
              step_round cluster runtime item0.desired_replicas step item w ≡ r
              → RoundFine cluster runtime item0 w0 r
              → RunFine cluster runtime item0 w0
                  (go_on cluster runtime rounds item0.desired_replicas r)) [
                    | ends result ↦ λ e h. h
                    | steps step' item' w' ↦
                        λ e h. step_loop-RunFine rounds step' item' w' (later comes e) h.0 h.1
                  ]
          refl (step_round-RoundFine step item w comes f known))

-- On a deny list with distinct keys, where other goroutines keep them distinct, RetryOnConflict makes
-- attempts one after the other and the client answers with the objects it is asked for: whenever
-- StepScale returns, with an error or without, every change that it sent is of its workload and belongs
-- to a round of its run in which WaitForReady found the workload ready at some count; it carries a
-- count one replica nearer to the one that the deny list has at the start of that round (the one
-- StepScale was called with, where the list has -1), or, where the workload was at that count, the
-- count of the step before, at first the one StepScale was called with. Where it returns without an error, WaitForReady had found the workload, in a round of the run, with as many
-- replicas ready as it is to have.
pub step_scale-SendsSteps :
    {Q : Type 0} (cluster : Cluster Q) (runtime : Runtime Q)
    → IsNamed cluster
    → Retries runtime
    → IsCalm runtime
    → (rounds : ℕ) (item : ScalingInfo Q) (w w' : World Q) (a : Result (Unit {0})) → Unique w
    → step_scale cluster runtime rounds item w ≡ Run.done (w', a)
    → SendsSteps cluster runtime item w w' × Reached cluster runtime item w a
unfolding step_scale
step_scale-SendsSteps cluster runtime named retries calm rounds item w w' a u e =
    let ((u', sends), reached) = subst (RunFine cluster runtime item w) e (
      step_loop-RunFine cluster runtime named retries calm item w rounds item.spec_replica item w
        first (u, ([], refl, tt)) (refl, refl)) in
    (sends, reached)
