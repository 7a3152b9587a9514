-- ===== src/Scaler/Loops/Steps.antt =====
-- StepScale moves a workload one replica a round: it reaches the desired count on a cluster that does
-- what it is asked, and goes round for ever where DoScaling leaves the workload to the autoscaler.
use mathlib.Core.Path.{subst}
use pre_scaling_operator.Common.{
  ℕ, zero, suc, ◌+◌, ◌-◌, ℤ, negsuc, pos_part, neg_part, ◌+ℤ◌, ◌-ℤ◌, eqb_ℤ, eqb_ℤ_iff, int_laws,
  true, false, some, Result, ok, ◌≡◌, ◌≢◌, refl, arith, sym, ap, ◌∙◌,
}
use pre_scaling_operator.Global.{ScalingInfo}
use pre_scaling_operator.Global.Denylist.{get_deployment_info}
use pre_scaling_operator.Scaler.{Cluster, World, do_scaling, left_to_autoscaler}
use pre_scaling_operator.Scaler.Waiting.{Runtime, Run, wait_for_ready}
use pre_scaling_operator.Scaler.Loops.{
  next_step, desired_or, ends, steps, after_step, step_ready, step_round, step_loop, step_scale,
}

-- The number of replicas between two counts.
abbrev pub distance : ℤ → ℤ → ℕ
distance a b =
    (pos_part a + neg_part b)
    - (pos_part b + neg_part a)
    + ((pos_part b + neg_part a) - (pos_part a + neg_part b))

pub next_step-distance :
    (old desired step : ℤ) (n : ℕ)
    → distance old desired ≡ suc n
    → distance (next_step old desired step) desired ≡ n
unfolding next_step ◌+ℤ◌ ◌-ℤ◌
next_step-distance old desired step n h = ground arith

pub distance-zero : (old desired : ℤ) → distance old desired ≡ 0 → old ≡ desired
distance-zero old desired h = omega int_laws

far_apart : (old desired : ℤ) (n : ℕ) → distance old desired ≡ suc n → eqb_ℤ old desired ≡ false
far_apart old desired n h = ground arith

desired_or_given : (initial desired : ℤ) → desired ≢ negsuc 0 → desired_or initial desired ≡ desired
unfolding desired_or
desired_or_given initial desired given = ground (arith, eqb_ℤ_iff desired (negsuc 0))

module _ {Q : Type 0} (cluster : Cluster Q) (runtime : Runtime Q) where
  -- What the deny list has of a workload at the start of a round.
  abbrev pub listed_of : ScalingInfo Q → World Q → ScalingInfo Q
  listed_of item w = (get_deployment_info item w.denylist).0

  step_round-ready :
      (initial step : ℤ) (item fresh : ScalingInfo Q) (w w1 : World Q)
      → wait_for_ready cluster runtime (listed_of item w) w ≡ Run.done (w1, (fresh, ok tt))
      → step_round cluster runtime initial step item w
        ≡ step_ready cluster runtime initial step (listed_of item w) fresh w1
  unfolding step_round
  step_round-ready initial step item fresh w w1 e = rw (e, step_round) refl

  step_ready-reached :
      (initial step : ℤ) (item fresh : ScalingInfo Q) (w : World Q)
      → fresh.ready_replicas ≡ fresh.desired_replicas
      → step_ready cluster runtime initial step item fresh w ≡ ends (Run.done (w, ok tt))
  unfolding step_ready
  step_ready-reached initial step item fresh w e =
      let h : eqb_ℤ fresh.ready_replicas fresh.desired_replicas ≡ true =
        (eqb_ℤ_iff fresh.ready_replicas fresh.desired_replicas).1 e in
      rw (h, step_ready) refl

  step_ready-steps :
      (initial step count : ℤ) (item fresh : ScalingInfo Q) (w w2 : World Q)
      → eqb_ℤ fresh.ready_replicas fresh.desired_replicas ≡ false
      → next_step fresh.spec_replica (desired_or initial item.desired_replicas) step ≡ count
      → do_scaling cluster runtime.retry fresh count w ≡ some (w2, ok tt)
      → step_ready cluster runtime initial step item fresh w ≡ steps count item w2
  unfolding step_ready after_step
  step_ready-steps initial step count item fresh w w2 h c e =
      rw (h, step_ready) (rw c (rw (e, after_step) refl))

  step_loop-ends :
      (rounds : ℕ) (initial step : ℤ) (item : ScalingInfo Q) (w w' : World Q)
      → step_round cluster runtime initial step item w ≡ ends (Run.done (w', ok tt))
      → step_loop cluster runtime (suc rounds) initial step item w ≡ Run.done (w', ok tt)
  unfolding step_loop
  step_loop-ends rounds initial step item w w' e = rw (e, step_loop) refl

  step_loop-steps :
      (rounds : ℕ) (initial step step' : ℤ) (item item' : ScalingInfo Q) (w w' : World Q)
      → step_round cluster runtime initial step item w ≡ steps step' item' w'
      → step_loop cluster runtime (suc rounds) initial step item w
        ≡ step_loop cluster runtime rounds initial step' item' w'
  unfolding step_loop
  step_loop-steps rounds initial step step' item item' w w' e = rw (e, step_loop) refl

-- A run of StepScale to `desired` replicas: `At r item w` is the start of a round with the workload at
-- `r` replicas, and `Ready r item fresh w` the point where WaitForReady has returned.
module _ {Q : Type 0} (cluster : Cluster Q) (runtime : Runtime Q) (desired : ℤ)
    (At : ℤ → ScalingInfo Q → World Q → Type 0)
    (Ready : ℤ → ScalingInfo Q → ScalingInfo Q → World Q → Type 0) where
  -- WaitForReady returns the workload as it was read, with all of its replicas ready.
  abbrev pub BecomesReady : Type 0
  BecomesReady =
      (r : ℤ) (item : ScalingInfo Q) (w : World Q)
      → At r item w
      → (w1 : World Q) × (fresh : ScalingInfo Q) × (wait_for_ready cluster runtime
            (listed_of cluster runtime item w) w
          ≡ Run.done (w1, (fresh, ok tt)))
        × ((listed_of cluster runtime item w).desired_replicas ≡ desired)
        × (fresh.spec_replica ≡ r)
        × (fresh.ready_replicas ≡ r)
        × (fresh.desired_replicas ≡ desired)
        × Ready r (listed_of cluster runtime item w) fresh w1

  -- DoScaling gives the workload the replicas that it asks for.
  abbrev pub IsObeyed : Type 0
  IsObeyed =
      (r step : ℤ) (item fresh : ScalingInfo Q) (w : World Q)
      → Ready r item fresh w
      → r ≢ desired
      → (w2 : World Q) × (do_scaling cluster runtime.retry fresh (next_step r desired step) w
          ≡ some (w2, ok tt))
        × At (next_step r desired step) item w2

  module _ (ready : BecomesReady) (obeyed : IsObeyed) (given : desired ≢ negsuc 0) where
    abbrev pub Reaches : Run (World Q × Result (Unit {0})) → Type 0
    Reaches result =
        (w' : World Q) × (item : ScalingInfo Q) × (fresh : ScalingInfo Q) × (result
          ≡ Run.done (w', ok tt))
        × Ready desired item fresh w'

    -- A round that is away from the desired count goes on with one that is a replica nearer.
    goes_on :
        (n : ℕ) (initial step r : ℤ) (item : ScalingInfo Q) (w : World Q)
        → distance r desired ≡ suc n
        → At r item w
        → (item' : ScalingInfo Q) × (w' : World Q) × (distance (next_step r desired step) desired
            ≡ n)
          × At (next_step r desired step) item' w'
          × ((rounds : ℕ)
              → step_loop cluster runtime (suc rounds) initial step item w
                ≡ step_loop cluster runtime rounds initial (next_step r desired step) item' w')
    goes_on n initial step r item w far at =
        let (w1, fresh, e, wanted, spec, up, asked, at1) = ready r item w at in
        let listed = listed_of cluster runtime item w in
        let apart : eqb_ℤ r desired ≡ false = far_apart r desired n far in
        let (w2, sent, at2) =
          obeyed r step listed fresh w1 at1 (λ same. ground (arith, eqb_ℤ_iff r desired)) in
        let goal : desired_or initial listed.desired_replicas ≡ desired =
          ap (desired_or initial) wanted ∙ desired_or_given initial desired given in
        let count : next_step fresh.spec_replica (desired_or initial listed.desired_replicas) step
            ≡ next_step r desired step =
          rw (spec, goal) refl in
        (
          listed,
          w2,
          next_step-distance r desired step n far,
          at2,
          λ rounds.
              step_loop-steps cluster runtime rounds initial step (next_step r desired step) item
                listed w w2
                (step_round-ready cluster runtime initial step item fresh w w1 e
                  ∙ step_ready-steps cluster runtime initial step (next_step r desired step) listed
                      fresh w1 w2 (rw (up, asked) apart) count sent),
        )

    reach :
        (n : ℕ) (initial step r : ℤ) (item : ScalingInfo Q) (w : World Q)
        → distance r desired ≡ n
        → At r item w
        → Reaches (step_loop cluster runtime (suc n) initial step item w)
    reach zero initial step r item w near at =
        let (w1, fresh, e, wanted, spec, up, asked, at1) = ready r item w at in
        let same : r ≡ desired = distance-zero r desired near in
        (
          w1,
          listed_of cluster runtime item w,
          fresh,
          step_loop-ends cluster runtime zero initial step item w w1 (
              step_round-ready cluster runtime initial step item fresh w w1 e
              ∙ step_ready-reached cluster runtime initial step _ fresh w1 (up ∙ same ∙ sym asked)),
          subst (λ c. Ready c (listed_of cluster runtime item w) fresh w1) same at1,
        )
    reach (suc n) initial step r item w far at =
        let (item', w', nearer, at', on) = goes_on n initial step r item w far at in
        subst Reaches (sym (on (suc n))) (
          reach n initial (next_step r desired step) (next_step r desired step) item' w' nearer at')

    -- With one round less it is still running.
    runs :
        (n : ℕ) (initial step r : ℤ) (item : ScalingInfo Q) (w : World Q)
        → distance r desired ≡ n
        → At r item w
        → step_loop cluster runtime n initial step item w ≡ Run.exhausted
    unfolding step_loop
    runs zero initial step r item w near at = refl
    runs (suc n) initial step r item w far at =
        let (item', w', nearer, at', on) = goes_on n initial step r item w far at in
        on n
        ∙ runs n initial (next_step r desired step) (next_step r desired step) item' w' nearer at'

    -- Let every round start with the workload at a count of replicas, where WaitForReady finds it
    -- at that count, all ready, and the deny list asks for the desired count, which is not -1; and
    -- let DoScaling succeed and bring the workload to the count it is called with. Then StepScale
    -- goes through exactly as many rounds as there are replicas between the first count and the
    -- desired one, and one more: before the last of them it has not returned, and after it it
    -- returns without an error, with the workload at the desired count.
    pub step_scale-Reaches :
        (r : ℤ) (item : ScalingInfo Q) (w : World Q)
        → At r item w
        → Reaches (step_scale cluster runtime (suc (distance r desired)) item w)
          × (step_scale cluster runtime (distance r desired) item w ≡ Run.exhausted)
    unfolding step_scale
    step_scale-Reaches r item w at = (
      reach (distance r desired) item.desired_replicas item.spec_replica r item w refl at,
      runs (distance r desired) item.desired_replicas item.spec_replica r item w refl at,
    )

-- A workload whose replicas DoScaling leaves to the autoscaler.
module _ {Q : Type 0} (cluster : Cluster Q) (runtime : Runtime Q) where
  do_scaling-left :
      (item : ScalingInfo Q) (replicas : ℤ) (w : World Q)
      → left_to_autoscaler item replicas ≡ true
      → do_scaling cluster runtime.retry item replicas w ≡ some (w, ok tt)
  unfolding do_scaling
  do_scaling-left item replicas w left = rw (left, do_scaling) refl

  -- At the start of a round of a state in `At` the workload becomes ready with fewer or more replicas
  -- than are desired, is left to the autoscaler for every step, and the state stays in `At`.
  abbrev pub IsLeft : (ScalingInfo Q → World Q → Type 0) → Type 0
  IsLeft At =
      (item : ScalingInfo Q) (w : World Q)
      → At item w
      → (w1 : World Q) × (fresh : ScalingInfo Q) × (wait_for_ready cluster runtime
            (listed_of cluster runtime item w) w
          ≡ Run.done (w1, (fresh, ok tt)))
        × (eqb_ℤ fresh.ready_replicas fresh.desired_replicas ≡ false)
        × ((initial step : ℤ)
            → left_to_autoscaler fresh (
                next_step fresh.spec_replica
                  (desired_or initial (listed_of cluster runtime item w).desired_replicas) step)
              ≡ true)
        × At (listed_of cluster runtime item w) w1

  step_loop-left :
      (At : ScalingInfo Q → World Q → Type 0)
      → IsLeft At
      → (rounds : ℕ) (initial step : ℤ) (item : ScalingInfo Q) (w : World Q) → At item w
      → step_loop cluster runtime rounds initial step item w ≡ Run.exhausted
  unfolding step_loop
  step_loop-left At left zero initial step item w at = refl
  step_loop-left At left (suc rounds) initial step item w at =
      let (w1, fresh, e, apart, kept, at1) = left item w at in
      let listed = listed_of cluster runtime item w in
      let count = next_step fresh.spec_replica (desired_or initial listed.desired_replicas) step in
      step_loop-steps cluster runtime rounds initial step count item listed w w1 (
        step_round-ready cluster runtime initial step item fresh w w1 e
        ∙ step_ready-steps cluster runtime initial step count listed fresh w1 w1 apart refl
            (do_scaling-left fresh count w1 (kept initial step)))
      ∙ step_loop-left At left rounds initial count listed w1 at1

  -- Where every round finds the workload ready at a count other than the desired one, with its next
  -- step left to the autoscaler, and the next round starts in such a state again, StepScale never
  -- returns: it still runs after any number of rounds.
  pub step_scale_diverges :
      (At : ScalingInfo Q → World Q → Type 0)
      → IsLeft At
      → (rounds : ℕ) (item : ScalingInfo Q) (w : World Q) → At item w
      → step_scale cluster runtime rounds item w ≡ Run.exhausted
  unfolding step_scale
  step_scale_diverges At left rounds item w at =
      step_loop-left At left rounds item.desired_replicas item.spec_replica item w at
