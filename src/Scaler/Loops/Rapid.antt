-- ===== src/Scaler/Loops/Rapid.antt =====
-- RapidScale changes a workload to the desired count at once.
use mathlib.Core.Path.{subst}
use pre_scaling_operator.Common.{
  ℤ, eqb_ℤ, true, false, not, ◌&&◌, Option, none, some, List, [], ◌∷◌, ◌++◌, Result, ok, err, ◌≡◌,
  ◌⊎◌, inl, inr, refl, ap, ◌∙◌,
}
use pre_scaling_operator.Global.{ScalingInfo}
use pre_scaling_operator.Scaler.{Cluster, World, Change, do_scaling, left_to_autoscaler}
use pre_scaling_operator.Scaler.Named.{IsNamed, Same}
use pre_scaling_operator.Scaler.Waiting.Named.{wait_for_ready-Same}
use pre_scaling_operator.Scaler.Changes.{AllCarry, HasSome, Delivers, do_scaling-Carries}
use pre_scaling_operator.Scaler.Waiting.{Runtime, Run, after, put_on_list, wait_for_ready}
use pre_scaling_operator.Scaler.Waiting.Keeps.{put_on_list-Kept, after_events}
use pre_scaling_operator.Scaler.Waiting.Outcomes.{WaitOutcome, wait_for_ready-WaitOutcome}
use pre_scaling_operator.Scaler.Waiting.Ends.{EndsIn}
use pre_scaling_operator.Scaler.Loops.{scaling_failed, after_rapid, rapid_ready, rapid_scale}
use pre_scaling_operator.Scaler.Loops.Retries.{Unique, Retries, IsCalm}

-- A run of RapidScale for the item that starts in the world `w0`.
module _ {Q : Type 0} (cluster : Cluster Q) (runtime : Runtime Q) (item : ScalingInfo Q)
    (w0 : World Q) where
  -- The item was put on the deny list as being scaled.
  abbrev pub waits_in : World Q
  waits_in =
      put_on_list cluster (record item { is_being_scaled = true }) item.failure item.failure_message
        item.desired_replicas w0

  -- WaitForReady found the workload, and at the desired count it is left to the autoscaler.
  abbrev pub FoundLeft : Type 0
  FoundLeft =
      (fresh : ScalingInfo Q) × (v' : World Q) × (wait_for_ready cluster runtime
          (record item { is_being_scaled = true }) waits_in
        ≡ Run.done (v', (fresh, ok tt)))
      × (left_to_autoscaler fresh item.desired_replicas ≡ true)

  -- Without an error some change was sent, unless the workload is left to the autoscaler.
  abbrev pub Answers : Result (Unit {0}) → List Change → Type 0
  Answers (ok _) new = FoundLeft ⊎ HasSome new
  Answers (err e) new = Unit

  -- The changes that the run sent are of the workload and carry the desired count.
  abbrev pub SendsCount : World Q → Result (Unit {0}) → Type 0
  SendsCount w a =
      (new : List Change) × (w.changes ≡ new ++ w0.changes)
      × AllCarry item item.desired_replicas new
      × Answers a new

  abbrev RunSends : Run (World Q × Result (Unit {0})) → Type 0
  RunSends Run.exhausted = Unit
  RunSends Run.panicked = Unit
  RunSends (Run.done (w, a)) = SendsCount w a

  EndsIn-RunSends :
      (r : Run (World Q × Result (Unit {0}))) → EndsIn (λ (w, a). SendsCount w a) r → RunSends r
  EndsIn-RunSends Run.exhausted h = tt
  EndsIn-RunSends Run.panicked h = tt
  EndsIn-RunSends (Run.done (w, a)) h = h

  answered :
      (fresh : ScalingInfo Q) (v' : World Q) (a : Result (Unit {0})) (new : List Change)
      → wait_for_ready cluster runtime (record item { is_being_scaled = true }) waits_in
        ≡ Run.done (v', (fresh, ok tt))
      → (left_to_autoscaler fresh item.desired_replicas ≡ true) ⊎ Delivers a new
      → Answers a new
  answered fresh v' (ok _) new found (inl left) = inl (fresh, v', found, left)
  answered fresh v' (ok _) new found (inr some_sent) = inr some_sent
  answered fresh v' (err e) new found d = tt

  after_rapid-RunSends :
      (fresh : ScalingInfo Q) (o : Option (World Q × Result (Unit {0})))
      → ((w : World Q) (a : Result (Unit {0})) → o ≡ some (w, a) → SendsCount w a)
      → RunSends (after_rapid cluster runtime fresh item.desired_replicas o)
  unfolding after_rapid scaling_failed
  after_rapid-RunSends fresh none h = tt
  after_rapid-RunSends fresh (some (w, ok a)) h = h w (ok a) refl
  after_rapid-RunSends fresh (some (w, err e)) h =
      let (new, sent, all, _) = h w (err e) refl in
      EndsIn-RunSends _ (
        after_events cluster (λ (w', a). SendsCount w' a) _ _ _ _
          (λ w' d q. (new, q ∙ sent, all, tt)))

  AllCarry-Same :
      (fresh : ScalingInfo Q) (count : ℤ) (cs : List Change)
      → Same fresh item
      → AllCarry fresh count cs
      → AllCarry item count cs
  AllCarry-Same fresh count [] same all = tt
  AllCarry-Same fresh count (c ∷ cs) same ((name, namespace, carried), more) =
      ((name ∙ same.0, namespace ∙ same.1, carried), AllCarry-Same fresh count cs same more)

  module _ (named : IsNamed cluster) (retries : Retries runtime) where
    waited-RunSends :
        (step : ℤ) (r : Run (World Q × (ScalingInfo Q × Result (Unit {0}))))
        → wait_for_ready cluster runtime (record item { is_being_scaled = true }) waits_in ≡ r
        → EndsIn (WaitOutcome cluster w0.changes step) r
        → RunSends (after r (rapid_ready cluster runtime item.desired_replicas))
    unfolding rapid_ready
    waited-RunSends step Run.exhausted found h = tt
    waited-RunSends step Run.panicked found h = tt
    waited-RunSends step (Run.done (w, (fresh, err e))) found h = ([], h.0.1, tt, tt)
    waited-RunSends step (Run.done (w, (fresh, ok _))) found h =
        after_rapid-RunSends fresh (do_scaling cluster runtime.retry fresh item.desired_replicas w)
          (λ w' a e.
            let same =
              wait_for_ready-Same cluster runtime named (record item { is_being_scaled = true })
                fresh waits_in w found in
            let (new, grown, all, delivers) =
              do_scaling-Carries cluster fresh item.desired_replicas named runtime.retry w w' a
                retries e in
            (
              new,
              grown ∙ ap (λ cs. new ++ cs) h.0.1,
              AllCarry-Same fresh item.desired_replicas new same all,
              answered fresh w a new found delivers,
            ))

module _ {Q : Type 0} (cluster : Cluster Q) (runtime : Runtime Q) (named : IsNamed cluster)
    (retries : Retries runtime) (calm : IsCalm runtime) where
  rapid_scale-RunSends :
      (item : ScalingInfo Q) (w : World Q)
      → Unique w
      → eqb_ℤ item.spec_replica item.desired_replicas && not item.failure ≡ false
      → RunSends cluster runtime item w (rapid_scale cluster runtime item w)
  unfolding rapid_scale
  rapid_scale-RunSends item w u busy =
      let item' = record item { is_being_scaled = true } in
      let listed =
        put_on_list-Kept cluster item' item.failure item.failure_message item.desired_replicas
          w.changes w (u, refl) in
      rw busy (
        waited-RunSends cluster runtime item w named retries item.spec_replica _ refl
          (wait_for_ready-WaitOutcome cluster runtime item' _ calm listed.0))

  -- On a deny list with distinct keys, where other goroutines keep them distinct, RetryOnConflict makes
  -- attempts one after the other and the client answers with the objects it is asked for, for an item
  -- that is not at its desired count or is in failure: every change that RapidScale sends is of the
  -- workload and carries the desired count of the item, and without an error some was sent, or the
  -- workload was found and left to the autoscaler.
  pub rapid_scale-SendsCount :
      (item : ScalingInfo Q) (w w' : World Q) (a : Result (Unit {0}))
      → Unique w
      → eqb_ℤ item.spec_replica item.desired_replicas && not item.failure ≡ false
      → rapid_scale cluster runtime item w ≡ Run.done (w', a)
      → SendsCount cluster runtime item w w' a
  rapid_scale-SendsCount item w w' a u busy e =
      subst (RunSends cluster runtime item w) e (rapid_scale-RunSends item w u busy)
