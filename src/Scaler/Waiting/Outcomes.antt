-- ===== src/Scaler/Waiting/Outcomes.antt =====
-- How WaitForReady leaves the deny list and the cluster.
use mathlib.Core.Path.{subst}
use pre_scaling_operator.Common.{
  ℕ, ◌*◌, ◌<◌, ℤ, leb, bytes, ◌==◌, true, false, Option, none, some, List, Error, Result, ok, err,
  ◌≡◌, ◌⊎◌, inl, inr, refl, arith, sym, ap, ◌∙◌, Bool-cases,
}
use pre_scaling_operator.Global.{ScalingInfo, no_item}
use pre_scaling_operator.Global.Registry.{entry, UniqueItems}
use pre_scaling_operator.Scaler.{Cluster, World, Change, get_refreshed_scaling_item}
use pre_scaling_operator.Scaler.Waiting.{
  Runtime, Run, after, run_of, Waited, timed_out, lost, given_up, is_ready, wait_seconds,
  after_poll, wait_for_ready,
}
use pre_scaling_operator.Scaler.Waiting.Ends.{
  EndsIn, PollsTo, PollStep, read_in_poll, slept, poll-late, poll-early, wait_for_ready-EndsIn,
}
use pre_scaling_operator.Scaler.Waiting.Keeps.{
  Kept, ListedFailed, put_on_list-Kept, put_on_list-ListedFailed, after_events, take_off_list_lem,
  KeptBy, get_refreshed-KeptBy,
}

module _ {Q : Type 0} (cluster : Cluster Q) where
  -- The ends of WaitForReady: the workload is ready as it was read, or it is in failure on the deny
  -- list, or it could not be read.
  abbrev pub WaitOutcome : List Change → ℤ → Waited cluster → Type 0
  WaitOutcome changes step (w, (fresh, ok _)) =
      Kept changes w
      × ((fresh.condition_reason == bytes "ProgressDeadlineExceeded") ≡ false)
      × (is_ready cluster step fresh ≡ true)
  WaitOutcome changes step (w, (item, err e)) =
      Kept changes w × ((item ≡ no_item) ⊎ ListedFailed item w)

  module _ (changes : List Change) (step : ℤ) where
    timed_out_lem :
        (item : ScalingInfo Q) (w : World Q)
        → Kept changes w
        → EndsIn (WaitOutcome changes step) (timed_out cluster item w)
    unfolding timed_out
    timed_out_lem item w (u, c) = after_events cluster (WaitOutcome changes step) _ _ w _ (λ w' d q.
        (
          put_on_list-Kept cluster _ true _ _ changes w' (subst UniqueItems (sym d) u, q ∙ c),
          inr (put_on_list-ListedFailed cluster _ _ _ w'),
        ))

    lost_lem :
        (runtime : Runtime Q) (e : Error) (w : World Q)
        → Kept changes w
        → EndsIn (WaitOutcome changes step) (lost cluster runtime e w)
    unfolding lost
    lost_lem runtime e w (u, c) = after_events cluster (WaitOutcome changes step) _ _ w _ (λ w' d q.
        let (w'', e', u'', gone, q') =
          take_off_list_lem cluster runtime no_item w' (subst UniqueItems (sym d) u) in
        subst
          (λ o.
            EndsIn (WaitOutcome changes step)
              (after (run_of o) (λ w3. Run.done (w3, (no_item, err e)))))
          (sym e') ((u'', q' ∙ q ∙ c), inl refl))

    given_up_lem :
        (desired : ℤ) (item : ScalingInfo Q) (w : World Q)
        → Kept changes w
        → EndsIn (WaitOutcome changes step) (given_up cluster desired item w)
    unfolding given_up
    given_up_lem desired item w k =
        let item' = record item { is_being_scaled = false } in
        let text = bytes "ProgressDeadlineExceeded" in
        let (u, c) = put_on_list-Kept cluster item' true text desired changes w k in
        let (failed, e, f) = put_on_list-ListedFailed cluster item' text desired w in
        after_events cluster (WaitOutcome changes step) _ _ _ _ (λ w' d q.
          ((subst UniqueItems (sym d) u, q ∙ c), inr (failed, ap (entry item') d ∙ e, f)))

-- `calm`: other goroutines keep the keys of the deny list distinct.
module _ {Q : Type 0} (cluster : Cluster Q) (runtime : Runtime Q) (changes : List Change)
    (calm : (n : ℕ) (items : List (ScalingInfo Q))
      → UniqueItems items
      → UniqueItems (runtime.others n items))
    (step : ℤ) where
  after_poll_lem :
      (wait_time elapsed : ℕ) (desired : ℤ) (answer : Option (World Q × Result (ScalingInfo Q)))
      → elapsed < wait_time
      → KeptBy cluster changes answer
      → PollsTo cluster runtime
          (Kept changes)
          (WaitOutcome cluster changes step)
          wait_time
          elapsed
          (read_in_poll cluster runtime step desired answer)
  unfolding after_poll
  after_poll_lem wait_time elapsed desired none early k = tt
  after_poll_lem wait_time elapsed desired (some (w, err e)) early k =
      lost_lem cluster changes step runtime e w k
  after_poll_lem wait_time elapsed desired (some (w, ok fresh)) early k =
      ground (arith, given_up_lem cluster changes step desired fresh w k)

  poll_lem :
      (wait_time : ℕ) (desired : ℤ)
      → PollStep cluster runtime
          (Kept changes)
          (WaitOutcome cluster changes step)
          wait_time
          step
          desired
  poll_lem wait_time desired elapsed item w k = elim (Bool-cases (leb wait_time elapsed)) [
    | inl late ↦
        subst
          (PollsTo cluster runtime (Kept changes) (WaitOutcome cluster changes step) wait_time
            elapsed)
          (sym (poll-late cluster runtime wait_time step desired elapsed item w (ground arith)))
          (timed_out_lem cluster changes step item w k)
    | inr early ↦
        let mid = slept cluster runtime w in
        let answer = get_refreshed_scaling_item cluster item mid in
        subst
          (PollsTo cluster runtime (Kept changes) (WaitOutcome cluster changes step) wait_time
            elapsed)
          (sym (
            poll-early cluster runtime wait_time step desired elapsed item w answer (ground arith)
              refl))
          (after_poll_lem wait_time elapsed desired answer (ground arith)
            (get_refreshed-KeptBy cluster changes item mid (calm w.calls w.denylist k.0, k.1)))
  ]

pub wait_for_ready-WaitOutcome :
    {Q : Type 0} (cluster : Cluster Q) (runtime : Runtime Q) (item : ScalingInfo Q) (w : World Q)
    → ((n : ℕ) (items : List (ScalingInfo Q))
        → UniqueItems items
        → UniqueItems (runtime.others n items))
    → UniqueItems w.denylist
    → EndsIn
        (WaitOutcome cluster w.changes item.spec_replica)
        (wait_for_ready cluster runtime item w)
wait_for_ready-WaitOutcome cluster runtime item w calm u =
    wait_for_ready-EndsIn cluster runtime (Kept w.changes)
      (WaitOutcome cluster w.changes item.spec_replica) item w
      (poll_lem cluster runtime w.changes calm item.spec_replica
        (wait_seconds item.progress_deadline * 1000) item.desired_replicas)
      (u, refl)

-- The same ends, by the answer of WaitForReady.
abbrev pub WaitEnd : {Q : Type 0} (cluster : Cluster Q) → List Change → ℤ → Waited cluster → Type 0
WaitEnd cluster changes step (w, (item, answer)) =
    Kept changes w
    × (((answer ≡ ok tt)
          × ((item.condition_reason == bytes "ProgressDeadlineExceeded") ≡ false)
          × (is_ready cluster step item ≡ true))
        ⊎ ((e : Error) × (answer ≡ err e) × ((item ≡ no_item) ⊎ ListedFailed item w)))

outcome-WaitEnd :
    {Q : Type 0} (cluster : Cluster Q) (changes : List Change) (step : ℤ) (a : Waited cluster)
    → WaitOutcome cluster changes step a
    → WaitEnd cluster changes step a
outcome-WaitEnd cluster changes step (w, (item, ok tt)) (kept, early, ready) =
    (kept, inl (refl, early, ready))
outcome-WaitEnd cluster changes step (w, (item, err e)) (kept, ended) = (kept, inr (e, refl, ended))

-- Where other goroutines keep the keys of the deny list distinct, WaitForReady keeps them distinct,
-- sends no change, and where it returns does so in one of these ways: without an error, with a
-- workload that is not past its progress deadline and has as many replicas ready as it had in all
-- at the start, or as it has now; with an error, and a workload that is on the deny list in
-- failure, or the empty item.
pub wait_for_ready_lem :
    {Q : Type 0} (cluster : Cluster Q) (runtime : Runtime Q) (item : ScalingInfo Q) (w : World Q)
    (a : Waited cluster)
    → ((n : ℕ) (items : List (ScalingInfo Q))
        → UniqueItems items
        → UniqueItems (runtime.others n items))
    → UniqueItems w.denylist
    → wait_for_ready cluster runtime item w ≡ Run.done a
    → WaitEnd cluster w.changes item.spec_replica a
wait_for_ready_lem cluster runtime item w a calm u e =
    outcome-WaitEnd cluster w.changes item.spec_replica a (
      subst (EndsIn (WaitOutcome cluster w.changes item.spec_replica)) e
        (wait_for_ready-WaitOutcome cluster runtime item w calm u))
