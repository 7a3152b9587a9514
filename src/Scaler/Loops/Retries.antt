-- ===== src/Scaler/Loops/Retries.antt =====
-- The attempts of DoScaling keep the keys of the deny list distinct.
use mathlib.Core.Path.{subst}
use pre_scaling_operator.Common.{
  ℕ, suc, ℤ, Option, none, some, List, Result, ok, err, ◌≡◌, inl, inr, refl, arith, sym, Bool-cases,
}
use pre_scaling_operator.Global.{ScalingInfo}
use pre_scaling_operator.Global.Registry.{UniqueItems}
use pre_scaling_operator.Scaler.{
  Cluster, World, get_refreshed_scaling_item, after_refresh, scaling_attempt, do_scaling,
  left_to_autoscaler, update_scaling_item, update_by_type, after_get, attempt_fresh, sent,
}
use pre_scaling_operator.Scaler.Changes.{Retried, once, again}
use pre_scaling_operator.Scaler.Waiting.{Runtime, Run}
use pre_scaling_operator.Scaler.Loops.{Round, ends, steps, Scaled, step_round, step_loop}
use pre_scaling_operator.Scaler.Waiting.Keeps.{KeptBy, get_refreshed-KeptBy}

module _ {Q : Type 0} where
  abbrev pub Unique : World Q → Type 0
  Unique w = UniqueItems w.denylist

  abbrev pub UniqueBy : {A : Type 0} → Option (World Q × A) → Type 0
  UniqueBy none = Unit
  UniqueBy (some (w, a)) = Unique w

  -- A result, where there is one, leaves a list with distinct keys.
  abbrev pub RunUnique : {A : Type 0} → Run (World Q × A) → Type 0
  RunUnique Run.exhausted = Unit
  RunUnique Run.panicked = Unit
  RunUnique (Run.done (w, a)) = Unique w

module _ {Q : Type 0} (cluster : Cluster Q) where
  update_by_type-denylist :
      (type : _) (item : ScalingInfo Q) (w : World Q)
      → (update_by_type cluster type item w).0.denylist ≡ w.denylist
  unfolding update_by_type after_get sent
  update_by_type-denylist type item w = ground arith

  update_scaling_item-denylist :
      (item : ScalingInfo Q) (w : World Q)
      → (update_scaling_item cluster item w).0.denylist ≡ w.denylist
  unfolding update_scaling_item
  update_scaling_item-denylist item w = update_by_type-denylist _ item w

  attempt_fresh-denylist :
      (fresh : ScalingInfo Q) (replicas : ℤ) (w : World Q)
      → (attempt_fresh cluster fresh replicas w).0.denylist ≡ w.denylist
  unfolding attempt_fresh
  attempt_fresh-denylist fresh replicas w =
      ground (arith, update_scaling_item-denylist (record fresh { spec_replica = replicas }) w)

  after_refresh-denylist :
      (replicas : ℤ) (w : World Q) (answer : Result (ScalingInfo Q))
      → (after_refresh cluster replicas w answer).0.denylist ≡ w.denylist
  unfolding after_refresh
  after_refresh-denylist replicas w (err e) = refl
  after_refresh-denylist replicas w (ok fresh) = attempt_fresh-denylist fresh replicas w

  attempt-UniqueBy :
      (item : ScalingInfo Q) (replicas : ℤ) (w : World Q)
      → Unique w
      → UniqueBy (scaling_attempt cluster item replicas w)
  unfolding scaling_attempt
  attempt-UniqueBy item replicas w u =
      elim (get_refreshed_scaling_item cluster item w)
          as (λ o.
            KeptBy cluster w.changes o
            → UniqueBy (elim o [
              | none ↦ none
              | some (w', answer) ↦ some (after_refresh cluster replicas w' answer)
            ])) [
              | none ↦ λ k. tt
              | some (w', answer) ↦
                  λ k. subst UniqueItems (sym (after_refresh-denylist replicas w' answer)) k.0
            ]
        (get_refreshed-KeptBy cluster w.changes item w (u, refl))

  Retried-UniqueBy :
      (item : ScalingInfo Q) (replicas : ℤ) (w : World Q) (o : Option (World Q × Result (Unit {0})))
      → Retried (scaling_attempt cluster item replicas) w o
      → Unique w
      → UniqueBy o
  Retried-UniqueBy item replicas w _ (once items calm) u =
      attempt-UniqueBy item replicas (record w { denylist = items }) (calm u)
  Retried-UniqueBy item replicas w o (again {w1 = w1} items calm h more) u =
      Retried-UniqueBy item replicas w1 o more
        (subst UniqueBy h (attempt-UniqueBy item replicas (record w { denylist = items }) (calm u)))

module _ {Q : Type 0} (cluster : Cluster Q) (runtime : Runtime Q) where
  -- StepScale after a round.
  abbrev pub go_on : ℕ → ℤ → Round Q → Scaled cluster runtime
  go_on rounds initial (ends result) = result
  go_on rounds initial (steps step item w) = step_loop cluster runtime rounds initial step item w

  pub step_loop-suc :
      (rounds : ℕ) (initial step : ℤ) (item : ScalingInfo Q) (w : World Q)
      → step_loop cluster runtime (suc rounds) initial step item w
        ≡ go_on rounds initial (step_round cluster runtime initial step item w)
  unfolding step_loop
  step_loop-suc rounds initial step item w = ground arith

-- retry.RetryOnConflict makes attempts one after the other.
abbrev pub Retries : {Q : Type 0} → Runtime Q → Type 0
Retries {Q} runtime =
    (f : World Q → Option (World Q × Result (Unit {0}))) (w : World Q)
    → Retried f w (runtime.retry f w)

-- Other goroutines keep the keys of the deny list distinct.
abbrev pub IsCalm : {Q : Type 0} → Runtime Q → Type 0
IsCalm {Q} runtime =
    (n : ℕ) (items : List (ScalingInfo Q))
    → UniqueItems items
    → UniqueItems (runtime.others n items)

module _ {Q : Type 0} (cluster : Cluster Q) (runtime : Runtime Q) (retries : Retries runtime)
    (calm : IsCalm runtime) where
  pub do_scaling-UniqueBy :
      (item : ScalingInfo Q) (replicas : ℤ) (w : World Q)
      → Unique w
      → UniqueBy (do_scaling cluster runtime.retry item replicas w)
  unfolding do_scaling
  do_scaling-UniqueBy item replicas w u = elim (Bool-cases (left_to_autoscaler item replicas)) [
    | inl left ↦ rw left u
    | inr free ↦ rw free (
        Retried-UniqueBy cluster item replicas w _
          (retries (scaling_attempt cluster item replicas) w) u)
  ]
