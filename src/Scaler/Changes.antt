-- ===== src/Scaler/Changes.antt =====
-- What DoScaling changes on the cluster, whatever the cluster answers and however often it is tried.
use mathlib.Core.List.{append_assoc}
use pre_scaling_operator.Common.{
  ℤ, true, Option, none, some, List, [], ◌∷◌, ◌++◌, if◌then◌else◌, Error, Result, ok, err, ◌≡◌, ◌⊎◌,
  inl, inr, refl, ap, sym, ◌∙◌, Bool-cases,
}
use pre_scaling_operator.Global.{ScalingInfo}
use pre_scaling_operator.Global.Registry.{UniqueItems}
use pre_scaling_operator.Scaler.{
  Cluster, Change, World, scaling_attempt, left_to_autoscaler, do_scaling,
}
use mathlib.Core.Path.{subst}
use pre_scaling_operator.Scaler.Named.{IsNamed, ReadsSame, get_refreshed-ReadsSame}
use pre_scaling_operator.Scaler.Attempts.{Failed, change_of, Sent, Attempted, scaling_attempt_lem}

-- Attempts one after the other, each but the last ending in an error. Each comes after a pause, of the
-- back-off and of the second that an attempt sleeps first, in which other goroutines may change the
-- deny list and keep its keys distinct.
pub data Retried {Q : Type 0} (f : World Q → Option (World Q × Result (Unit {0})))
    : World Q → Option (World Q × Result (Unit {0})) → Type 0 where
  once :
      {w : World Q} (items : List (ScalingInfo Q))
      → (UniqueItems w.denylist → UniqueItems items)
      → Retried f w (f (record w { denylist = items }))
  again :
      {w w1 : World Q} {e : Error} {o : Option (World Q × Result (Unit {0}))}
      (items : List (ScalingInfo Q))
      → (UniqueItems w.denylist → UniqueItems items)
      → f (record w { denylist = items }) ≡ some (w1, err e)
      → Retried f w1 o
      → Retried f w o

-- The changes are of the workload, to the replicas.
abbrev pub AllCarry : {Q : Type 0} → ScalingInfo Q → ℤ → List Change → Type 0
AllCarry item replicas [] = Unit
AllCarry item replicas (change ∷ changes) =
    ((change.name ≡ item.name) × (change.namespace ≡ item.namespace) × (change.replicas ≡ replicas))
    × AllCarry item replicas changes

abbrev pub HasSome : List Change → Type 0
HasSome [] = ⊥
HasSome (change ∷ changes) = Unit

-- Without an error some change was sent.
abbrev pub Delivers : Result (Unit {0}) → List Change → Type 0
Delivers (ok _) new = HasSome new
Delivers (err e) new = Unit

Failed-Delivers : (r : Result (Unit {0})) → Failed r → Delivers r []
Failed-Delivers (ok _) failed = failed
Failed-Delivers (err e) failed = tt

Delivers-cons : (r : Result (Unit {0})) (c : Change) (cs : List Change) → Delivers r (c ∷ cs)
Delivers-cons (ok _) c cs = tt
Delivers-cons (err e) c cs = tt

Delivers-append :
    (r : Result (Unit {0})) (new old : List Change) → Delivers r new → Delivers r (new ++ old)
Delivers-append (ok _) [] old some_sent = absurd some_sent
Delivers-append (ok _) (c ∷ cs) old some_sent = tt
Delivers-append (err e) new old d = tt

module _ {Q : Type 0} (cluster : Cluster Q) (item : ScalingInfo Q) (replicas : ℤ) where
  -- The changes that were sent since, all of them of the workload to the replicas, and some if there
  -- is no error.
  abbrev pub Carries : World Q → World Q → Result (Unit {0}) → Type 0
  Carries w w' r =
      (new : List Change) × (w'.changes ≡ new ++ w.changes)
      × AllCarry item replicas new
      × Delivers r new

  -- The last attempt sent a change.
  abbrev pub SentLast : World Q → Type 0
  SentLast w' = (before : World Q) × Sent cluster item replicas before w'

  attempt_Carries :
      IsNamed cluster
      → (w w' : World Q) (r : Result (Unit {0})) → Attempted cluster item replicas w (w', r)
      → Carries w w' r
  attempt_Carries named w w' r (inl (quiet, failed)) = ([], quiet, tt, Failed-Delivers r failed)
  attempt_Carries named w w' r (inr (fresh, mid, g, healthy, joined, change)) =
      let c = change_of cluster (record fresh { spec_replica = replicas }) in
      let (n, s) =
        subst (ReadsSame cluster named item) g (get_refreshed-ReadsSame cluster named item w) in
      (c ∷ [], change, ((n, s, refl), tt), Delivers-cons r c [])

  attempt_sent : (w w' : World Q) → Attempted cluster item replicas w (w', ok tt) → SentLast w'
  attempt_sent w w' (inl (quiet, failed)) = absurd failed
  attempt_sent w w' (inr s) = (w, s)

  Carries-after :
      (w w1 w' : World Q) (r r' : Result (Unit {0}))
      → Carries w w1 r
      → Carries w1 w' r'
      → Carries w w' r'
  Carries-after w w1 w' r r' (old, e, all, d) (new, f, all', d') = (
    new ++ old,
    f ∙ ap (λ cs. new ++ cs) e ∙ sym (append_assoc new old w.changes),
    AllCarry-append new all',
    Delivers-append r' new old d',
  )
    where
      AllCarry-append :
          (cs : List Change) → AllCarry item replicas cs → AllCarry item replicas (cs ++ old)
      AllCarry-append [] a = all
      AllCarry-append (c ∷ cs) a = (a.0, AllCarry-append cs a.1)

  Retried-Carries :
      IsNamed cluster
      → (w w' : World Q) (r : Result (Unit {0})) (o : Option (World Q × Result (Unit {0})))
      → Retried (scaling_attempt cluster item replicas) w o
      → o ≡ some (w', r)
      → Carries w w' r
  Retried-Carries named w w' r _ (once items calm) e =
      let paused = record w { denylist = items } in
      attempt_Carries named paused w' r (scaling_attempt_lem cluster item replicas paused (w', r) e)
  Retried-Carries named w w' r o (again {w1 = w1} {e = f} items calm h more) e =
      let paused = record w { denylist = items } in
      Carries-after w w1 w' (err f) r
        (attempt_Carries named paused w1 (err f)
          (scaling_attempt_lem cluster item replicas paused (w1, err f) h))
        (Retried-Carries named w1 w' r o more e)

  Retried-sent :
      (w w' : World Q) (o : Option (World Q × Result (Unit {0})))
      → Retried (scaling_attempt cluster item replicas) w o
      → o ≡ some (w', ok tt)
      → SentLast w'
  Retried-sent w w' _ (once items calm) e =
      let paused = record w { denylist = items } in
      attempt_sent paused w' (scaling_attempt_lem cluster item replicas paused (w', ok tt) e)
  Retried-sent w w' o (again {w1 = w1} items calm h more) e = Retried-sent w1 w' o more e

  do_scaling-guarded :
      (retry : (World Q → Option (World Q × Result (Unit {0})))
        → World Q
        → Option (World Q × Result (Unit {0})))
      (w : World Q)
      → do_scaling cluster retry item replicas w ≡ (
          if left_to_autoscaler item replicas
          then some (w, ok tt)
          else retry (scaling_attempt cluster item replicas) w)
  unfolding do_scaling
  do_scaling-guarded retry w = refl

  world_or : World Q → Option (World Q × Result (Unit {0})) → World Q
  world_or w none = w
  world_or w (some (w', r)) = w'

  some_world :
      (w w' : World Q) (r r' : Result (Unit {0}))
      → ◌≡◌ {A = Option (World Q × Result (Unit {0}))} (some (w, r)) (some (w', r'))
      → w' ≡ w
  unfolding world_or
  some_world w w' r r' e = sym (ap (world_or w) e)

  left_world :
      (w w' : World Q) (r : Result (Unit {0}))
      → left_to_autoscaler item replicas ≡ true
      → (retry : (World Q → Option (World Q × Result (Unit {0})))
          → World Q
          → Option (World Q × Result (Unit {0})))
      → do_scaling cluster retry item replicas w ≡ some (w', r)
      → w' ≡ w
  left_world w w' r left retry e =
      some_world w w' (ok tt) r (sym (do_scaling-guarded retry w ∙ rw left) ∙ e)

  -- Where RetryOnConflict makes attempts one after the other and the client answers with the objects
  -- it is asked for, every change that DoScaling sends is of the workload and carries the replicas, and without an error some was sent, unless the workload is
  -- left to the autoscaler.
  pub do_scaling-Carries :
      (named : IsNamed cluster)
      (retry : (World Q → Option (World Q × Result (Unit {0})))
        → World Q
        → Option (World Q × Result (Unit {0})))
      (w w' : World Q) (r : Result (Unit {0}))
      → ((f : World Q → Option (World Q × Result (Unit {0}))) (v : World Q)
          → Retried f v (retry f v))
      → do_scaling cluster retry item replicas w ≡ some (w', r)
      → (new : List Change) × (w'.changes ≡ new ++ w.changes)
        × AllCarry item replicas new
        × ((left_to_autoscaler item replicas ≡ true) ⊎ Delivers r new)
  do_scaling-Carries named retry w w' r retries e =
      elim (Bool-cases (left_to_autoscaler item replicas)) [
        | inl left ↦ ([], ap (λ v. v.changes) (left_world w w' r left retry e), tt, inl left)
        | inr free ↦
            let (new, grown, all, delivers) =
              Retried-Carries named w w' r _ (retries (scaling_attempt cluster item replicas) w)
                (sym (do_scaling-guarded retry w ∙ rw free) ∙ e) in
            (new, grown, all, inr delivers)
      ]

  -- Where RetryOnConflict makes attempts one after the other, with pauses in which other goroutines may
  -- change the deny list and keep its keys distinct, DoScaling succeeds only where the
  -- workload is left to the autoscaler, and then nothing changes, or where its last attempt sent the
  -- change for a workload that the cluster showed opted in and not in failure.
  pub do_scaling-sent :
      (retry : (World Q → Option (World Q × Result (Unit {0})))
        → World Q
        → Option (World Q × Result (Unit {0})))
      (w w' : World Q)
      → ((f : World Q → Option (World Q × Result (Unit {0}))) (v : World Q)
          → Retried f v (retry f v))
      → do_scaling cluster retry item replicas w ≡ some (w', ok tt)
      → ((left_to_autoscaler item replicas ≡ true) × (w' ≡ w)) ⊎ SentLast w'
  do_scaling-sent retry w w' retries e = elim (Bool-cases (left_to_autoscaler item replicas)) [
    | inl left ↦ inl (left, left_world w w' (ok tt) left retry e)
    | inr free ↦ inr (
        Retried-sent w w' _ (retries (scaling_attempt cluster item replicas) w)
          (sym (do_scaling-guarded retry w ∙ rw free) ∙ e))
  ]
