-- ===== src/Scaler/Attempts.antt =====
-- One attempt of DoScaling, whatever the cluster answers.
use mathlib.Core.Path.{subst}
use pre_scaling_operator.Common.{
  ℤ, true, false, Option, none, some, ◌∷◌, Result, ok, err, ◌≡◌, ◌⊎◌, inl, inr, refl, arith, ap,
  sym, ◌∙◌, Bool-cases, Option-cases,
}
use pre_scaling_operator.Global.{ScalingInfo}
use pre_scaling_operator.Global.Denylist.{get_deployment_info}
use pre_scaling_operator.Validations.{optin_label_exists}
use pre_scaling_operator.Scaler.{
  Cluster, Change, World, ItemType, item_type, get_refreshed_scaling_item, update_scaling_item,
  update_by_type, after_get, opted_in, attempt_fresh, after_refresh, scaling_attempt, sent, asked,
  after_read, read_item,
}

abbrev pub Failed : Result (Unit {0}) → Type 0
Failed (ok _) = ⊥
Failed (err e) = Unit

module _ {Q : Type 0} (cluster : Cluster Q) where
  abbrev pub change_of : ScalingInfo Q → Change
  change_of item = record {
    item_type_name = item.item_type_name;
    name = item.name;
    namespace = item.namespace;
    replicas = item.spec_replica;
  }

  -- An attempt that changes nothing fails; one that sends the item's replicas ends as the cluster
  -- answers.
  abbrev Outcome : ScalingInfo Q → World Q → World Q × Result (Unit {0}) → Type 0
  Outcome item w (w', r) =
      ((w'.changes ≡ w.changes) × Failed r) ⊎ (w'.changes ≡ change_of item ∷ w.changes)

  after_get_lem :
      {A : Type 0} (item : ScalingInfo Q) (w : World Q) (answer : Result A)
      → Outcome item w (after_get cluster item w answer)
  unfolding after_get sent
  after_get_lem item w (ok a) = inr refl
  after_get_lem item w (err e) = inl (refl, tt)

  update_by_type_lem :
      (type : ItemType) (item : ScalingInfo Q) (w : World Q)
      → Outcome item w (update_by_type cluster type item w)
  unfolding update_by_type
  update_by_type_lem ItemType.a_deployment_config item w = after_get_lem item _ _
  update_by_type_lem ItemType.a_deployment item w = after_get_lem item _ _
  update_by_type_lem ItemType.a_redis_cluster item w = after_get_lem item _ _
  update_by_type_lem ItemType.unknown item w = inl (refl, tt)

  update_scaling_item_lem :
      (item : ScalingInfo Q) (w : World Q) → Outcome item w (update_scaling_item cluster item w)
  unfolding update_scaling_item
  update_scaling_item_lem item w = update_by_type_lem (item_type item.item_type_name) item w

  -- A change with the replicas was sent for a workload that, as the cluster showed it just before,
  -- was opted in and not in failure.
  abbrev pub Sent : ScalingInfo Q → ℤ → World Q → World Q → Type 0
  Sent item replicas w w' =
      (fresh : ScalingInfo Q) × (mid : World Q) × (get_refreshed_scaling_item cluster item w
        ≡ some (mid, ok fresh))
      × (fresh.failure ≡ false)
      × (opted_in (optin_label_exists fresh.labels) ≡ true)
      × (w'.changes ≡ change_of (record fresh { spec_replica = replicas }) ∷ w.changes)

  attempt_fresh-sends :
      (fresh : ScalingInfo Q) (replicas : ℤ) (w : World Q)
      → fresh.failure ≡ false
      → opted_in (optin_label_exists fresh.labels) ≡ true
      → attempt_fresh cluster fresh replicas w
        ≡ update_scaling_item cluster (record fresh { spec_replica = replicas }) w
  unfolding attempt_fresh
  attempt_fresh-sends fresh replicas w healthy joined = rw (healthy, joined)

  abbrev SentNow : ScalingInfo Q → ℤ → World Q → World Q × Result (Unit {0}) → Type 0
  SentNow fresh replicas w (w', r) =
      ((w'.changes ≡ w.changes) × Failed r)
      ⊎ ((fresh.failure ≡ false)
          × (opted_in (optin_label_exists fresh.labels) ≡ true)
          × (w'.changes ≡ change_of (record fresh { spec_replica = replicas }) ∷ w.changes))

  attempt_fresh_lem :
      (fresh : ScalingInfo Q) (replicas : ℤ) (w : World Q)
      → SentNow fresh replicas w (attempt_fresh cluster fresh replicas w)
  unfolding attempt_fresh
  attempt_fresh_lem fresh replicas w = elim (Bool-cases fresh.failure) [
    | inl failed ↦ rw failed (inl (refl, tt))
    | inr healthy ↦ elim (Bool-cases (opted_in (optin_label_exists fresh.labels))) [
      | inr out ↦ rw (healthy, out) (inl (refl, tt))
      | inl joined ↦
          subst (SentNow fresh replicas w)
            (sym (attempt_fresh-sends fresh replicas w healthy joined))
            (elim (update_scaling_item_lem (record fresh { spec_replica = replicas }) w) [
              | inl quiet ↦ inl quiet
              | inr change ↦ inr (healthy, joined, change)
            ])
    ]
  ]

  -- The world after a refresh, where it comes to one, has the changes of before.
  abbrev Quiet : World Q → Option (World Q × Result (ScalingInfo Q)) → Type 0
  Quiet w none = Unit
  Quiet w (some (mid, answer)) = mid.changes ≡ w.changes

  asked-changes : (type : ItemType) (w : World Q) → (asked cluster type w).changes ≡ w.changes
  unfolding asked
  asked-changes type w = ground arith

  after_read-changes :
      (known : ScalingInfo Q) (w : World Q) (answer : Result (ScalingInfo Q))
      → (after_read cluster known w answer).0.changes ≡ w.changes
  unfolding after_read
  after_read-changes known w (ok fresh) = refl
  after_read-changes known w (err e) = refl

  get_refreshed-Quiet :
      (item : ScalingInfo Q) (w : World Q) → Quiet w (get_refreshed_scaling_item cluster item w)
  unfolding get_refreshed_scaling_item
  get_refreshed-Quiet item w =
      let known = (get_deployment_info item w.denylist).0 in
      let type = item_type known.item_type_name in
      elim (read_item cluster type w.calls known.name known.namespace)
        as (λ o. Quiet w (elim o [
          | none ↦ none
          | some answer ↦ some (after_read cluster known (asked cluster type w) answer)
        ])) [
          | none ↦ tt
          | some answer ↦
              after_read-changes known (asked cluster type w) answer ∙ asked-changes type w
        ]

  -- An attempt either fails without a change, or sends one.
  abbrev pub Attempted : ScalingInfo Q → ℤ → World Q → World Q × Result (Unit {0}) → Type 0
  Attempted item replicas w (w', r) =
      ((w'.changes ≡ w.changes) × Failed r) ⊎ Sent item replicas w w'

  abbrev AttemptedIf : ScalingInfo Q → ℤ → World Q → Option (World Q × Result (Unit {0})) → Type 0
  AttemptedIf item replicas w none = Unit
  AttemptedIf item replicas w (some o) = Attempted item replicas w o

  after_refresh_lem :
      (item : ScalingInfo Q) (replicas : ℤ) (w mid : World Q) (answer : Result (ScalingInfo Q))
      → get_refreshed_scaling_item cluster item w ≡ some (mid, answer)
      → mid.changes ≡ w.changes
      → Attempted item replicas w (after_refresh cluster replicas mid answer)
  unfolding after_refresh
  after_refresh_lem item replicas w mid (err e) g q = inl (q, tt)
  after_refresh_lem item replicas w mid (ok fresh) g q =
      elim (attempt_fresh_lem fresh replicas mid) [
        | inl (quiet, failed) ↦ inl (quiet ∙ q, failed)
        | inr (healthy, joined, change) ↦ inr (
          fresh,
          mid,
          g,
          healthy,
          joined,
          change ∙ ap (◌∷◌ (change_of (record fresh { spec_replica = replicas }))) q,
        )
      ]

  scaling_attempt-read :
      (item : ScalingInfo Q) (replicas : ℤ) (w : World Q)
      (answer : Option (World Q × Result (ScalingInfo Q)))
      → get_refreshed_scaling_item cluster item w ≡ answer
      → scaling_attempt cluster item replicas w
        ≡ elim answer [ none ↦ none | some (mid, a) ↦ some (after_refresh cluster replicas mid a) ]
  unfolding scaling_attempt
  scaling_attempt-read item replicas w answer e = rw (e, scaling_attempt)

  attempted :
      (item : ScalingInfo Q) (replicas : ℤ) (w : World Q)
      → AttemptedIf item replicas w (scaling_attempt cluster item replicas w)
  attempted item replicas w = elim (Option-cases (get_refreshed_scaling_item cluster item w)) [
    | inl e ↦
        subst (AttemptedIf item replicas w) (sym (scaling_attempt-read item replicas w none e)) tt
    | inr ((mid, answer), e) ↦
        let q : mid.changes ≡ w.changes = subst (Quiet w) e (get_refreshed-Quiet item w) in
        subst (AttemptedIf item replicas w)
          (sym (scaling_attempt-read item replicas w (some (mid, answer)) e))
          (after_refresh_lem item replicas w mid answer e q)
  ]

  -- An attempt that does not panic either fails and changes nothing, or sends one change, with the
  -- replicas, for a workload that the cluster just showed opted in and not in failure.
  pub scaling_attempt_lem :
      (item : ScalingInfo Q) (replicas : ℤ) (w : World Q) (o : World Q × Result (Unit {0}))
      → scaling_attempt cluster item replicas w ≡ some o
      → Attempted item replicas w o
  scaling_attempt_lem item replicas w o e =
      subst (AttemptedIf item replicas w) e (attempted item replicas w)
