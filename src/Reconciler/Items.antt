-- ===== src/Reconciler/Items.antt =====
-- What ReconcileScalingItem has checked when it starts a scaling.
use pre_scaling_operator.Common.{
  negsuc, eqb_ℤ, true, false, not, ◌&&◌, Option, none, some, List, [], ◌∷◌, Error, Result, ok, err,
  ◌≡◌, refl, Bool-cases, Option-cases, inl, inr, subst, sym, ap, ◌∙◌,
}
use pre_scaling_operator.Api.{ClusterScalingState}
use pre_scaling_operator.Global.{ScalingInfo, State}
use pre_scaling_operator.Global.Denylist.{get_deployment_info, set_scaling_item}
use pre_scaling_operator.Global.Registry.{UniqueItems, update_or_append-UniqueItems}
use pre_scaling_operator.ResourceMath.{Quantity}
use pre_scaling_operator.Quotas.{ResourceQuota}
use pre_scaling_operator.Resources.{determine_desired_replicas}
use pre_scaling_operator.States.{
  Client, get_applied_states_on_items, get_cluster_scaling_states, fetch_namespace_state,
}
use pre_scaling_operator.Reconciler.{
  Outcome, redirect, start_or_redirect, after_check, check_of, decide_item, decide_first,
  reconcile_known, reconcile_defined, reconcile_scaling_item,
}

-- The desired replicas of the workload were determined, by the states that apply to it, as the second
-- item has them.
abbrev pub Determines : {Q : Type 0} → Client → ScalingInfo Q → ScalingInfo Q → Type 0
Determines {Q} client item determined =
    (definitions : List State) × (state : State) × (css : List ClusterScalingState) × (stored : List
      (ScalingInfo Q))
    × (rest : List (ScalingInfo Q)) × (get_cluster_scaling_states client ≡ ok definitions)
    × (fetch_namespace_state client definitions item.namespace ≡ ok state)
    × (client.cluster_scaling_states ≡ ok css)
    × (determine_desired_replicas (get_applied_states_on_items state css definitions (item ∷ []))
        ≡ some (stored, determined ∷ rest))

module _ (k : Quantity) (client_set : Result (Unit {0}))
    (listed : Result (List (ResourceQuota k.Q))) (denylist : List (ScalingInfo k.Q)) where
  open k use {Q}

  -- The scaling was determined, it changes something, and the quotas allow it; what is scaled is the
  -- workload's failed entry on the deny list, or else the workload as it was determined.
  abbrev pub Checked : ScalingInfo Q → ScalingInfo Q → Type 0
  Checked item scaled =
      (eqb_ℤ item.desired_replicas (negsuc 0) ≡ false)
      × ((eqb_ℤ item.ready_replicas item.desired_replicas
            && eqb_ℤ item.spec_replica item.desired_replicas)
          ≡ false)
      × ((check_of k client_set listed item).allowed ≡ true)
      × ((check_of k client_set listed item).error ≡ none)
      × (scaled ≡ (get_deployment_info item denylist).0)
      × (((get_deployment_info item denylist).1 && not scaled.failure) ≡ false)

  abbrev Justified : (ScalingInfo Q → Type 0) → List (ScalingInfo Q) × Outcome Q → Type 0
  Justified P (d, Outcome.returned e) = UniqueItems denylist → UniqueItems d
  Justified P (d, Outcome.scales scaled) =
      (d ≡ denylist) × ((item : ScalingInfo Q) × P item × Checked item scaled)

  abbrev JustifiedIf : (ScalingInfo Q → Type 0) → Option (List (ScalingInfo Q) × Outcome Q) → Type 0
  JustifiedIf P none = Unit
  JustifiedIf P (some o) = Justified P o

  redirect-UniqueItems :
      (fresh item : ScalingInfo Q)
      → UniqueItems denylist
      → UniqueItems (redirect fresh item denylist)
  unfolding redirect set_scaling_item
  redirect-UniqueItems fresh item u =
      elim (Bool-cases (not (eqb_ℤ fresh.desired_replicas item.desired_replicas))) [
        | inl other ↦ rw other (update_or_append-UniqueItems _ denylist u)
        | inr same ↦ rw same u
      ]

  start-Justified :
      (P : ScalingInfo Q → Type 0) (item : ScalingInfo Q)
      → P item
      → eqb_ℤ item.desired_replicas (negsuc 0) ≡ false
      → (eqb_ℤ item.ready_replicas item.desired_replicas
          && eqb_ℤ item.spec_replica item.desired_replicas)
        ≡ false
      → (check_of k client_set listed item).allowed ≡ true
      → (check_of k client_set listed item).error ≡ none
      → Justified P (start_or_redirect item denylist)
  unfolding start_or_redirect
  start-Justified P item given known moves allowed fine =
      let (new, is_nil) = get_deployment_info item denylist in
      elim (Bool-cases (is_nil && not new.failure)) [
        | inl running ↦ rw running (redirect-UniqueItems new item)
        | inr free ↦ rw free (refl, (item, given, (known, moves, allowed, fine, refl, free)))
      ]

  check-Justified :
      (P : ScalingInfo Q → Type 0) (item : ScalingInfo Q)
      → P item
      → eqb_ℤ item.desired_replicas (negsuc 0) ≡ false
      → (eqb_ℤ item.ready_replicas item.desired_replicas
          && eqb_ℤ item.spec_replica item.desired_replicas)
        ≡ false
      → Justified P (after_check item denylist (check_of k client_set listed item))
  unfolding after_check
  check-Justified P item given known moves =
      let check = check_of k client_set listed item in
      elim (Option-cases check.error) [
        | inr (e, failed) ↦ rw failed (λ u. u)
        | inl fine ↦ elim (Bool-cases check.allowed) [
          | inr denied ↦ rw (fine, denied) (λ u. u)
          | inl allowed ↦ rw (fine, allowed) (start-Justified P item given known moves allowed fine)
        ]
      ]

  decide_item-Justified :
      (P : ScalingInfo Q → Type 0) (item : ScalingInfo Q)
      → P item
      → Justified P (decide_item k client_set listed denylist item)
  unfolding decide_item
  decide_item-Justified P item given = elim (Bool-cases (eqb_ℤ item.desired_replicas (negsuc 0))) [
    | inl unknown ↦ rw unknown (λ u. u)
    | inr known ↦
        elim (Bool-cases (
          eqb_ℤ item.ready_replicas item.desired_replicas
          && eqb_ℤ item.spec_replica item.desired_replicas)) [
            | inl done ↦ rw (known, done) (λ u. u)
            | inr moves ↦ rw (known, moves) (check-Justified P item given known moves)
          ]
  ]

  decide_first-Justified :
      (P : ScalingInfo Q → Type 0) (items : List (ScalingInfo Q))
      → ((item : ScalingInfo Q) (rest : List (ScalingInfo Q)) → items ≡ item ∷ rest → P item)
      → Justified P (decide_first k client_set listed denylist items)
  unfolding decide_first
  decide_first-Justified P [] given = λ u. u
  decide_first-Justified P (item ∷ items) given =
      decide_item-Justified P item (given item items refl)

  known-read :
      (item : ScalingInfo Q) (definitions : List State) (state : State)
      (css : List ClusterScalingState) (o : Option (List (ScalingInfo Q) × List (ScalingInfo Q)))
      → determine_desired_replicas (get_applied_states_on_items state css definitions (item ∷ []))
        ≡ o
      → reconcile_known k client_set listed item denylist definitions (ok state) (ok css) ≡ elim o [
        | none ↦ none
        | some (items, picked) ↦ some (decide_first k client_set listed denylist picked)
      ]
  unfolding reconcile_known
  known-read item definitions state css o e = rw (e, reconcile_known)

  known-Justified :
      (P : ScalingInfo Q → Type 0) (item : ScalingInfo Q) (definitions : List State)
      (state : Result State) (css : Result (List ClusterScalingState))
      → ((known : State) (states : List ClusterScalingState) (stored : List (ScalingInfo Q))
            (determined : ScalingInfo Q) (rest : List (ScalingInfo Q))
          → state ≡ ok known
          → css ≡ ok states
          → determine_desired_replicas
              (get_applied_states_on_items known states definitions (item ∷ []))
            ≡ some (stored, determined ∷ rest)
          → P determined)
      → JustifiedIf P (reconcile_known k client_set listed item denylist definitions state css)
  unfolding reconcile_known
  known-Justified P item definitions (err e) css given = λ u. u
  known-Justified P item definitions (ok state) (err e) given = λ u. u
  known-Justified P item definitions (ok state) (ok css) given =
      elim (Option-cases (
        determine_desired_replicas
          (get_applied_states_on_items state css definitions (item ∷ [])))) [
            | inl panics ↦
                subst (JustifiedIf P) (sym (known-read item definitions state css none panics)) tt
            | inr ((items, picked), e) ↦
                subst (JustifiedIf P)
                  (sym (known-read item definitions state css (some (items, picked)) e))
                  (decide_first-Justified P picked (λ determined rest same.
                    given state css items determined rest refl refl
                      (e ∙ ap (λ chosen. some (items, chosen)) same)))
          ]

  defined-Justified :
      (client : Client) (item : ScalingInfo Q) (definitions : Result (List State))
      → get_cluster_scaling_states client ≡ definitions
      → JustifiedIf
          (Determines client item)
          (reconcile_defined k client client_set listed item denylist definitions)
  unfolding reconcile_defined
  defined-Justified client item (err e) read = λ u. u
  defined-Justified client item (ok definitions) read =
      known-Justified (Determines client item) item definitions
        (fetch_namespace_state client definitions item.namespace) client.cluster_scaling_states
        (λ state css stored determined rest known states found.
          (definitions, state, css, stored, rest, read, known, states, found))

  -- Where ReconcileScalingItem goes on to start a scaling, the deny list is as it was, the desired
  -- replicas were determined, the workload does not have them all yet, the quota check of its
  -- namespace allowed the scaling without an error, and the workload was not on the deny list, or
  -- was there in failure.
  pub reconcile_scaling_item_lem :
      (client : Client) (item scaled : ScalingInfo Q) (d : List (ScalingInfo Q))
      → reconcile_scaling_item k client client_set listed item denylist
        ≡ some (d, Outcome.scales scaled)
      → (d ≡ denylist)
        × ((determined : ScalingInfo Q) × Determines client item determined
            × Checked determined scaled)
  unfolding reconcile_scaling_item
  reconcile_scaling_item_lem client item scaled d e =
      subst (JustifiedIf (Determines client item)) e
        (defined-Justified client item (get_cluster_scaling_states client) refl)

  -- Where ReconcileScalingItem returns without starting a scaling, it keeps the keys of the deny list
  -- distinct.
  pub reconcile_scaling_item-UniqueItems :
      (client : Client) (item : ScalingInfo Q) (d : List (ScalingInfo Q)) (e : Option Error)
      → UniqueItems denylist
      → reconcile_scaling_item k client client_set listed item denylist
        ≡ some (d, Outcome.returned e)
      → UniqueItems d
  unfolding reconcile_scaling_item
  reconcile_scaling_item-UniqueItems client item d e u h =
      subst (JustifiedIf (Determines client item)) h
        (defined-Justified client item (get_cluster_scaling_states client) refl) u
