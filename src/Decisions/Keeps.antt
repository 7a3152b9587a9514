-- ===== src/Decisions/Keeps.antt =====
-- What every round of MakeNamespacesScaleDecisions keeps holds of its result.
use mathlib.Core.Path.{subst}
use pre_scaling_operator.Common.{
  ℕ, suc, pos, Text, Map, insert, Bool, Option, none, some, List, [], ◌∷◌, Error, Result, ok, err,
  ◌≡◌, ◌⊎◌, inl, inr, refl,
}
use pre_scaling_operator.Global.{ScalingInfo, State}
use pre_scaling_operator.Api.{ClusterScalingState}
use pre_scaling_operator.ResourceMath.{Quantity}
use pre_scaling_operator.Resources.{determine_desired_replicas}
use pre_scaling_operator.States.{fetch_namespace_state, get_applied_states_on_items}
use pre_scaling_operator.Decisions.{
  OverallNsInfo, Tally, Surroundings, failed_entry, limit_namespaces, decide_checked,
}
use pre_scaling_operator.Decisions.Rounds.{
  check_namespace, decide_determined, decide_namespace, decide_namespaces, decide_with, overall,
  no_tally, make_namespaces_scale_decisions,
}

-- A rule for what every round keeps.
-- The group is the one that the map has for the namespace, in one of its entries.
abbrev pub IsEntry : {A : Type 0} → Text → A → Map A → Type 0
IsEntry namespace a [] = ⊥
IsEntry namespace a ((key, value) ∷ rest) =
    ((key ≡ namespace) × (value ≡ a)) ⊎ IsEntry namespace a rest

module _ (k : Quantity) (run : Surroundings k.Q) (definitions : List State)
    (css : List ClusterScalingState) (grouped0 : Map (List (ScalingInfo k.Q))) where
  open k use {Q}

  -- The workloads are those that DetermineDesiredReplicas picked of the namespace's group, by the
  -- states that apply to it.
  abbrev pub Picked : Text → State → List (ScalingInfo Q) → Type 0
  Picked namespace state picked =
      (group : List (ScalingInfo Q)) × (stored : List (ScalingInfo Q)) × IsEntry namespace group
        grouped0
      × (fetch_namespace_state run.client definitions namespace ≡ ok state)
      × (determine_desired_replicas (get_applied_states_on_items state css definitions group)
          ≡ some (stored, picked))

module _ (k : Quantity) (run : Surroundings k.Q) (definitions : List State)
    (css : List ClusterScalingState) (grouped0 : Map (List (ScalingInfo k.Q))) (dry_run : Bool)
    (Keeps : Tally k.Q → Type 0) where
  open k use {Q}

  abbrev pub KeepsIf : Option (Tally Q) → Type 0
  KeepsIf none = Unit
  KeepsIf (some tally) = Keeps tally

  -- What a round does to the deny list before it starts, a failed entry, and a checked namespace.
  abbrev pub RoundKeeps : Type 0
  RoundKeeps =
      ((round : ℕ) (tally : Tally Q)
        → Keeps tally
        → Keeps (record tally { denylist = run.others round tally.denylist }))
      × ((namespace : Text) (items : List (ScalingInfo Q)) (e : Error) (tally : Tally Q)
          → Keeps tally
          → Keeps (record tally {
            ns_info_map = insert namespace (failed_entry run items e) tally.ns_info_map;
          }))
      × ((round : ℕ) (namespace : Text) (items : List (ScalingInfo Q)) (state : State)
            (tally : Tally Q)
          → Picked k run definitions css grouped0 namespace state items
          → Keeps tally
          → Keeps (
              limit_namespaces run round (
                decide_checked run dry_run namespace items state
                  (check_namespace k run definitions css dry_run namespace items) tally)))

  module _ (keep : RoundKeeps) where
    decide_determined-keeps :
        (round : ℕ) (namespace : Text) (state : State) (items : List (ScalingInfo Q))
        (tally : Tally Q)
        → Picked k run definitions css grouped0 namespace state items
        → Keeps tally
        → Keeps (decide_determined k run definitions css dry_run round namespace state items tally)
    unfolding decide_determined
    decide_determined-keeps round namespace state [] tally picked h = h
    decide_determined-keeps round namespace state (item ∷ items) tally picked h =
        keep.2 round namespace (item ∷ items) state tally picked h

    decide_namespace-keeps :
        (round : ℕ) (namespace : Text) (items : List (ScalingInfo Q)) (state : Result State)
        (tally : Tally Q)
        → IsEntry namespace items grouped0
        → fetch_namespace_state run.client definitions namespace ≡ state
        → Keeps tally
        → KeepsIf (decide_namespace k run definitions css dry_run round namespace items state tally)
    unfolding decide_namespace
    decide_namespace-keeps round namespace items (err e) tally here read h =
        keep.1 namespace items e tally h
    decide_namespace-keeps round namespace items (ok state) tally here read h =
        let determined =
          determine_desired_replicas (get_applied_states_on_items state css definitions items) in
        elim determined
            as (λ o.
              determined ≡ o
              → KeepsIf (elim o [
                | none ↦ none
                | some (stored, picked) ↦ some (
                    decide_determined k run definitions css dry_run round namespace state picked
                      tally)
              ])) [
                | none ↦ λ e. tt
                | some (stored, picked) ↦ λ e.
                    decide_determined-keeps round namespace state picked tally
                      (items, stored, here, read, e) h
              ]
          refl

    pub decide_namespaces-keeps :
        (round : ℕ) (grouped : Map (List (ScalingInfo Q))) (tally : Tally Q)
        → ((namespace : Text) (items : List (ScalingInfo Q))
            → IsEntry namespace items grouped
            → IsEntry namespace items grouped0)
        → Keeps tally
        → KeepsIf (decide_namespaces k run definitions css dry_run round grouped tally)
    unfolding decide_namespaces
    decide_namespaces-keeps round [] tally part h = h
    decide_namespaces-keeps round ((namespace, items) ∷ rest) tally part h =
        let slept = record tally { denylist = run.others round tally.denylist } in
        elim (decide_namespace k run definitions css dry_run round namespace items
              (fetch_namespace_state run.client definitions namespace) slept)
            as (λ o.
              KeepsIf o
              → KeepsIf (elim o [
                | none ↦ none
                | some tally' ↦
                    decide_namespaces k run definitions css dry_run (suc round) rest tally'
              ])) [
                | none ↦ λ w. tt
                | some tally' ↦ λ w.
                    decide_namespaces-keeps (suc round) rest tally'
                      (λ namespace' items' there. part namespace' items' (inr there)) w
              ]
          (decide_namespace-keeps round namespace items _ slept
            (part namespace items (inl (refl, refl))) refl (keep.0 round tally h))

abbrev pub info_of : {Q : Type 0} → Tally Q → OverallNsInfo Q
info_of tally = record {
  ns_scale_info = tally.ns_info_map;
  number_of_ns_being_scaled = pos tally.being_scaled;
  number_of_ns_to_scale = pos tally.to_scale;
}

module _ (k : Quantity) (run : Surroundings k.Q) (Keeps : Tally k.Q → Type 0) where
  open k use {Q}

  -- The result is that of a tally that has what the rounds keep.
  abbrev pub From : List (ScalingInfo Q) → OverallNsInfo Q → Type 0
  From denylist info =
      (tally : Tally Q) × Keeps tally × (denylist ≡ tally.denylist) × (info ≡ info_of tally)

  abbrev FromIf : Option (List (ScalingInfo Q) × Result (OverallNsInfo Q)) → Type 0
  FromIf none = Unit
  FromIf (some (denylist, err e)) = Unit
  FromIf (some (denylist, ok info)) = From denylist info

  module _ (definitions : List State) (dry_run : Bool) (grouped : Map (List (ScalingInfo k.Q)))
      (keep : (css : List ClusterScalingState)
        → run.client.cluster_scaling_states ≡ ok css
        → RoundKeeps k run definitions css grouped dry_run Keeps) where
    decide_with-FromIf :
        (denylist : List (ScalingInfo Q)) (css : Result (List ClusterScalingState))
        → run.client.cluster_scaling_states ≡ css
        → Keeps (no_tally denylist)
        → FromIf (decide_with k run grouped definitions dry_run denylist css)
    unfolding decide_with
    decide_with-FromIf denylist (err e) read h = tt
    decide_with-FromIf denylist (ok css) read h =
        elim (decide_namespaces k run definitions css dry_run 0 grouped (no_tally denylist))
            as (λ o.
              KeepsIf k run definitions css grouped dry_run Keeps o
              → FromIf (elim o [ none ↦ none | some tally ↦ some (overall tally) ])) [
                | none ↦ λ w. tt
                | some tally ↦ λ w. (tally, w, refl, refl)
              ]
          (decide_namespaces-keeps k run definitions css grouped dry_run Keeps (keep css read) 0
            grouped (no_tally denylist) (λ namespace items there. there) h)

    pub decisions_keep :
        (denylist denylist' : List (ScalingInfo Q)) (info : OverallNsInfo Q)
        → Keeps (no_tally denylist)
        → make_namespaces_scale_decisions k run grouped definitions dry_run denylist
          ≡ some (denylist', ok info)
        → From denylist' info
    unfolding make_namespaces_scale_decisions
    decisions_keep denylist denylist' info h e =
        subst FromIf e (decide_with-FromIf denylist run.client.cluster_scaling_states refl h)

module _ (k : Quantity) (run : Surroundings k.Q) where
  open k use {Q}

  abbrev ErrKeeps :
      List (ScalingInfo Q) → Option (List (ScalingInfo Q) × Result (OverallNsInfo Q)) → Type 0
  ErrKeeps denylist none = Unit
  ErrKeeps denylist (some (denylist', err e)) = denylist' ≡ denylist
  ErrKeeps denylist (some (denylist', ok info)) = Unit

  decide_with-ErrKeeps :
      (grouped : Map (List (ScalingInfo Q))) (definitions : List State) (dry_run : Bool)
      (denylist : List (ScalingInfo Q)) (css : Result (List ClusterScalingState))
      → ErrKeeps denylist (decide_with k run grouped definitions dry_run denylist css)
  unfolding decide_with
  decide_with-ErrKeeps grouped definitions dry_run denylist (err e) = refl
  decide_with-ErrKeeps grouped definitions dry_run denylist (ok css) =
      elim (decide_namespaces k run definitions css dry_run 0 grouped (no_tally denylist))
        as (λ o. ErrKeeps denylist (elim o [ none ↦ none | some tally ↦ some (overall tally) ])) [
          | none ↦ tt
          | some tally ↦ tt
        ]

  -- With an error nothing was decided.
  pub decisions_err :
      (grouped : Map (List (ScalingInfo Q))) (definitions : List State) (dry_run : Bool)
      (denylist denylist' : List (ScalingInfo Q)) (e : Error)
      → make_namespaces_scale_decisions k run grouped definitions dry_run denylist
        ≡ some (denylist', err e)
      → denylist' ≡ denylist
  unfolding make_namespaces_scale_decisions
  decisions_err grouped definitions dry_run denylist denylist' e h =
      subst (ErrKeeps denylist) h (
        decide_with-ErrKeeps grouped definitions dry_run denylist run.client.cluster_scaling_states)
