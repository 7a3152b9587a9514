-- ===== src/Decisions/Overcounted.antt =====
-- NumberofNsToScale counts the namespaces that are to be scaled anew with every round.
use mathlib.Core.Path.{subst}
use mathlib.Core.List.{Permᴰ}
use pre_scaling_operator.Common.{
  ℕ, suc, ◌+◌, ◌≤◌, pos, ◌-ℤ◌, Text, Map, false, Option, none, some, List, [], ◌∷◌, ◌++◌, Result,
  ok, err, ◌≤ℤ◌, sym, ◌≡◌, refl, ap, ◌∙◌, arith,
}
use pre_scaling_operator.Global.{ScalingInfo, State}
use pre_scaling_operator.Api.{ClusterScalingState}
use pre_scaling_operator.ResourceMath.{Quantity}
use pre_scaling_operator.Resources.{determine_desired_replicas}
use pre_scaling_operator.States.{fetch_namespace_state, get_applied_states_on_items}
use pre_scaling_operator.Decisions.{
  NamespaceScaleInfo, OverallNsInfo, Tally, Surroundings, limit_namespaces, decide_checked,
  note_check_error, max_concurrent,
}
use pre_scaling_operator.Decisions.Rounds.{
  check_namespace, decide_determined, decide_namespace, decide_namespaces, decide_with, overall,
  no_tally, make_namespaces_scale_decisions,
}
use pre_scaling_operator.Decisions.Keeps.{KeepsIf, decide_namespaces-keeps}
use pre_scaling_operator.Decisions.Budget.{
  scaling, Within, limit_entries-counted, limit_entries-fewer, round-Within,
}

module _ {Q : Type 0} where
  scaling-perm : (xs ys : Map (NamespaceScaleInfo Q)) → Permᴰ xs ys → scaling xs ≡ scaling ys
  scaling-perm xs ys Permᴰ.nil = refl
  scaling-perm (a ∷ xs) (b ∷ ys) (Permᴰ.cons e p) = ground (
    arith,
    ap (λ (t : Text × NamespaceScaleInfo Q). t.1.scale_name_space) e,
    scaling-perm xs ys p,
  )
  scaling-perm (a ∷ (b ∷ l)) (c ∷ (d ∷ l')) (Permᴰ.swap e f) = ground (
    arith,
    ap (λ (t : Text × NamespaceScaleInfo Q). t.1.scale_name_space) e,
    ap (λ (t : Text × NamespaceScaleInfo Q). t.1.scale_name_space) f,
  )
  scaling-perm xs ys (Permᴰ.trans p q) = scaling-perm xs _ p ∙ scaling-perm _ ys q

  -- A round after which nothing was put on the map counts its namespaces once more.
  limit_namespaces-doubles :
      (run : Surroundings Q) (round : ℕ) (tally : Tally Q)
      → Permᴰ tally.ns_info_map (run.order round tally.ns_info_map)
      → Within run tally
      → scaling (limit_namespaces run round tally).ns_info_map
          + scaling (limit_namespaces run round tally).ns_info_map
        ≤ (limit_namespaces run round tally).to_scale
  unfolding limit_namespaces
  limit_namespaces-doubles run round tally p within =
      let budget = max_concurrent run.configured -ℤ pos tally.being_scaled in
      let entries = run.order round tally.ns_info_map in
      let counted = limit_entries-counted budget entries in
      let fewer = limit_entries-fewer budget entries in
      let same = scaling-perm tally.ns_info_map entries p in
      omega (arith, counted, fewer, same, within.1)

module _ (k : Quantity) (run : Surroundings k.Q) (definitions : List State)
    (css : List ClusterScalingState) where
  open k use {Q}

  abbrev last_round : ℕ → Text → List (ScalingInfo Q) → Option (Tally Q) → Option (Tally Q)
  last_round round namespace items none = none
  last_round round namespace items (some tally) =
      decide_namespace k run definitions css false round namespace items
        (fetch_namespace_state run.client definitions namespace)
        (record tally { denylist = run.others round tally.denylist })

  whole_round : (o : Option (Tally Q)) → (elim o [ none ↦ none | some tally ↦ some tally ]) ≡ o
  whole_round none = refl
  whole_round (some tally) = refl

  decide_namespaces-append :
      (round : ℕ) (front : Map (List (ScalingInfo Q))) (namespace : Text)
      (items : List (ScalingInfo Q)) (tally : Tally Q)
      → (last : ℕ) × (decide_namespaces k run definitions css false round
            (front ++ (namespace, items) ∷ [])
            tally
          ≡ last_round last namespace items
              (decide_namespaces k run definitions css false round front tally))
  unfolding decide_namespaces
  decide_namespaces-append round [] namespace items tally = (round, whole_round _)
  decide_namespaces-append round ((n, first) ∷ front) namespace items tally =
      elim (decide_namespace k run definitions css false round n first
          (fetch_namespace_state run.client definitions n)
          (record tally { denylist = run.others round tally.denylist }))
        as (λ o.
          (last : ℕ) × ((elim o [
            | none ↦ none
            | some tally' ↦
                decide_namespaces k run definitions css false (suc round)
                  (front ++ (namespace, items) ∷ []) tally'
          ])
            ≡ last_round last namespace items (elim o [
              | none ↦ none
              | some tally' ↦ decide_namespaces k run definitions css false (suc round) front tally'
            ]))) [
              | none ↦ (0, refl)
              | some tally' ↦ decide_namespaces-append (suc round) front namespace items tally'
            ]

  -- The state of a namespace is read, some of its workloads are picked, and its quotas deny them.
  abbrev pub IsDenied : Text → List (ScalingInfo Q) → Type 0
  IsDenied namespace items =
      (state : State) × (stored : List (ScalingInfo Q)) × (item : ScalingInfo Q) × (picked : List
        (ScalingInfo Q))
      × (fetch_namespace_state run.client definitions namespace ≡ ok state)
      × (determine_desired_replicas (get_applied_states_on_items state css definitions items)
          ≡ some (stored, item ∷ picked))
      × ((check_namespace k run definitions css false namespace (item ∷ picked)).allowed ≡ false)
      × ((check_namespace k run definitions css false namespace (item ∷ picked)).error ≡ none)

  denied_round :
      (round : ℕ) (namespace : Text) (items : List (ScalingInfo Q)) (tally : Tally Q)
      → IsDenied namespace items
      → decide_namespace k run definitions css false round namespace items
          (fetch_namespace_state run.client definitions namespace)
          tally
        ≡ some (limit_namespaces run round tally)
  unfolding decide_namespace decide_determined decide_checked note_check_error
  denied_round round namespace items tally (state, stored, item, picked, read, det, no_room, fine) =
      rw (read, decide_namespace)
        (rw (det, decide_namespace) (rw (fine, decide_checked) (rw (no_room, decide_checked) refl)))

module _ (k : Quantity) (run : Surroundings k.Q)
    (visits : (round : ℕ) (m : Map (NamespaceScaleInfo k.Q)) → Permᴰ m (run.order round m)) where
  open k use {Q}

  abbrev pub IsDoubled : OverallNsInfo Q → Type 0
  IsDoubled info =
      pos (scaling info.ns_scale_info + scaling info.ns_scale_info) ≤ℤ info.number_of_ns_to_scale

  abbrev TallyDoubled : Option (Tally Q) → Type 0
  TallyDoubled none = Unit
  TallyDoubled (some tally) = scaling tally.ns_info_map + scaling tally.ns_info_map ≤ tally.to_scale

  abbrev DoubledIf : Option (List (ScalingInfo Q) × Result (OverallNsInfo Q)) → Type 0
  DoubledIf none = Unit
  DoubledIf (some (denylist, err e)) = Unit
  DoubledIf (some (denylist, ok info)) = IsDoubled info

  last_round-TallyDoubled :
      (definitions : List State) (css : List ClusterScalingState) (last : ℕ) (namespace : Text)
      (items : List (ScalingInfo Q)) (front : Map (List (ScalingInfo Q))) (o : Option (Tally Q))
      → IsDenied k run definitions css namespace items
      → KeepsIf k run definitions css front false (Within run) o
      → TallyDoubled (last_round k run definitions css last namespace items o)
  last_round-TallyDoubled definitions css last namespace items front none denied h = tt
  last_round-TallyDoubled definitions css last namespace items front (some tally) denied h =
      let slept = record tally { denylist = run.others last tally.denylist } in
      subst TallyDoubled
        (sym (denied_round k run definitions css last namespace items slept denied))
        (limit_namespaces-doubles run last slept (visits last tally.ns_info_map) h)

  decide_with-DoubledIf :
      (definitions : List State) (css : List ClusterScalingState)
      (front : Map (List (ScalingInfo Q))) (namespace : Text)
      (items denylist : List (ScalingInfo Q))
      → IsDenied k run definitions css namespace items
      → DoubledIf
          (decide_with k run (front ++ (namespace, items) ∷ []) definitions false denylist (ok css))
  unfolding decide_with
  decide_with-DoubledIf definitions css front namespace items denylist denied =
      let (last, e) =
        decide_namespaces-append k run definitions css 0 front namespace items
          (no_tally denylist) in
      let within =
        decide_namespaces-keeps k run definitions css front false (Within run)
          (round-Within k run definitions css false front) 0 front (no_tally denylist)
          (λ place group there. there) (omega arith, omega arith) in
      elim (decide_namespaces k run definitions css false 0 (front ++ (namespace, items) ∷ [])
            (no_tally denylist))
          as (λ o.
            TallyDoubled o
            → DoubledIf (elim o [ none ↦ none | some tally ↦ some (overall tally) ])) [
              | none ↦ λ h. tt
              | some tally ↦ λ h. omega (arith, h)
            ]
        (subst TallyDoubled (sym e)
          (last_round-TallyDoubled definitions css last namespace items front _ denied within))

  -- Where a range visits the entries of the map once each: outside a dry run, if the quotas deny the
  -- last namespace that is looked at, then at least twice as many namespaces are counted as to be
  -- scaled as are marked to be scaled.
  pub make_namespaces_scale_decisions-IsDoubled :
      (definitions : List State) (css : List ClusterScalingState)
      (front : Map (List (ScalingInfo Q))) (namespace : Text)
      (items denylist denylist' : List (ScalingInfo Q)) (info : OverallNsInfo Q)
      → run.client.cluster_scaling_states ≡ ok css
      → IsDenied k run definitions css namespace items
      → make_namespaces_scale_decisions k run
          (front ++ (namespace, items) ∷ [])
          definitions
          false
          denylist
        ≡ some (denylist', ok info)
      → IsDoubled info
  unfolding make_namespaces_scale_decisions
  make_namespaces_scale_decisions-IsDoubled definitions css front namespace items denylist denylist'
        info listed denied e =
      subst DoubledIf
        (ap (decide_with k run (front ++ (namespace, items) ∷ []) definitions false denylist)
            (sym listed)
          ∙ e)
        (decide_with-DoubledIf definitions css front namespace items denylist denied)
