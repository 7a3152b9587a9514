-- ===== src/Decisions/Rounds.antt =====
-- The rounds of MakeNamespacesScaleDecisions, one for each namespace.
use pre_scaling_operator.Common.{
  ℕ, suc, pos, Text, Map, insert, Bool, Option, none, some, List, [], ◌∷◌, Result, ok, err,
}
use pre_scaling_operator.Global.{ScalingInfo, State}
use pre_scaling_operator.Api.{ClusterScalingState}
use pre_scaling_operator.ResourceMath.{Quantity}
use pre_scaling_operator.Quotas.{QuotaCheck, resource_quota_check}
use pre_scaling_operator.Resources.{determine_desired_replicas, limits_needed_list}
use pre_scaling_operator.States.{fetch_namespace_state, get_applied_states_on_items}
use pre_scaling_operator.Decisions.{
  OverallNsInfo, Tally, Surroundings, failed_entry, limit_namespaces, decide_checked,
}

module _ (k : Quantity) (run : Surroundings k.Q) (definitions : List State)
    (css : List ClusterScalingState) (dry_run : Bool) where
  open k use {Q}

  unfoldable pub check_namespace : Text → List (ScalingInfo Q) → QuotaCheck
  check_namespace namespace items =
      resource_quota_check k run.client_set (run.listed namespace) (limits_needed_list k items)

  -- A namespace none of whose items has a count is passed over, without a look at the budget.
  unfoldable pub decide_determined : ℕ → Text → State → List (ScalingInfo Q) → Tally Q → Tally Q
  decide_determined round namespace state [] tally = tally
  decide_determined round namespace state (item ∷ items) tally = limit_namespaces run round (
      decide_checked run dry_run namespace (item ∷ items) state
        (check_namespace namespace (item ∷ items)) tally)

  -- A round; `none` is a panic. A namespace whose state could not be read is put on the map with the
  -- error, without a look at the budget.
  unfoldable pub decide_namespace :
      ℕ → Text → List (ScalingInfo Q) → Result State → Tally Q → Option (Tally Q)
  decide_namespace round namespace items (err e) tally =
      some (record tally {
        ns_info_map = insert namespace (failed_entry run items e) tally.ns_info_map;
      })
  decide_namespace round namespace items (ok state) tally =
      elim (determine_desired_replicas (get_applied_states_on_items state css definitions items)) [
        | none ↦ none
        | some (stored, picked) ↦ some (decide_determined round namespace state picked tally)
      ]

  unfoldable pub decide_namespaces : ℕ → Map (List (ScalingInfo Q)) → Tally Q → Option (Tally Q)
  decide_namespaces round [] tally = some tally
  decide_namespaces round ((namespace, items) ∷ rest) tally =
      elim (decide_namespace round namespace items
        (fetch_namespace_state run.client definitions namespace)
        (record tally { denylist = run.others round tally.denylist })) [
          | none ↦ none
          | some tally' ↦ decide_namespaces (suc round) rest tally'
        ]

-- The result with the deny list afterwards.
abbrev pub overall : {Q : Type 0} → Tally Q → List (ScalingInfo Q) × Result (OverallNsInfo Q)
overall tally = (
  tally.denylist,
  ok (record {
    ns_scale_info = tally.ns_info_map;
    number_of_ns_being_scaled = pos tally.being_scaled;
    number_of_ns_to_scale = pos tally.to_scale;
  }),
)

abbrev pub no_tally : {Q : Type 0} → List (ScalingInfo Q) → Tally Q
no_tally denylist = record { ns_info_map = []; being_scaled = 0; to_scale = 0; denylist = denylist }

module _ (k : Quantity) (run : Surroundings k.Q) where
  open k use {Q}

  -- The namespaces are visited in the order of `grouped`.
  unfoldable pub decide_with :
      Map (List (ScalingInfo Q))
      → List State
      → Bool
      → List (ScalingInfo Q)
      → Result (List ClusterScalingState)
      → Option (List (ScalingInfo Q) × Result (OverallNsInfo Q))
  decide_with grouped definitions dry_run denylist (err e) = some (denylist, err e)
  decide_with grouped definitions dry_run denylist (ok css) =
      elim (decide_namespaces k run definitions css dry_run 0 grouped (no_tally denylist)) [
        | none ↦ none
        | some tally ↦ some (overall tally)
      ]

  -- MakeNamespacesScaleDecisions; `none` is a panic.
  unfoldable pub make_namespaces_scale_decisions :
      Map (List (ScalingInfo Q))
      → List State
      → Bool
      → List (ScalingInfo Q)
      → Option (List (ScalingInfo Q) × Result (OverallNsInfo Q))
  unfolding decide_with
  make_namespaces_scale_decisions grouped definitions dry_run denylist =
      decide_with grouped definitions dry_run denylist run.client.cluster_scaling_states
