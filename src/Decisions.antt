-- ===== src/Decisions.antt =====
-- internal/resources/common.go: MakeNamespacesScaleDecisions, which says of each namespace whether its
-- workloads are scaled now, within a budget of namespaces that are scaled at a time.
pub mod Rounds
pub mod Keeps
pub mod Budget
pub mod Outcomes
pub mod Cleared
pub mod Overcounted
use pre_scaling_operator.Common.{
  ℕ, zero, suc, ◌+◌, ℤ, pos, negsuc, ◌-ℤ◌, ltb, ltb_ℤ, eqb_ℤ, Text, bytes, ◌==◌, ◌++◌, Map, insert,
  Bool, true, false, not, ◌&&◌, ◌||◌, Option, none, some, List, [], ◌∷◌, map, if◌then◌else◌, Error,
  Result, ok, err,
}
use pre_scaling_operator.Global.{ScalingInfo, State, no_state}
use pre_scaling_operator.Global.Denylist.{
  get_deployment_info, set_scaling_item, is_being_scaled, is_any_being_scaled,
}
use pre_scaling_operator.Api.{ClusterScalingState}
use pre_scaling_operator.ResourceMath.{Quantity}
use pre_scaling_operator.Quotas.{ResourceQuota, QuotaCheck, resource_quota_check}
use pre_scaling_operator.Resources.{determine_desired_replicas, limits_needed_list}
use pre_scaling_operator.States.{
  Client, fetch_namespace_state, get_applied_states_on_items, get_rapid_scaling_setting,
}

pub record NamespaceEvents : Type 0 where
  pub quota_exceeded : Text
  pub reconcile_success : List Text
  pub reconcile_failure : List Text
  pub dry_run_info : Text

-- NamespaceEvents{}
abbrev pub no_events : NamespaceEvents
no_events = record {
  quota_exceeded = [];
  reconcile_success = [];
  reconcile_failure = [];
  dry_run_info = [];
}

pub record NamespaceScaleInfo (Q : Type 0) : Type 0 where
  pub scaling_items : List (ScalingInfo Q)
  pub final_namespace_state : State
  pub scale_name_space : Bool
  pub state_error : Option Error
  pub replica_list_error : Option Error
  pub resource_quota_check_error : Option Error
  pub namespace_events : NamespaceEvents

pub record OverallNsInfo (Q : Type 0) : Type 0 where
  pub ns_scale_info : Map (NamespaceScaleInfo Q)
  pub number_of_ns_being_scaled : ℤ
  pub number_of_ns_to_scale : ℤ

-- The variables of the loop, and the deny list.
pub record Tally (Q : Type 0) : Type 0 where
  pub ns_info_map : Map (NamespaceScaleInfo Q)
  pub being_scaled : ℕ
  pub to_scale : ℕ
  pub denylist : List (ScalingInfo Q)

-- What a run depends on besides the items.
pub record Surroundings (Q : Type 0) : Type 0 where
  pub client : Client
  pub client_set : Result (Unit {0})
  pub listed : Text → Result (List (ResourceQuota Q))  -- the quotas of a namespace
  -- What strconv.Atoi makes of the environment variable, 0 where it is unset.
  pub configured : ℤ
  -- What other goroutines make of the deny list before a round.
  pub others : ℕ → List (ScalingInfo Q) → List (ScalingInfo Q)
  -- The order in which the inner `range` of a round visits the map.
  pub order : ℕ → Map (NamespaceScaleInfo Q) → Map (NamespaceScaleInfo Q)
  -- What tablewriter makes of a header and rows.
  pub render : List Text → List (List Text) → Text
  -- fmt.Sprint of a number
  pub sprint : ℤ → Text

-- strconv.FormatBool
unfoldable pub format_bool : Bool → Text
format_bool true = bytes "true"
format_bool false = bytes "false"

module _ {Q : Type 0} where
  -- The round of an allowed namespace for one item: the deny list, and whether the namespace is to be
  -- scaled for it. A scaling that runs is given the new count instead.
  unfoldable pub wants_scaling : ScalingInfo Q → List (ScalingInfo Q) → List (ScalingInfo Q) × Bool
  wants_scaling item denylist =
      let (found, is_nil) = get_deployment_info item denylist in
      if is_nil
        && (not (eqb_ℤ found.desired_replicas item.desired_replicas)
            && is_being_scaled found denylist)
      then (
        (set_scaling_item found found.failure found.failure_message item.desired_replicas
            denylist).1,
        false,
      )
      else (denylist, not (eqb_ℤ item.spec_replica item.desired_replicas))

  unfoldable pub any_wants_scaling :
      List (ScalingInfo Q) → List (ScalingInfo Q) → List (ScalingInfo Q) × Bool
  unfolding wants_scaling
  any_wants_scaling [] denylist = (denylist, false)
  any_wants_scaling (item ∷ items) denylist =
      let (denylist', wants) = wants_scaling item denylist in
      let (final, more) = any_wants_scaling items denylist' in (final, wants || more)

  -- The same question for a dry run, which leaves the deny list alone.
  unfoldable pub any_away : List (ScalingInfo Q) → Bool
  any_away [] = false
  any_away (item ∷ items) = not (eqb_ℤ item.spec_replica item.desired_replicas) || any_away items

  -- The inner loop over the map: the entries, and the namespaces that want to be scaled.
  unfoldable pub limit_entries : ℤ → Map (NamespaceScaleInfo Q) → Map (NamespaceScaleInfo Q) × ℕ
  limit_entries budget [] = ([], 0)
  limit_entries budget ((key, info) ∷ rest) =
      let budget' = if info.scale_name_space then budget -ℤ pos 1 else budget in
      let info' =
        if ltb_ℤ budget' (pos 0) then record info { scale_name_space = false } else info in
      let (rest', wanting) = limit_entries budget' rest in
      ((key, info') ∷ rest', if info.scale_name_space then suc wanting else wanting)

-- 0 counts as 1.
unfoldable pub max_concurrent : ℤ → ℤ
max_concurrent configured = if eqb_ℤ configured (pos 0) then pos 1 else configured

module _ {Q : Type 0} (run : Surroundings Q) where
  -- The text of a dry run for a namespace.
  unfoldable pub dry_run_text : Text → QuotaCheck → List (ScalingInfo Q) → Text
  dry_run_text namespace check items =
      run.render
        (bytes "Namespace"
          ∷ (bytes "Quotas enough"
              ∷ (bytes "Cpu left after scaling" ∷ (bytes "Memory left after scaling" ∷ []))))
        ((namespace ∷ (format_bool check.allowed ∷ (check.cpu ∷ (check.memory ∷ [])))) ∷ [])
      ++ run.render
          (bytes "Application"
            ∷ (bytes "Current replicas"
                ∷ (bytes "New state" ∷ (bytes "New replicas" ∷ (bytes "Rapid Scaling" ∷ [])))))
          (map
            (λ (item : ScalingInfo Q).
              item.name
              ∷ (run.sprint item.ready_replicas
                  ∷ (item.state
                      ∷ (run.sprint item.desired_replicas
                          ∷ (format_bool (get_rapid_scaling_setting item) ∷ [])))))
            items)

  -- The budget of the round is what the namespaces that are being scaled leave.
  unfoldable pub limit_namespaces : ℕ → Tally Q → Tally Q
  limit_namespaces round tally =
      let budget = max_concurrent run.configured -ℤ pos tally.being_scaled in
      let (entries, wanting) = limit_entries budget (run.order round tally.ns_info_map) in
      record tally { ns_info_map = entries; to_scale = tally.to_scale + wanting }

  -- The entry of a namespace whose items and state were determined.
  abbrev pub entry_of :
      List (ScalingInfo Q) → State → Bool → Option Error → NamespaceEvents → NamespaceScaleInfo Q
  entry_of items state scale check_error events = record {
    scaling_items = items;
    final_namespace_state = state;
    scale_name_space = scale;
    state_error = none;
    replica_list_error = none;
    resource_quota_check_error = check_error;
    namespace_events = events;
  }

  -- The entry of a namespace whose state could not be read.
  abbrev pub failed_entry : List (ScalingInfo Q) → Error → NamespaceScaleInfo Q
  failed_entry items e = record (entry_of items no_state false none no_events) {
    state_error = some e;
  }

  -- What a failed quota check puts on the map.
  unfoldable pub note_check_error :
      Text → List (ScalingInfo Q) → State → Option Error → Tally Q → Tally Q
  note_check_error namespace items state none tally = tally
  note_check_error namespace items state (some e) tally = record tally {
    ns_info_map =
        insert namespace (entry_of items state false (some e) no_events) tally.ns_info_map;
  }

  unfoldable pub decide_dry_run :
      Text → List (ScalingInfo Q) → State → QuotaCheck → Tally Q → Tally Q
  decide_dry_run namespace items state check tally =
      let events = record no_events {
        quota_exceeded = if check.allowed then [] else namespace;
        dry_run_info = dry_run_text namespace check items;
      } in
      record tally {
        ns_info_map =
            insert namespace (entry_of items state (any_away items) check.error events)
              tally.ns_info_map;
      }

  -- The events, and the error of the check, are not put on the map here.
  unfoldable pub decide_allowed : Text → List (ScalingInfo Q) → State → Tally Q → Tally Q
  decide_allowed namespace items state tally =
      let (denylist', scale) = any_wants_scaling items tally.denylist in
      record tally {
        ns_info_map =
            insert namespace (entry_of items state scale none no_events) tally.ns_info_map;
        being_scaled =
            if is_any_being_scaled items denylist'
            then tally.being_scaled + 1
            else tally.being_scaled;
        denylist = denylist';
      }

  unfoldable pub decide_checked :
      Bool → Text → List (ScalingInfo Q) → State → QuotaCheck → Tally Q → Tally Q
  decide_checked dry_run namespace items state check tally =
      let noted = note_check_error namespace items state check.error tally in
      if dry_run
      then decide_dry_run namespace items state check noted
      else if check.allowed
      then decide_allowed namespace items state noted
      else noted
