-- ===== src/Tests/Deciding.antt =====
-- The decisions on the namespace "shop", whose workload "web" is to be scaled to the peak.

use pre_scaling_operator.Common.{
  ℤ, pos, ◌-ℤ◌, ◌≤ℤ◌, pos_part, ◌≤◌, Text, bytes, ◌==◌, true, false, none, some, [], ◌∷◌, ◌≡◌, refl,
  ok, lookup, has_prefix, insert, atoi, int32, contains,
}
use pre_scaling_operator.Global.{ScalingInfo, no_state}
use pre_scaling_operator.Global.Denylist.{get_deployment_info, is_being_scaled, is_any_being_scaled}
use pre_scaling_operator.Global.Convert.{convert_deployment_to_item}
use pre_scaling_operator.Resources.{determine_desired_replicas, group_scaling_item_by_namespace}
use pre_scaling_operator.Resources.Lister.{Listing, scaling_item_namespace_lister, convert_all}
use pre_scaling_operator.StateReplicas.{new_state_replicas_from_annotations, get_state}
use pre_scaling_operator.Quotas.{resource_quota_check}
use pre_scaling_operator.States.{fetch_namespace_state, get_applied_states_on_items}
use pre_scaling_operator.Decisions.{
  NamespaceScaleInfo, OverallNsInfo, Surroundings, no_events, max_concurrent, limit_entries,
  limit_namespaces, decide_checked, decide_allowed, decide_dry_run, note_check_error,
  any_wants_scaling, any_away, dry_run_text,
}
use pre_scaling_operator.Decisions.Rounds.{
  make_namespaces_scale_decisions, decide_namespaces, decide_namespace, decide_determined,
  check_namespace,
}
use pre_scaling_operator.Decisions.Budget.{scaling, make_namespaces_scale_decisions-bounded}
use pre_scaling_operator.Reconciler.Prepare.{
  NamespaceInfo, Prepared, Progress, prepare_for_namespace_reconcile, after_listing,
  reconcile_decided, prepared_of, info_of,
}
use pre_scaling_operator.Reconciler.Prepare.Started.{IsDry, prepare_for_namespace_reconcile-IsDry}
use pre_scaling_operator.Tests.{whole, shop, peak}
use pre_scaling_operator.Tests.Reconciling.{peak_client}
use pre_scaling_operator.Tests.Events.{fresh_web, web_deployment}

abbrev pub surroundings : Surroundings ℤ
surroundings = record {
  client = peak_client;
  client_set = ok tt;
  listed = λ namespace. ok [];
  configured = pos 0;
  others = λ round items. items;
  order = λ round m. m;
  render = λ header rows. [];
  sprint = λ n. [];
}

abbrev pub fresh_peak : ScalingInfo ℤ
fresh_peak = record fresh_web {
  state = bytes "peak";
  cluster_class_state = peak;
  scaling_class = bytes "default";
  desired_replicas = pos 5;
}

abbrev pub shop_entry : NamespaceScaleInfo ℤ
shop_entry = record {
  scaling_items = fresh_peak ∷ [];
  final_namespace_state = no_state;
  scale_name_space = true;
  state_error = none;
  replica_list_error = none;
  resource_quota_check_error = none;
  namespace_events = no_events;
}

abbrev pub shop_info : OverallNsInfo ℤ
shop_info = record {
  ns_scale_info = (shop, shop_entry) ∷ [];
  number_of_ns_being_scaled = pos 0;
  number_of_ns_to_scale = pos 1;
}

shop_decided :
    make_namespaces_scale_decisions whole surroundings
      ((shop, fresh_web ∷ []) ∷ [])
      (peak ∷ [])
      false
      []
    ≡ some ([], ok shop_info)
unfolding make_namespaces_scale_decisions decide_namespaces decide_namespace decide_determined
    check_namespace limit_namespaces limit_entries decide_checked decide_allowed note_check_error
    any_wants_scaling max_concurrent fetch_namespace_state determine_desired_replicas
    get_applied_states_on_items new_state_replicas_from_annotations ◌==◌ lookup has_prefix insert
    atoi get_state int32 resource_quota_check contains get_deployment_info is_any_being_scaled
    is_being_scaled ◌-ℤ◌
shop_decided = refl

abbrev pub bank : Text
bank = bytes "bank"

abbrev bank_web : ScalingInfo ℤ
bank_web = record fresh_web { namespace = bank }

abbrev bank_peak : ScalingInfo ℤ
bank_peak = record fresh_peak { namespace = bank }

abbrev two_at_a_time : Surroundings ℤ
two_at_a_time = record surroundings { configured = pos 2 }

abbrev two_info : OverallNsInfo ℤ
two_info = record {
  ns_scale_info =
      (shop, shop_entry) ∷ ((bank, record shop_entry { scaling_items = bank_peak ∷ [] }) ∷ []);
  number_of_ns_being_scaled = pos 0;
  number_of_ns_to_scale = pos 3;
}

-- Two namespaces are scaled, and three are counted.
two_decided :
    make_namespaces_scale_decisions whole two_at_a_time
      ((shop, fresh_web ∷ []) ∷ ((bank, bank_web ∷ []) ∷ []))
      (peak ∷ [])
      false
      []
    ≡ some ([], ok two_info)
unfolding make_namespaces_scale_decisions decide_namespaces decide_namespace decide_determined
    check_namespace limit_namespaces limit_entries decide_checked decide_allowed note_check_error
    any_wants_scaling max_concurrent fetch_namespace_state determine_desired_replicas
    get_applied_states_on_items new_state_replicas_from_annotations ◌==◌ lookup has_prefix insert
    atoi get_state int32 resource_quota_check contains get_deployment_info is_any_being_scaled
    is_being_scaled ◌-ℤ◌
two_decided = refl

make_namespaces_scale_decisions-bounded_example :
    (scaling shop_info.ns_scale_info
      ≤ pos_part (max_concurrent surroundings.configured -ℤ shop_info.number_of_ns_being_scaled))
    × (pos (scaling shop_info.ns_scale_info) ≤ℤ shop_info.number_of_ns_to_scale)
make_namespaces_scale_decisions-bounded_example =
    make_namespaces_scale_decisions-bounded whole surroundings ((shop, fresh_web ∷ []) ∷ [])
      (peak ∷ []) false [] [] shop_info shop_decided

abbrev pub shop_listing : Listing ℤ
shop_listing = record {
  deployments = λ namespace. ok (web_deployment ∷ []);
  deployment_configs = λ namespace. ok [];
  redis_clusters = λ namespace. ok [];
  openshift = false;
  redis = true;
}

pub shop_grouped :
    make_namespaces_scale_decisions whole surroundings
      (group_scaling_item_by_namespace (λ items. items) (fresh_web ∷ []))
      (peak ∷ [])
      false
      []
    ≡ some ([], ok shop_info)
unfolding group_scaling_item_by_namespace insert
shop_grouped = shop_decided

-- The namespace of a dry run.
abbrev dry_info : NamespaceInfo
dry_info = record {
  ns_events = no_events;
  applied_state = [];
  error = none;
  retrigger_me = false;
  scale_namespace = true;
}

abbrev dry_progress : Progress ℤ
dry_progress = record { left = pos 1; infos = (shop, dry_info) ∷ []; started = []; denylist = [] }

abbrev dry_prepared : Prepared
dry_prepared = record { ns_infos = some ((shop, dry_info) ∷ []); retrigger = false; error = none }

shop_dry :
    prepare_for_namespace_reconcile whole surroundings
      (λ n round items. items)
      (λ items. items)
      (λ m. m)
      true
      shop_listing
      []
      (peak ∷ [])
      []
    ≡ some (dry_progress, dry_prepared)
unfolding prepare_for_namespace_reconcile after_listing reconcile_decided prepared_of info_of
    group_scaling_item_by_namespace scaling_item_namespace_lister convert_deployment_to_item
    convert_all make_namespaces_scale_decisions decide_namespaces decide_namespace decide_determined
    check_namespace limit_namespaces limit_entries decide_checked decide_dry_run note_check_error
    dry_run_text any_away max_concurrent fetch_namespace_state determine_desired_replicas
    get_applied_states_on_items new_state_replicas_from_annotations ◌==◌ lookup has_prefix insert
    atoi get_state int32 resource_quota_check contains get_deployment_info ◌-ℤ◌
shop_dry = refl

prepare_for_namespace_reconcile-IsDry_example :
    IsDry whole surroundings
      (λ n round items. items)
      (λ items. items)
      (λ m. m)
      []
      dry_progress
      dry_prepared
prepare_for_namespace_reconcile-IsDry_example =
    prepare_for_namespace_reconcile-IsDry whole surroundings (λ n round items. items)
      (λ items. items) (λ m. m) shop_listing [] (peak ∷ []) [] dry_progress dry_prepared
      (λ round items. refl) shop_dry
