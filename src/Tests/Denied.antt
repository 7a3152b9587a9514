-- ===== src/Tests/Denied.antt =====
-- The namespace "shop" is to be scaled, and the quota of "bank" denies its scaling.
use mathlib.Core.List.Permᴰ
use pre_scaling_operator.Common.{
  ℤ, pos, ◌-ℤ◌, ◌+ℤ◌, bytes, ◌==◌, Map, true, false, none, some, List, [], ◌∷◌, ◌≡◌, refl, ok,
  lookup, has_prefix, insert, atoi, int32, contains,
}
use pre_scaling_operator.Global.{ScalingInfo, no_state}
use pre_scaling_operator.Global.Denylist.{
  get_deployment_info, is_being_scaled, is_any_being_scaled, is_deployment_in_failure_state,
}
use pre_scaling_operator.Global.Convert.{convert_deployment_to_item}
use pre_scaling_operator.ResourceMath.{
  subtract, mul, add_lists, is_negative, is_zero, replica_calc,
  translate_resources_to_quota_resources,
}
use pre_scaling_operator.Resources.{
  determine_desired_replicas, group_scaling_item_by_namespace, limits_needed_list,
}
use pre_scaling_operator.Resources.Lister.{scaling_item_namespace_lister, convert_all}
use pre_scaling_operator.StateReplicas.{new_state_replicas_from_annotations, get_state}
use pre_scaling_operator.Quotas.{ResourceQuota, resource_quota_check}
use pre_scaling_operator.States.{fetch_namespace_state, get_applied_states_on_items}
use pre_scaling_operator.Decisions.{
  OverallNsInfo, Surroundings, max_concurrent, limit_entries, limit_namespaces, decide_checked,
  decide_allowed, note_check_error, any_wants_scaling, no_events,
}
use pre_scaling_operator.Decisions.Rounds.{
  make_namespaces_scale_decisions, decide_namespaces, decide_namespace, decide_determined,
  check_namespace,
}
use pre_scaling_operator.Decisions.Overcounted.{
  IsDenied, IsDoubled, make_namespaces_scale_decisions-IsDoubled,
}
use pre_scaling_operator.Reconciler.{reconcile_namespace, reconcile_item}
use pre_scaling_operator.Reconciler.Prepare.{
  NamespaceInfo, Prepared, Progress, prepare_for_namespace_reconcile, after_listing,
  reconcile_decided, prepared_of, info_of,
}
use pre_scaling_operator.Reconciler.Prepare.Cleared.{
  AllStartCleared, groups_of, prepare_for_namespace_reconcile-AllStartCleared,
}
use pre_scaling_operator.Tests.{whole, shop, peak, peak_css}
use pre_scaling_operator.Tests.Events.{fresh_web}
use pre_scaling_operator.Tests.Deciding.{surroundings, fresh_peak, shop_info, shop_listing, bank}

abbrev cpu_web : ScalingInfo ℤ
cpu_web = record fresh_web { namespace = bank; resource_list = (bytes "cpu", pos 3) ∷ [] }

abbrev bank_quota : ResourceQuota ℤ
bank_quota = record {
  name = bytes "cpu";
  hard = (bytes "limits.cpu", pos 8) ∷ [];
  used = (bytes "limits.cpu", pos 6) ∷ [];
}

abbrev with_quota : Surroundings ℤ
with_quota = record surroundings { listed = λ namespace. ok (bank_quota ∷ []) }

abbrev cpu_peak : ScalingInfo ℤ
cpu_peak = record fresh_peak { namespace = bank; resource_list = (bytes "cpu", pos 3) ∷ [] }

bank-IsDenied : IsDenied whole with_quota (peak ∷ []) (peak_css ∷ []) bank (cpu_web ∷ [])
unfolding fetch_namespace_state determine_desired_replicas get_applied_states_on_items
    new_state_replicas_from_annotations ◌==◌ lookup has_prefix insert atoi get_state int32
    check_namespace resource_quota_check limits_needed_list is_negative add_lists mul replica_calc
    ◌-ℤ◌ ◌+ℤ◌ is_zero subtract translate_resources_to_quota_resources
bank-IsDenied = (no_state, cpu_peak ∷ [], cpu_peak, [], refl, refl, refl, refl)

abbrev doubled : OverallNsInfo ℤ
doubled = record shop_info { number_of_ns_to_scale = pos 2 }

abbrev bank_last : Map (List (ScalingInfo ℤ))
bank_last = (bank, cpu_web ∷ []) ∷ []

both_decided :
    make_namespaces_scale_decisions whole with_quota
      ((shop, fresh_web ∷ []) ∷ bank_last)
      (peak ∷ [])
      false
      []
    ≡ some ([], ok doubled)
unfolding fetch_namespace_state determine_desired_replicas get_applied_states_on_items
    new_state_replicas_from_annotations ◌==◌ lookup has_prefix insert atoi get_state int32
    check_namespace resource_quota_check limits_needed_list is_negative add_lists mul replica_calc
    ◌-ℤ◌ ◌+ℤ◌ is_zero subtract translate_resources_to_quota_resources
    make_namespaces_scale_decisions decide_namespaces decide_namespace decide_determined
    limit_namespaces limit_entries decide_checked decide_allowed note_check_error any_wants_scaling
    max_concurrent contains get_deployment_info is_any_being_scaled is_being_scaled
both_decided = refl

make_namespaces_scale_decisions-IsDoubled_example :
    IsDoubled whole with_quota (λ round m. Permᴰ.refl m) doubled
make_namespaces_scale_decisions-IsDoubled_example =
    make_namespaces_scale_decisions-IsDoubled whole with_quota (λ round m. Permᴰ.refl m) (peak ∷ [])
      (peak_css ∷ []) ((shop, fresh_web ∷ []) ∷ []) bank (cpu_web ∷ []) [] [] doubled refl
      bank-IsDenied both_decided

abbrev started_info : NamespaceInfo
started_info = record {
  ns_events = no_events;
  applied_state = [];
  error = none;
  retrigger_me = false;
  scale_namespace = true;
}

abbrev started : Progress ℤ
started = record {
  left = pos 0;
  infos = (shop, started_info) ∷ [];
  started = fresh_peak ∷ [];
  denylist = [];
}

abbrev prepared : Prepared
prepared = record { ns_infos = some ((shop, started_info) ∷ []); retrigger = false; error = none }

shop_started :
    prepare_for_namespace_reconcile whole surroundings
      (λ n round items. items)
      (λ items. items)
      (λ m. m)
      false
      shop_listing
      []
      (peak ∷ [])
      []
    ≡ some (started, prepared)
unfolding prepare_for_namespace_reconcile after_listing reconcile_decided prepared_of info_of
    group_scaling_item_by_namespace scaling_item_namespace_lister convert_deployment_to_item
    convert_all make_namespaces_scale_decisions decide_namespaces decide_namespace decide_determined
    check_namespace limit_namespaces limit_entries decide_checked decide_allowed note_check_error
    any_wants_scaling max_concurrent fetch_namespace_state determine_desired_replicas
    get_applied_states_on_items new_state_replicas_from_annotations ◌==◌ lookup has_prefix insert
    atoi get_state int32 resource_quota_check contains get_deployment_info is_any_being_scaled
    is_being_scaled ◌-ℤ◌ reconcile_namespace reconcile_item is_deployment_in_failure_state
shop_started = refl

prepare_for_namespace_reconcile-AllStartCleared_example :
    AllStartCleared whole surroundings
      (groups_of (λ items. items) (λ m. m) (scaling_item_namespace_lister shop_listing []))
      (peak ∷ [])
      started.started
prepare_for_namespace_reconcile-AllStartCleared_example =
    prepare_for_namespace_reconcile-AllStartCleared whole surroundings (λ n round items. items)
      (λ items. items) (λ m. m) (λ m. Permᴰ.refl m) (λ round m. Permᴰ.refl m) shop_listing []
      (peak ∷ []) [] started prepared shop_started
