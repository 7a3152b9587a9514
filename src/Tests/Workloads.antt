-- ===== src/Tests/Workloads.antt =====
-- States, classes and replicas of the workload "web".
use mathlib.Core.List.{Perm}
use mathlib.Core.List.Perm
use pre_scaling_operator.Common.{
  pos, Text, bytes, ◌==◌, Map, lookup, UniqueKeys, true, false, none, some, [], ◌∷◌, ◌++◌, ◌≡◌,
  refl, if◌then◌else◌, map, ok, arith, has_prefix, atoi, ap, ==_iff, ◌∙◌,
}
use pre_scaling_operator.Api.{ScalingState}
use pre_scaling_operator.StateReplicas.{
  StateReplicas, new_state_replicas_from_annotations, get_state, state_replica_annotation_prefix,
}
use pre_scaling_operator.StateReplicas.Annotated.{
  WellFormed, key_of, wanted, new_state_replicas_lem,
}
use pre_scaling_operator.StateReplicas.Panics.{IsCount, new_state_replicas_panics}
use pre_scaling_operator.Resources.{determine_desired_replicas, group_scaling_item_by_namespace}
use pre_scaling_operator.Resources.Desired.{decided, stated, picked, determine_desired_replicas_lem}
use pre_scaling_operator.Resources.Grouping.{
  in_namespace, or_missing, IsSorted, group_scaling_item_by_namespace_lem,
}
use pre_scaling_operator.States.{
  Client, fetch_namespace_state, find_state, get_applied_state_and_class_on_item,
  find_priority_state, get_applied_scaling_class_from_scaling_item,
  get_applied_scaling_class_from_cluster_scaling_state,
}
use pre_scaling_operator.States.Resolve.{Fetches, fetch_namespace_state-Fetches}
use pre_scaling_operator.States.Classes.{get_applied_state-classed, class_of}
use pre_scaling_operator.Tests.{web_item, shop, peak, calm, definitions, peak_css}

-- One annotation has each key once.
one_key : UniqueKeys web_item.annotations
unfolding lookup
one_key = (refl, tt)

five : atoi (bytes "5") ≡ some (pos 5)
unfolding atoi ◌==◌
five = refl

web_lookup :
    (key value : Text)
    → lookup key web_item.annotations ≡ some value
    → (key ≡ key_of (bytes "peak")) × (value ≡ bytes "5")
unfolding lookup
web_lookup key value h = ground (arith, ==_iff (bytes "scaler/state-peak-replicas") key)

web-WellFormed : WellFormed web_item.annotations
web-WellFormed key value h p =
    let (e, f) = web_lookup key value h in (bytes "peak", pos 5, e, ap atoi f ∙ five)

new_state_replicas_example :
    (rs : StateReplicas) × (new_state_replicas_from_annotations web_item.annotations ≡ some (ok rs))
    × ((name : Text) → get_state name rs ≡ wanted name (lookup (key_of name) web_item.annotations))
new_state_replicas_example = new_state_replicas_lem web_item.annotations one_key web-WellFormed

abbrev short_key : Text
short_key = bytes "scaler/state-peak"

abbrev short_annotations : Map Text
short_annotations = (short_key, bytes "5") ∷ []

short_unique : UniqueKeys short_annotations
unfolding lookup
short_unique = (refl, tt)

short_counts :
    (j v : Text)
    → lookup j short_annotations ≡ some v
    → has_prefix j state_replica_annotation_prefix ≡ true
    → IsCount v
unfolding lookup
short_counts j v h p =
    let e : v ≡ bytes "5" = ground (arith, ==_iff short_key j) in (pos 5, ap atoi e ∙ five)

short_found : lookup short_key short_annotations ≡ some (bytes "5")
unfolding lookup ◌==◌
short_found = refl

short_prefixed : has_prefix short_key state_replica_annotation_prefix ≡ true
unfolding has_prefix
short_prefixed = refl

new_state_replicas_panics_example : new_state_replicas_from_annotations short_annotations ≡ none
new_state_replicas_panics_example =
    new_state_replicas_panics short_annotations short_key (bytes "5") short_unique short_counts
      short_found short_prefixed (omega arith)

determine_desired_replicas_example :
    determine_desired_replicas (web_item ∷ [])
    ≡ some (map (λ i. (decided i (stated i)).0) (web_item ∷ []), picked (web_item ∷ []))
determine_desired_replicas_example =
    determine_desired_replicas_lem (web_item ∷ []) (one_key, web-WellFormed, tt)

abbrev only_peak : ScalingState
only_peak = record { spec = record { state = bytes "peak" }; config = record { dry_run = false } }

-- One ScalingState in "peak", and one ClusterScalingState.
abbrev client : Client
client = record {
  scaling_states = λ namespace. ok (only_peak ∷ []);
  cluster_scaling_states = ok (peak_css ∷ []);
  definitions = ok [];
}

fetch_namespace_state-Fetches_example :
    Fetches (client.scaling_states shop) definitions (fetch_namespace_state client definitions shop)
fetch_namespace_state-Fetches_example = fetch_namespace_state-Fetches client definitions shop tt

peak_found : find_state peak_css.spec.state definitions ≡ ok peak
unfolding find_state ◌==◌
peak_found = refl

web_class : get_applied_scaling_class_from_scaling_item web_item ≡ class_of peak_css
unfolding lookup get_applied_scaling_class_from_scaling_item
    get_applied_scaling_class_from_cluster_scaling_state ◌==◌
web_class = refl

get_applied_state-classed_example :
    let r = get_applied_state_and_class_on_item web_item calm ([] ++ peak_css ∷ []) definitions in
    (r.scaling_class ≡ class_of peak_css)
    × (r.cluster_class_state ≡ peak)
    × (r.state ≡ (find_priority_state calm peak).name)
    × (r.failure ≡ (if r.state == [] then web_item.failure else false))
    × (r.spec_replica ≡ web_item.spec_replica)
    × (r.desired_replicas ≡ web_item.desired_replicas)
    × (r.name ≡ web_item.name)
    × (r.namespace ≡ web_item.namespace)
get_applied_state-classed_example =
    get_applied_state-classed web_item calm peak [] peak_css [] definitions web_class tt peak_found

web-IsSorted : Perm (web_item ∷ []) (web_item ∷ []) × IsSorted (web_item ∷ [])
web-IsSorted = (Perm.refl _, (tt, tt))

group_scaling_item_by_namespace_example :
    (lookup shop (group_scaling_item_by_namespace (λ items. items) (web_item ∷ []))
      ≡ or_missing (in_namespace shop (web_item ∷ [])))
    × Perm (in_namespace shop (web_item ∷ [])) (in_namespace shop (web_item ∷ []))
group_scaling_item_by_namespace_example =
    group_scaling_item_by_namespace_lem (λ items. items) shop (web_item ∷ []) web-IsSorted
