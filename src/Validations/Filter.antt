-- ===== src/Validations/Filter.antt =====
-- What PreFilter lets through, and what it does to the deny list.
use pre_scaling_operator.Common.{
  ℕ, ℤ, neg, negsuc, Text, bytes, ◌==◌, ==_iff, Map, Bool, true, false, not, ◌&&◌, ◌||◌, Option,
  none, [], ◌∷◌, some, List, ◌≡◌, ◌↔◌, Bool-cases, inl, inr, refl, arith, if◌then◌else◌,
}
use pre_scaling_operator.Annotations.{get_label_value_bool, get_label_value_string}
use pre_scaling_operator.Global.{ScalingInfo}
use pre_scaling_operator.Global.Denylist.{
  is_being_scaled, is_deployment_in_failure_state, is_in_concurrent_list, set_scaling_item,
  update_or_append,
}
use pre_scaling_operator.Global.Registry.{
  find, UniqueItems, find-update_or_append, is_in_concurrent_list-find,
}
use pre_scaling_operator.Global.Removal.{find-remove_from_list}
use pre_scaling_operator.Validations.{
  Object, key_item, opt_in_label, Kind, deployment, deployment_config, redis_cluster, OptInEvent,
  Updated, generate_opt_in_label_update_event, update_rest, update_opted_in, update_func,
  delete_func, assess_annotation_change, asses_replica_change, replicas_of,
}

abbrev pub opted_in : Object → Bool
opted_in o = get_label_value_bool o.labels opt_in_label

abbrev pub class_label : Object → Text
class_label o = get_label_value_string o.labels (bytes "scaler/scaling-class")

-- The item that an opted-out object that is being scaled leaves on the deny list.
abbrev pub stopped : {Q : Type 0} → Object → ScalingInfo Q
stopped new = record (key_item new) {
  failure = true;
  failure_message = bytes "Opt-In is false!";
  desired_replicas = negsuc 0;
}

abbrev pub is_redis_cluster : Kind → Bool
is_redis_cluster deployment = false
is_redis_cluster deployment_config = false
is_redis_cluster redis_cluster = true

-- The events of the opt-in label.
abbrev pub opt_in_events : Object → Object → List OptInEvent
opt_in_events old new =
    if opted_in new && opted_in old || not (opted_in new) && not (opted_in old)
    then []
    else record { object = new; opts_in = opted_in new } ∷ []

abbrev is_true : Option Bool → Bool
is_true none = false
is_true (some b) = b

abbrev pub replicas_changed : Object → Object → Bool
replicas_changed old new = is_true (asses_replica_change old new)

abbrev pub has_nil : Option ℤ → Bool
has_nil none = true
has_nil (some n) = false

abbrev pub is_deployment : Kind → Bool
is_deployment deployment = true
is_deployment deployment_config = false
is_deployment redis_cluster = false

-- A Deployment one of whose versions has nil replicas; the other types have numbers.
abbrev pub nil_replicas : Object → Object → Bool
nil_replicas old new = is_deployment new.kind && (has_nil old.replicas || has_nil new.replicas)

-- A RedisCluster that opts in or out, or a Deployment that is opted in with nil replicas, the class
-- being kept where the object is opted in.
abbrev pub crashes : Object → Object → Bool
crashes old new =
    is_redis_cluster new.kind
      && (opted_in new && (class_label old == class_label new && not (opted_in old))
          || not (opted_in new) && opted_in old)
    || nil_replicas old new && (opted_in new && class_label old == class_label new)

asses_replica_change_lem :
    (old new : Object)
    → asses_replica_change old new
      ≡ (if nil_replicas old new then none else some (replicas_changed old new))
unfolding asses_replica_change replicas_of
asses_replica_change_lem old new = ground arith

module _ (old new : Object) where
  generate-panics : generate_opt_in_label_update_event new (opted_in new) (opted_in old) ≡ (
      if is_redis_cluster new.kind
        && (opted_in new && not (opted_in old) || not (opted_in new) && opted_in old)
      then none
      else some (opt_in_events old new))
  unfolding generate_opt_in_label_update_event
  generate-panics = ground arith

module _ {Q : Type 0} (same_map : Map Text → Map Text → Bool) (old new : Object)
    (denylist : List (ScalingInfo Q)) where
  -- The whole of UpdateFunc.
  abbrev ends : Bool → Option (Updated Q)
  ends true = none
  ends false = some (
      if not (class_label old == class_label new) && opted_in new
      then record { passes = true; denylist = denylist; events = [] }
      else if opted_in new
      then record {
        passes =
            update_opted_in (replicas_changed old new) (assess_annotation_change same_map old new)
              new (opted_in old) denylist;
        denylist = denylist;
        events = opt_in_events old new;
      }
      else if is_being_scaled (key_item new) denylist
      then record {
        passes = false;
        denylist = update_or_append (stopped new) denylist;
        events = opt_in_events old new;
      }
      else record { passes = false; denylist = denylist; events = opt_in_events old new })

  update_func-ends : update_func same_map old new denylist ≡ ends (crashes old new)
  unfolding update_func update_rest set_scaling_item neg
  update_func-ends = ground (arith, generate-panics old new, asses_replica_change_lem old new)

  -- UpdateFunc panics just for a RedisCluster that opts out, or opts in with the class it had, and for
  -- a Deployment that is opted in, with the class it had, and has nil replicas before or after.
  pub update_func-panics : (update_func same_map old new denylist ≡ none) ↔ (crashes old new ≡ true)
  update_func-panics = ((λ h. ground (arith, h, update_func-ends)), (λ h. rw (update_func-ends, h)))

  -- Where UpdateFunc does not panic, an update of an object that is not opted in is never let
  -- through. If the object is being scaled then, its entry on the deny list is put in failure with -1
  -- desired replicas; else the deny list stays. There is an event just if it was opted in before.
  pub update_func-opted_out :
      crashes old new ≡ false
      → opted_in new ≡ false
      → (after : Updated Q) × (update_func same_map old new denylist ≡ some after)
        × (after.passes ≡ false)
        × (after.events ≡ opt_in_events old new)
        × ((name namespace : Text)
            → find name namespace after.denylist ≡ (
                if is_being_scaled (key_item new) denylist
                  && (name == new.name && namespace == new.namespace)
                then some (stopped new)
                else find name namespace denylist))
  update_func-opted_out fine out = elim (Bool-cases (is_being_scaled (key_item new) denylist)) [
    | inl scaled ↦ (
      record {
        passes = false;
        denylist = update_or_append (stopped new) denylist;
        events = opt_in_events old new;
      },
      ground (arith, update_func-ends),
      refl,
      refl,
      (λ name namespace. rw scaled (find-update_or_append name namespace (stopped new) denylist)),
    )
    | inr idle ↦ (
      record { passes = false; denylist = denylist; events = opt_in_events old new },
      ground (arith, update_func-ends),
      refl,
      refl,
      (λ name namespace. rw idle),
    )
  ]

  -- Where UpdateFunc does not panic, an update of an opted-in object leaves the deny list as it is.
  -- It is let through where the class changed, without an event; where not, just if the object is not
  -- in failure, no scaling of it runs unless an annotation of the scaler changed too, and such an
  -- annotation, the replicas or the opt-in changed; with an event just if it was not opted in before.
  pub update_func-opted_in :
      crashes old new ≡ false
      → opted_in new ≡ true
      → let changed = assess_annotation_change same_map old new in
        let same = class_label old == class_label new in
        update_func same_map old new denylist
        ≡ some (record {
          passes =
              not same
              || (not (is_deployment_in_failure_state (key_item new) denylist)
                  && (changed
                      || (not (is_being_scaled (key_item new) denylist)
                          && (replicas_changed old new || not (opted_in old)))));
          denylist = denylist;
          events = if same then opt_in_events old new else [];
        })
  unfolding update_opted_in
  update_func-opted_in fine opted = ground (arith, update_func-ends)

-- The deletion of an object takes it off the deny list, which keeps every other entry, and is not
-- let through; the list has distinct keys before and after, and there is no panic.
pub delete_func_lem :
    {Q : Type 0} (early : ℕ → Bool) (object : Object) (denylist : List (ScalingInfo Q))
    → UniqueItems denylist
    → (rest : List (ScalingInfo Q)) × (delete_func early object denylist ≡ (false, some rest))
      × ((name namespace : Text)
          → find name namespace rest ≡ (
              if name == object.name && namespace == object.namespace
              then none
              else find name namespace denylist))
      × UniqueItems rest
unfolding delete_func
delete_func_lem early object denylist u =
    elim (Bool-cases (is_in_concurrent_list (key_item object) denylist)) [
      | inl here ↦
          let (rest, e, finds, u') = find-remove_from_list early (key_item object) denylist u in
          (rest, rw (here, e), finds, u')
      | inr absent ↦ (
        denylist,
        rw absent,
        (λ name namespace. ground (
          arith,
          absent,
          is_in_concurrent_list-find (key_item object) denylist,
          ==_iff name object.name,
          ==_iff namespace object.namespace,
        )),
        u,
      )
    ]
