-- ===== src/Validations.antt =====
-- internal/validations: which events of workloads the operator looks at, and the opt-in label.
pub mod Filter
pub mod Discovery
use pre_scaling_operator.Common.{
  ℕ, ℤ, neg, pos, Text, bytes, ◌==◌, Map, lookup, Bool, true, false, not, ◌&&◌, ◌||◌, Option, none,
  some, List, [], ◌∷◌, ◌++◌, ltb, eqb_ℤ, parse_bool, bool_or_false, if◌then◌else◌, Error, plain,
  Result, ok, err,
}
use pre_scaling_operator.Annotations.{
  filter_by_key_prefix, get_label_value_bool, get_label_value_string,
}
use pre_scaling_operator.Global.{ScalingInfo, no_item}
use pre_scaling_operator.Global.Denylist.{
  is_being_scaled, is_in_concurrent_list, is_deployment_in_failure_state, set_scaling_item,
  remove_from_list,
}

abbrev pub label_not_found : Text
label_not_found = bytes "opt-in label was not found"

abbrev pub opt_in_label : Text
opt_in_label = bytes "scaler/opt-in"

-- strconv's error for a text that is no Boolean; the text is quoted without escapes.
unfoldable pub syntax_error : Text → Error
syntax_error v = plain (bytes "strconv.ParseBool: parsing \"" ++ (v ++ bytes "\": invalid syntax"))

-- The value of the label with the error of its parsing; constants.OptInLabel has one key.
unfoldable pub optin_label_exists : Map Text → Bool × Option Error
unfolding syntax_error
optin_label_exists labels = elim (lookup opt_in_label labels) [
  | none ↦ (false, some (plain label_not_found))
  | some v ↦ elim (parse_bool v) [ none ↦ (false, some (syntax_error v)) | some b ↦ (b, none) ]
]

-- The Go type of the object of an event; a watcher sees objects of one type alone.
pub data Kind : Type 0 where
  deployment : Kind
  deployment_config : Kind
  redis_cluster : Kind

-- What an event shows of an object.
pub record Object : Type 0 where
  pub kind : Kind
  pub name : Text
  pub namespace : Text
  pub labels : Map Text
  pub annotations : Map Text
  pub replicas : Option ℤ  -- Spec.Replicas, nil as `none`

-- `same_map` is reflect.DeepEqual on two maps of strings.
unfoldable pub assess_annotation_change : (Map Text → Map Text → Bool) → Object → Object → Bool
assess_annotation_change same_map old new = not (
    same_map (filter_by_key_prefix (bytes "scaler") new.annotations)
      (filter_by_key_prefix (bytes "scaler") old.annotations))

-- Spec.Replicas read by its Go type: a pointer for a Deployment, else a number, 0 where it is left out.
unfoldable pub replicas_of : Kind → Option ℤ → Option ℤ
replicas_of deployment replicas = replicas
replicas_of deployment_config none = some (pos 0)
replicas_of deployment_config (some n) = some n
replicas_of redis_cluster none = some (pos 0)
replicas_of redis_cluster (some n) = some n

abbrev differ : Option ℤ → Option ℤ → Option Bool
differ none new = none
differ (some n) none = none
differ (some n) (some m) = some (not (eqb_ℤ n m))

-- `none` is the panic of a nil pointer.
unfoldable pub asses_replica_change : Object → Object → Option Bool
unfolding replicas_of
asses_replica_change old new =
    differ (replicas_of new.kind old.replicas) (replicas_of new.kind new.replicas)

-- An event of the recorder on an object: that it has just opted in, or out.
pub record OptInEvent : Type 0 where
  pub object : Object
  pub opts_in : Bool

-- `none` is the panic of the type assertion to a Deployment.
unfoldable pub generate_opt_in_label_update_event : Object → Bool → Bool → Option (List OptInEvent)
generate_opt_in_label_update_event new newoptin oldoptin =
    if newoptin && oldoptin || not newoptin && not oldoptin then some [] else elim new.kind [
      | deployment_config ↦ some (record { object = new; opts_in = newoptin } ∷ [])
      | deployment ↦ some (record { object = new; opts_in = newoptin } ∷ [])
      | redis_cluster ↦ none
    ]

-- Each of the three types has its branch, and they record the same event.
unfoldable pub generate_opt_in_label_create_event : Object → OptInEvent
generate_opt_in_label_create_event object = record { object = object; opts_in = true }

-- How UpdateFunc ends: whether the event is let through, the deny list and the recorded events.
pub record Updated (Q : Type 0) : Type 0 where
  pub passes : Bool
  pub denylist : List (ScalingInfo Q)
  pub events : List OptInEvent

module _ {Q : Type 0} where
  -- The item that stands for an object on the deny list.
  abbrev pub key_item : Object → ScalingInfo Q
  key_item o = record no_item { name = o.name; namespace = o.namespace }

  -- The decision of UpdateFunc for an object that is opted in, after the class was compared.
  update_opted_in : Bool → Bool → Object → Bool → List (ScalingInfo Q) → Bool
  update_opted_in replicachange annotationchange new oldoptin denylist =
      if is_deployment_in_failure_state (key_item new) denylist
      then false
      else if is_being_scaled (key_item new) denylist && not annotationchange
      then false
      else if not annotationchange && not replicachange && oldoptin
      then false
      else true

  -- What UpdateFunc does after the event of the opt-in label; `none` is a panic.
  update_rest :
      (Map Text → Map Text → Bool)
      → Object
      → Object
      → Bool
      → Bool
      → List (ScalingInfo Q)
      → List OptInEvent
      → Option (Updated Q)
  unfolding update_opted_in assess_annotation_change asses_replica_change
  update_rest same_map old new oldoptin newoptin denylist events =
      if newoptin
      then elim (asses_replica_change old new) [
        | none ↦ none
        | some replicachange ↦ some (record {
          passes =
              update_opted_in replicachange (assess_annotation_change same_map old new) new oldoptin
                denylist;
          denylist = denylist;
          events = events;
        })
      ]
      else if is_being_scaled (key_item new) denylist
      then some (record {
        passes = false;
        denylist =
            (set_scaling_item (key_item new) true (bytes "Opt-In is false!") (neg (pos 1))
              denylist).1;
        events = events;
      })
      else some (record { passes = false; denylist = denylist; events = events })

  -- PreFilter's UpdateFunc; `none` is a panic.
  unfoldable pub update_func :
      (Map Text → Map Text → Bool) → Object → Object → List (ScalingInfo Q) → Option (Updated Q)
  unfolding update_rest generate_opt_in_label_update_event
  update_func same_map old new denylist =
      let oldoptin = get_label_value_bool old.labels opt_in_label in
      let newoptin = get_label_value_bool new.labels opt_in_label in
      let oldclass = get_label_value_string old.labels (bytes "scaler/scaling-class") in
      let newclass = get_label_value_string new.labels (bytes "scaler/scaling-class") in
      if not (oldclass == newclass) && newoptin
      then some (record { passes = true; denylist = denylist; events = [] })
      else elim (generate_opt_in_label_update_event new newoptin oldoptin) [
        | none ↦ none
        | some events ↦ update_rest same_map old new oldoptin newoptin denylist events
      ]

  -- PreFilter's DeleteFunc: the deny list afterwards; the decision is always false. `none` is a panic.
  unfoldable pub delete_func :
      (ℕ → Bool) → Object → List (ScalingInfo Q) → Bool × Option (List (ScalingInfo Q))
  delete_func early object denylist =
      if is_in_concurrent_list (key_item object) denylist
      then (false, remove_from_list early (key_item object) denylist)
      else (false, some denylist)

-- PreFilter's CreateFunc, the whole seconds since the start given, with the recorded events.
unfoldable pub create_func : ℕ → Object → Bool × List OptInEvent
unfolding generate_opt_in_label_create_event
create_func uptime object =
    let newoptin = get_label_value_bool object.labels opt_in_label in
    if ltb uptime 5
    then (false, [])
    else (newoptin, if newoptin then generate_opt_in_label_create_event object ∷ [] else [])

-- StartupFilter's CreateFunc.
unfoldable pub startup_filter : ℕ → Bool
startup_filter uptime = if ltb uptime 10 then false else true
