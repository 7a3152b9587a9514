-- ===== src/States.antt =====
-- internal/states/scaling_states.go: the state that applies to a namespace and to a workload.
pub mod Priority
pub mod Resolve
pub mod Classes
use pre_scaling_operator.Common.{
  ℕ, ℤ, pos, Text, bytes, ◌==◌, Map, lookup, Bool, true, false, ◌&&◌, not, Option, none, some, List,
  [], ◌∷◌, map, length, ltb_ℤ, eqb_ℤ, parse_bool, bool_or_false, or_default, if◌then◌else◌, ◌++◌,
}
use pre_scaling_operator.Common.{Error, not_found, too_many, plain, message, Result, ok, err, ◌>>=◌}
use pre_scaling_operator.Annotations.{filter_by_key_prefix}
use pre_scaling_operator.Api.{ClusterScalingStateDefinition, ClusterScalingState, ScalingState}
use pre_scaling_operator.Global.{State, ScalingInfo, no_state}

-- What the Kubernetes client answers when it lists the operator's own resources.
pub record Client : Type 0 where
  pub scaling_states : Text → Result (List ScalingState)  -- of a namespace
  pub cluster_scaling_states : Result (List ClusterScalingState)
  pub definitions : Result (List ClusterScalingStateDefinition)

-- a == b on states
unfoldable pub eq_state : State → State → Bool
eq_state a b = a.name == b.name && eqb_ℤ a.priority b.priority

unfoldable pub get_prioritised_state : State → State → State
unfolding eq_state
get_prioritised_state a b =
    if eq_state a no_state
    then b
    else if eq_state b no_state
    then a
    else if ltb_ℤ a.priority b.priority
    then a
    else b

unfoldable pub find_state : Text → List State → Result State
find_state name [] = err (not_found (bytes "Could not find state: " ++ name))
find_state name (state ∷ states) = if state.name == name then ok state else find_state name states

unfoldable pub find_priority_state : State → State → State
unfolding get_prioritised_state
find_priority_state a b = get_prioritised_state a b

-- The items of a list that must hold exactly one.
only_scaling_state : List ScalingState → Result Text
only_scaling_state [] = err (not_found [])
only_scaling_state (item ∷ []) = ok item.spec.state
only_scaling_state (item ∷ (item' ∷ items)) = err (
    too_many (bytes "Too many ScalingState objects found in namespace")
      (length (item ∷ (item' ∷ items))))

unfoldable pub get_namespace_scaling_state_name : Client → Text → Result Text
unfolding only_scaling_state
get_namespace_scaling_state_name client namespace = do
  items ← client.scaling_states namespace
  only_scaling_state items

-- The error of client.List is dropped here, and the list stays empty.
abbrev pub items_or_none {ℓ} : {A : Type ℓ} → Result (List A) → List A
items_or_none (ok items) = items
items_or_none (err e) = []

only_definition : List ClusterScalingStateDefinition → Result (List ClusterScalingStateDefinition)
only_definition [] = err (not_found (bytes "No cluster state definitions found"))
only_definition (item ∷ []) = ok (item ∷ [])
only_definition (item ∷ (item' ∷ items)) =
    err (too_many (bytes "Too many cluster states found") (length (item ∷ (item' ∷ items))))

unfoldable pub get_cluster_scaling_state_definitions_list :
    Client → Result (List ClusterScalingStateDefinition)
unfolding only_definition
get_cluster_scaling_state_definitions_list client =
    only_definition (items_or_none client.definitions)

-- The states of cssd.Items[0].Spec.
states_of_first : List ClusterScalingStateDefinition → List State
states_of_first [] = []
states_of_first (item ∷ items) =
    map (λ s. record { name = s.name; priority = s.priority }) item.spec

unfoldable pub get_cluster_scaling_states : Client → Result (List State)
unfolding get_cluster_scaling_state_definitions_list states_of_first
get_cluster_scaling_states client = do
  cssd ← get_cluster_scaling_state_definitions_list client
  ok (states_of_first cssd)

only_cluster_scaling_state : List ClusterScalingState → Result Text
only_cluster_scaling_state [] = err (not_found (bytes "No ClusterScalingState objects found."))
only_cluster_scaling_state (item ∷ []) = ok item.spec.state
only_cluster_scaling_state (item ∷ (item' ∷ items)) =
    err (too_many (bytes "Too many ClusterScalingState objects found.") 0)

unfoldable pub get_cluster_scaling_state : Client → Result Text
unfolding only_cluster_scaling_state
get_cluster_scaling_state client =
    only_cluster_scaling_state (items_or_none client.cluster_scaling_states)

-- The state with the name, or State{} where the name is empty or not defined.
unfoldable pub state_named : Text → List State → State
unfolding find_state
state_named name definitions =
    if not (name == [])
    then elim (find_state name definitions) [ ok state ↦ state | err e ↦ no_state ]
    else no_state

-- A name that was not found, or found too often, counts as none.
state_of_name : Result Text → (Error → Error) → List State → Result State
unfolding state_named
state_of_name (ok name) other definitions = ok (state_named name definitions)
state_of_name (err (not_found msg)) other definitions = ok (state_named [] definitions)
state_of_name (err (too_many msg count)) other definitions = ok (state_named [] definitions)
state_of_name (err (plain msg)) other definitions = err (other (plain msg))

unfoldable pub fetch_cluster_state : Client → List State → Result State
unfolding get_cluster_scaling_state state_of_name
fetch_cluster_state client definitions =
    state_of_name (get_cluster_scaling_state client)
      (λ e. plain (bytes "could not retrieve cluster states")) definitions

unfoldable pub fetch_namespace_state : Client → List State → Text → Result State
unfolding get_namespace_scaling_state_name state_of_name
fetch_namespace_state client definitions namespace =
    state_of_name (get_namespace_scaling_state_name client namespace) (λ e. e) definitions

-- The cluster state that was passed in, or else the one on the cluster.
cluster_state_or_fetch : Client → List State → State → Result State
unfolding eq_state fetch_cluster_state
cluster_state_or_fetch client definitions cluster_state =
    if eq_state cluster_state no_state
    then fetch_cluster_state client definitions
    else ok cluster_state

unfoldable pub get_applied_state_old : Client → Text → List State → State → Result State
unfolding cluster_state_or_fetch fetch_namespace_state find_priority_state
get_applied_state_old client namespace definitions passed_in = do
  cluster_state ← cluster_state_or_fetch client definitions passed_in
  namespace_state ← fetch_namespace_state client definitions namespace
  if eq_state namespace_state no_state && eq_state cluster_state no_state
      then err (plain (bytes "no clusterstate or namespace state found!"))
      else ok (find_priority_state namespace_state cluster_state)

module _ {Q : Type 0} where
  unfoldable pub get_rapid_scaling_setting : ScalingInfo Q → Bool
  unfolding filter_by_key_prefix
  get_rapid_scaling_setting item =
      let scaling_annotation = filter_by_key_prefix (bytes "scaler/rapid-") item.annotations in
      if item.item_type_name == bytes "RedisCluster" then true else elim scaling_annotation [
        | [] ↦ false
        | a ∷ rest ↦
            bool_or_false
              (parse_bool (or_default [] (lookup (bytes "scaler/rapid-scaling") (a ∷ rest))))
      ]

  -- ScalingClass is a name.
  unfoldable pub get_applied_scaling_class_from_scaling_item : ScalingInfo Q → Text
  get_applied_scaling_class_from_scaling_item item =
      let class = or_default [] (lookup (bytes "scaler/scaling-class") item.labels) in
      if class == [] then bytes "default" else class

unfoldable pub get_applied_scaling_class_from_cluster_scaling_state : ClusterScalingState → Text
get_applied_scaling_class_from_cluster_scaling_state css =
    if css.spec.scaling_class == [] then bytes "default" else css.spec.scaling_class

-- The class and the state of the first ClusterScalingState of the class.
unfoldable pub find_scaling_class_on_cluster_scaling_state :
    Text → List ClusterScalingState → List State → Result (Text × State)
unfolding find_state get_applied_scaling_class_from_cluster_scaling_state
find_scaling_class_on_cluster_scaling_state class [] definitions = err (
    plain
      (bytes "The scalingClass " ++ (class ++ bytes " was not found in any clusterscalingstate!")))
find_scaling_class_on_cluster_scaling_state class (css ∷ items) definitions =
    if get_applied_scaling_class_from_cluster_scaling_state css == class
    then elim (find_state css.spec.state definitions) [
      | ok state ↦ ok (class, state)
      | err e ↦ err (
          plain (
            bytes "The state "
            ++ (css.spec.state ++ bytes " was not found on the ClusterStateDefinitions")))
    ]
    else find_scaling_class_on_cluster_scaling_state class items definitions

module _ {Q : Type 0} where
  unfoldable pub get_applied_class :
      List ClusterScalingState → List State → ScalingInfo Q → ScalingInfo Q
  unfolding find_scaling_class_on_cluster_scaling_state get_applied_scaling_class_from_scaling_item
      message
  get_applied_class items definitions item =
      elim (find_scaling_class_on_cluster_scaling_state
        (get_applied_scaling_class_from_scaling_item item) items definitions) [
          | ok (final_class, state) ↦ record item {
            cluster_class_state = state;
            scaling_class = final_class;
          }
          | err e ↦ record item { failure = true; failure_message = message e }
        ]

  -- A failure is taken back where a state was found.
  recovered : ScalingInfo Q → ScalingInfo Q
  recovered item =
      if not (item.state == []) && item.failure
      then record item { failure = false; failure_message = [] }
      else item

  unfoldable pub get_applied_state_and_class_on_item :
      ScalingInfo Q → State → List ClusterScalingState → List State → ScalingInfo Q
  unfolding get_applied_class find_priority_state recovered
  get_applied_state_and_class_on_item item namespace_state items definitions =
      let classed = get_applied_class items definitions item in
      recovered (record classed {
        state = (find_priority_state namespace_state classed.cluster_class_state).name;
      })

  unfoldable pub get_applied_states_on_items :
      State → List ClusterScalingState → List State → List (ScalingInfo Q) → List (ScalingInfo Q)
  unfolding get_applied_state_and_class_on_item
  get_applied_states_on_items namespace_state css definitions =
      map (λ item. get_applied_state_and_class_on_item item namespace_state css definitions)
