-- ===== src/States/Classes.antt =====
-- The class of a workload, and the state that it gets.
use pre_scaling_operator.Common.{
  ◌≡◌, refl, ◌≢◌, true, false, arith, ==_iff, ◌==◌, if◌then◌else◌, Text, List, [], ◌∷◌, ◌++◌, ok,
  err, plain, bytes,
}
use pre_scaling_operator.Api.{ClusterScalingState}
use pre_scaling_operator.Global.{State, ScalingInfo}
use pre_scaling_operator.States.{
  find_state, find_scaling_class_on_cluster_scaling_state,
  get_applied_scaling_class_from_cluster_scaling_state, get_applied_scaling_class_from_scaling_item,
  get_applied_state_and_class_on_item, find_priority_state, recovered, get_applied_class,
}

abbrev pub class_of : ClusterScalingState → Text
class_of = get_applied_scaling_class_from_cluster_scaling_state

-- No ClusterScalingState of the list is of the class.
abbrev pub Unclassed : Text → List ClusterScalingState → Type 0
Unclassed class [] = Unit
Unclassed class (css ∷ items) = (class_of css ≢ class) × Unclassed class items

-- The first ClusterScalingState of a class decides, whatever follows: the class comes with the
-- state that it names, and there is an error where that state is not defined.
pub find_scaling_class-first :
    (pre : List ClusterScalingState) (css : ClusterScalingState) (post : List ClusterScalingState)
    (definitions : List State)
    → Unclassed (class_of css) pre
    → find_scaling_class_on_cluster_scaling_state (class_of css) (pre ++ css ∷ post) definitions
      ≡ elim (find_state css.spec.state definitions) [
        | ok state ↦ ok (class_of css, state)
        | err e ↦ err (
            plain (
              bytes "The state "
              ++ (css.spec.state ++ bytes " was not found on the ClusterStateDefinitions")))
      ]
unfolding find_scaling_class_on_cluster_scaling_state
find_scaling_class-first [] css post definitions u =
    ground (arith, ==_iff (class_of css) (class_of css))
find_scaling_class-first (p ∷ pre) css post definitions u = ground (
  arith,
  ==_iff (class_of p) (class_of css),
  find_scaling_class-first pre css post definitions u.1,
)

find_scaling_class-Unclassed :
    (class : Text) (items : List ClusterScalingState) (definitions : List State)
    → Unclassed class items
    → find_scaling_class_on_cluster_scaling_state class items definitions
      ≡ err (
          plain (
            bytes "The scalingClass "
            ++ (class ++ bytes " was not found in any clusterscalingstate!")))
unfolding find_scaling_class_on_cluster_scaling_state
find_scaling_class-Unclassed class [] definitions u = refl
find_scaling_class-Unclassed class (css ∷ items) definitions u =
    ground
      (arith, ==_iff (class_of css) class, find_scaling_class-Unclassed class items definitions u.1)

module _ {Q : Type 0} where
  -- A workload of a class gets the class, the state of the first ClusterScalingState of the class,
  -- where that is defined, and as its own state the name of the one that has priority among that
  -- and the namespace's; a failure is taken back just if that name is not empty. Its replicas and
  -- its key stay.
  pub get_applied_state-classed :
      (item : ScalingInfo Q) (namespace_state s : State) (pre : List ClusterScalingState)
      (css : ClusterScalingState) (post : List ClusterScalingState) (definitions : List State)
      → get_applied_scaling_class_from_scaling_item item ≡ class_of css
      → Unclassed (class_of css) pre
      → find_state css.spec.state definitions ≡ ok s
      → let r =
          get_applied_state_and_class_on_item item namespace_state
            (pre ++ css ∷ post)
            definitions in
        (r.scaling_class ≡ class_of css)
        × (r.cluster_class_state ≡ s)
        × (r.state ≡ (find_priority_state namespace_state s).name)
        × (r.failure ≡ (if r.state == [] then item.failure else false))
        × (r.spec_replica ≡ item.spec_replica)
        × (r.desired_replicas ≡ item.desired_replicas)
        × (r.name ≡ item.name)
        × (r.namespace ≡ item.namespace)
  unfolding get_applied_state_and_class_on_item
  get_applied_state-classed item namespace_state s pre css post definitions c u d =
      ground (arith, find_scaling_class-first pre css post definitions u, c)

  -- A workload whose class has no ClusterScalingState keeps its class and its class's state; it is
  -- in failure just if the state that it gets is empty.
  pub get_applied_state-Unclassed :
      (item : ScalingInfo Q) (namespace_state : State) (items : List ClusterScalingState)
      (definitions : List State)
      → Unclassed (get_applied_scaling_class_from_scaling_item item) items
      → let r = get_applied_state_and_class_on_item item namespace_state items definitions in
        (r.scaling_class ≡ item.scaling_class)
        × (r.cluster_class_state ≡ item.cluster_class_state)
        × (r.state ≡ (find_priority_state namespace_state item.cluster_class_state).name)
        × (r.failure ≡ r.state == [])
  unfolding get_applied_state_and_class_on_item
  get_applied_state-Unclassed item namespace_state items definitions u = ground (
    arith,
    find_scaling_class-Unclassed (get_applied_scaling_class_from_scaling_item item) items
        definitions u,
  )

  recovered_lem :
      (item : ScalingInfo Q)
      → (recovered item).state ≢ []
      → ((recovered item).failure ≡ false)
        × ((recovered item).spec_replica ≡ item.spec_replica)
        × (item.failure ≡ true → (recovered item).failure_message ≡ [])
  unfolding recovered
  recovered_lem item h = ground (arith, ==_iff item.state [])

  -- Whatever was wrong with a workload before, it is not in failure once a state was found for it.
  pub failure_needs_no_state :
      (item : ScalingInfo Q) (namespace_state : State) (items : List ClusterScalingState)
      (definitions : List State)
      → (get_applied_state_and_class_on_item item namespace_state items definitions).state ≢ []
      → (get_applied_state_and_class_on_item item namespace_state items definitions).failure ≡ false
  unfolding get_applied_state_and_class_on_item
  failure_needs_no_state item namespace_state items definitions h = (recovered_lem _ h).0

-- The workload stays in its namespace.
pub get_applied_state-namespace :
    {Q : Type 0} (item : ScalingInfo Q) (state : State) (css : List ClusterScalingState)
    (definitions : List State)
    → (get_applied_state_and_class_on_item item state css definitions).namespace ≡ item.namespace
unfolding get_applied_state_and_class_on_item get_applied_class recovered
get_applied_state-namespace item state css definitions = ground arith
