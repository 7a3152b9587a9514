-- ===== src/StateReplicas.antt =====
-- internal/state_replicas/state_replicas.go: how many replicas a workload wants in each state, as
-- its annotations say.
pub mod Annotated
pub mod Panics
use pre_scaling_operator.Common.{
  ℕ, ◌+◌, ◌-◌, ℤ, int32, Text, bytes, ◌==◌, ◌++◌, Map, Option, none, some, List, [], ◌∷◌, length,
  take, drop, leb, atoi, if◌then◌else◌, Error, plain, Result, ok, err,
}
use pre_scaling_operator.Annotations.{filter_by_key_prefix}

abbrev pub state_replica_annotation_prefix : Text
state_replica_annotation_prefix = bytes "scaler/state-"

abbrev pub replicas_suffix : Text
replicas_suffix = bytes "-replicas"

pub record StateReplica : Type 0 where
  pub name : Text
  pub replicas : ℤ  -- int32

-- StateReplicas is the slice of its states.
abbrev pub StateReplicas : Type 0
StateReplicas = List StateReplica

unfoldable pub add : StateReplica → StateReplicas → StateReplicas
add replica states = states ++ replica ∷ []

unfoldable pub get_state : Text → StateReplicas → Result StateReplica
get_state name [] = err (plain (bytes "Could not find state: " ++ name))
get_state name (state ∷ states) = if state.name == name then ok state else get_state name states

-- key[len(prefix) : len(key)-len("-replicas")]; `none` is the panic where the ends cross.
unfoldable pub state_name : Text → Option Text
state_name key =
    let low = length state_replica_annotation_prefix in
    let suffix = length replicas_suffix in
    if leb (low + suffix) (length key)
    then some (take (length key - suffix - low) (drop low key))
    else none

-- The loop over the annotations that have the prefix; `none` is a panic.
unfoldable pub add_states : Map Text → StateReplicas → Option (Result StateReplicas)
unfolding state_name add
add_states [] state_replicas = some (ok state_replicas)
add_states ((key, value) ∷ states) state_replicas = elim (state_name key) [
  | none ↦ none
  | some name ↦ elim (atoi value) [
    | none ↦ some (err (plain (bytes "replica count in annotation is not a valid integer")))
    | some replicas ↦
        add_states states (add (record { name = name; replicas = int32 replicas }) state_replicas)
  ]
]

unfoldable pub new_state_replicas_from_annotations : Map Text → Option (Result StateReplicas)
unfolding filter_by_key_prefix add_states
new_state_replicas_from_annotations annotations =
    add_states (filter_by_key_prefix state_replica_annotation_prefix annotations) []
