-- ===== src/StateReplicas/Panics.antt =====
-- Annotations that have the prefix of the states and end too early.
use pre_scaling_operator.Common.{
  ◌<◌, ℤ, Text, ◌==◌, ==_iff, ==_refl, Map, lookup, UniqueKeys, none, some, [], ◌∷◌, length, atoi,
  ◌≡◌, arith, true, has_prefix, Bool-cases, Option-cases, inl, inr,
}
use pre_scaling_operator.Annotations.{
  filter_by_key_prefix, lookup-filter_by_key_prefix, filter-UniqueKeys,
}
use pre_scaling_operator.StateReplicas.{
  StateReplicas, state_replica_annotation_prefix, state_name, add_states,
  new_state_replicas_from_annotations,
}

abbrev pub IsCount : Text → Type 0
IsCount value = (count : ℤ) × (atoi value ≡ some count)

abbrev AllCounts : Map Text → Type 0
AllCounts [] = Unit
AllCounts ((key, value) ∷ m) = IsCount value × AllCounts m

state_name_short : (key : Text) → length key < 22 → state_name key ≡ none
unfolding state_name
state_name_short key h = ground arith

add_states_short :
    (key value : Text) (m : Map Text) (before : StateReplicas)
    → state_name key ≡ none
    → add_states ((key, value) ∷ m) before ≡ none
unfolding add_states
add_states_short key value m before h = rw (h, add_states)

add_states_panics :
    (m : Map Text) (before : StateReplicas) (key value : Text)
    → AllCounts m
    → lookup key m ≡ some value
    → state_name key ≡ none
    → add_states m before ≡ none
unfolding lookup add_states
add_states_panics [] before key value all e short = ground (arith, e)
add_states_panics ((j, v) ∷ m) before key value ((count, a), all) e short =
    elim (Bool-cases (j == key)) [
      | inl hit ↦ rw ((==_iff j key).0 hit, short, add_states)
      | inr miss ↦
          let later : lookup key m ≡ some value = ground (arith, e, miss) in
          elim (Option-cases (state_name j)) [
            | inl n ↦ rw (n, add_states)
            | inr (name, n) ↦
                rw (n, add_states)
                  (rw (a, add_states) (add_states_panics m _ key value all later short))
          ]
    ]

AllCounts-lookup :
    (m : Map Text)
    → UniqueKeys m
    → ((key value : Text) → lookup key m ≡ some value → IsCount value)
    → AllCounts m
unfolding lookup
AllCounts-lookup [] u h = tt
AllCounts-lookup ((key, value) ∷ m) u h = (
  h key value (rw (==_refl key)),
  AllCounts-lookup m u.1 λ j v e. h j v (ground (arith, ==_iff key j, e, u.0)),
)

-- An annotation whose key has the prefix and is shorter than the prefix and the suffix together
-- makes the program panic, in whatever order the annotations are visited, if their keys are
-- distinct and those with the prefix are all integers.
pub new_state_replicas_panics :
    (annotations : Map Text) (key value : Text)
    → UniqueKeys annotations
    → ((j v : Text)
        → lookup j annotations ≡ some v
        → has_prefix j state_replica_annotation_prefix ≡ true
        → IsCount v)
    → lookup key annotations ≡ some value
    → has_prefix key state_replica_annotation_prefix ≡ true
    → length key < 22
    → new_state_replicas_from_annotations annotations ≡ none
unfolding new_state_replicas_from_annotations
new_state_replicas_panics annotations key value u counts e p short =
    let prefix = state_replica_annotation_prefix in
    let states = filter_by_key_prefix prefix annotations in
    let shown = λ (j : Text). lookup-filter_by_key_prefix prefix j annotations u in
    add_states_panics states [] key value
      (AllCounts-lookup states (filter-UniqueKeys prefix annotations) (λ j v f.
        elim (Bool-cases (has_prefix j prefix)) [
          | inl q ↦ counts j v (ground (arith, shown j, f, q)) q
          | inr n ↦ absurd (ground (arith, shown j, f, n))
        ]))
      (ground (arith, shown key, e, p)) (state_name_short key short)
