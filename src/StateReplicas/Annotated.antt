-- ===== src/StateReplicas/Annotated.antt =====
-- The annotations `scaler/state-NAME-replicas: COUNT` are read back as they were written.
use mathlib.Core.Bool.{false≢true}
use mathlib.Core.List.{append_assoc, append-nil}
use pre_scaling_operator.Common.{
  ◌+◌, ◌-◌, ℤ, int32, Text, bytes, ◌==◌, ==_iff, ==_refl, ◌++◌, Map, lookup, UniqueKeys, Option,
  none, some, [], ◌∷◌, length, length-append, take, leb, atoi, plain, Result, ok, err, ◌≡◌, refl,
  ap, sym, ◌∙◌, arith, true, has_prefix, Bool-cases, inl, inr,
}
use pre_scaling_operator.Annotations.{
  filter_by_key_prefix, lookup-filter_by_key_prefix, filter-UniqueKeys,
}
use pre_scaling_operator.StateReplicas.{
  StateReplica, StateReplicas, state_replica_annotation_prefix, replicas_suffix, get_state,
  state_name, add_states, new_state_replicas_from_annotations,
}

-- The key of the annotation for a state.
abbrev pub key_of : Text → Text
key_of name = state_replica_annotation_prefix ++ (name ++ replicas_suffix)

take_name : (xs ys : Text) → take (length xs) (xs ++ ys) ≡ xs
take_name [] ys = refl
take_name (x ∷ xs) ys = ap (◌∷◌ x) (take_name xs ys)

length-key_of : (name : Text) → length (key_of name) ≡ length name + 22
length-key_of name = omega (arith, length-append name replicas_suffix)

-- The name that is cut out of the key is the state's.
pub state_name-key_of : (name : Text) → state_name (key_of name) ≡ some name
unfolding state_name
state_name-key_of name =
    let l = length-key_of name in
    let fits : leb 22 (length (key_of name)) ≡ true = ground (arith, l) in
    let cut : length (key_of name) - 9 - 13 ≡ length name = omega (arith, l) in
    rw fits (rw cut (ap some (take_name name replicas_suffix)))

pub key_of_injective : (a b : Text) → key_of a ≡ key_of b → a ≡ b
key_of_injective a b e = cc (state_name-key_of a, state_name-key_of b, ap state_name e)

-- A key and a count as a developer writes them.
abbrev pub IsEntry : Text → Text → Type 0
IsEntry key value = (name : Text) × (count : ℤ) × (key ≡ key_of name) × (atoi value ≡ some count)

abbrev AllEntries : Map Text → Type 0
AllEntries [] = Unit
AllEntries ((key, value) ∷ m) = IsEntry key value × AllEntries m

-- Each annotation with the prefix of the states is written so.
abbrev pub WellFormed : Map Text → Type 0
WellFormed annotations =
    (key value : Text)
    → lookup key annotations ≡ some value
    → has_prefix key state_replica_annotation_prefix ≡ true
    → IsEntry key value

-- What GetState gives for a name, from the annotation for the state.
abbrev pub wanted : Text → Option Text → Result StateReplica
wanted name none = err (plain (bytes "Could not find state: " ++ name))
wanted name (some value) = elim (atoi value) [
  | none ↦ err (plain (bytes "Could not find state: " ++ name))
  | some count ↦ ok (record { name = name; replicas = int32 count })
]

get_state-entry :
    (name name' : Text) (key value : Text) (count : ℤ) (rest : StateReplicas) (m : Map Text)
    → key ≡ key_of name'
    → atoi value ≡ some count
    → get_state name rest ≡ wanted name (lookup (key_of name) m)
    → get_state name (record { name = name'; replicas = int32 count } ∷ rest)
      ≡ wanted name (lookup (key_of name) ((key, value) ∷ m))
unfolding get_state lookup
get_state-entry name name' key value count rest m k a e = elim (Bool-cases (name' == name)) [
  | inl same ↦
      let s = (==_iff name' name).0 same in
      ground (arith, same, s, a, (==_iff key (key_of name)).1 (k ∙ ap key_of s))
  | inr other ↦ elim (Bool-cases (key == key_of name)) [
    | inl hit ↦
        let s = key_of_injective name' name (sym k ∙ (==_iff key (key_of name)).0 hit) in
        absurd (false≢true (sym other ∙ (==_iff name' name).1 s))
    | inr miss ↦ rw (other, miss) e
  ]
]

add_states-entry :
    (name key value : Text) (count : ℤ) (m : Map Text) (before : StateReplicas)
    → state_name key ≡ some name
    → atoi value ≡ some count
    → add_states ((key, value) ∷ m) before
      ≡ add_states m (before ++ record { name = name; replicas = int32 count } ∷ [])
unfolding add_states
add_states-entry name key value count m before n a = rw (n, add_states) (rw (a, add_states))

add_states_lem :
    (m : Map Text) (before : StateReplicas)
    → AllEntries m
    → (rs : StateReplicas) × (add_states m before ≡ some (ok (before ++ rs)))
      × ((name : Text) → get_state name rs ≡ wanted name (lookup (key_of name) m))
unfolding add_states
add_states_lem [] before all = ([], rw append-nil, λ name. unfold lookup get_state in refl)
add_states_lem ((key, value) ∷ m) before ((name', count, k, a), all) =
    let one : StateReplica = record { name = name'; replicas = int32 count } in
    let (rest, e, gets) = add_states_lem m (before ++ one ∷ []) all in
    (
      one ∷ rest,
      add_states-entry name' key value count m before (ap state_name k ∙ state_name-key_of name') a
          ∙ e
          ∙ ap (λ r. some (ok r)) (append_assoc before (one ∷ []) rest),
      λ name. get_state-entry name name' key value count rest m k a (gets name),
    )

AllEntries-lookup :
    (m : Map Text)
    → UniqueKeys m
    → ((key value : Text) → lookup key m ≡ some value → IsEntry key value)
    → AllEntries m
unfolding lookup
AllEntries-lookup [] u h = tt
AllEntries-lookup ((key, value) ∷ m) u h = (
  h key value (rw (==_refl key)),
  AllEntries-lookup m u.1 λ j v e. h j v (ground (arith, ==_iff key j, e, u.0)),
)

-- Where the keys of the annotations are distinct and those of the states are well formed, they
-- are read without an error or a panic, and then GetState gives for a state the count that the
-- annotation for it states, cut to 32 bits, and an error where there is no such annotation; no
-- other annotation matters.
pub new_state_replicas_lem :
    (annotations : Map Text)
    → UniqueKeys annotations
    → WellFormed annotations
    → (rs : StateReplicas) × (new_state_replicas_from_annotations annotations ≡ some (ok rs))
      × ((name : Text) → get_state name rs ≡ wanted name (lookup (key_of name) annotations))
unfolding new_state_replicas_from_annotations
new_state_replicas_lem annotations u w =
    let states = filter_by_key_prefix state_replica_annotation_prefix annotations in
    let shown = λ (key : Text).
      lookup-filter_by_key_prefix state_replica_annotation_prefix key annotations u in
    let all =
      AllEntries-lookup states (filter-UniqueKeys state_replica_annotation_prefix annotations)
        (λ key value e. elim (Bool-cases (has_prefix key state_replica_annotation_prefix)) [
          | inl p ↦ w key value (ground (arith, shown key, e, p)) p
          | inr n ↦ absurd (ground (arith, shown key, e, n))
        ]) in
    let (rs, e, gets) = add_states_lem states [] all in
    (
      rs,
      e,
      λ name. gets name ∙ ap (wanted name) (shown (key_of name) ∙ (unfold has_prefix in refl)),
    )
