-- ===== src/States/Resolve.antt =====
-- What is read from the cluster as the state of a namespace.
use pre_scaling_operator.Common.{
  ◌≡◌, refl, ◌≢◌, ==_iff, ◌==◌, if◌then◌else◌, Text, List, [], ◌∷◌, ◌++◌, Result, ok, err, ◌>>=◌,
  ◌&&◌, Error, plain, not_found, too_many, bytes, Option, none, some, ◌⊎◌, inl, inr, ap, sym, subst,
  Bool-cases,
}
use pre_scaling_operator.Api.{ScalingState, ClusterScalingState}
use pre_scaling_operator.Global.{State, no_state}
use pre_scaling_operator.States.{
  Client, find_state, fetch_namespace_state, fetch_cluster_state, state_of_name, only_scaling_state,
  only_cluster_scaling_state, items_or_none, cluster_state_or_fetch, state_named,
  get_applied_state_old, get_prioritised_state, eq_state,
}

-- No state of the list has the name.
abbrev pub Undefined : Text → List State → Type 0
Undefined name [] = Unit
Undefined name (s ∷ states) = (s.name ≢ name) × Undefined name states

-- The one item of a list, if it has exactly one.
abbrev pub only {ℓ} : {A : Type ℓ} → List A → Option A
only [] = none
only (a ∷ []) = some a
only (a ∷ (b ∷ rest)) = none

abbrev pub state_of : Option ScalingState → List State → State
state_of none definitions = no_state
state_of (some s) definitions = state_named s.spec.state definitions

abbrev pub namespace_state_of : Result (List ScalingState) → List State → Result State
namespace_state_of (ok items) definitions = ok (state_of (only items) definitions)
namespace_state_of (err e) definitions = err e

-- The error is one of the client's, none of NotFound and TooMany.
abbrev pub IsExternal {ℓ} : {A : Type ℓ} → Result A → Type 0
IsExternal (ok a) = Unit
IsExternal (err (plain msg)) = Unit
IsExternal (err _) = ⊥

namespace_state_value :
    (r : Result (List ScalingState)) (definitions : List State)
    → IsExternal r
    → state_of_name (r >>= only_scaling_state) (λ e. e) definitions
      ≡ namespace_state_of r definitions
unfolding fetch_namespace_state state_named ◌==◌
namespace_state_value (ok []) definitions x = refl
namespace_state_value (ok (item ∷ [])) definitions x = refl
namespace_state_value (ok (item ∷ (item' ∷ items))) definitions x = refl
namespace_state_value (err (plain msg)) definitions x = refl
namespace_state_value (err (not_found msg)) definitions x = absurd x
namespace_state_value (err (too_many msg count)) definitions x = absurd x

abbrev pub cluster_state_of : Option ClusterScalingState → List State → State
cluster_state_of none definitions = no_state
cluster_state_of (some s) definitions = state_named s.spec.state definitions

cluster_state_value :
    (items : List ClusterScalingState) (definitions : List State) (other : Error → Error)
    → state_of_name (only_cluster_scaling_state items) other definitions
      ≡ ok (cluster_state_of (only items) definitions)
unfolding fetch_cluster_state state_named ◌==◌
cluster_state_value [] definitions other = refl
cluster_state_value (item ∷ []) definitions other = refl
cluster_state_value (item ∷ (item' ∷ items)) definitions other = refl

-- The fetch of the cluster's state never fails: it gives the definition that the one
-- ClusterScalingState names, and State{} where there is none, where there are several, where its
-- state is not defined and where the client could not list them.
pub fetch_cluster_state_total :
    (client : Client) (definitions : List State)
    → fetch_cluster_state client definitions
      ≡ ok (cluster_state_of (only (items_or_none client.cluster_scaling_states)) definitions)
unfolding fetch_cluster_state
fetch_cluster_state_total client definitions =
    cluster_state_value (items_or_none client.cluster_scaling_states) definitions _

-- The state is the first definition of the name; or it is State{}, and the name is empty or not
-- defined.
abbrev pub Names : Text → List State → State → Type 0
Names name definitions s =
    ((pre : List State) × (post : List State) × (definitions ≡ pre ++ s ∷ post)
      × (s.name ≡ name)
      × (name ≢ [])
      × Undefined name pre)
    ⊎ ((s ≡ no_state) × ((name ≡ []) ⊎ Undefined name definitions))

-- What FindState finds.
abbrev Found : Text → List State → Result State → Type 0
Found name definitions (ok s) =
    (pre : List State) × (post : List State) × (definitions ≡ pre ++ s ∷ post)
    × (s.name ≡ name)
    × Undefined name pre
Found name definitions (err e) = Undefined name definitions

Found-cons :
    (name : Text) (first : State) (definitions : List State) (r : Result State)
    → first.name ≢ name
    → Found name definitions r
    → Found name (first ∷ definitions) r
Found-cons name first definitions (ok s) other (pre, post, e, named, u) =
    (first ∷ pre, post, ap (λ l. first ∷ l) e, named, (other, u))
Found-cons name first definitions (err e) other u = (other, u)

find_state-Found :
    (name : Text) (definitions : List State) → Found name definitions (find_state name definitions)
unfolding find_state
find_state-Found name [] = tt
find_state-Found name (s ∷ definitions) = elim (Bool-cases (s.name == name)) [
  | inl same ↦ rw same ([], definitions, refl, (==_iff s.name name).0 same, tt)
  | inr other ↦ rw other (
      Found-cons name s definitions _ (λ e. cc (other, (==_iff s.name name).1 e))
        (find_state-Found name definitions))
]

state_named-Names :
    (name : Text) (definitions : List State) → Names name definitions (state_named name definitions)
unfolding state_named
state_named-Names name definitions = elim (Bool-cases (name == [])) [
  | inl none_given ↦ rw none_given (inr (refl, inl ((==_iff name []).0 none_given)))
  | inr given ↦ rw given (
      elim (find_state name definitions)
          as (λ r.
            Found name definitions r
            → Names name definitions (elim r [ ok state ↦ state | err e ↦ no_state ])) [
              | ok s ↦ λ (pre, post, e, named, u).
                  inl (pre, post, e, named, (λ n. cc (given, (==_iff name []).1 n)), u)
              | err e ↦ λ u. inr (refl, inr u)
            ]
        (find_state-Found name definitions))
]

-- What is fetched, by the answer of the client.
abbrev pub Fetches : Result (List ScalingState) → List State → Result State → Type 0
Fetches (err e) definitions r = r ≡ err e
Fetches (ok []) definitions r = r ≡ ok no_state
Fetches (ok (item ∷ [])) definitions r =
    (s : State) × (r ≡ ok s) × Names item.spec.state definitions s
Fetches (ok (item ∷ (item' ∷ items))) definitions r = r ≡ ok no_state

namespace_state-Fetches :
    (listed : Result (List ScalingState)) (definitions : List State)
    → Fetches listed definitions (namespace_state_of listed definitions)
namespace_state-Fetches (err e) definitions = refl
namespace_state-Fetches (ok []) definitions = refl
namespace_state-Fetches (ok (item ∷ [])) definitions =
    (state_named item.spec.state definitions, refl, state_named-Names item.spec.state definitions)
namespace_state-Fetches (ok (item ∷ (item' ∷ items))) definitions = refl

-- Where the errors of the client are none of the program's own NotFound and TooMany:
-- FetchNameSpaceState fails just where the client could not list the ScalingStates of the namespace,
-- with that error. It gives State{} where there is no ScalingState or there are several; where there
-- is one, it gives the first definition of the state that it names, and State{} where it names none
-- or one that is not defined.
pub fetch_namespace_state-Fetches :
    (client : Client) (definitions : List State) (namespace : Text)
    → IsExternal (client.scaling_states namespace)
    → Fetches
        (client.scaling_states namespace)
        definitions
        (fetch_namespace_state client definitions namespace)
unfolding fetch_namespace_state
fetch_namespace_state-Fetches client definitions namespace external =
    subst (Fetches (client.scaling_states namespace) definitions)
      (sym (namespace_state_value (client.scaling_states namespace) definitions external))
      (namespace_state-Fetches (client.scaling_states namespace) definitions)

-- What becomes of the two states in GetAppliedStateOld.
abbrev pub prioritised : State → State → Result State
prioritised namespace_state cluster_state =
    if eq_state namespace_state no_state && eq_state cluster_state no_state
    then err (plain (bytes "no clusterstate or namespace state found!"))
    else ok (get_prioritised_state namespace_state cluster_state)

cluster_state_or_fetch_none :
    (client : Client) (definitions : List State)
    → cluster_state_or_fetch client definitions no_state
      ≡ ok (cluster_state_of (only (items_or_none client.cluster_scaling_states)) definitions)
unfolding cluster_state_or_fetch ◌==◌
cluster_state_or_fetch_none client definitions = fetch_cluster_state_total client definitions

fetch_namespace_state_listed :
    (client : Client) (definitions : List State) (namespace : Text) (items : List ScalingState)
    → client.scaling_states namespace ≡ ok items
    → fetch_namespace_state client definitions namespace ≡ ok (state_of (only items) definitions)
unfolding fetch_namespace_state
fetch_namespace_state_listed client definitions namespace items e =
    rw e (namespace_state_value (ok items) definitions tt)

-- What follows the two fetches.
prioritised_value :
    (c n : Result State) (a b : State)
    → c ≡ ok a
    → n ≡ ok b
    → (c >>= λ cluster_state. n >>= λ namespace_state. prioritised namespace_state cluster_state)
      ≡ prioritised b a
prioritised_value c n a b p q = rw (p, q)

-- Where the client lists the ScalingStates of the namespace and no cluster state is passed in,
-- GetAppliedStateOld gives the one of the namespace's and the cluster's state that has priority,
-- and an error where there is neither.
pub get_applied_state_old_lem :
    (client : Client) (definitions : List State) (namespace : Text) (items : List ScalingState)
    → client.scaling_states namespace ≡ ok items
    → get_applied_state_old client namespace definitions no_state
      ≡ prioritised
          (state_of (only items) definitions)
          (cluster_state_of (only (items_or_none client.cluster_scaling_states)) definitions)
unfolding get_applied_state_old
get_applied_state_old_lem client definitions namespace items e =
    prioritised_value _ _ _ _ (cluster_state_or_fetch_none client definitions)
      (fetch_namespace_state_listed client definitions namespace items e)
