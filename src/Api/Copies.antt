-- ===== src/Api/Copies.antt =====
-- api/v1alpha1/zz_generated.deepcopy.go: the deep copies of the custom resources, with the arrays
-- behind their slices as a store. The metadata is the libraries', and copied by them.

pub mod Separate
use pre_scaling_operator.Common.{ℕ, Option, none, some, List, [], ◌∷◌, ◌++◌, length, get_elem?}
use pre_scaling_operator.Api.{StateDefinition, Config, ClusterScalingStateSpec, ScalingStateSpec}

-- The arrays of one type of elements, by their addresses.
abbrev pub Arrays : Type 0 → Type 0
Arrays A = List (List A)

-- A slice over the whole of an array; `none` is nil.
abbrev pub Slice : Type 0
Slice = Option ℕ

abbrev pub array_or_nil : {A : Type 0} → Option (List A) → List A
array_or_nil none = []
array_or_nil (some array) = array

-- make and copy: the array goes to a new address.
unfoldable pub copy_slice : {A : Type 0} → Slice → Arrays A → Slice × Arrays A
copy_slice none arrays = (none, arrays)
copy_slice (some address) arrays =
    (some (length arrays), arrays ++ array_or_nil (get_elem? arrays address) ∷ [])

-- `M` is the metadata of an object, `L` that of a list.
pub record StateObject (M : Type 0) : Type 0 where
  pub meta : M
  pub spec : ClusterScalingStateSpec
  pub config : Config

pub record NamespaceObject (M : Type 0) : Type 0 where
  pub meta : M
  pub spec : ScalingStateSpec
  pub config : Config

pub record DefinitionObject (M : Type 0) : Type 0 where
  pub meta : M
  pub spec : Slice  -- of StateDefinition
  pub config : Config

-- The items are a slice of objects.
pub record ObjectList (L : Type 0) : Type 0 where
  pub meta : L
  pub items : Slice

pub record Store (M : Type 0) : Type 0 where
  pub states : Arrays StateDefinition
  pub definitions : Arrays (DefinitionObject M)
  pub cluster_states : Arrays (StateObject M)
  pub scaling_states : Arrays (NamespaceObject M)

module _ {M L : Type 0} (copy_meta : M → M) (copy_list_meta : L → L) where
  -- DeepCopyInto of ClusterScalingState
  unfoldable pub copy_cluster_state : StateObject M → StateObject M
  copy_cluster_state object = record object { meta = copy_meta object.meta }

  -- DeepCopyInto of ScalingState
  unfoldable pub copy_scaling_state : NamespaceObject M → NamespaceObject M
  copy_scaling_state object = record object { meta = copy_meta object.meta }

  -- DeepCopyInto of ClusterScalingStateDefinition
  unfoldable pub copy_definition :
      DefinitionObject M → Arrays StateDefinition → DefinitionObject M × Arrays StateDefinition
  unfolding copy_slice
  copy_definition object states =
      let (spec, states') = copy_slice object.spec states in
      (record object { meta = copy_meta object.meta; spec = spec }, states')

  -- The loop of DeepCopyInto of ClusterScalingStateDefinitionList
  unfoldable pub copy_definitions :
      List (DefinitionObject M)
      → Arrays StateDefinition
      → List (DefinitionObject M) × Arrays StateDefinition
  unfolding copy_definition
  copy_definitions [] states = ([], states)
  copy_definitions (object ∷ objects) states =
      let (copied, states') = copy_definition object states in
      let (rest, states'') = copy_definitions objects states' in (copied ∷ rest, states'')

  -- DeepCopyInto of ClusterScalingStateDefinitionList
  unfoldable pub copy_definition_list : ObjectList L → Store M → ObjectList L × Store M
  unfolding copy_definitions
  copy_definition_list list store = elim list.items [
    | none ↦ (record list { meta = copy_list_meta list.meta }, store)
    | some address ↦
        let (copies, states) =
          copy_definitions (array_or_nil (get_elem? store.definitions address)) store.states in
        (
          record list { meta = copy_list_meta list.meta; items = some (length store.definitions) },
          record store { states = states; definitions = store.definitions ++ copies ∷ [] },
        )
  ]

  -- The loops of the two other lists, whose objects hold no slice.
  unfoldable pub copy_cluster_states : List (StateObject M) → List (StateObject M)
  unfolding copy_cluster_state
  copy_cluster_states [] = []
  copy_cluster_states (object ∷ objects) = copy_cluster_state object ∷ copy_cluster_states objects

  unfoldable pub copy_scaling_states : List (NamespaceObject M) → List (NamespaceObject M)
  unfolding copy_scaling_state
  copy_scaling_states [] = []
  copy_scaling_states (object ∷ objects) = copy_scaling_state object ∷ copy_scaling_states objects

  -- DeepCopyInto of ClusterScalingStateList
  unfoldable pub copy_cluster_state_list : ObjectList L → Store M → ObjectList L × Store M
  unfolding copy_cluster_states
  copy_cluster_state_list list store = elim list.items [
    | none ↦ (record list { meta = copy_list_meta list.meta }, store)
    | some address ↦
        let copies = copy_cluster_states (array_or_nil (get_elem? store.cluster_states address)) in
        (
          record list {
            meta = copy_list_meta list.meta;
            items = some (length store.cluster_states);
          },
          record store { cluster_states = store.cluster_states ++ copies ∷ [] },
        )
  ]

  -- DeepCopyInto of ScalingStateList
  unfoldable pub copy_scaling_state_list : ObjectList L → Store M → ObjectList L × Store M
  unfolding copy_scaling_states
  copy_scaling_state_list list store = elim list.items [
    | none ↦ (record list { meta = copy_list_meta list.meta }, store)
    | some address ↦
        let copies = copy_scaling_states (array_or_nil (get_elem? store.scaling_states address)) in
        (
          record list {
            meta = copy_list_meta list.meta;
            items = some (length store.scaling_states);
          },
          record store { scaling_states = store.scaling_states ++ copies ∷ [] },
        )
  ]

-- DeepCopy of a pointer: nil stays nil. DeepCopyObject is the same, as an interface.
unfoldable pub deep_copy : {A B : Type 0} → (A → B → A × B) → Option A → B → Option A × B
deep_copy copy none store = (none, store)
deep_copy copy (some object) store =
    let (copied, store') = copy object store in (some copied, store')

module _ {M L : Type 0} (copy_meta : M → M) (copy_list_meta : L → L) where
  unfoldable pub deep_copy_cluster_state :
      Option (StateObject M) → Store M → Option (StateObject M) × Store M
  unfolding deep_copy copy_cluster_state
  deep_copy_cluster_state =
      deep_copy (λ object store. (copy_cluster_state copy_meta copy_list_meta object, store))

  unfoldable pub deep_copy_scaling_state :
      Option (NamespaceObject M) → Store M → Option (NamespaceObject M) × Store M
  unfolding deep_copy copy_scaling_state
  deep_copy_scaling_state =
      deep_copy (λ object store. (copy_scaling_state copy_meta copy_list_meta object, store))

  unfoldable pub deep_copy_definition :
      Option (DefinitionObject M)
      → Arrays StateDefinition
      → Option (DefinitionObject M) × Arrays StateDefinition
  unfolding deep_copy copy_definition
  deep_copy_definition = deep_copy (copy_definition copy_meta copy_list_meta)

  unfoldable pub deep_copy_definition_list :
      Option (ObjectList L) → Store M → Option (ObjectList L) × Store M
  unfolding deep_copy copy_definition_list
  deep_copy_definition_list = deep_copy (copy_definition_list copy_meta copy_list_meta)

  unfoldable pub deep_copy_cluster_state_list :
      Option (ObjectList L) → Store M → Option (ObjectList L) × Store M
  unfolding deep_copy copy_cluster_state_list
  deep_copy_cluster_state_list = deep_copy (copy_cluster_state_list copy_meta copy_list_meta)

  unfoldable pub deep_copy_scaling_state_list :
      Option (ObjectList L) → Store M → Option (ObjectList L) × Store M
  unfolding deep_copy copy_scaling_state_list
  deep_copy_scaling_state_list = deep_copy (copy_scaling_state_list copy_meta copy_list_meta)
