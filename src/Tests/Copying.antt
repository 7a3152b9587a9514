-- ===== src/Tests/Copying.antt =====
-- A list of one definition, with one state.
use pre_scaling_operator.Common.{ℕ, pos, bytes, false, some, [], ◌∷◌, ◌≡◌, refl, arith}
use pre_scaling_operator.Api.{StateDefinition}
use pre_scaling_operator.Api.Copies.{
  DefinitionObject, ObjectList, Store, copy_slice, copy_definitions, copy_definition_list,
  deep_copy_definition_list,
}
use pre_scaling_operator.Api.Copies.Separate.{Separate, copy_definition_list-Separate}

abbrev peak_state : StateDefinition
peak_state = record { name = bytes "peak"; description = []; priority = pos 1 }

-- The metadata is a number here.
abbrev peak_object : DefinitionObject ℕ
peak_object = record { meta = 7; spec = some 0; config = record { dry_run = false } }

abbrev peak_list : ObjectList ℕ
peak_list = record { meta = 3; items = some 0 }

abbrev store : Store ℕ
store = record {
  states = (peak_state ∷ []) ∷ [];
  definitions = (peak_object ∷ []) ∷ [];
  cluster_states = [];
  scaling_states = [];
}

copied : deep_copy_definition_list (λ m. m) (λ l. l) (some peak_list) store ≡ (
  some (record peak_list { items = some 1 }),
  record store {
    states = (peak_state ∷ []) ∷ ((peak_state ∷ []) ∷ []);
    definitions = (peak_object ∷ []) ∷ ((record peak_object { spec = some 1 } ∷ []) ∷ []);
  },
)
unfolding deep_copy_definition_list copy_slice copy_definitions
copied = refl

copy_definition_list-Separate_example :
    Separate
      (λ (m : ℕ). m)
      (λ (l : ℕ). l)
      (λ m. refl)
      (λ l. refl)
      peak_list
      store
      (copy_definition_list (λ m. m) (λ l. l) peak_list store)
copy_definition_list-Separate_example =
    copy_definition_list-Separate (λ m. m) (λ l. l) (λ m. refl) (λ l. refl) peak_list store
      (omega arith, (omega arith, tt))
