-- ===== src/Api/Copies/Separate.antt =====
-- A deep copy of a list of definitions shares no array with the original.
use pre_scaling_operator.Common.{
  ℕ, zero, suc, ◌≤◌, ◌<◌, Option, none, some, List, [], ◌∷◌, ◌++◌, length, get_elem?, length-append,
  ◌≡◌, refl, ap, ◌∙◌, arith,
}
use pre_scaling_operator.Api.{StateDefinition, Config}
use pre_scaling_operator.Api.Copies.{
  Arrays, Slice, array_or_nil, copy_slice, DefinitionObject, ObjectList, Store, copy_definition,
  copy_definitions, copy_definition_list,
}

module _ {A : Type 0} where
  -- The arrays at the addresses below n, or from n on, are the same.
  abbrev pub SameBelow : ℕ → Arrays A → Arrays A → Type 0
  SameBelow n xs ys = (a : ℕ) → a < n → get_elem? ys a ≡ get_elem? xs a

  abbrev pub SameFrom : ℕ → Arrays A → Arrays A → Type 0
  SameFrom n xs ys = (a : ℕ) → n ≤ a → get_elem? ys a ≡ get_elem? xs a

  abbrev pub IsWithin : Slice → Arrays A → Type 0
  IsWithin none arrays = Unit
  IsWithin (some a) arrays = a < length arrays

  -- What a slice shows.
  abbrev pub shown : Slice → Arrays A → Option (List A)
  shown none arrays = none
  shown (some a) arrays = some (array_or_nil (get_elem? arrays a))

  get_elem?-append : (xs ys : Arrays A) → SameBelow (length xs) xs (xs ++ ys)
  get_elem?-append [] ys a h = absurd (omega arith)
  get_elem?-append (x ∷ xs) ys zero h = refl
  get_elem?-append (x ∷ xs) ys (suc a) h = get_elem?-append xs ys a (omega arith)

  get_elem?-last : (xs : Arrays A) (x : List A) → get_elem? (xs ++ x ∷ []) (length xs) ≡ some x
  get_elem?-last [] x = refl
  get_elem?-last (y ∷ xs) x = get_elem?-last xs x

  shown-SameBelow :
      (s : Slice) (xs ys : Arrays A)
      → IsWithin s xs
      → SameBelow (length xs) xs ys
      → shown s ys ≡ shown s xs
  shown-SameBelow none xs ys w same = refl
  shown-SameBelow (some a) xs ys w same = ap (λ o. some (array_or_nil o)) (same a w)

  IsWithin-longer :
      (s : Slice) (xs ys : Arrays A) → length xs ≤ length ys → IsWithin s xs → IsWithin s ys
  IsWithin-longer none xs ys h w = tt
  IsWithin-longer (some a) xs ys h w = omega arith

  copy_slice-grows :
      (s : Slice) (arrays : Arrays A)
      → (length arrays ≤ length (copy_slice s arrays).1)
        × SameBelow (length arrays) arrays (copy_slice s arrays).1
  unfolding copy_slice
  copy_slice-grows none arrays = (omega arith, λ a h. refl)
  copy_slice-grows (some a) arrays = (
    omega (arith, length-append arrays (array_or_nil (get_elem? arrays a) ∷ [])),
    get_elem?-append arrays (array_or_nil (get_elem? arrays a) ∷ []),
  )

  -- The copy shows what the slice showed, whatever becomes of the arrays that were there before.
  copy_slice-shown :
      (n : ℕ) (s : Slice) (arrays later : Arrays A)
      → n ≤ length arrays
      → ((a : ℕ)
          → n ≤ a
          → a < length (copy_slice s arrays).1
          → get_elem? later a ≡ get_elem? (copy_slice s arrays).1 a)
      → shown (copy_slice s arrays).0 later ≡ shown s arrays
  unfolding copy_slice
  copy_slice-shown n none arrays later h same = refl
  copy_slice-shown n (some a) arrays later h same =
      let array = array_or_nil (get_elem? arrays a) in
      ap (λ o. some (array_or_nil o))
        (same (length arrays) h (omega (arith, length-append arrays (array ∷ [])))
          ∙ get_elem?-last arrays array)

-- What a definition shows.
pub record DefinitionValue (M : Type 0) : Type 0 where
  pub meta : M
  pub spec : Option (List StateDefinition)
  pub config : Config

module _ {M : Type 0} where
  abbrev pub read_definition : Arrays StateDefinition → DefinitionObject M → DefinitionValue M
  read_definition states object = record {
    meta = object.meta;
    spec = shown object.spec states;
    config = object.config;
  }

  abbrev pub read_definitions :
      Arrays StateDefinition → List (DefinitionObject M) → List (DefinitionValue M)
  read_definitions states [] = []
  read_definitions states (object ∷ objects) =
      read_definition states object ∷ read_definitions states objects

  abbrev pub AllWithin : List (DefinitionObject M) → Arrays StateDefinition → Type 0
  AllWithin [] states = Unit
  AllWithin (object ∷ objects) states = IsWithin object.spec states × AllWithin objects states

  read_definitions-SameBelow :
      (objects : List (DefinitionObject M)) (xs ys : Arrays StateDefinition)
      → AllWithin objects xs
      → SameBelow (length xs) xs ys
      → read_definitions ys objects ≡ read_definitions xs objects
  read_definitions-SameBelow [] xs ys w same = refl
  read_definitions-SameBelow (object ∷ objects) xs ys w same =
      rw (shown-SameBelow object.spec xs ys (w.0) same) (
        ap (λ rest. read_definition xs object ∷ rest)
          (read_definitions-SameBelow objects xs ys (w.1) same))

  AllWithin-longer :
      (objects : List (DefinitionObject M)) (xs ys : Arrays StateDefinition)
      → length xs ≤ length ys
      → AllWithin objects xs
      → AllWithin objects ys
  AllWithin-longer [] xs ys h w = tt
  AllWithin-longer (object ∷ objects) xs ys h w =
      (IsWithin-longer object.spec xs ys h (w.0), AllWithin-longer objects xs ys h (w.1))

module _ {M L : Type 0} (copy_meta : M → M) (copy_list_meta : L → L)
    (faithful : (m : M) → copy_meta m ≡ m) where
  copy_definitions-grows :
      (objects : List (DefinitionObject M)) (states : Arrays StateDefinition)
      → let states' = (copy_definitions copy_meta copy_list_meta objects states).1 in
        (length states ≤ length states') × SameBelow (length states) states states'
  unfolding copy_definitions copy_definition
  copy_definitions-grows [] states = (omega arith, λ a h. refl)
  copy_definitions-grows (object ∷ objects) states =
      let (longer, same) = copy_slice-grows object.spec states in
      let (more, kept) = copy_definitions-grows objects (copy_slice object.spec states).1 in
      (omega (arith, longer, more), λ a h. kept a (omega (arith, longer, h)) ∙ same a h)

  -- The copies show what the objects showed, whatever becomes of the arrays below n.
  copy_definitions-shown :
      (n : ℕ) (objects : List (DefinitionObject M)) (states later : Arrays StateDefinition)
      → n ≤ length states
      → AllWithin objects states
      → SameFrom n (copy_definitions copy_meta copy_list_meta objects states).1 later
      → read_definitions later (copy_definitions copy_meta copy_list_meta objects states).0
        ≡ read_definitions states objects
  unfolding copy_definitions copy_definition
  copy_definitions-shown n [] states later h w same = refl
  copy_definitions-shown n (object ∷ objects) states later h w same =
      let states1 = (copy_slice object.spec states).1 in
      let (longer, kept) = copy_slice-grows object.spec states in
      let (more, kept1) = copy_definitions-grows objects states1 in
      let spec_shown =
        copy_slice-shown n object.spec states later h
          (λ a from below. same a from ∙ kept1 a below) in
      let rest_shown =
        copy_definitions-shown n objects states1 later (omega (arith, h, longer))
          (AllWithin-longer objects states states1 longer (w.1)) same in
      rw (faithful object.meta, spec_shown)
        (ap (λ rest. read_definition states object ∷ rest)
          (rest_shown ∙ read_definitions-SameBelow objects states states1 (w.1) kept))

-- The objects of a list.
abbrev pub listed_in : {M L : Type 0} → ObjectList L → Store M → List (DefinitionObject M)
listed_in list store = array_or_nil (shown list.items store.definitions)

-- What a list shows.
abbrev pub read_list :
    {M L : Type 0} → Store M → ObjectList L → L × Option (List (DefinitionValue M))
read_list store list = (
  list.meta,
  elim (shown list.items store.definitions) [
    | none ↦ none
    | some objects ↦ some (read_definitions store.states objects)
  ],
)

-- The addresses of a list, and of its objects, are those of arrays.
abbrev pub ItemsWithin : {M L : Type 0} → ObjectList L → Store M → Type 0
ItemsWithin list store =
    IsWithin list.items store.definitions × AllWithin (listed_in list store) store.states

module _ {M L : Type 0} (copy_meta : M → M) (copy_list_meta : L → L)
    (faithful : (m : M) → copy_meta m ≡ m) (faithful_list : (l : L) → copy_list_meta l ≡ l) where
  -- The original reads as before in each store that has the arrays from before as they are in
  -- `store'`, and the copy in each that has the others so.
  abbrev pub Separate : ObjectList L → Store M → ObjectList L × Store M → Type 0
  Separate list store (copied, store') =
      ((later : Store M)
        → SameBelow (length store.states) store'.states later.states
        → SameBelow (length store.definitions) store'.definitions later.definitions
        → read_list later list ≡ read_list store list)
      × ((later : Store M)
          → SameFrom (length store.states) store'.states later.states
          → SameFrom (length store.definitions) store'.definitions later.definitions
          → read_list later copied ≡ read_list store list)

  read_later :
      (meta : L) (a : ℕ) (store later : Store M)
      → get_elem? later.definitions a ≡ get_elem? store.definitions a
      → read_definitions later.states (array_or_nil (get_elem? store.definitions a))
        ≡ read_definitions store.states (array_or_nil (get_elem? store.definitions a))
      → read_list later (record { meta = meta; items = some a })
        ≡ read_list store (record { meta = meta; items = some a })
  read_later meta a store later same reads = rw same (ap (λ vs. (meta, some vs)) reads)

  copy_by_items :
      (meta : L) (items : Slice) (store : Store M)
      → ItemsWithin (record { meta = meta; items = items }) store
      → Separate
          (record { meta = meta; items = items })
          store
          (copy_definition_list copy_meta copy_list_meta
            (record { meta = meta; items = items })
            store)
  unfolding copy_definition_list
  copy_by_items meta none store w =
      ((λ later below below'. refl), (λ later from from'. rw (faithful_list meta) refl))
  copy_by_items meta (some a) store (w, within) =
      let objects = array_or_nil (get_elem? store.definitions a) in
      let (copies, states) = copy_definitions copy_meta copy_list_meta objects store.states in
      let (longer, kept) =
        copy_definitions-grows copy_meta copy_list_meta faithful objects store.states in
      (
        (λ later below below'.
            read_later meta a store later
              (below' a w ∙ get_elem?-append store.definitions (copies ∷ []) a w)
              (read_definitions-SameBelow objects store.states later.states within
                (λ b h. below b h ∙ kept b h))),
        (λ later from from'.
            let same : get_elem? later.definitions (length store.definitions) ≡ some copies =
              from' (length store.definitions) (omega arith)
              ∙ get_elem?-last store.definitions copies in
            rw (faithful_list meta, same)
              (ap (λ vs. (meta, some vs))
                (copy_definitions-shown copy_meta copy_list_meta faithful (length store.states)
                  objects store.states later.states (omega arith) within from))),
      )

-- Where the libraries copy metadata faithfully: a deep copy of a list of definitions, whose addresses
-- are those of arrays, shows what the list shows. Whatever is written later to the arrays that the copy
-- was given, the list shows what it did; and whatever is written to those from before, the copy does.
pub copy_definition_list-Separate :
    {M L : Type 0} (copy_meta : M → M) (copy_list_meta : L → L)
    (faithful : (m : M) → copy_meta m ≡ m) (faithful_list : (l : L) → copy_list_meta l ≡ l)
    (list : ObjectList L) (store : Store M)
    → ItemsWithin list store
    → Separate copy_meta copy_list_meta faithful faithful_list list store
        (copy_definition_list copy_meta copy_list_meta list store)
copy_definition_list-Separate copy_meta copy_list_meta faithful faithful_list list store within =
    copy_by_items copy_meta copy_list_meta faithful faithful_list list.meta list.items store within
