-- ===== src/Annotations.antt =====
-- pkg/utils/annotations/annotations.go and pkg/utils/labels/labels.go
use pre_scaling_operator.Common.{
  Text, ◌==◌, Map, Bool, false, Option, none, some, ==_refl, ap, ◌∙◌, [], ◌∷◌, lookup, insert,
  has_prefix, parse_bool, bool_or_false, or_default, if◌then◌else◌, ◌≡◌, refl, arith, ==_iff,
  lookup-insert, UniqueKeys, insert-UniqueKeys,
}

-- The loop of FilterByKeyPrefix, which fills `matches`.
matches_from : Text → Map Text → Map Text → Map Text
matches_from prefix [] matches = matches
matches_from prefix ((annotation, value) ∷ annotations) matches =
    matches_from prefix annotations
      (if has_prefix annotation prefix then insert annotation value matches else matches)

unfoldable pub filter_by_key_prefix : Text → Map Text → Map Text
unfolding matches_from
filter_by_key_prefix prefix annotations = matches_from prefix annotations []

unfoldable pub get_label_value_bool : Map Text → Text → Bool
get_label_value_bool labels optin = elim (lookup optin labels) [
  | none ↦ false
  | some v ↦ bool_or_false (parse_bool v)
]

unfoldable pub get_label_value_string : Map Text → Text → Text
get_label_value_string labels key = or_default [] (lookup key labels)

lookup-matches_from :
    (prefix k : Text) (annotations matches : Map Text)
    → UniqueKeys annotations
    → lookup k (matches_from prefix annotations matches) ≡ (
        if has_prefix k prefix
        then elim (lookup k annotations) [ none ↦ lookup k matches | some v ↦ some v ]
        else lookup k matches)
unfolding matches_from lookup
lookup-matches_from prefix k [] matches u = ground arith
lookup-matches_from prefix k ((j, v) ∷ annotations) matches u = ground (
  arith,
  ==_iff j k,
  lookup-insert j k v matches,
  lookup-matches_from prefix k annotations (insert j v matches) u.1,
  lookup-matches_from prefix k annotations matches u.1,
)

-- Of annotations with distinct keys, FilterByKeyPrefix keeps those whose key has the prefix, with
-- their values, and no other.
pub lookup-filter_by_key_prefix :
    (prefix k : Text) (annotations : Map Text)
    → UniqueKeys annotations
    → lookup k (filter_by_key_prefix prefix annotations)
      ≡ (if has_prefix k prefix then lookup k annotations else none)
unfolding filter_by_key_prefix
lookup-filter_by_key_prefix prefix k annotations u =
    ground (arith, lookup-matches_from prefix k annotations [] u, lookup_nil k)
  where
    lookup_nil : (j : Text) → lookup {V = Text} j [] ≡ none
    lookup_nil j = unfold lookup in refl

matches_from-UniqueKeys :
    (prefix : Text) (annotations matches : Map Text)
    → UniqueKeys matches
    → UniqueKeys (matches_from prefix annotations matches)
unfolding matches_from
matches_from-UniqueKeys prefix [] matches u = u
matches_from-UniqueKeys prefix ((j, v) ∷ annotations) matches u =
    matches_from-UniqueKeys prefix annotations _ (ground (arith, insert-UniqueKeys j v matches u))

pub filter-UniqueKeys :
    (prefix : Text) (annotations : Map Text) → UniqueKeys (filter_by_key_prefix prefix annotations)
unfolding filter_by_key_prefix
filter-UniqueKeys prefix annotations = matches_from-UniqueKeys prefix annotations [] tt

-- delete(m, key)
unfoldable pub delete : Text → Map Text → Map Text
delete key [] = []
delete key ((stored, value) ∷ rest) =
    let rest' = delete key rest in if stored == key then rest' else (stored, value) ∷ rest'

-- The annotations of the deployment that PutAnnotationOnDeployment returns, which are those of the
-- one it was given, in place. A nil map is `none`, and the assignment to it panics.
unfoldable pub put_annotation_on_deployment : Option (Map Text) → Text → Text → Option (Map Text)
unfolding delete
put_annotation_on_deployment none key value = none
put_annotation_on_deployment (some annotations) key value =
    some (insert key value (delete key annotations))

-- RemoveAnnotationFromDeployment does not mind a nil map.
unfoldable pub remove_annotation_from_deployment : Option (Map Text) → Text → Option (Map Text)
unfolding delete
remove_annotation_from_deployment none key = none
remove_annotation_from_deployment (some annotations) key = some (delete key annotations)

lookup-delete :
    (key other : Text) (m : Map Text)
    → lookup other (delete key m) ≡ (if key == other then none else lookup other m)
unfolding lookup delete
lookup-delete key other [] = ground arith
lookup-delete key other ((stored, value) ∷ rest) =
    ground (
      arith,
      ==_iff key other,
      ==_iff stored key,
      ==_iff stored other,
      lookup-delete key other rest,
    )

delete-insert :
    (key value : Text) (m : Map Text) → lookup key m ≡ none → delete key (insert key value m) ≡ m
unfolding insert lookup delete
delete-insert key value [] h = ground (arith, ==_iff key key)
delete-insert key value ((stored, old) ∷ rest) h =
    ground (arith, ==_iff stored key, delete-insert key value rest)

-- On annotations that are not nil, PutAnnotationOnDeployment sets the one annotation, leaves the
-- others, and RemoveAnnotationFromDeployment then gives what it gives without it: the annotations
-- without the key.
pub remove_annotation-put_annotation :
    (annotations : Map Text) (key value : Text)
    → (put : Map Text) × (put_annotation_on_deployment (some annotations) key value ≡ some put)
      × ((other : Text)
          → lookup other put ≡ (if key == other then some value else lookup other annotations))
      × (remove_annotation_from_deployment (some put) key
          ≡ remove_annotation_from_deployment (some annotations) key)
unfolding put_annotation_on_deployment remove_annotation_from_deployment
remove_annotation-put_annotation annotations key value =
    let without = delete key annotations in
    let gone : lookup key without ≡ none =
      lookup-delete key key annotations ∙ ground (arith, ==_refl key) in
    (
      insert key value without,
      refl,
      (λ other.
          lookup-insert key other value without
          ∙ ground (arith, lookup-delete key other annotations)),
      ap some (delete-insert key value without gone),
    )
