-- ===== src/ResourceMath/Signs.antt =====
-- The tests on resource lists, as statements about the amounts.
use pre_scaling_operator.Common.{
  ℤ, pos, ◌≤ℤ◌, ◌<ℤ◌, ltb_ℤ, eqb_ℤ, Text, Map, lookup, UniqueKeys, true, none, [], ◌∷◌,
  if◌then◌else◌, ◌≡◌, refl, ◌↔◌, ◌⊎◌, arith, ==_iff, ==_refl, IsInt32, int32_of_IsInt32, ◌-ℤ◌,
  -ℤ_parts, inl, inr, Bool-cases,
}
use pre_scaling_operator.ResourceMath.{Quantity, is_negative, is_zero, replica_calc}
use pre_scaling_operator.ResourceMath.Amounts.{amount}

module _ (k : Quantity) where
  open k use {Q, nil, cmp, value, value-nil, cmp_lt, cmp_eq}

  cmp_sign : (v : Q) → (ltb_ℤ (cmp v nil) (pos 0) ≡ true) ↔ (value v <ℤ pos 0)
  cmp_sign v = rw value-nil at (cmp_lt v nil)

  cmp_nil : (v : Q) → (eqb_ℤ (cmp v nil) (pos 0) ≡ true) ↔ (value v ≡ pos 0)
  cmp_nil v = rw value-nil at (cmp_eq v nil)

  is_negative→ : (a : Map Q) (key : Text) → is_negative k a ≡ [] → pos 0 ≤ℤ amount k key a
  unfolding is_negative lookup
  is_negative→ [] key h = omega arith
  is_negative→ ((j, v) ∷ a) key h = ground (arith, is_negative→ a key, cmp_sign v)

  -- What holds of a list with a new key holds of the list without it.
  amount_rest :
      (j key : Text) (v : Q) (a : Map Q)
      → lookup j a ≡ none
      → (amount k key a ≡ pos 0) ⊎ (amount k key a ≡ amount k key ((j, v) ∷ a))
  unfolding lookup
  amount_rest j key v a u = ground (arith, ==_iff j key)

  amount_head : (j : Text) (v : Q) (a : Map Q) → amount k j ((j, v) ∷ a) ≡ value v
  unfolding lookup
  amount_head j v a = ground (arith, ==_refl j)

  →is_negative :
      (a : Map Q) → UniqueKeys a → ((key : Text) → pos 0 ≤ℤ amount k key a) → is_negative k a ≡ []
  unfolding is_negative
  →is_negative [] u h = refl
  →is_negative ((j, v) ∷ a) u h =
      let rest : is_negative k a ≡ [] =
        →is_negative a u.1 (λ key. ground (arith, h key, amount_rest j key v a u.0)) in
      ground (arith, rest, cmp_sign v, h j, amount_head j v a)

  -- Of a list that names each resource once, IsNegative names none just if there is at least none
  -- of each.
  pub is_negative_iff :
      (a : Map Q) → UniqueKeys a → (is_negative k a ≡ []) ↔ ((key : Text) → pos 0 ≤ℤ amount k key a)
  is_negative_iff a u = ((λ h key. is_negative→ a key h), →is_negative a u)

  -- Of a list that names each resource once, IsNegative names none, or there is less than none of some.
  pub negative_cases :
      (a : Map Q)
      → UniqueKeys a
      → (is_negative k a ≡ []) ⊎ ((key : Text) × (amount k key a <ℤ pos 0))
  unfolding is_negative
  negative_cases [] u = inl refl
  negative_cases ((j, v) ∷ a) u = elim (Bool-cases (ltb_ℤ (cmp v nil) (pos 0))) [
    | inl less ↦ inr (j, rw (amount_head j v a) ((cmp_sign v).0 less))
    | inr enough ↦ elim (negative_cases a u.1) [
      | inl none_less ↦ inl (rw enough none_less)
      | inr (key, less) ↦ inr (key, ground (arith, amount_rest j key v a u.0))
    ]
  ]

  is_zero→ : (a : Map Q) (key : Text) → is_zero k a ≡ true → amount k key a ≡ pos 0
  unfolding is_zero lookup
  is_zero→ [] key h = refl
  is_zero→ ((j, v) ∷ a) key h = ground (arith, is_zero→ a key, cmp_nil v)

  →is_zero :
      (a : Map Q) → UniqueKeys a → ((key : Text) → amount k key a ≡ pos 0) → is_zero k a ≡ true
  unfolding is_zero
  →is_zero [] u h = refl
  →is_zero ((j, v) ∷ a) u h =
      let rest : is_zero k a ≡ true =
        →is_zero a u.1 (λ key. ground (arith, h key, amount_rest j key v a u.0)) in
      ground (arith, rest, cmp_nil v, h j, amount_head j v a)

  -- Of a list that names each resource once, IsZero holds just if the amount of each resource is
  -- zero.
  pub is_zero_iff :
      (a : Map Q) → UniqueKeys a → (is_zero k a ≡ true) ↔ ((key : Text) → amount k key a ≡ pos 0)
  is_zero_iff a u = ((λ h key. is_zero→ a key h), →is_zero a u)

-- ReplicaCalc gives the difference of two 32-bit counts that are not negative, and the count
-- itself where they do not differ.
pub replica_calc_lem :
    (a b : ℤ)
    → IsInt32 a
    → IsInt32 b
    → pos 0 ≤ℤ a
    → pos 0 ≤ℤ b
    → replica_calc a b ≡ (if eqb_ℤ a b then a else a -ℤ b)
unfolding replica_calc
replica_calc_lem a b x y p q =
    let fits : IsInt32 (a -ℤ b) = ground (arith, -ℤ_parts a b) in
    ground (arith, int32_of_IsInt32 (a -ℤ b) fits, -ℤ_parts a b)
