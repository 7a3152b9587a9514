-- ===== src/ResourceMath.antt =====
-- pkg/utils/math/math.go: resource lists as finite maps of quantities. The type resource.Quantity of
-- Kubernetes is the parameter `Quantity`.
pub mod Amounts
pub mod Signs
use pre_scaling_operator.Common.{
  ℕ, zero, suc, ℤ, pos, pos_part, ◌+ℤ◌, ◌-ℤ◌, ◌≤ℤ◌, ◌<ℤ◌, neg, int32, ltb_ℤ, eqb_ℤ, Text, bytes,
  Map, lookup, insert, Bool, true, false, not, Option, none, some, List, [], ◌∷◌, if◌then◌else◌,
  ◌≡◌, ◌↔◌,
}

-- resource.Quantity: exact arithmetic on decimal fractions. `value` counts the smallest unit that a
-- quantity can hold.
pub record Quantity : Type 1 where
  pub Q : Type 0
  pub unset : Q  -- resource.Quantity{}
  pub nil : Q  -- resource.MustParse("0")
  pub add : Q → Q → Q  -- after a.Add(b), a
  pub sub : Q → Q → Q  -- after a.Sub(b), a
  pub negate : Q → Q  -- after a.Neg(), a
  pub cmp : Q → Q → ℤ  -- a.Cmp(b)
  pub to_text : Q → Text  -- a.String()
  pub value : Q → ℤ
  pub value-nil : value nil ≡ pos 0
  pub value-add : (a b : Q) → value (add a b) ≡ value a +ℤ value b
  pub value-sub : (a b : Q) → value (sub a b) ≡ value a -ℤ value b
  pub value-negate : (a : Q) → value (negate a) ≡ neg (value a)
  pub cmp_lt : (a b : Q) → (ltb_ℤ (cmp a b) (pos 0) ≡ true) ↔ (value a <ℤ value b)
  pub cmp_eq : (a b : Q) → (eqb_ℤ (cmp a b) (pos 0) ≡ true) ↔ (value a ≡ value b)

module _ {Q : Type 0} where
  abbrev pub changed : (Q → Q → Q) → Option Q → Q → Q
  changed change none value = value
  changed change (some other) value = change value other

  -- The first loop of Subtract and Add: each quantity of `a`, changed by that of `b` if it has one.
  first_loop : (Q → Q → Q) → Map Q → Map Q → Map Q → Map Q
  first_loop change b [] result = result
  first_loop change b ((key, value) ∷ a) result =
      first_loop change b a (insert key (changed change (lookup key b) value) result)

  -- The second loop: each quantity of `b` that has no place in the result yet.
  second_loop : (Q → Q) → Map Q → Map Q → Map Q
  second_loop change [] result = result
  second_loop change ((key, value) ∷ b) result =
      second_loop change b
        (elim (lookup key result) [ none ↦ insert key (change value) result | some _ ↦ result ])

module _ (k : Quantity) where
  open k use {Q, nil, add, sub, negate, cmp}

  unfoldable pub subtract : Map Q → Map Q → Map Q
  unfolding first_loop second_loop
  subtract a b = second_loop negate b (first_loop sub b a [])

  unfoldable pub add_lists : Map Q → Map Q → Map Q
  unfolding first_loop second_loop
  add_lists a b = second_loop (λ q. q) b (first_loop add b a [])

  -- The rounds left to the loop of Mul.
  mul_rounds : ℕ → Map Q → Map Q → Map Q
  mul_rounds zero resources result = result
  mul_rounds (suc n) resources result = mul_rounds n resources (add_lists result resources)

  -- The loop runs while its counter, from 0, is below `times`.
  unfoldable pub mul : ℤ → Map Q → Map Q
  unfolding mul_rounds add_lists
  mul times resources = mul_rounds (pos_part times) resources []

  unfoldable pub is_negative : Map Q → List Text
  is_negative [] = []
  is_negative ((key, v) ∷ a) =
      let results = is_negative a in if ltb_ℤ (cmp v nil) (pos 0) then key ∷ results else results

  unfoldable pub is_zero : Map Q → Bool
  is_zero [] = true
  is_zero ((key, v) ∷ a) = if not (eqb_ℤ (cmp v nil) (pos 0)) then false else is_zero a

-- result[to] = resources[from], if it is there
unfoldable pub copy_key : {Q : Type 0} → Text → Text → Map Q → Map Q → Map Q
copy_key from to resources result = elim (lookup from resources) [
  | none ↦ result
  | some q ↦ insert to q result
]

unfoldable pub translate_resources_to_quota_resources : {Q : Type 0} → Map Q → Map Q
unfolding copy_key
translate_resources_to_quota_resources resources =
    copy_key (bytes "memory") (bytes "limits.memory") resources
      (copy_key (bytes "cpu") (bytes "limits.cpu") resources [])

unfoldable pub replica_calc : ℤ → ℤ → ℤ
replica_calc a b = let c = int32 (a -ℤ b) in if eqb_ℤ c (pos 0) then a else c

unfoldable pub abs : ℤ → ℤ
abs x = if ltb_ℤ x (pos 0) then int32 (neg x) else x
