-- ===== src/ResourceMath/Amounts.antt =====
-- A resource list as the amount that it has of each resource; a resource that is not listed counts
-- as none of it.
use pre_scaling_operator.Common.{
  ℕ, zero, suc, ℤ, pos, pos_part, ◌+ℤ◌, ◌-ℤ◌, ◌*ℤ◌, neg, Text, Map, lookup, insert, UniqueKeys,
  lookup-insert, insert-UniqueKeys, Option, none, some, [], ◌∷◌, ◌≡◌, refl, ap, ◌∙◌, *ℤ_zero,
  *ℤ_suc, zero_+ℤ, arith, ==_iff,
}
use pre_scaling_operator.ResourceMath.{
  Quantity, changed, first_loop, second_loop, subtract, add_lists, mul_rounds, mul,
}

module _ {Q : Type 0} where
  -- What a key has after each loop, from what the lists have under it.
  abbrev after_first : (Q → Q → Q) → Option Q → Option Q → Option Q → Option Q
  after_first change none b result = result
  after_first change (some v) b result = some (changed change b v)

  abbrev after_second : (Q → Q) → Option Q → Option Q → Option Q
  after_second change (some v) b = some v
  after_second change none none = none
  after_second change none (some v) = some (change v)

  lookup-first_loop :
      (change : Q → Q → Q) (key : Text) (b a result : Map Q)
      → UniqueKeys a
      → lookup key (first_loop change b a result)
        ≡ after_first change (lookup key a) (lookup key b) (lookup key result)
  unfolding first_loop lookup
  lookup-first_loop change key b [] result u = refl
  lookup-first_loop change key b ((j, v) ∷ a) result u = ground (
    arith,
    ==_iff j key,
    lookup-insert j key (changed change (lookup j b) v) result,
    lookup-first_loop change key b a (insert j (changed change (lookup j b) v) result) u.1,
  )

  lookup-second_loop :
      (change : Q → Q) (key : Text) (b result : Map Q)
      → UniqueKeys b
      → lookup key (second_loop change b result)
        ≡ after_second change (lookup key result) (lookup key b)
  unfolding second_loop lookup
  lookup-second_loop change key [] result u = ground arith
  lookup-second_loop change key ((j, v) ∷ b) result u = ground (
    arith,
    ==_iff j key,
    lookup-insert j key (change v) result,
    lookup-second_loop change key b result u.1,
    lookup-second_loop change key b (insert j (change v) result) u.1,
  )

module _ (k : Quantity) where
  open k use {
    Q, nil, add, sub, negate, cmp, value, value-nil, value-add, value-sub, value-negate, cmp_lt,
    cmp_eq,
  }

  abbrev pub amount_of : Option Q → ℤ
  amount_of none = pos 0
  amount_of (some q) = value q

  abbrev pub amount : Text → Map Q → ℤ
  amount key a = amount_of (lookup key a)

  sub_amounts :
      (a b o : Option Q)
      → o ≡ none
      → amount_of (after_second negate (after_first sub a b o) b) ≡ amount_of a -ℤ amount_of b
  unfolding ◌-ℤ◌ neg
  sub_amounts none none o e = ground (arith, e)
  sub_amounts none (some v) o e = ground (arith, e, value-negate v)
  sub_amounts (some v) none o e = ground arith
  sub_amounts (some v) (some w) o e = value-sub v w

  add_amounts :
      (a b o : Option Q)
      → o ≡ none
      → amount_of (after_second (λ q. q) (after_first add a b o) b) ≡ amount_of a +ℤ amount_of b
  unfolding ◌+ℤ◌
  add_amounts none none o e = ground (arith, e)
  add_amounts none (some v) o e = ground (arith, e)
  add_amounts (some v) none o e = ground arith
  add_amounts (some v) (some w) o e = value-add v w

  lookup_empty : (key : Text) → lookup {V = Q} key [] ≡ none
  unfolding lookup
  lookup_empty key = refl

  -- Subtract takes the amounts of each resource from one another, also where only one list has
  -- it, if both lists name each resource once.
  pub amount-subtract :
      (key : Text) (a b : Map Q)
      → UniqueKeys a
      → UniqueKeys b
      → amount key (subtract k a b) ≡ amount key a -ℤ amount key b
  unfolding subtract
  amount-subtract key a b u w =
      ap amount_of (lookup-second_loop negate key b (first_loop sub b a []) w)
      ∙ ap (λ o. amount_of (after_second negate o (lookup key b)))
          (lookup-first_loop sub key b a [] u)
      ∙ sub_amounts (lookup key a) (lookup key b) (lookup key []) (lookup_empty key)

  -- Add adds the amounts of each resource.
  pub amount-add_lists :
      (key : Text) (a b : Map Q)
      → UniqueKeys a
      → UniqueKeys b
      → amount key (add_lists k a b) ≡ amount key a +ℤ amount key b
  unfolding add_lists
  amount-add_lists key a b u w =
      ap amount_of (lookup-second_loop (λ q. q) key b (first_loop add b a []) w)
      ∙ ap (λ o. amount_of (after_second (λ q. q) o (lookup key b)))
          (lookup-first_loop add key b a [] u)
      ∙ add_amounts (lookup key a) (lookup key b) (lookup key []) (lookup_empty key)

  first_loop-UniqueKeys :
      (change : Q → Q → Q) (b a result : Map Q)
      → UniqueKeys result
      → UniqueKeys (first_loop change b a result)
  unfolding first_loop
  first_loop-UniqueKeys change b [] result u = u
  first_loop-UniqueKeys change b ((j, v) ∷ a) result u =
      first_loop-UniqueKeys change b a _ (insert-UniqueKeys j _ result u)

  second_loop-UniqueKeys :
      (change : Q → Q) (b result : Map Q)
      → UniqueKeys result
      → UniqueKeys (second_loop change b result)
  unfolding second_loop
  second_loop-UniqueKeys change [] result u = u
  second_loop-UniqueKeys change ((j, v) ∷ b) result u =
      second_loop-UniqueKeys change b _ (ground (arith, insert-UniqueKeys j (change v) result u))

  pub subtract-UniqueKeys : (a b : Map Q) → UniqueKeys (subtract k a b)
  unfolding subtract
  subtract-UniqueKeys a b = second_loop-UniqueKeys negate b _ (first_loop-UniqueKeys sub b a [] tt)

  pub add_lists-UniqueKeys : (a b : Map Q) → UniqueKeys (add_lists k a b)
  unfolding add_lists
  add_lists-UniqueKeys a b =
      second_loop-UniqueKeys (λ q. q) b _ (first_loop-UniqueKeys add b a [] tt)

  mul_rounds_lem :
      (key : Text) (n : ℕ) (resources result : Map Q)
      → UniqueKeys resources
      → UniqueKeys result
      → (amount key (mul_rounds k n resources result)
          ≡ amount key result +ℤ (n *ℤ amount key resources))
        × UniqueKeys (mul_rounds k n resources result)
  unfolding mul_rounds
  mul_rounds_lem key zero resources result u w =
      (*ℤ_zero (amount key result) (amount key resources), w)
  mul_rounds_lem key (suc n) resources result u w =
      let (e, u') =
        mul_rounds_lem key n resources (add_lists k result resources) u
          (add_lists-UniqueKeys result resources) in
      (
        e
            ∙ ap (λ x. x +ℤ n *ℤ amount key resources) (amount-add_lists key result resources w u)
            ∙ *ℤ_suc n (amount key result) (amount key resources),
        u',
      )

  -- Mul multiplies the amount of each resource of a list that names each once, gives none of any
  -- for a negative factor, and names each resource once.
  pub amount-mul :
      (key : Text) (times : ℤ) (resources : Map Q)
      → UniqueKeys resources
      → (amount key (mul k times resources) ≡ pos_part times *ℤ amount key resources)
        × UniqueKeys (mul k times resources)
  unfolding mul
  amount-mul key times resources u =
      let (e, u') = mul_rounds_lem key (pos_part times) resources [] u tt in
      (
        e
            ∙ ap (λ o. amount_of o +ℤ pos_part times *ℤ amount key resources) (lookup_empty key)
            ∙ zero_+ℤ _,
        u',
      )
