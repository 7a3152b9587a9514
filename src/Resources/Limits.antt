-- ===== src/Resources/Limits.antt =====
-- What a scaling needs of the resources of its namespace, and what the quotas say to it.
use pre_scaling_operator.Common.{
  ℤ, pos, pos_part, ◌-ℤ◌, ◌+ℤ◌, ◌*ℤ◌, ◌<ℤ◌, ◌≤ℤ◌, -ℤ_parts, *ℤ_zero, IsInt32, eqb_ℤ, Text, Map,
  lookup, UniqueKeys, List, [], ◌∷◌, if◌then◌else◌, ok, ◌≡◌, refl, arith, ap, ◌∙◌, sym, inr,
  +ℤ_zero, zero_+ℤ, int_laws,
}
use pre_scaling_operator.Global.{ScalingInfo}
use pre_scaling_operator.ResourceMath.{Quantity, replica_calc, add_lists}
use pre_scaling_operator.ResourceMath.Amounts.{
  amount, amount-mul, amount-add_lists, add_lists-UniqueKeys,
}
use pre_scaling_operator.ResourceMath.Signs.{replica_calc_lem}
use pre_scaling_operator.Quotas.{ResourceQuota, resource_quota_check}
use pre_scaling_operator.Quotas.Check.{resource_quota_check_unasked, unread_allowed}
use pre_scaling_operator.Resources.{limits_needed, limits_needed_from, limits_needed_list}

module _ (k : Quantity) where
  open k use {Q}

  -- The replicas that a scaling adds, or all of them where it does not change their number.
  abbrev pub added : ℤ → ℤ → ℤ
  added desired spec = if eqb_ℤ desired spec then desired else desired -ℤ spec

  -- The counts of the workload are those of a cluster, and its limits name each resource once.
  abbrev pub IsCounted : ScalingInfo Q → ℤ → Type 0
  IsCounted item replicas =
      IsInt32 replicas
      × IsInt32 item.spec_replica
      × (pos 0 ≤ℤ replicas)
      × (pos 0 ≤ℤ item.spec_replica)
      × UniqueKeys item.resource_list

  amount-limits_needed :
      (item : ScalingInfo Q) (replicas : ℤ) (key : Text)
      → IsCounted item replicas
      → (amount k key (limits_needed k item replicas)
          ≡ pos_part (added replicas item.spec_replica) *ℤ amount k key item.resource_list)
        × UniqueKeys (limits_needed k item replicas)
  unfolding limits_needed
  amount-limits_needed item replicas key (x, y, p, q, u) =
      let (e, w) =
        amount-mul k key (replica_calc replicas item.spec_replica) item.resource_list u in
      (
        e
            ∙ ap (λ n. pos_part n *ℤ amount k key item.resource_list)
                (replica_calc_lem replicas item.spec_replica x y p q),
        w,
      )

  zero_times : (a : ℤ) → 0 *ℤ a ≡ pos 0
  zero_times a = sym (*ℤ_zero (pos 0) a ∙ zero_+ℤ (0 *ℤ a))

  none_added :
      (replicas spec a : ℤ) → replicas <ℤ spec → pos_part (added replicas spec) *ℤ a ≡ pos 0
  none_added replicas spec a h =
      let z : pos_part (added replicas spec) ≡ 0 = ground (arith, h, -ℤ_parts replicas spec) in
      rw z (zero_times a)

  -- Where the client set and the quotas are there, the quotas of a namespace never deny a scaling
  -- of one workload to fewer replicas, if its counts are 32-bit numbers that are not negative and
  -- its limits name each resource once.
  pub fewer_replicas_allowed :
      (item : ScalingInfo Q) (replicas : ℤ) (rqs : List (ResourceQuota Q))
      → IsCounted item replicas
      → replicas <ℤ item.spec_replica
      → resource_quota_check k (ok tt) (ok rqs) (limits_needed k item replicas) ≡ unread_allowed k
  fewer_replicas_allowed item replicas rqs c h =
      resource_quota_check_unasked k rqs (limits_needed k item replicas) []
        (amount-limits_needed item replicas [] c).1
        (inr λ key.
          (amount-limits_needed item replicas key c).0
          ∙ none_added replicas item.spec_replica (amount k key item.resource_list) h)

  -- The sum of what the scalings of a namespace add.
  abbrev pub sum_added : Text → List (ScalingInfo Q) → ℤ
  sum_added key [] = pos 0
  sum_added key (item ∷ items) =
      pos_part (added item.desired_replicas item.spec_replica) *ℤ amount k key item.resource_list
      +ℤ sum_added key items

  abbrev pub AllCounted : List (ScalingInfo Q) → Type 0
  AllCounted [] = Unit
  AllCounted (item ∷ items) = IsCounted item item.desired_replicas × AllCounted items

  sum_assoc : (a b c : ℤ) → (a +ℤ b) +ℤ c ≡ a +ℤ (b +ℤ c)
  sum_assoc a b c = omega int_laws

  amount-limits_needed_from :
      (key : Text) (items : List (ScalingInfo Q)) (limits : Map Q)
      → UniqueKeys limits
      → AllCounted items
      → (amount k key (limits_needed_from k limits items)
          ≡ amount k key limits +ℤ sum_added key items)
        × UniqueKeys (limits_needed_from k limits items)
  unfolding limits_needed_from limits_needed
  amount-limits_needed_from key [] limits u c = (sym (+ℤ_zero _), u)
  amount-limits_needed_from key (item ∷ items) limits u c =
      let one = limits_needed k item item.desired_replicas in
      let (e, w) = amount-limits_needed item item.desired_replicas key c.0 in
      let (f, v) =
        amount-limits_needed_from key items (add_lists k limits one)
          (add_lists-UniqueKeys k limits one) c.1 in
      (
        f
            ∙ ap (λ x. x +ℤ sum_added key items) (amount-add_lists k key limits one u w)
            ∙ ap (λ x. (amount k key limits +ℤ x) +ℤ sum_added key items) e
            ∙ sum_assoc (amount k key limits)
                (pos_part (added item.desired_replicas item.spec_replica)
                  *ℤ amount k key item.resource_list)
                (sum_added key items),
        v,
      )

  lookup_none : (key : Text) → amount k key [] ≡ pos 0
  unfolding lookup
  lookup_none key = refl

  -- For workloads whose counts are 32-bit numbers that are not negative and whose limits name
  -- each resource once, LimitsNeededList adds up, for each resource, the limits of the replicas
  -- that the workloads get more; a workload with as many as it wants counts with all of them, and
  -- one that is to have fewer with none.
  pub amount-limits_needed_list :
      (key : Text) (items : List (ScalingInfo Q))
      → AllCounted items
      → (amount k key (limits_needed_list k items) ≡ sum_added key items)
        × UniqueKeys (limits_needed_list k items)
  unfolding limits_needed_list
  amount-limits_needed_list key items c =
      let (e, u) = amount-limits_needed_from key items [] tt c in
      (e ∙ ap (λ x. x +ℤ sum_added key items) (lookup_none key) ∙ zero_+ℤ _, u)
