-- ===== src/Quotas/Left.antt =====
-- What a quota has left after a scaling, resource by resource.
use pre_scaling_operator.Common.{
  ℤ, pos, ◌≤ℤ◌, ◌-ℤ◌, -ℤ_parts, Text, bytes, Map, lookup, UniqueKeys, Bool, true, false, ◌&&◌,
  Option, none, some, List, [], ◌∷◌, ◌==◌, ==_iff, if◌then◌else◌, ◌≡◌, refl, ◌↔◌, arith, inl, inr,
  lookup-insert, ap, ◌∙◌, not, Option-cases, insert-UniqueKeys,
}
use pre_scaling_operator.ResourceMath.{
  Quantity, subtract, is_negative, translate_resources_to_quota_resources, copy_key,
}
use pre_scaling_operator.ResourceMath.Amounts.{
  amount, amount_of, amount-subtract, subtract-UniqueKeys,
}
use pre_scaling_operator.ResourceMath.Signs.{is_negative_iff}
use pre_scaling_operator.Quotas.{
  ResourceQuota, is_compute, sanitize, sanitize_rq, is_empty, no_names, check_limits,
}

module _ {Q : Type 0} where
  pub lookup-sanitize :
      (key : Text) (m : Map Q)
      → lookup key (sanitize m) ≡ (if is_compute key then lookup key m else none)
  unfolding sanitize lookup
  lookup-sanitize key [] = ground arith
  lookup-sanitize key ((j, v) ∷ m) = ground (arith, ==_iff j key, lookup-sanitize key m)

  sanitize-UniqueKeys : (m : Map Q) → UniqueKeys m → UniqueKeys (sanitize m)
  unfolding sanitize
  sanitize-UniqueKeys [] u = tt
  sanitize-UniqueKeys ((j, v) ∷ m) u =
      ground (arith, sanitize-UniqueKeys m u.1, lookup-sanitize j m)

  copied-UniqueKeys :
      (from to : Text) (resources result : Map Q)
      → UniqueKeys result
      → UniqueKeys (copy_key from to resources result)
  unfolding copy_key
  copied-UniqueKeys from to resources result u = elim (Option-cases (lookup from resources)) [
    | inl e ↦ rw (e, copy_key) u
    | inr (q, e) ↦ rw (e, copy_key) (insert-UniqueKeys to q result u)
  ]

  translate-UniqueKeys :
      (resources : Map Q) → UniqueKeys (translate_resources_to_quota_resources resources)
  unfolding translate_resources_to_quota_resources
  translate-UniqueKeys resources =
      copied-UniqueKeys _ _ resources _ (copied-UniqueKeys _ _ resources [] tt)

module _ (k : Quantity) where
  open k use {Q}

  check_limits-UniqueKeys :
      (rq : ResourceQuota Q) (needed : Map Q) → UniqueKeys (check_limits k (sanitize_rq rq) needed)
  unfolding check_limits
  check_limits-UniqueKeys rq needed = subtract-UniqueKeys k _ _

  no_names-nil : (names : List Text) → no_names names ≡ true → names ≡ []
  no_names-nil [] h = refl
  no_names-nil (n ∷ names) h = cc

  -- What the scaling needs of a quota's resource.
  abbrev pub need : Text → Map Q → ℤ
  need key needed =
      if key == bytes "limits.cpu"
      then amount k (bytes "cpu") needed
      else if key == bytes "limits.memory"
      then amount k (bytes "memory") needed
      else pos 0

  -- The quota has each compute resource that the scaling needs.
  abbrev pub Fits : Map Q → ResourceQuota Q → Type 0
  Fits needed rq =
      (key : Text)
      → is_compute key ≡ true
      → pos 0 ≤ℤ amount k key rq.hard -ℤ amount k key rq.used -ℤ need key needed

  -- The quota restricts some compute resource.
  abbrev pub governs : ResourceQuota Q → Bool
  governs rq = not (is_empty (sanitize rq.hard) && is_empty (sanitize rq.used))

  abbrev pub AllFit : Map Q → List (ResourceQuota Q) → Type 0
  AllFit needed [] = Unit
  AllFit needed (rq ∷ rqs) = (governs rq ≡ true → Fits needed rq) × AllFit needed rqs

  -- The quotas are those of a cluster, whose maps have each key once.
  abbrev pub IsListed : List (ResourceQuota Q) → Type 0
  IsListed [] = Unit
  IsListed (rq ∷ rqs) = UniqueKeys rq.hard × UniqueKeys rq.used × IsListed rqs

  copied : Option Q → Option Q → Option Q
  copied none before = before
  copied (some q) before = some q

  lookup-copied :
      (key from to : Text) (resources result : Map Q)
      → lookup key (copy_key from to resources result) ≡ (
          if key == to
          then copied (lookup from resources) (lookup key result)
          else lookup key result)
  unfolding copy_key copied
  lookup-copied key from to resources result = elim (Option-cases (lookup from resources)) [
    | inl e ↦ rw (e, copy_key) (ground arith)
    | inr (q, e) ↦
        rw (e, copy_key)
          (ground (arith, lookup-insert to key q result, ==_iff key to, ==_iff to key))
  ]

  lookup_empty : (key : Text) → lookup {V = Q} key [] ≡ none
  unfolding lookup
  lookup_empty key = refl

  not_both : (key : Text) → key == bytes "limits.cpu" ≡ true → key == bytes "limits.memory" ≡ false
  not_both key h = rw ((==_iff key (bytes "limits.cpu")).0 h) (unfold ◌==◌ in refl)

  amount_copied : (o : Option Q) → amount_of k (copied o none) ≡ amount_of k o
  unfolding copied
  amount_copied none = refl
  amount_copied (some q) = refl

  -- The quota resources that the scaling needs are the limits on its cpu and its memory.
  amount-translate :
      (key : Text) (needed : Map Q)
      → amount k key (translate_resources_to_quota_resources needed) ≡ need key needed
  unfolding translate_resources_to_quota_resources
  amount-translate key needed =
      let inner = copy_key (bytes "cpu") (bytes "limits.cpu") needed [] in
      ap (amount_of k) (lookup-copied key (bytes "memory") (bytes "limits.memory") needed inner)
      ∙ ground (
        arith,
        lookup-copied key (bytes "cpu") (bytes "limits.cpu") needed [],
        lookup_empty key,
        not_both key,
        amount_copied (lookup (bytes "cpu") needed),
        amount_copied (lookup (bytes "memory") needed),
      )

  amount-sanitize :
      (key : Text) (m : Map Q)
      → amount k key (sanitize m) ≡ (if is_compute key then amount k key m else pos 0)
  amount-sanitize key m = ground (arith, lookup-sanitize key m)

  amount-check_limits :
      (key : Text) (rq : ResourceQuota Q) (needed : Map Q)
      → UniqueKeys rq.hard
      → UniqueKeys rq.used
      → amount k key (check_limits k (sanitize_rq rq) needed)
        ≡ amount k key (sanitize rq.hard) -ℤ amount k key (sanitize rq.used) -ℤ need key needed
  unfolding check_limits sanitize_rq
  amount-check_limits key rq needed u w =
      amount-subtract k key (subtract k (sanitize rq.hard) (sanitize rq.used)) _
        (subtract-UniqueKeys k _ _) (translate-UniqueKeys needed)
      ∙ ap (λ x. x -ℤ amount k key (translate_resources_to_quota_resources needed))
          (amount-subtract k key (sanitize rq.hard) (sanitize rq.used)
            (sanitize-UniqueKeys rq.hard u) (sanitize-UniqueKeys rq.used w))
      ∙ ap (λ x. amount k key (sanitize rq.hard) -ℤ amount k key (sanitize rq.used) -ℤ x)
          (amount-translate key needed)

  -- A key that sanitizeRQ drops is none that the scaling needs.
  need_compute : (key : Text) (needed : Map Q) → is_compute key ≡ false → need key needed ≡ pos 0
  unfolding is_compute
  need_compute key needed h = ground arith

  pub Fits-iff :
      (rq : ResourceQuota Q) (needed : Map Q)
      → UniqueKeys rq.hard
      → UniqueKeys rq.used
      → (no_names (is_negative k (check_limits k (sanitize_rq rq) needed)) ≡ true) ↔ Fits needed rq
  Fits-iff rq needed u w =
      let limits = check_limits k (sanitize_rq rq) needed in
      let (to, from) = is_negative_iff k limits (check_limits-UniqueKeys rq needed) in
      (
        (λ h key c. ground (
          arith,
          to (no_names-nil (is_negative k limits) h) key,
          amount-check_limits key rq needed u w,
          amount-sanitize key rq.hard,
          amount-sanitize key rq.used,
        )),
        λ fits. ap no_names (
            from (λ key. ground (
              arith,
              fits key,
              amount-check_limits key rq needed u w,
              amount-sanitize key rq.hard,
              amount-sanitize key rq.used,
              need_compute key needed,
              -ℤ_parts (pos 0) (pos 0),
            ))),
      )
