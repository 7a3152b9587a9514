-- ===== src/Quotas/Check.antt =====
-- The whole check: which scalings the quotas are asked about at all.
use pre_scaling_operator.Common.{
  pos, ◌<ℤ◌, Text, Map, UniqueKeys, true, false, none, List, [], ◌∷◌, if◌then◌else◌, ◌≡◌, refl, ◌↔◌,
  ◌⊎◌, arith, Bool-cases, inl, inr, Error, message, Result, ok, err, Option, some, ap, ◌∙◌,
  contains,
}
use pre_scaling_operator.ResourceMath.{Quantity, is_negative, is_zero}
use pre_scaling_operator.ResourceMath.Amounts.{amount}
use pre_scaling_operator.ResourceMath.Signs.{is_negative_iff, negative_cases, is_zero_iff}
use pre_scaling_operator.Quotas.{
  ResourceQuota, QuotaCheck, no_names, is_allowed, allowed_from, specific_resource_quotas,
  check_limits, sanitize_rq, resource_quota_check, rq_not_found,
}
use pre_scaling_operator.Quotas.Left.{AllFit, IsListed}
use pre_scaling_operator.Quotas.Room.{is_allowed_iff}

module _ (k : Quantity) where
  open k use {Q}

  named : (names : List Text) → no_names names ≡ true → names ≡ []
  named [] h = refl
  named (n ∷ names) h = cc

  abbrev pub unread_allowed : QuotaCheck
  unread_allowed = record { cpu = []; memory = []; allowed = true; error = none }

  check-nil : (needed : Map Q) → resource_quota_check k (ok tt) (ok []) needed ≡ unread_allowed
  unfolding resource_quota_check contains
  check-nil needed = refl

  -- The check of some quotas, by the signs of what is needed.
  check-cons :
      (needed : Map Q) (rq : ResourceQuota Q) (rqs : List (ResourceQuota Q))
      → resource_quota_check k (ok tt) (ok (rq ∷ rqs)) needed ≡ (
          if no_names (is_negative k needed)
          then if is_zero k needed then unread_allowed else is_allowed k (rq ∷ rqs) needed
          else unread_allowed)
  unfolding resource_quota_check
  check-cons needed rq rqs = refl

  not_negative :
      (needed : Map Q) (key : Text)
      → UniqueKeys needed
      → amount k key needed <ℤ pos 0
      → no_names (is_negative k needed) ≡ false
  not_negative needed key u h = elim (Bool-cases (no_names (is_negative k needed))) [
    | inl e ↦ absurd (omega (arith, (is_negative_iff k needed u).0 (named _ e) key))
    | inr e ↦ e
  ]

  allowed_from-error :
      (needed : Map Q) (cpu memory : Text) (rqs : List (ResourceQuota Q))
      → (allowed_from k needed cpu memory rqs).error ≡ none
  unfolding allowed_from
  allowed_from-error needed cpu memory [] = refl
  allowed_from-error needed cpu memory (rq ∷ rqs) =
      let left = specific_resource_quotas k (check_limits k (sanitize_rq rq) needed) in
      ground (
        arith,
        allowed_from-error needed cpu memory rqs,
        allowed_from-error needed left.0 left.1 rqs,
      )

  is_allowed-error :
      (needed : Map Q) (rqs : List (ResourceQuota Q)) → (is_allowed k rqs needed).error ≡ none
  unfolding is_allowed
  is_allowed-error needed rqs = allowed_from-error needed [] [] rqs

  check-error :
      (needed : Map Q) (rqs : List (ResourceQuota Q))
      → (resource_quota_check k (ok tt) (ok rqs) needed).error ≡ none
  check-error needed [] = rw (check-nil needed)
  check-error needed (rq ∷ rqs) =
      rw (check-cons needed rq rqs) (ground (arith, is_allowed-error needed (rq ∷ rqs)))

  -- Where the client set and the quotas of the namespace are there, a scaling whose needs name
  -- each resource once and that gives some resource back, or needs none at all, is allowed
  -- without an error whatever the quotas are.
  pub resource_quota_check_unasked :
      (rqs : List (ResourceQuota Q)) (needed : Map Q) (key : Text)
      → UniqueKeys needed
      → (amount k key needed <ℤ pos 0) ⊎ ((other : Text) → amount k other needed ≡ pos 0)
      → resource_quota_check k (ok tt) (ok rqs) needed ≡ unread_allowed
  resource_quota_check_unasked [] needed key u h = check-nil needed
  resource_quota_check_unasked (rq ∷ rqs) needed key u (inl h) =
      check-cons needed rq rqs ∙ rw (not_negative needed key u h)
  resource_quota_check_unasked (rq ∷ rqs) needed key u (inr h) =
      check-cons needed rq rqs ∙ ground (arith, (is_zero_iff k needed u).1 h)

  -- The scaling gives some resource back, or needs none at all.
  abbrev pub Unasked : Map Q → Type 0
  Unasked needed =
      ((key : Text) × (amount k key needed <ℤ pos 0))
      ⊎ ((other : Text) → amount k other needed ≡ pos 0)

  -- What the check promises, by the answers of the clients.
  abbrev pub Allows : Result (Unit {0}) → Result (List (ResourceQuota Q)) → Map Q → Type 0
  Allows (err e) listed needed = ⊥
  Allows (ok _) (err e) needed = contains (message e) rq_not_found ≡ true
  Allows (ok _) (ok rqs) needed = Unasked needed ⊎ AllFit k needed rqs

  abbrev pub error_of : Result (Unit {0}) → Result (List (ResourceQuota Q)) → Option Error
  error_of (err e) listed = some e
  error_of (ok _) (err e) = if contains (message e) rq_not_found then none else some e
  error_of (ok _) (ok rqs) = none

  abbrev pub IsListedIf : Result (List (ResourceQuota Q)) → Type 0
  IsListedIf (err e) = Unit
  IsListedIf (ok rqs) = IsListed k rqs

  Unasked-allowed :
      (rqs : List (ResourceQuota Q)) (needed : Map Q)
      → UniqueKeys needed
      → Unasked needed
      → (resource_quota_check k (ok tt) (ok rqs) needed).allowed ≡ true
  Unasked-allowed rqs needed u (inl (key, less)) =
      ap (λ c. c.allowed) (resource_quota_check_unasked rqs needed key u (inl less))
  Unasked-allowed rqs needed u (inr all_zero) =
      ap (λ c. c.allowed) (resource_quota_check_unasked rqs needed [] u (inr all_zero))

  failed_check :
      (e : Error) (listed : Result (List (ResourceQuota Q))) (needed : Map Q)
      → let check = resource_quota_check k (err e) listed needed in
        ((check.allowed ≡ true) ↔ ⊥) × (check.error ≡ some e)
  unfolding resource_quota_check
  failed_check e listed needed = (((λ h. cc), λ h. absurd h), refl)

  unlisted_check :
      (e : Error) (needed : Map Q)
      → let check = resource_quota_check k (ok tt) (err e) needed in
        ((check.allowed ≡ true) ↔ (contains (message e) rq_not_found ≡ true))
        × (check.error ≡ (if contains (message e) rq_not_found then none else some e))
  unfolding resource_quota_check
  unlisted_check e needed = ground arith

  allowed_asked :
      (rq : ResourceQuota Q) (rqs : List (ResourceQuota Q)) (needed : Map Q)
      → IsListed k (rq ∷ rqs)
      → is_negative k needed ≡ []
      → is_zero k needed ≡ false
      → ((resource_quota_check k (ok tt) (ok (rq ∷ rqs)) needed).allowed ≡ true)
        ↔ AllFit k needed (rq ∷ rqs)
  allowed_asked rq rqs needed l none_less some_needed =
      rw (check-cons needed rq rqs, none_less, some_needed) (is_allowed_iff k (rq ∷ rqs) needed l)

  allowed_iff :
      (rqs : List (ResourceQuota Q)) (needed : Map Q)
      → IsListed k rqs
      → UniqueKeys needed
      → ((resource_quota_check k (ok tt) (ok rqs) needed).allowed ≡ true)
        ↔ (Unasked needed ⊎ AllFit k needed rqs)
  allowed_iff [] needed l u = ((λ h. inr tt), λ h. ap (λ c. c.allowed) (check-nil needed))
  allowed_iff (rq ∷ rqs) needed l u = elim (negative_cases k needed u) [
    | inr (key, less) ↦
        ((λ h. inl (inl (key, less))), λ h. Unasked-allowed (rq ∷ rqs) needed u (inl (key, less)))
    | inl none_less ↦ elim (Bool-cases (is_zero k needed)) [
      | inl zero ↦
          let all_zero = (is_zero_iff k needed u).0 zero in
          ((λ h. inl (inr all_zero)), λ h. Unasked-allowed (rq ∷ rqs) needed u (inr all_zero))
      | inr some_needed ↦
          let (to, from) = allowed_asked rq rqs needed l none_less some_needed in
          (
            (λ a. inr (to a)),
            λ h. elim h [
              | inr fits ↦ from fits
              | inl (inr all_zero) ↦ absurd (cc (some_needed, (is_zero_iff k needed u).1 all_zero))
              | inl (inl (key, less)) ↦
                  absurd (omega (arith, (is_negative_iff k needed u).0 none_less key, less))
            ],
          )
    ]
  ]

  -- Where the maps of the quotas and of what is needed have each key once: the check gives an error
  -- just if the client set could not be made, or the quotas could not be listed, and the error is
  -- that one; an error of the listing that says that there are no quotas counts as none. It allows the
  -- scaling just if it gives no error and there are no quotas, or the scaling gives some resource back,
  -- or it needs none at all, or each quota that restricts a compute resource has room for it.
  pub resource_quota_check_iff :
      (client_set : Result (Unit {0})) (listed : Result (List (ResourceQuota Q))) (needed : Map Q)
      → IsListedIf listed
      → UniqueKeys needed
      → let check = resource_quota_check k client_set listed needed in
        ((check.allowed ≡ true) ↔ Allows client_set listed needed)
        × (check.error ≡ error_of client_set listed)
  resource_quota_check_iff (err e) listed needed l u = failed_check e listed needed
  resource_quota_check_iff (ok _) (err e) needed l u = unlisted_check e needed
  resource_quota_check_iff (ok _) (ok rqs) needed l u =
      (allowed_iff rqs needed l u, check-error needed rqs)
