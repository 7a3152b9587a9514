-- ===== src/Quotas/Room.antt =====
-- The quota check allows what fits, and says so of every quota of the namespace.
use mathlib.Core.Bool.{false≢true}
use pre_scaling_operator.Common.{
  ℤ, pos, ◌≤ℤ◌, ◌<ℤ◌, ◌-ℤ◌, -ℤ_parts, Text, bytes, Map, lookup, Bool, true, false, ◌&&◌, none, List,
  [], ◌∷◌, ◌==◌, ◌≡◌, refl, ◌↔◌, ◌⊎◌, arith, Bool-cases, inl, inr, ap, sym, ◌∙◌, ◌++◌, ==_refl,
}
use pre_scaling_operator.ResourceMath.{Quantity, is_negative}
use pre_scaling_operator.ResourceMath.Amounts.{amount}
use pre_scaling_operator.Quotas.{
  ResourceQuota, is_compute, sanitize, sanitize_rq, is_empty, no_names, check_limits, allowed_from,
  is_allowed, specific_resource_quotas,
}
use pre_scaling_operator.Quotas.Left.{Fits, governs, AllFit, IsListed, Fits-iff}

module _ (k : Quantity) where
  open k use {Q}

  abbrev left_over : Map Q → ResourceQuota Q → Bool
  left_over needed rq = no_names (is_negative k (check_limits k (sanitize_rq rq) needed))

  -- What one quota makes of the rest of the loop.
  allowed_from-cons :
      (needed : Map Q) (cpu memory : Text) (rq : ResourceQuota Q) (rqs : List (ResourceQuota Q))
      → ((governs k rq ≡ false)
          × (allowed_from k needed cpu memory (rq ∷ rqs) ≡ allowed_from k needed cpu memory rqs))
        ⊎ ((governs k rq ≡ true)
            × (left_over needed rq ≡ true)
            × ((cpu' : Text) × (memory' : Text) × (allowed_from k needed cpu memory (rq ∷ rqs)
                  ≡ allowed_from k needed cpu' memory' rqs)))
        ⊎ ((governs k rq ≡ true)
            × (left_over needed rq ≡ false)
            × ((allowed_from k needed cpu memory (rq ∷ rqs)).allowed ≡ false))
  unfolding allowed_from
  allowed_from-cons needed cpu memory rq rqs =
      let left = specific_resource_quotas k (check_limits k (sanitize_rq rq) needed) in
      elim (Bool-cases (is_empty (sanitize rq.hard) && is_empty (sanitize rq.used))) [
        | inl e ↦ inl (rw e, rw (e, allowed_from))
        | inr g ↦ elim (Bool-cases (left_over needed rq)) [
          | inl l ↦
              inr (inl (rw g, l, (left.0, left.1, rw (g, allowed_from) (rw (l, allowed_from)))))
          | inr l ↦ inr (inr (rw g, l, rw (g, allowed_from) (rw (l, allowed_from))))
        ]
      ]

  allowed_from_iff :
      (needed : Map Q) (cpu memory : Text) (rqs : List (ResourceQuota Q))
      → IsListed k rqs
      → ((allowed_from k needed cpu memory rqs).allowed ≡ true) ↔ AllFit k needed rqs
  allowed_from_iff needed cpu memory [] l = ((λ h. tt), λ h. unfold allowed_from in refl)
  allowed_from_iff needed cpu memory (rq ∷ rqs) l =
      elim (allowed_from-cons needed cpu memory rq rqs) [
        | inl (g, e) ↦
            let (to, from) = allowed_from_iff needed cpu memory rqs l.2 in
            (
              (λ h.
                  ((λ h'. absurd (false≢true (sym g ∙ h'))), to (sym (ap (λ r. r.allowed) e) ∙ h))),
              λ fits. ap (λ r. r.allowed) e ∙ from fits.1,
            )
        | inr (inl (g, left, (cpu', memory', e))) ↦
            let (to, from) = allowed_from_iff needed cpu' memory' rqs l.2 in
            (
              (λ h. (
                (λ _. (Fits-iff k rq needed l.0 l.1).0 left),
                to (sym (ap (λ r. r.allowed) e) ∙ h),
              )),
              λ fits. ap (λ r. r.allowed) e ∙ from fits.1,
            )
        | inr (inr (g, left, e)) ↦ (
          (λ h. absurd (false≢true (sym e ∙ h))),
          λ fits. absurd (false≢true (sym left ∙ (Fits-iff k rq needed l.0 l.1).1 (fits.0 g))),
        )
      ]

  -- Where the maps of the quotas have each key once, the quotas allow a scaling just if each of
  -- them that restricts a compute resource has, of each compute resource, what the scaling needs
  -- beyond what is used.
  pub is_allowed_iff :
      (rqs : List (ResourceQuota Q)) (needed : Map Q)
      → IsListed k rqs
      → ((is_allowed k rqs needed).allowed ≡ true) ↔ AllFit k needed rqs
  unfolding is_allowed
  is_allowed_iff rqs needed l = allowed_from_iff needed [] [] rqs l

  pub AllFit-at :
      (pre : List (ResourceQuota Q)) (rq : ResourceQuota Q) (post : List (ResourceQuota Q))
      (needed : Map Q)
      → AllFit k needed (pre ++ rq ∷ post)
      → governs k rq ≡ true
      → Fits k needed rq
  AllFit-at [] rq post needed all = all.0
  AllFit-at (p ∷ pre) rq post needed all = AllFit-at pre rq post needed all.1

  none_left : (x : ℤ) → pos 0 <ℤ x → ¬ (pos 0 ≤ℤ pos 0 -ℤ pos 0 -ℤ x)
  none_left x p q = omega (arith, -ℤ_parts (pos 0) (pos 0), -ℤ_parts (pos 0 -ℤ pos 0) x)

  -- Where the maps of the quotas have each key once, a quota that restricts some compute resource
  -- and has no entry for the limit on cpu denies every scaling that needs cpu, wherever it stands
  -- in the list.
  pub unlimited_cpu_denied :
      (rq : ResourceQuota Q) (pre post : List (ResourceQuota Q)) (needed : Map Q)
      → IsListed k (pre ++ rq ∷ post)
      → governs k rq ≡ true
      → lookup (bytes "limits.cpu") rq.hard ≡ none
      → lookup (bytes "limits.cpu") rq.used ≡ none
      → pos 0 <ℤ amount k (bytes "cpu") needed
      → (is_allowed k (pre ++ rq ∷ post) needed).allowed ≡ false
  unlimited_cpu_denied rq pre post needed l g h u n =
      elim (Bool-cases (is_allowed k (pre ++ rq ∷ post) needed).allowed) [
        | inl yes_allowed ↦
            let fits =
              AllFit-at pre rq post needed
                ((is_allowed_iff (pre ++ rq ∷ post) needed l).0 yes_allowed) in
            let room = fits g (bytes "limits.cpu") (unfold is_compute in unfold ◌==◌ in refl) in
            absurd (none_left _ n (rw (h, u, ==_refl (bytes "limits.cpu")) at room))
        | inr denied ↦ denied
      ]
