-- ===== src/Quotas.antt =====
-- internal/quotas/quotas.go: whether the resource quotas of a namespace leave room for what a
-- scaling needs.
pub mod Left
pub mod Room
pub mod Check
use pre_scaling_operator.Common.{
  Text, bytes, Map, lookup, Bool, true, false, ◌&&◌, ◌||◌, Option, none, some, List, [], ◌∷◌, ◌==◌,
  contains, if◌then◌else◌, Error, plain, message, Result, ok, err,
}
use pre_scaling_operator.ResourceMath.{
  Quantity, subtract, is_negative, is_zero, translate_resources_to_quota_resources,
}

-- corev1.ResourceQuota, as far as the check reads it: Status.Hard and Status.Used.
pub record ResourceQuota (Q : Type 0) : Type 0 where
  pub name : Text
  pub hard : Map Q
  pub used : Map Q

-- What the check hands back: the cpu and the memory left, whether scaling is allowed, the error.
pub record QuotaCheck : Type 0 where
  pub cpu : Text
  pub memory : Text
  pub allowed : Bool
  pub error : Option Error

-- The keys that sanitizeRQ keeps.
unfoldable pub is_compute : Text → Bool
is_compute key =
    key == bytes "limits.cpu"
    || (key == bytes "limits.memory"
        || (key == bytes "requests.cpu" || key == bytes "requests.memory"))

unfoldable pub sanitize : {Q : Type 0} → Map Q → Map Q
unfolding is_compute
sanitize [] = []
sanitize ((key, v) ∷ m) = let rest = sanitize m in if is_compute key then (key, v) ∷ rest else rest

unfoldable pub sanitize_rq : {Q : Type 0} → ResourceQuota Q → ResourceQuota Q
unfolding sanitize
sanitize_rq rq = record rq { hard = sanitize rq.hard; used = sanitize rq.used }

abbrev pub is_empty : {Q : Type 0} → Map Q → Bool
is_empty [] = true
is_empty (e ∷ m) = false

abbrev pub no_names : List Text → Bool
no_names [] = true
no_names (k ∷ ks) = false

module _ (k : Quantity) where
  open k use {Q, unset, to_text}

  quantity_or_unset : Option Q → Text
  quantity_or_unset none = to_text unset
  quantity_or_unset (some q) = to_text q

  -- The loop of specificResourceQuotas leaves the last quantity under each key, which a map has once.
  unfoldable pub specific_resource_quotas : Map Q → Text × Text
  unfolding quantity_or_unset
  specific_resource_quotas limits = (
    quantity_or_unset (lookup (bytes "limits.cpu") limits),
    quantity_or_unset (lookup (bytes "limits.memory") limits),
  )

  -- What is left of a quota after the scaling.
  unfoldable pub check_limits : ResourceQuota Q → Map Q → Map Q
  check_limits rq limits_needed =
      subtract k (subtract k rq.hard rq.used) (translate_resources_to_quota_resources limits_needed)

  -- The loop of isAllowed; the cpu and the memory are those of the last quota that was looked at.
  allowed_from : Map Q → Text → Text → List (ResourceQuota Q) → QuotaCheck
  unfolding sanitize_rq check_limits
  allowed_from needed cpu memory [] = record {
    cpu = cpu;
    memory = memory;
    allowed = true;
    error = none;
  }
  allowed_from needed cpu memory (rq ∷ rqs) =
      let clean = sanitize_rq rq in
      elim (is_empty clean.hard && is_empty clean.used) [
        | true ↦ allowed_from needed cpu memory rqs
        | false ↦
            let limits = check_limits clean needed in
            let (cpu', memory') = specific_resource_quotas limits in
            elim (no_names (is_negative k limits)) [
              | true ↦ allowed_from needed cpu' memory' rqs
              | false ↦ record { cpu = cpu'; memory = memory'; allowed = false; error = none }
            ]
      ]

  unfoldable pub is_allowed : List (ResourceQuota Q) → Map Q → QuotaCheck
  unfolding allowed_from
  is_allowed rqs limits_needed = allowed_from limits_needed [] [] rqs

abbrev pub rq_not_found : Text
rq_not_found = bytes "No resource quotas found"

some_quotas : {Q : Type 0} → List (ResourceQuota Q) → Result (List (ResourceQuota Q))
some_quotas [] = err (plain rq_not_found)
some_quotas (rq ∷ rqs) = ok (rq ∷ rqs)

-- What the client lists, where an empty list is an error.
unfoldable pub resource_quota :
    {Q : Type 0} → Result (List (ResourceQuota Q)) → Result (List (ResourceQuota Q))
unfolding some_quotas
resource_quota (ok rqs) = some_quotas rqs
resource_quota (err e) = err e

module _ (k : Quantity) where
  open k use {Q}

  abbrev unread : Bool → Option Error → QuotaCheck
  unread allowed error = record { cpu = []; memory = []; allowed = allowed; error = error }

  -- The check once the client has answered.
  check_quotas : Map Q → Result (List (ResourceQuota Q)) → QuotaCheck
  unfolding is_allowed message
  check_quotas limits_needed (err e) =
      if contains (message e) rq_not_found then unread true none else unread false (some e)
  check_quotas limits_needed (ok rqs) =
      if no_names (is_negative k limits_needed)
      then if is_zero k limits_needed then unread true none else is_allowed k rqs limits_needed
      else unread true none

  -- The two results are those of GetClientSet and of the listing of the namespace's quotas.
  unfoldable pub resource_quota_check :
      Result (Unit {0}) → Result (List (ResourceQuota Q)) → Map Q → QuotaCheck
  unfolding check_quotas resource_quota
  resource_quota_check (err e) listed limits_needed = unread false (some e)
  resource_quota_check (ok _) listed limits_needed =
      check_quotas limits_needed (resource_quota listed)
