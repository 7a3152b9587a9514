-- ===== src/Tests/Scaling.antt =====
-- Resources, quotas, events and changes of the workload "web".
use pre_scaling_operator.Common.{
  ℤ, pos, bytes, Map, lookup, UniqueKeys, true, [], ◌∷◌, ◌≡◌, ◌↔◌, refl, ok, arith,
}
use pre_scaling_operator.Global.{ScalingInfo}
use pre_scaling_operator.ResourceMath.Amounts.{amount}
use pre_scaling_operator.Quotas.{ResourceQuota, resource_quota_check}
use pre_scaling_operator.Quotas.Left.{IsListed}
use pre_scaling_operator.Quotas.Check.{Allows, error_of, resource_quota_check_iff}
use pre_scaling_operator.Resources.{limits_needed_list}
use pre_scaling_operator.Resources.Limits.{
  IsCounted, AllCounted, sum_added, amount-limits_needed_list,
}
use pre_scaling_operator.Tests.{whole, web_item}

abbrev cpu_needed : Map ℤ
cpu_needed = (bytes "cpu", pos 3) ∷ []

cpu_unique : UniqueKeys cpu_needed
unfolding lookup
cpu_unique = (refl, tt)

-- A quota on memory alone.
abbrev memory_quota : ResourceQuota ℤ
memory_quota = record {
  name = bytes "memory";
  hard = (bytes "limits.memory", pos 8) ∷ [];
  used = (bytes "limits.memory", pos 1) ∷ [];
}

memory-IsListed : IsListed whole (memory_quota ∷ [])
unfolding lookup
memory-IsListed = ((refl, tt), (refl, tt), tt)

resource_quota_check_example :
    (((resource_quota_check whole (ok tt) (ok (memory_quota ∷ [])) cpu_needed).allowed ≡ true)
      ↔ Allows whole (ok tt) (ok (memory_quota ∷ [])) cpu_needed)
    × ((resource_quota_check whole (ok tt) (ok (memory_quota ∷ [])) cpu_needed).error
        ≡ error_of whole (ok tt) (ok (memory_quota ∷ [])))
resource_quota_check_example =
    resource_quota_check_iff whole (ok tt) (ok (memory_quota ∷ [])) cpu_needed memory-IsListed
      cpu_unique

web-IsCounted : IsCounted whole web_item (pos 1)
web-IsCounted =
    ((omega arith, omega arith), (omega arith, omega arith), omega arith, omega arith, cpu_unique)

abbrev five_wanted : ScalingInfo ℤ
five_wanted = record web_item { desired_replicas = pos 5 }

five_counted : AllCounted whole (five_wanted ∷ [])
five_counted = (
  ((omega arith, omega arith), (omega arith, omega arith), omega arith, omega arith, cpu_unique),
  tt,
)

amount-limits_needed_list_example :
    (amount whole (bytes "cpu") (limits_needed_list whole (five_wanted ∷ []))
      ≡ sum_added whole (bytes "cpu") (five_wanted ∷ []))
    × UniqueKeys (limits_needed_list whole (five_wanted ∷ []))
amount-limits_needed_list_example =
    amount-limits_needed_list whole (bytes "cpu") (five_wanted ∷ []) five_counted
