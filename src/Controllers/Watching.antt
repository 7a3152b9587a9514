-- ===== src/Controllers/Watching.antt =====
-- Which workloads the watchers of the controllers start.
use pre_scaling_operator.Common.{
  Bool, false, Option, none, some, List, [], if◌then◌else◌, ok, ◌≡◌, ◌≢◌, refl,
}
use pre_scaling_operator.Global.{ScalingInfo}
use pre_scaling_operator.Global.Convert.{Deployment, convert_deployment_to_item}
use pre_scaling_operator.Global.Denylist.{is_deployment_in_failure_state}
use pre_scaling_operator.Global.Registry.{
  UniqueItems, entry, get_deployment_info-find, or_passed_in,
}
use pre_scaling_operator.Controllers.{watch_item, deployment_reconcile}

-- Whether the entry of a workload, if it has one, is in failure.
abbrev pub entry_failed : {Q : Type 0} → Option (ScalingInfo Q) → Bool
entry_failed none = false
entry_failed (some found) = found.failure

failure_of-entry :
    {Q : Type 0} (item : ScalingInfo Q) (denylist : List (ScalingInfo Q))
    → UniqueItems denylist
    → item.name ≢ []
    → item.namespace ≢ []
    → is_deployment_in_failure_state item denylist ≡ entry_failed (entry item denylist)
unfolding is_deployment_in_failure_state
failure_of-entry item denylist u named placed =
    rw (get_deployment_info-find item denylist u named placed) (by_entry (entry item denylist))
  where
    by_entry :
        (o : Option (ScalingInfo _))
        → (if (or_passed_in item o).1 then (or_passed_in item o).0.failure else false)
          ≡ entry_failed o
    by_entry none = refl
    by_entry (some found) = refl

-- On a deny list with distinct keys, the watcher of deployments starts the reconciliation of a
-- deployment that has a name and a namespace, and whose pointers are set, exactly if the deny list
-- does not have its workload in failure, and returns without an error.
pub deployment_reconcile_lem :
    {Q : Type 0} (denylist : List (ScalingInfo Q)) (deployment : Deployment Q)
    (item : ScalingInfo Q)
    → UniqueItems denylist
    → convert_deployment_to_item deployment ≡ some item
    → item.name ≢ []
    → item.namespace ≢ []
    → deployment_reconcile denylist (ok deployment)
      ≡ some (record {
        error = none;
        starts = if entry_failed (entry item denylist) then none else some item;
      })
unfolding deployment_reconcile watch_item
deployment_reconcile_lem denylist deployment item u converted named placed =
    rw (converted, deployment_reconcile) (rw (failure_of-entry item denylist u named placed) refl)
