-- ===== src/Tests/Requeueing.antt =====
-- When the controllers come back to the namespace "shop".
use pre_scaling_operator.Common.{
  ℤ, pos, Text, ltb_ℤ, false, none, some, [], ◌∷◌, ◌≡◌, refl, ok, err, plain, bytes, if◌then◌else◌,
  ◌==◌,
}
use pre_scaling_operator.Global.Convert.{convert_deployment_to_item}
use pre_scaling_operator.Resources.Lister.{scaling_item_namespace_lister, convert_all}
use pre_scaling_operator.Decisions.Budget.{scaling}
use pre_scaling_operator.Reconciler.Prepare.{Prepared, Progress, prepare_for_namespace_reconcile}
use pre_scaling_operator.Controllers.{
  Reconciled, cluster_scaling_state_reconcile, scaling_state_reconcile,
}
use pre_scaling_operator.Controllers.Requeue.{
  cluster_scaling_state_reconcile-requeue, scaling_state_reconcile-once,
}
use pre_scaling_operator.Tests.{whole, shop, peak}
use pre_scaling_operator.Tests.Events.{fresh_web}
use pre_scaling_operator.Tests.Deciding.{surroundings, shop_info, shop_listing, shop_grouped}

listed_in :
    (namespace : Text)
    → scaling_item_namespace_lister shop_listing namespace ≡ some (ok (fresh_web ∷ []))
unfolding scaling_item_namespace_lister convert_deployment_to_item convert_all ◌==◌
listed_in namespace = refl

cluster_scaling_state_reconcile-requeue_example :
    (r : Reconciled) × (cluster_scaling_state_reconcile
        (λ namespace known dry.
          prepare_for_namespace_reconcile whole surroundings
            (λ n round items. items)
            (λ items. items)
            (λ m. m)
            dry
            shop_listing
            namespace
            known
            [])
        (err (plain (bytes "not found")))
        (ok (peak ∷ []))
      ≡ some r)
    × (r.error ≡ none)
    × (r.requeue_after ≡ (
        if ltb_ℤ (pos (scaling shop_info.ns_scale_info)) shop_info.number_of_ns_to_scale
        then 15
        else 0))
cluster_scaling_state_reconcile-requeue_example =
    cluster_scaling_state_reconcile-requeue whole surroundings (λ n round items. items)
      (λ items. items) (λ m. m) shop_listing [] [] (peak ∷ []) fresh_web [] shop_info
      (err (plain (bytes "not found"))) refl (listed_in []) shop_grouped

scaling_state_reconcile-once_example :
    (progress : Progress ℤ) × (prepared : Prepared) × (r : Reconciled)
    × (prepare_for_namespace_reconcile whole surroundings
          (λ n round items. items)
          (λ items. items)
          (λ m. m)
          false
          shop_listing
          shop
          (peak ∷ [])
          []
        ≡ some (progress, prepared))
    × (prepared.retrigger
        ≡ ltb_ℤ (pos (scaling shop_info.ns_scale_info)) shop_info.number_of_ns_to_scale)
    × (scaling_state_reconcile
          (λ place known dry.
            prepare_for_namespace_reconcile whole surroundings
              (λ n round items. items)
              (λ items. items)
              (λ m. m)
              dry
              shop_listing
              place
              known
              [])
          shop
          (err (plain (bytes "not found")))
          (ok (peak ∷ []))
        ≡ some r)
    × (r.error ≡ none)
    × (r.requeue_after ≡ 0)
scaling_state_reconcile-once_example =
    scaling_state_reconcile-once whole surroundings (λ n round items. items) (λ items. items)
      (λ m. m) shop_listing shop [] [] (peak ∷ []) fresh_web [] shop_info
      (err (plain (bytes "not found"))) refl (listed_in shop) shop_grouped
