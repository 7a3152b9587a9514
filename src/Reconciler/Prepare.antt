-- ===== src/Reconciler/Prepare.antt =====
-- internal/reconciler/reconciler.go: PrepareForNamespaceReconcile, which lists the workloads, decides
-- on their namespaces, and reconciles those that are to be scaled.
pub mod Started
pub mod Placed
pub mod Cleared
use pre_scaling_operator.Common.{
  ℕ, suc, ℤ, pos, ◌-ℤ◌, ltb_ℤ, Text, Map, Bool, true, false, not, ◌&&◌, Option, none, some, List,
  [], ◌∷◌, ◌++◌, if◌then◌else◌, Error, Result, ok, err,
}
use pre_scaling_operator.Global.{ScalingInfo, State}
use pre_scaling_operator.ResourceMath.{Quantity}
use pre_scaling_operator.Resources.{group_scaling_item_by_namespace}
use pre_scaling_operator.Resources.Lister.{Listing, scaling_item_namespace_lister}
use pre_scaling_operator.Decisions.{
  NamespaceEvents, NamespaceScaleInfo, OverallNsInfo, Surroundings,
}
use pre_scaling_operator.Decisions.Rounds.{make_namespaces_scale_decisions}
use pre_scaling_operator.Reconciler.{reconcile_namespace}

pub record NamespaceInfo : Type 0 where
  pub ns_events : NamespaceEvents
  pub applied_state : Text
  pub error : Option Error
  pub retrigger_me : Bool
  pub scale_namespace : Bool

-- What is returned: the map, nil as `none`, whether to come back, and the error.
pub record Prepared : Type 0 where
  pub ns_infos : Option (Map NamespaceInfo)
  pub retrigger : Bool
  pub error : Option Error

-- The variables of the loop over the decisions, with the deny list and the workloads that
-- ReconcileNamespace started a scaling of.
pub record Progress (Q : Type 0) : Type 0 where
  pub left : ℤ  -- NumberofNsToScale
  pub infos : Map NamespaceInfo  -- in the order of the visit
  pub started : List (ScalingInfo Q)
  pub denylist : List (ScalingInfo Q)

module _ {Q : Type 0} where
  unfoldable pub info_of : NamespaceScaleInfo Q → NamespaceInfo
  info_of value = record {
    ns_events = value.namespace_events;
    applied_state = value.final_namespace_state.name;
    error = none;
    retrigger_me = false;
    scale_namespace = value.scale_name_space;
  }

  -- `others` is what other goroutines make of the deny list before each item of ReconcileNamespace,
  -- `n` being the number of the namespace.
  unfoldable pub reconcile_decided :
      (ℕ → ℕ → List (ScalingInfo Q) → List (ScalingInfo Q))
      → Bool
      → ℕ
      → Map (NamespaceScaleInfo Q)
      → Progress Q
      → Progress Q
  reconcile_decided others dry_run n [] progress = progress
  reconcile_decided others dry_run n ((namespace, value) ∷ rest) progress =
      let (denylist', started) =
        reconcile_namespace (others n) 0 value.scaling_items progress.denylist in
      let noted = record progress { infos = progress.infos ++ (namespace, info_of value) ∷ [] } in
      reconcile_decided others dry_run (suc n) rest (
        if value.scale_name_space && not dry_run
        then record noted {
          left = progress.left -ℤ pos 1;
          started = progress.started ++ started;
          denylist = denylist';
        }
        else noted)

  -- The map that was made and the question whether to come back.
  unfoldable pub prepared_of : Bool → Progress Q → Prepared
  prepared_of dry_run progress = record {
    ns_infos = some progress.infos;
    retrigger = ltb_ℤ (pos 0) progress.left && not dry_run;
    error = none;
  }

module _ (k : Quantity) (run : Surroundings k.Q)
    (others : ℕ → ℕ → List (ScalingInfo k.Q) → List (ScalingInfo k.Q))
    (sort : List (ScalingInfo k.Q) → List (ScalingInfo k.Q))
    (visit : Map (List (ScalingInfo k.Q)) → Map (List (ScalingInfo k.Q))) (dry_run : Bool) where
  open k use {Q}

  abbrev pub nothing_started : ℤ → List (ScalingInfo Q) → Progress Q
  nothing_started left denylist = record {
    left = left;
    infos = [];
    started = [];
    denylist = denylist;
  }

  unfoldable pub after_decisions :
      List (ScalingInfo Q) → Result (OverallNsInfo Q) → Progress Q × Prepared
  after_decisions denylist (err e) = (
    nothing_started (pos 0) denylist,
    record { ns_infos = none; retrigger = false; error = some e },
  )
  after_decisions denylist (ok info) =
      let progress =
        reconcile_decided others dry_run 0 info.ns_scale_info
          (nothing_started info.number_of_ns_to_scale denylist) in
      (progress, prepared_of dry_run progress)

  -- `visit` gives the order in which the `range` over the groups visits them.
  unfoldable pub after_listing :
      List State
      → List (ScalingInfo Q)
      → Result (List (ScalingInfo Q))
      → Option (Progress Q × Prepared)
  unfolding after_decisions
  after_listing definitions denylist (err e) = some (
    nothing_started (pos 0) denylist,
    record { ns_infos = none; retrigger = true; error = some e },
  )
  after_listing definitions denylist (ok []) = some (
    nothing_started (pos 0) denylist,
    record { ns_infos = none; retrigger = false; error = none },
  )
  after_listing definitions denylist (ok (item ∷ items)) =
      elim (make_namespaces_scale_decisions k run
        (visit (group_scaling_item_by_namespace sort (item ∷ items))) definitions dry_run
        denylist) [
          | none ↦ none
          | some (denylist', decided) ↦ some (after_decisions denylist' decided)
        ]

  -- PrepareForNamespaceReconcile; `none` is a panic.
  unfoldable pub prepare_for_namespace_reconcile :
      Listing Q → Text → List State → List (ScalingInfo Q) → Option (Progress Q × Prepared)
  unfolding after_listing
  prepare_for_namespace_reconcile listing namespace definitions denylist =
      elim (scaling_item_namespace_lister listing namespace) [
        | none ↦ none
        | some listed ↦ after_listing definitions denylist listed
      ]
