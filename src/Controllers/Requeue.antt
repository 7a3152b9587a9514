-- ===== src/Controllers/Requeue.antt =====
-- When the controllers are called again.
use pre_scaling_operator.Common.{
  ℕ, pos, ltb_ℤ, Text, Map, Bool, true, false, ◌||◌, Option, none, some, List, [], ◌∷◌,
  if◌then◌else◌, Error, Result, ok, err, ◌≡◌, refl, arith, ap, ◌∙◌,
}
use pre_scaling_operator.Global.{ScalingInfo, State}
use pre_scaling_operator.ResourceMath.{Quantity}
use pre_scaling_operator.Resources.{group_scaling_item_by_namespace}
use pre_scaling_operator.Resources.Lister.{Listing, scaling_item_namespace_lister}
use pre_scaling_operator.Decisions.{OverallNsInfo, Surroundings}
use pre_scaling_operator.Decisions.Rounds.{make_namespaces_scale_decisions}
use pre_scaling_operator.Decisions.Budget.{scaling}
use pre_scaling_operator.Reconciler.Prepare.{
  NamespaceInfo, Prepared, Progress, prepare_for_namespace_reconcile,
}
use pre_scaling_operator.Reconciler.Prepare.Started.{prepare_for_namespace_reconcile-retrigger}
use pre_scaling_operator.Controllers.{
  Reconciled, ignore_errors, concerned_text, finish_cluster, whole_text, finish_namespace,
  after_prepare, cluster_scaling_state_reconcile, cluster_scaling_state_definition_reconcile,
  scaling_state_reconcile, retrigger_controller_seconds, dry_of,
}

finish_cluster-requeue :
    (text : Map NamespaceInfo → Text) (dry : Bool) (infos : Option (Map NamespaceInfo))
    (retrigger : Bool) (error : Option Error)
    → error ≡ none
    → let r =
        finish_cluster text dry false
          (record { ns_infos = infos; retrigger = retrigger; error = error }) in
      (r.error ≡ none) × (r.requeue_after ≡ (if retrigger then retrigger_controller_seconds else 0))
unfolding finish_cluster
finish_cluster-requeue text dry none true none e = (refl, refl)
finish_cluster-requeue text dry none false none e = (refl, refl)
finish_cluster-requeue text dry (some infos) true none e = (refl, refl)
finish_cluster-requeue text dry (some infos) false none e = (refl, refl)
finish_cluster-requeue text dry infos retrigger (some f) e = ground arith

-- The seconds where a map was made.
finish_cluster-mapped :
    (text : Map NamespaceInfo → Text) (more : Bool) (prepared : Prepared)
    (infos : Map NamespaceInfo)
    → prepared.ns_infos ≡ some infos
    → prepared.error ≡ none
    → let r = finish_cluster text false more prepared in
      (r.error ≡ none)
      × (r.requeue_after ≡ (if prepared.retrigger || more then retrigger_controller_seconds else 0))
unfolding finish_cluster
finish_cluster-mapped text more prepared infos m e = ground (arith, m, e)

finish_namespace-once :
    (dry : Bool) (prepared : Prepared)
    → prepared.error ≡ none
    → ((finish_namespace dry prepared).error ≡ none)
      × ((finish_namespace dry prepared).requeue_after ≡ 0)
unfolding finish_namespace
finish_namespace-once dry prepared e = ground (arith, e)

module _ (k : Quantity) (run : Surroundings k.Q)
    (others : ℕ → ℕ → List (ScalingInfo k.Q) → List (ScalingInfo k.Q))
    (sort : List (ScalingInfo k.Q) → List (ScalingInfo k.Q))
    (visit : Map (List (ScalingInfo k.Q)) → Map (List (ScalingInfo k.Q))) where
  open k use {Q}

  cluster_requeue :
      (listing : Listing Q) (denylist denylist' : List (ScalingInfo Q)) (definitions : List State)
      (item : ScalingInfo Q) (items : List (ScalingInfo Q)) (info : OverallNsInfo Q)
      → scaling_item_namespace_lister listing [] ≡ some (ok (item ∷ items))
      → make_namespaces_scale_decisions k run
          (visit (group_scaling_item_by_namespace sort (item ∷ items)))
          definitions
          false
          denylist
        ≡ some (denylist', ok info)
      → (r : Reconciled) × (cluster_scaling_state_reconcile
            (λ namespace known dry.
              prepare_for_namespace_reconcile k run others sort visit dry listing namespace known
                denylist)
            (ok false)
            (ok definitions)
          ≡ some r)
        × (r.error ≡ none)
        × (r.requeue_after ≡ (
            if ltb_ℤ (pos (scaling info.ns_scale_info)) info.number_of_ns_to_scale then 15 else 0))
  unfolding cluster_scaling_state_reconcile after_prepare ignore_errors
  cluster_requeue listing denylist denylist' definitions item items info listed decided =
      let (progress, prepared, e, fine, again, _) =
        prepare_for_namespace_reconcile-retrigger k run others sort visit listing [] definitions
          denylist denylist' item items info listed decided in
      let seen = ignore_errors prepared in
      let (same, seconds) =
        finish_cluster-requeue concerned_text false seen.ns_infos prepared.retrigger prepared.error
          fine in
      (
        finish_cluster concerned_text false false seen,
        rw (e, after_prepare) refl,
        same,
        seconds ∙ ap (λ b. if b then retrigger_controller_seconds else 0) again,
      )

  -- Outside a dry run, which is where the ClusterScalingState is read and asks for none or cannot be
  -- read, once the definitions are read, workloads are listed and the decisions made,
  -- ClusterScalingStateReconciler returns without an error; it asks to be called again in 15 seconds
  -- if fewer namespaces are marked to be scaled than the decisions counted, and else not at all.
  pub cluster_scaling_state_reconcile-requeue :
      (listing : Listing Q) (denylist denylist' : List (ScalingInfo Q)) (definitions : List State)
      (item : ScalingInfo Q) (items : List (ScalingInfo Q)) (info : OverallNsInfo Q)
      (read : Result Bool)
      → dry_of read ≡ false
      → scaling_item_namespace_lister listing [] ≡ some (ok (item ∷ items))
      → make_namespaces_scale_decisions k run
          (visit (group_scaling_item_by_namespace sort (item ∷ items)))
          definitions
          false
          denylist
        ≡ some (denylist', ok info)
      → (r : Reconciled) × (cluster_scaling_state_reconcile
            (λ namespace known dry.
              prepare_for_namespace_reconcile k run others sort visit dry listing namespace known
                denylist)
            read
            (ok definitions)
          ≡ some r)
        × (r.error ≡ none)
        × (r.requeue_after ≡ (
            if ltb_ℤ (pos (scaling info.ns_scale_info)) info.number_of_ns_to_scale then 15 else 0))
  unfolding cluster_scaling_state_reconcile
  cluster_scaling_state_reconcile-requeue listing denylist denylist' definitions item items info
        (ok true) real listed decided =
      cc
  cluster_scaling_state_reconcile-requeue listing denylist denylist' definitions item items info
        (ok false) real listed decided =
      cluster_requeue listing denylist denylist' definitions item items info listed decided
  cluster_scaling_state_reconcile-requeue listing denylist denylist' definitions item items info
        (err e) real listed decided =
      cluster_requeue listing denylist denylist' definitions item items info listed decided

  -- The same for ClusterScalingStateDefinitionReconciler, where all namespaces could be listed: it asks
  -- to be called again also where the operator runs for less than 12 seconds.
  pub cluster_scaling_state_definition_reconcile-requeue :
      (listing : Listing Q) (denylist denylist' : List (ScalingInfo Q)) (definitions : List State)
      (item : ScalingInfo Q) (items : List (ScalingInfo Q)) (info : OverallNsInfo Q)
      (starting : Bool)
      → scaling_item_namespace_lister listing [] ≡ some (ok (item ∷ items))
      → make_namespaces_scale_decisions k run
          (visit (group_scaling_item_by_namespace sort (item ∷ items)))
          definitions
          false
          denylist
        ≡ some (denylist', ok info)
      → (r : Reconciled) × (cluster_scaling_state_definition_reconcile
            (λ namespace known dry.
              prepare_for_namespace_reconcile k run others sort visit dry listing namespace known
                denylist)
            (ok false)
            (ok definitions)
            (ok tt)
            starting
          ≡ some r)
        × (r.error ≡ none)
        × (r.requeue_after ≡ (
            if ltb_ℤ (pos (scaling info.ns_scale_info)) info.number_of_ns_to_scale || starting
            then 15
            else 0))
  unfolding cluster_scaling_state_definition_reconcile after_prepare
  cluster_scaling_state_definition_reconcile-requeue listing denylist denylist' definitions item
        items info starting listed decided =
      let (progress, prepared, e, fine, again, mapped) =
        prepare_for_namespace_reconcile-retrigger k run others sort visit listing [] definitions
          denylist denylist' item items info listed decided in
      let (same, seconds) =
        finish_cluster-mapped whole_text starting prepared progress.infos mapped fine in
      (
        finish_cluster whole_text false starting prepared,
        rw (e, after_prepare) refl,
        same,
        seconds ∙ ap (λ b. if b || starting then retrigger_controller_seconds else 0) again,
      )

  namespace_once :
      (listing : Listing Q) (namespace : Text) (denylist denylist' : List (ScalingInfo Q))
      (definitions : List State) (item : ScalingInfo Q) (items : List (ScalingInfo Q))
      (info : OverallNsInfo Q)
      → scaling_item_namespace_lister listing namespace ≡ some (ok (item ∷ items))
      → make_namespaces_scale_decisions k run
          (visit (group_scaling_item_by_namespace sort (item ∷ items)))
          definitions
          false
          denylist
        ≡ some (denylist', ok info)
      → (progress : Progress Q) × (prepared : Prepared) × (r : Reconciled)
        × (prepare_for_namespace_reconcile k run others sort visit false listing namespace
              definitions denylist
            ≡ some (progress, prepared))
        × (prepared.retrigger ≡ ltb_ℤ (pos (scaling info.ns_scale_info)) info.number_of_ns_to_scale)
        × (scaling_state_reconcile
              (λ place known dry.
                prepare_for_namespace_reconcile k run others sort visit dry listing place known
                  denylist)
              namespace
              (ok false)
              (ok definitions)
            ≡ some r)
        × (r.error ≡ none)
        × (r.requeue_after ≡ 0)
  unfolding scaling_state_reconcile after_prepare
  namespace_once listing namespace denylist denylist' definitions item items info listed decided =
      let (progress, prepared, e, fine, again, mapped) =
        prepare_for_namespace_reconcile-retrigger k run others sort visit listing namespace
          definitions denylist denylist' item items info listed decided in
      let (same, seconds) = finish_namespace-once false prepared fine in
      (
        progress,
        prepared,
        finish_namespace false prepared,
        e,
        again,
        rw (e, after_prepare) refl,
        same,
        seconds,
      )

  -- Outside a dry run, which is where the ScalingState is read and asks for none or cannot be read,
  -- once the definitions are read, workloads of the namespace are listed and the decisions made,
  -- ScalingStateReconciler returns without an error and does not ask to be called again, also where
  -- the namespace is not marked to be scaled but was counted, as PrepareForNamespaceReconcile reports.
  pub scaling_state_reconcile-once :
      (listing : Listing Q) (namespace : Text) (denylist denylist' : List (ScalingInfo Q))
      (definitions : List State) (item : ScalingInfo Q) (items : List (ScalingInfo Q))
      (info : OverallNsInfo Q) (read : Result Bool)
      → dry_of read ≡ false
      → scaling_item_namespace_lister listing namespace ≡ some (ok (item ∷ items))
      → make_namespaces_scale_decisions k run
          (visit (group_scaling_item_by_namespace sort (item ∷ items)))
          definitions
          false
          denylist
        ≡ some (denylist', ok info)
      → (progress : Progress Q) × (prepared : Prepared) × (r : Reconciled)
        × (prepare_for_namespace_reconcile k run others sort visit false listing namespace
              definitions denylist
            ≡ some (progress, prepared))
        × (prepared.retrigger ≡ ltb_ℤ (pos (scaling info.ns_scale_info)) info.number_of_ns_to_scale)
        × (scaling_state_reconcile
              (λ place known dry.
                prepare_for_namespace_reconcile k run others sort visit dry listing place known
                  denylist)
              namespace
              read
              (ok definitions)
            ≡ some r)
        × (r.error ≡ none)
        × (r.requeue_after ≡ 0)
  unfolding scaling_state_reconcile
  scaling_state_reconcile-once listing namespace denylist denylist' definitions item items info
        (ok true) real listed decided =
      cc
  scaling_state_reconcile-once listing namespace denylist denylist' definitions item items info
        (ok false) real listed decided =
      namespace_once listing namespace denylist denylist' definitions item items info listed decided
  scaling_state_reconcile-once listing namespace denylist denylist' definitions item items info
        (err e) real listed decided =
      namespace_once listing namespace denylist denylist' definitions item items info listed decided
