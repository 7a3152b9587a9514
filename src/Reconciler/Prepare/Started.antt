-- ===== src/Reconciler/Prepare/Started.antt =====
-- What PrepareForNamespaceReconcile starts, and when it asks to be called again.
use pre_scaling_operator.Common.{
  ℕ, suc, ℤ, pos, ◌-ℤ◌, ltb_ℤ, int_laws, Text, Map, true, false, ◌&&◌, Option, none, some, List, [],
  ◌∷◌, Result, ok, err, ◌≡◌, refl, arith, ◌∙◌, subst, Bool-cases, inl, inr,
}
use pre_scaling_operator.Global.{ScalingInfo, State}
use pre_scaling_operator.ResourceMath.{Quantity}
use pre_scaling_operator.Resources.{group_scaling_item_by_namespace}
use pre_scaling_operator.Resources.Lister.{Listing, scaling_item_namespace_lister}
use pre_scaling_operator.Decisions.{NamespaceScaleInfo, OverallNsInfo, Surroundings}
use pre_scaling_operator.Decisions.Rounds.{make_namespaces_scale_decisions}
use pre_scaling_operator.Decisions.Budget.{scaling}
use pre_scaling_operator.Decisions.Keeps.{decisions_err}
use pre_scaling_operator.Decisions.Outcomes.{make_namespaces_scale_decisions-dry}
use pre_scaling_operator.Reconciler.Prepare.{
  Prepared, Progress, reconcile_decided, prepared_of, nothing_started, after_decisions,
  after_listing, prepare_for_namespace_reconcile,
}

counted_off :
    (to_scale : ℤ) (n : ℕ) → ltb_ℤ (pos 0) (to_scale -ℤ pos n) && true ≡ ltb_ℤ (pos n) to_scale
unfolding ◌-ℤ◌
counted_off to_scale n = ground arith

module _ {Q : Type 0} (others : ℕ → ℕ → List (ScalingInfo Q) → List (ScalingInfo Q)) where
  -- Each namespace that is to be scaled is counted off.
  reconcile_decided-left :
      (n : ℕ) (m : Map (NamespaceScaleInfo Q)) (progress : Progress Q)
      → (reconcile_decided others false n m progress).left ≡ progress.left -ℤ pos (scaling m)
  unfolding reconcile_decided
  reconcile_decided-left n [] progress = omega int_laws
  reconcile_decided-left n ((namespace, value) ∷ rest) progress =
      elim (Bool-cases value.scale_name_space) [
        | inl scale ↦
            let more = reconcile_decided-left (suc n) rest _ in rw scale (more ∙ omega int_laws)
        | inr stays ↦ rw stays (reconcile_decided-left (suc n) rest _)
      ]

  -- A dry run starts nothing.
  reconcile_decided-dry :
      (n : ℕ) (m : Map (NamespaceScaleInfo Q)) (progress : Progress Q)
      → let after = reconcile_decided others true n m progress in
        (after.started ≡ progress.started)
        × (after.denylist ≡ progress.denylist)
        × (after.left ≡ progress.left)
  unfolding reconcile_decided
  reconcile_decided-dry n [] progress = (refl, refl, refl)
  reconcile_decided-dry n ((namespace, value) ∷ rest) progress =
      elim (Bool-cases value.scale_name_space) [
        | inl scale ↦ rw scale (reconcile_decided-dry (suc n) rest _)
        | inr stays ↦ rw stays (reconcile_decided-dry (suc n) rest _)
      ]

module _ (k : Quantity) (run : Surroundings k.Q)
    (others : ℕ → ℕ → List (ScalingInfo k.Q) → List (ScalingInfo k.Q))
    (sort : List (ScalingInfo k.Q) → List (ScalingInfo k.Q))
    (visit : Map (List (ScalingInfo k.Q)) → Map (List (ScalingInfo k.Q))) where
  open k use {Q}

  -- Nothing was started, the deny list is the given one, and there is no retrigger without an error.
  abbrev pub IsDry : List (ScalingInfo Q) → Progress Q → Prepared → Type 0
  IsDry denylist progress prepared =
      (progress.started ≡ [])
      × (progress.denylist ≡ denylist)
      × (prepared.error ≡ none → prepared.retrigger ≡ false)

  abbrev IsDryIf : List (ScalingInfo Q) → Option (Progress Q × Prepared) → Type 0
  IsDryIf denylist none = Unit
  IsDryIf denylist (some (progress, prepared)) = IsDry denylist progress prepared

  after_decisions-IsDry :
      (denylist denylist' : List (ScalingInfo Q)) (decided : Result (OverallNsInfo Q))
      → denylist' ≡ denylist
      → IsDryIf denylist (some (after_decisions k run others sort visit true denylist' decided))
  unfolding after_decisions prepared_of
  after_decisions-IsDry denylist denylist' (err e) same = (refl, same, λ h. refl)
  after_decisions-IsDry denylist denylist' (ok info) same =
      let (started, kept, left) =
        reconcile_decided-dry others 0 info.ns_scale_info
          (nothing_started k run others sort visit true info.number_of_ns_to_scale denylist') in
      (started, kept ∙ same, λ h. ground arith)

  after_listing-IsDryIf :
      (definitions : List State) (denylist : List (ScalingInfo Q))
      (listed : Result (List (ScalingInfo Q)))
      → ((round : ℕ) (items : List (ScalingInfo Q)) → run.others round items ≡ items)
      → IsDryIf denylist (after_listing k run others sort visit true definitions denylist listed)
  unfolding after_listing
  after_listing-IsDryIf definitions denylist (err e) idle = (refl, refl, λ h. ground arith)
  after_listing-IsDryIf definitions denylist (ok []) idle = (refl, refl, λ h. refl)
  after_listing-IsDryIf definitions denylist (ok (item ∷ items)) idle =
      let grouped = visit (group_scaling_item_by_namespace sort (item ∷ items)) in
      elim (make_namespaces_scale_decisions k run grouped definitions true denylist)
          as (λ o.
            make_namespaces_scale_decisions k run grouped definitions true denylist ≡ o
            → IsDryIf denylist (elim o [
              | none ↦ none
              | some (denylist', decided) ↦
                  some (after_decisions k run others sort visit true denylist' decided)
            ])) [
              | none ↦ λ e. tt
              | some (denylist', err f) ↦ λ e.
                  after_decisions-IsDry denylist denylist' (err f)
                    (decisions_err k run grouped definitions true denylist denylist' f e)
              | some (denylist', ok info) ↦ λ e.
                  after_decisions-IsDry denylist denylist' (ok info) (
                    make_namespaces_scale_decisions-dry k run grouped definitions denylist denylist'
                      info idle e)
            ]
        refl

  -- A dry run of PrepareForNamespaceReconcile starts no scaling, leaves the deny list as it was where
  -- no other goroutine changes it while the decisions are made, and without an error does not ask to
  -- be called again.
  pub prepare_for_namespace_reconcile-IsDry :
      (listing : Listing Q) (namespace : Text) (definitions : List State)
      (denylist : List (ScalingInfo Q)) (progress : Progress Q) (prepared : Prepared)
      → ((round : ℕ) (items : List (ScalingInfo Q)) → run.others round items ≡ items)
      → prepare_for_namespace_reconcile k run others sort visit true listing namespace definitions
          denylist
        ≡ some (progress, prepared)
      → IsDry denylist progress prepared
  unfolding prepare_for_namespace_reconcile
  prepare_for_namespace_reconcile-IsDry listing namespace definitions denylist progress prepared
        idle e =
      subst (IsDryIf denylist) e
        (elim (scaling_item_namespace_lister listing namespace)
          as (λ o. IsDryIf denylist (elim o [
            | none ↦ none
            | some listed ↦ after_listing k run others sort visit true definitions denylist listed
          ])) [ none ↦ tt | some listed ↦ after_listing-IsDryIf definitions denylist listed idle ])

  -- Outside a dry run, once workloads are listed and the decisions made, PrepareForNamespaceReconcile
  -- returns the map without an error, and asks to be called again exactly if fewer namespaces are to
  -- be scaled than the decisions counted.
  pub prepare_for_namespace_reconcile-retrigger :
      (listing : Listing Q) (namespace : Text) (definitions : List State)
      (denylist denylist' : List (ScalingInfo Q)) (item : ScalingInfo Q)
      (items : List (ScalingInfo Q)) (info : OverallNsInfo Q)
      → scaling_item_namespace_lister listing namespace ≡ some (ok (item ∷ items))
      → make_namespaces_scale_decisions k run
          (visit (group_scaling_item_by_namespace sort (item ∷ items)))
          definitions
          false
          denylist
        ≡ some (denylist', ok info)
      → (progress : Progress Q) × (prepared : Prepared) × (prepare_for_namespace_reconcile k run
            others sort visit false listing namespace definitions denylist
          ≡ some (progress, prepared))
        × (prepared.error ≡ none)
        × (prepared.retrigger ≡ ltb_ℤ (pos (scaling info.ns_scale_info)) info.number_of_ns_to_scale)
        × (prepared.ns_infos ≡ some progress.infos)
  unfolding prepare_for_namespace_reconcile after_listing after_decisions prepared_of
  prepare_for_namespace_reconcile-retrigger listing namespace definitions denylist denylist' item
        items info listed decided =
      let start =
        nothing_started k run others sort visit false info.number_of_ns_to_scale denylist' in
      let progress = reconcile_decided others false 0 info.ns_scale_info start in
      let left = reconcile_decided-left others 0 info.ns_scale_info start in
      (
        progress,
        prepared_of false progress,
        rw (listed, prepare_for_namespace_reconcile) (rw (decided, after_listing) refl),
        refl,
        rw left (counted_off info.number_of_ns_to_scale (scaling info.ns_scale_info)),
        refl,
      )
