-- ===== src/Controllers/Silent.antt =====
-- The controllers of the custom resources and the quotas that are exceeded.
use mathlib.Core.List.{Permᴰ, append_assoc, append-nil}
use pre_scaling_operator.Common.{
  ℕ, suc, Text, ==_refl, Map, Bool, true, false, not, ◌&&◌, Option, none, some, List, [], ◌∷◌, ◌++◌,
  if◌then◌else◌, Error, Result, ok, err, ◌≡◌, refl, arith, sym, ap, ◌∙◌, subst,
}
use pre_scaling_operator.Global.{ScalingInfo, State}
use pre_scaling_operator.ResourceMath.{Quantity}
use pre_scaling_operator.Resources.{group_scaling_item_by_namespace}
use pre_scaling_operator.Resources.Lister.{Listing, scaling_item_namespace_lister}
use pre_scaling_operator.Decisions.{NamespaceScaleInfo, Surroundings}
use pre_scaling_operator.Decisions.Rounds.{make_namespaces_scale_decisions}
use pre_scaling_operator.Decisions.Outcomes.{AllSilent, make_namespaces_scale_decisions-AllSilent}
use pre_scaling_operator.Reconciler.Prepare.{
  NamespaceInfo, Prepared, Progress, info_of, reconcile_decided, prepared_of, after_decisions,
  after_listing, prepare_for_namespace_reconcile,
}
use pre_scaling_operator.Controllers.{
  Reconciled, exceeded, quota_events, without_errors, ignore_errors, concerned_text, finish_cluster,
  after_prepare, cluster_scaling_state_reconcile, dry_of,
}

-- No namespace is reported with exceeded quotas.
abbrev pub AllQuiet : Map NamespaceInfo → Type 0
AllQuiet [] = Unit
AllQuiet ((namespace, info) ∷ rest) = (info.ns_events.quota_exceeded ≡ []) × AllQuiet rest

AllQuiet-append : (xs ys : Map NamespaceInfo) → AllQuiet xs → AllQuiet ys → AllQuiet (xs ++ ys)
AllQuiet-append [] ys a b = b
AllQuiet-append (x ∷ xs) ys a b = (a.0, AllQuiet-append xs ys a.1 b)

AllQuiet-without_errors : (m : Map NamespaceInfo) → AllQuiet m → AllQuiet (without_errors m)
unfolding without_errors
AllQuiet-without_errors [] a = tt
AllQuiet-without_errors ((namespace, info) ∷ rest) a =
    elim info.error
      as (λ e. AllQuiet (elim e [
        | none ↦ (namespace, info) ∷ without_errors rest
        | some e ↦ without_errors rest
      ])) [
        | none ↦ (a.0, AllQuiet-without_errors rest a.1)
        | some e ↦ AllQuiet-without_errors rest a.1
      ]

AllQuiet-exceeded : (m : Map NamespaceInfo) → AllQuiet m → exceeded m ≡ []
unfolding exceeded
AllQuiet-exceeded [] a = refl
AllQuiet-exceeded ((namespace, info) ∷ rest) a =
    ground (arith, AllQuiet-exceeded rest a.1, ==_refl [])

abbrev QuietIf : Option (Map NamespaceInfo) → Type 0
QuietIf none = Unit
QuietIf (some infos) = AllQuiet infos

ignored-QuietIf :
    (infos : Option (Map NamespaceInfo))
    → QuietIf infos
    → QuietIf (elim infos [ none ↦ none | some m ↦ some (without_errors m) ])
ignored-QuietIf none a = tt
ignored-QuietIf (some m) a = AllQuiet-without_errors m a

finish_cluster-silent :
    (text : Map NamespaceInfo → Text) (more retrigger : Bool) (infos : Option (Map NamespaceInfo))
    (error : Option Error)
    → QuietIf infos
    → (finish_cluster text false more
        (record { ns_infos = infos; retrigger = retrigger; error = error })).events
      ≡ []
unfolding finish_cluster quota_events
finish_cluster-silent text more retrigger infos (some e) a = refl
finish_cluster-silent text more true none none a = refl
finish_cluster-silent text more false none none a = refl
finish_cluster-silent text more retrigger (some infos) none a = rw (AllQuiet-exceeded infos a) refl

abbrev QuietPrepared : {A : Type 0} → Option (A × Prepared) → Type 0
QuietPrepared none = Unit
QuietPrepared (some (a, prepared)) = QuietIf prepared.ns_infos

-- The entries that PrepareForNamespaceReconcile makes of the decisions.
abbrev infos_of : {Q : Type 0} → Map (NamespaceScaleInfo Q) → Map NamespaceInfo
infos_of [] = []
infos_of ((namespace, value) ∷ rest) = (namespace, info_of value) ∷ infos_of rest

infos_of-AllQuiet :
    {Q : Type 0} (m : Map (NamespaceScaleInfo Q)) → AllSilent m → AllQuiet (infos_of m)
unfolding info_of
infos_of-AllQuiet [] s = tt
infos_of-AllQuiet ((namespace, value) ∷ rest) s =
    (ap (λ events. events.quota_exceeded) s.0, infos_of-AllQuiet rest s.1)

same_infos :
    {Q : Type 0} (b : Bool) (x y : Progress Q) (infos : Map NamespaceInfo)
    → x.infos ≡ infos
    → y.infos ≡ infos
    → (if b then x else y).infos ≡ infos
same_infos true x y infos e f = e
same_infos false x y infos e f = f

reconcile_decided-infos :
    {Q : Type 0} (others : ℕ → ℕ → List (ScalingInfo Q) → List (ScalingInfo Q)) (n : ℕ)
    (m : Map (NamespaceScaleInfo Q)) (progress : Progress Q)
    → (reconcile_decided others false n m progress).infos ≡ progress.infos ++ infos_of m
unfolding reconcile_decided
reconcile_decided-infos others n [] progress = sym (append-nil progress.infos)
reconcile_decided-infos others n ((namespace, value) ∷ rest) progress =
    reconcile_decided-infos others (suc n) rest _
    ∙ ap (λ infos. infos ++ infos_of rest)
        (same_infos (value.scale_name_space && not false) _ _
          (progress.infos ++ (namespace, info_of value) ∷ []) refl refl)
    ∙ append_assoc progress.infos ((namespace, info_of value) ∷ []) (infos_of rest)

abbrev NoEvents : Option Reconciled → Type 0
NoEvents none = Unit
NoEvents (some r) = r.events ≡ []

after-NoEvents :
    {A : Type 0} (prepare : Text → List State → Bool → Option (A × Prepared))
    (o : Option (A × Prepared))
    → QuietPrepared o
    → NoEvents (
        after_prepare prepare o
          (λ prepared. finish_cluster concerned_text false false (ignore_errors prepared)))
unfolding after_prepare ignore_errors
after-NoEvents prepare none a = tt
after-NoEvents prepare (some (x, prepared)) a =
    finish_cluster-silent concerned_text false prepared.retrigger _ prepared.error
      (ignored-QuietIf prepared.ns_infos a)

module _ (k : Quantity) (run : Surroundings k.Q)
    (others : ℕ → ℕ → List (ScalingInfo k.Q) → List (ScalingInfo k.Q))
    (sort : List (ScalingInfo k.Q) → List (ScalingInfo k.Q))
    (visit : Map (List (ScalingInfo k.Q)) → Map (List (ScalingInfo k.Q))) where
  open k use {Q}

  module _
      (visits : (round : ℕ) (m : Map (NamespaceScaleInfo k.Q)) → Permᴰ m (run.order round m)) where
    after_listing-QuietPrepared :
        (definitions : List State) (denylist : List (ScalingInfo Q))
        (listed : Result (List (ScalingInfo Q)))
        → QuietPrepared (after_listing k run others sort visit false definitions denylist listed)
    unfolding after_listing after_decisions prepared_of
    after_listing-QuietPrepared definitions denylist (err e) = tt
    after_listing-QuietPrepared definitions denylist (ok []) = tt
    after_listing-QuietPrepared definitions denylist (ok (item ∷ items)) =
        let grouped = visit (group_scaling_item_by_namespace sort (item ∷ items)) in
        elim (make_namespaces_scale_decisions k run grouped definitions false denylist)
            as (λ o.
              make_namespaces_scale_decisions k run grouped definitions false denylist ≡ o
              → QuietPrepared (elim o [
                | none ↦ none
                | some (denylist', decided) ↦
                    some (after_decisions k run others sort visit false denylist' decided)
              ])) [
                | none ↦ λ e. tt
                | some (denylist', err f) ↦ λ e. tt
                | some (denylist', ok info) ↦ λ e.
                    subst AllQuiet (sym (reconcile_decided-infos others 0 info.ns_scale_info _)) (
                      infos_of-AllQuiet info.ns_scale_info (
                        make_namespaces_scale_decisions-AllSilent k run grouped definitions denylist
                          denylist' info visits e))
              ]
          refl

    prepare-QuietPrepared :
        (listing : Listing Q) (namespace : Text) (definitions : List State)
        (denylist : List (ScalingInfo Q))
        → QuietPrepared (
            prepare_for_namespace_reconcile k run others sort visit false listing namespace
              definitions denylist)
    unfolding prepare_for_namespace_reconcile
    prepare-QuietPrepared listing namespace definitions denylist =
        elim (scaling_item_namespace_lister listing namespace)
          as (λ o. QuietPrepared (elim o [
            | none ↦ none
            | some listed ↦ after_listing k run others sort visit false definitions denylist listed
          ])) [ none ↦ tt | some listed ↦ after_listing-QuietPrepared definitions denylist listed ]

    prepared_with :
        Listing Q → List (ScalingInfo Q) → Text → List State → Bool → Option (Progress Q × Prepared)
    prepared_with listing denylist namespace known dry =
        prepare_for_namespace_reconcile k run others sort visit dry listing namespace known denylist

    finished-NoEvents :
        (listing : Listing Q) (denylist : List (ScalingInfo Q)) (known : List State) (dry : Bool)
        → dry ≡ false
        → NoEvents (
            after_prepare
              (prepared_with listing denylist)
              (prepared_with listing denylist [] known dry)
              (λ prepared. finish_cluster concerned_text dry false (ignore_errors prepared)))
    unfolding prepared_with
    finished-NoEvents listing denylist known true real = ground arith
    finished-NoEvents listing denylist known false real =
        after-NoEvents (prepared_with listing denylist)
          (prepare_for_namespace_reconcile k run others sort visit false listing [] known denylist)
          (prepare-QuietPrepared listing [] known denylist)

    -- Where a range visits the entries of a map once each: outside a dry run,
    -- ClusterScalingStateReconciler records no event on the ClusterScalingState, whatever quotas are
    -- exceeded.
    pub cluster_scaling_state_reconcile-silent :
        (listing : Listing Q) (denylist : List (ScalingInfo Q)) (read : Result Bool)
        (definitions : Result (List State)) (r : Reconciled)
        → dry_of read ≡ false
        → cluster_scaling_state_reconcile
            (λ namespace known dry.
              prepare_for_namespace_reconcile k run others sort visit dry listing namespace known
                denylist)
            read
            definitions
          ≡ some r
        → r.events ≡ []
    unfolding cluster_scaling_state_reconcile prepared_with
    cluster_scaling_state_reconcile-silent listing denylist read (err e) r real h =
        subst NoEvents h refl
    cluster_scaling_state_reconcile-silent listing denylist read (ok known) r real h =
        subst NoEvents h (finished-NoEvents listing denylist known (dry_of read) real)
