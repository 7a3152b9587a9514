-- ===== src/Decisions/Cleared.antt =====
-- The namespaces that are to be scaled are those whose quotas allow what was picked in them.
use mathlib.Core.List.{Permᴰ}
use pre_scaling_operator.Common.{
  ℕ, ℤ, pos, ◌-ℤ◌, ltb_ℤ, Text, ◌==◌, Map, insert, Bool, true, false, Option, none, some, List, [],
  ◌∷◌, if◌then◌else◌, Error, ok, ◌≡◌, subst, Bool-cases, inl, inr,
}
use pre_scaling_operator.Global.{ScalingInfo, State}
use pre_scaling_operator.Api.{ClusterScalingState}
use pre_scaling_operator.ResourceMath.{Quantity}
use pre_scaling_operator.Quotas.{resource_quota_check}
use pre_scaling_operator.Resources.{limits_needed_list}
use pre_scaling_operator.Decisions.{
  NamespaceScaleInfo, OverallNsInfo, Tally, Surroundings, no_events, entry_of, failed_entry,
  limit_entries, limit_namespaces, decide_checked, note_check_error, decide_allowed,
}
use pre_scaling_operator.Decisions.Rounds.{check_namespace, make_namespaces_scale_decisions}
use pre_scaling_operator.Decisions.Keeps.{Picked, decisions_keep}

module _ (k : Quantity) (run : Surroundings k.Q) where
  open k use {Q}

  -- The quotas of the namespace allow the scaling of all of the workloads.
  abbrev pub IsCleared : Text → List (ScalingInfo Q) → Type 0
  IsCleared namespace items =
      (resource_quota_check k run.client_set (run.listed namespace)
        (limits_needed_list k items)).allowed
      ≡ true

module _ (k : Quantity) (run : Surroundings k.Q) (grouped : Map (List (ScalingInfo k.Q)))
    (definitions : List State) where
  open k use {Q}

  -- The workloads are all that were picked of the namespace's group, and the quotas of the namespace
  -- allow them.
  abbrev pub IsPickedCleared : Text → List (ScalingInfo Q) → Type 0
  IsPickedCleared namespace items =
      (css : List ClusterScalingState) × (state : State) × (run.client.cluster_scaling_states
        ≡ ok css)
      × Picked k run definitions css grouped namespace state items
      × IsCleared k run namespace items

  abbrev pub EntryCleared : Text × NamespaceScaleInfo Q → Type 0
  EntryCleared (namespace, info) =
      info.scale_name_space ≡ true → IsPickedCleared namespace info.scaling_items

  abbrev pub AllCleared : Map (NamespaceScaleInfo Q) → Type 0
  AllCleared [] = Unit
  AllCleared (entry ∷ rest) = EntryCleared entry × AllCleared rest

  insert-AllCleared :
      (namespace : Text) (info : NamespaceScaleInfo Q) (m : Map (NamespaceScaleInfo Q))
      → EntryCleared (namespace, info)
      → AllCleared m
      → AllCleared (insert namespace info m)
  unfolding insert
  insert-AllCleared namespace info [] h a = (h, tt)
  insert-AllCleared namespace info ((stored, old) ∷ rest) h a =
      elim (Bool-cases (stored == namespace)) [
        | inl same ↦ rw same (h, a.1)
        | inr other ↦ rw other (a.0, insert-AllCleared namespace info rest h a.1)
      ]

  AllCleared-perm :
      (xs ys : Map (NamespaceScaleInfo Q)) → Permᴰ xs ys → AllCleared xs → AllCleared ys
  AllCleared-perm xs ys Permᴰ.nil a = tt
  AllCleared-perm (x ∷ xs) (y ∷ ys) (Permᴰ.cons e p) a =
      (subst EntryCleared e a.0, AllCleared-perm xs ys p a.1)
  AllCleared-perm xs ys (Permᴰ.swap e f) (a, (b, rest)) =
      (subst EntryCleared f b, (subst EntryCleared e a, rest))
  AllCleared-perm xs ys (Permᴰ.trans p q) a = AllCleared-perm _ ys q (AllCleared-perm xs _ p a)

  over_budget :
      (stop : Bool) (namespace : Text) (info : NamespaceScaleInfo Q)
      → EntryCleared (namespace, info)
      → EntryCleared (namespace, if stop then record info { scale_name_space = false } else info)
  over_budget true namespace info h = λ e. cc
  over_budget false namespace info h = h

  limit_entries-AllCleared :
      (budget : ℤ) (m : Map (NamespaceScaleInfo Q))
      → AllCleared m
      → AllCleared (limit_entries budget m).0
  unfolding limit_entries
  limit_entries-AllCleared budget [] a = tt
  limit_entries-AllCleared budget ((namespace, info) ∷ rest) a =
      let budget' = if info.scale_name_space then budget -ℤ pos 1 else budget in
      (
        over_budget (ltb_ℤ budget' (pos 0)) namespace info (a.0),
        limit_entries-AllCleared budget' rest (a.1),
      )

  abbrev TallyCleared : Tally Q → Type 0
  TallyCleared tally = AllCleared tally.ns_info_map

  note_check_error-AllCleared :
      (namespace : Text) (items : List (ScalingInfo Q)) (state : State) (e : Option Error)
      (tally : Tally Q)
      → TallyCleared tally
      → TallyCleared (note_check_error run namespace items state e tally)
  unfolding note_check_error
  note_check_error-AllCleared namespace items state none tally a = a
  note_check_error-AllCleared namespace items state (some e) tally a =
      insert-AllCleared namespace (entry_of run items state false (some e) no_events)
        tally.ns_info_map (λ h. cc) a

  decide_checked-AllCleared :
      (css : List ClusterScalingState) (namespace : Text) (items : List (ScalingInfo Q))
      (state : State) (tally : Tally Q)
      → run.client.cluster_scaling_states ≡ ok css
      → Picked k run definitions css grouped namespace state items
      → TallyCleared tally
      → TallyCleared (
          decide_checked run false namespace items state
            (resource_quota_check k run.client_set
              (run.listed namespace)
              (limits_needed_list k items))
            tally)
  unfolding decide_checked decide_allowed
  decide_checked-AllCleared css namespace items state tally read picked a =
      let check =
        resource_quota_check k run.client_set (run.listed namespace) (limits_needed_list k items) in
      let noted = note_check_error-AllCleared namespace items state check.error tally a in
      elim (Bool-cases check.allowed) [
        | inl allowed ↦ rw allowed (
            insert-AllCleared namespace (entry_of run items state _ none no_events) _
              (λ h. (css, state, read, picked, allowed)) noted)
        | inr denied ↦ rw denied noted
      ]

  limit_namespaces-AllCleared :
      (round : ℕ) (tally : Tally Q)
      → Permᴰ tally.ns_info_map (run.order round tally.ns_info_map)
      → TallyCleared tally
      → TallyCleared (limit_namespaces run round tally)
  unfolding limit_namespaces
  limit_namespaces-AllCleared round tally p a =
      limit_entries-AllCleared _ (run.order round tally.ns_info_map) (AllCleared-perm _ _ p a)

  -- Where a range visits the entries of the map once each: outside a dry run each namespace that is
  -- to be scaled is one whose quotas allow the scaling of all of its workloads that were picked.
  pub make_namespaces_scale_decisions-AllCleared :
      (denylist denylist' : List (ScalingInfo Q)) (info : OverallNsInfo Q)
      → ((round : ℕ) (m : Map (NamespaceScaleInfo Q)) → Permᴰ m (run.order round m))
      → make_namespaces_scale_decisions k run grouped definitions false denylist
        ≡ some (denylist', ok info)
      → AllCleared info.ns_scale_info
  unfolding check_namespace
  make_namespaces_scale_decisions-AllCleared denylist denylist' info visits e =
      let (tally, cleared, same, reported) =
        decisions_keep k run TallyCleared definitions false grouped
          (λ css read. (
            (λ round tally a. a),
            (λ namespace items e tally a.
                insert-AllCleared namespace (failed_entry run items e) tally.ns_info_map (λ h. cc)
                  a),
            (λ round namespace items state tally picked a.
                limit_namespaces-AllCleared round _ (visits round _)
                  (decide_checked-AllCleared css namespace items state tally read picked a)),
          ))
          denylist denylist' info tt e in
      rw reported cleared
