-- ===== src/Decisions/Budget.antt =====
-- The budget of MakeNamespacesScaleDecisions: how many namespaces are left to be scaled.
use pre_scaling_operator.Common.{
  ℕ, suc, ◌≤◌, ℤ, ◌≤ℤ◌, pos, pos_part, ◌-ℤ◌, Text, Map, insert, Bool, false, some, List, [], ◌∷◌,
  if◌then◌else◌, ok, ◌≡◌, refl, arith,
}
use pre_scaling_operator.Global.{ScalingInfo, State}
use pre_scaling_operator.Api.{ClusterScalingState}
use pre_scaling_operator.ResourceMath.{Quantity}
use pre_scaling_operator.Decisions.{
  NamespaceScaleInfo, OverallNsInfo, Tally, Surroundings, failed_entry, limit_entries,
  limit_namespaces, max_concurrent,
}
use pre_scaling_operator.Decisions.Keeps.{RoundKeeps, decisions_keep}
use pre_scaling_operator.Decisions.Rounds.{make_namespaces_scale_decisions}

module _ {Q : Type 0} where
  -- The namespaces that are to be scaled.
  abbrev pub scaling : Map (NamespaceScaleInfo Q) → ℕ
  scaling [] = 0
  scaling ((key, info) ∷ rest) = if info.scale_name_space then suc (scaling rest) else scaling rest

  limit_entries-bounded :
      (budget : ℤ) (m : Map (NamespaceScaleInfo Q))
      → scaling (limit_entries budget m).0 ≤ pos_part budget
  unfolding limit_entries ◌-ℤ◌
  limit_entries-bounded budget [] = omega arith
  limit_entries-bounded budget ((key, info) ∷ rest) =
      ground
        (arith, limit_entries-bounded (budget -ℤ pos 1) rest, limit_entries-bounded budget rest)

  pub limit_entries-counted :
      (budget : ℤ) (m : Map (NamespaceScaleInfo Q)) → (limit_entries budget m).1 ≡ scaling m
  unfolding limit_entries
  limit_entries-counted budget [] = refl
  limit_entries-counted budget ((key, info) ∷ rest) =
      ground
        (arith, limit_entries-counted (budget -ℤ pos 1) rest, limit_entries-counted budget rest)

  pub limit_entries-fewer :
      (budget : ℤ) (m : Map (NamespaceScaleInfo Q)) → scaling (limit_entries budget m).0 ≤ scaling m
  unfolding limit_entries
  limit_entries-fewer budget [] = omega arith
  limit_entries-fewer budget ((key, info) ∷ rest) =
      ground (arith, limit_entries-fewer (budget -ℤ pos 1) rest, limit_entries-fewer budget rest)

  scaling-insert :
      (key : Text) (info : NamespaceScaleInfo Q) (m : Map (NamespaceScaleInfo Q))
      → info.scale_name_space ≡ false
      → scaling (insert key info m) ≤ scaling m
  unfolding insert
  scaling-insert key info [] h = ground arith
  scaling-insert key info ((stored, old) ∷ rest) h = ground (arith, scaling-insert key info rest h)

module _ {Q : Type 0} (run : Surroundings Q) where
  -- As many namespaces as may be scaled at a time, less those that are being scaled.
  abbrev pub room : ℕ → ℕ
  room being_scaled = pos_part (max_concurrent run.configured -ℤ pos being_scaled)

  abbrev pub Within : Tally Q → Type 0
  Within tally =
      (scaling tally.ns_info_map ≤ room tally.being_scaled)
      × (scaling tally.ns_info_map ≤ tally.to_scale)

  limit_namespaces-Within :
      (round : ℕ) (tally : Tally Q) → Within (limit_namespaces run round tally)
  unfolding limit_namespaces
  limit_namespaces-Within round tally =
      let budget = max_concurrent run.configured -ℤ pos tally.being_scaled in
      let entries = run.order round tally.ns_info_map in
      let counted = limit_entries-counted budget entries in
      let fewer = limit_entries-fewer budget entries in
      (limit_entries-bounded budget entries, omega (arith, counted, fewer))

module _ (k : Quantity) (run : Surroundings k.Q) where
  open k use {Q}

  pub round-Within :
      (definitions : List State) (css : List ClusterScalingState) (dry_run : Bool)
      (grouped : Map (List (ScalingInfo Q)))
      → RoundKeeps k run definitions css grouped dry_run (Within run)
  round-Within definitions css dry_run grouped = (
    (λ round tally h. h),
    (λ namespace items e tally h.
        let fewer = scaling-insert namespace (failed_entry run items e) tally.ns_info_map refl in
        (omega (arith, fewer, h.0), omega (arith, fewer, h.1))),
    (λ round namespace items state tally picked h. limit_namespaces-Within run round _),
  )

  -- Whatever order the map is visited in, and whatever other goroutines do to the deny list, no more
  -- namespaces are marked to be scaled than the configured number (1 where it is 0) less the number
  -- of namespaces that are reported as being scaled already, and no more than are reported as to be
  -- scaled.
  pub make_namespaces_scale_decisions-bounded :
      (grouped : Map (List (ScalingInfo Q))) (definitions : List State) (dry_run : Bool)
      (denylist denylist' : List (ScalingInfo Q)) (info : OverallNsInfo Q)
      → make_namespaces_scale_decisions k run grouped definitions dry_run denylist
        ≡ some (denylist', ok info)
      → (scaling info.ns_scale_info
          ≤ pos_part (max_concurrent run.configured -ℤ info.number_of_ns_being_scaled))
        × (pos (scaling info.ns_scale_info) ≤ℤ info.number_of_ns_to_scale)
  make_namespaces_scale_decisions-bounded grouped definitions dry_run denylist denylist' info e =
      let (tally, within, same, reported) =
        decisions_keep k run (Within run) definitions dry_run grouped
          (λ css read. round-Within definitions css dry_run grouped) denylist denylist' info
          (omega arith, omega arith) e in
      rw reported (within.0, omega (arith, within.1))
