-- ===== src/Decisions/Outcomes.antt =====
-- What MakeNamespacesScaleDecisions reports, and what a dry run leaves alone.
use mathlib.Core.List.{Permᴰ}
use pre_scaling_operator.Common.{
  ℕ, ℤ, pos, ◌-ℤ◌, Text, Map, insert, true, false, Option, none, some, List, [], ◌∷◌, Error, ok,
  ◌≡◌, refl, arith, ◌∙◌, subst, Bool-cases, inl, inr,
}
use pre_scaling_operator.Global.{ScalingInfo, State}
use pre_scaling_operator.ResourceMath.{Quantity}
use pre_scaling_operator.Quotas.{QuotaCheck}
use pre_scaling_operator.Decisions.{
  NamespaceScaleInfo, OverallNsInfo, Tally, Surroundings, no_events, entry_of, failed_entry,
  limit_entries, limit_namespaces, decide_checked, note_check_error, decide_dry_run, decide_allowed,
}
use pre_scaling_operator.Decisions.Rounds.{make_namespaces_scale_decisions}
use pre_scaling_operator.Decisions.Keeps.{decisions_keep}

module _ {Q : Type 0} where
  -- No entry has an event.
  abbrev pub AllSilent : Map (NamespaceScaleInfo Q) → Type 0
  AllSilent [] = Unit
  AllSilent ((key, info) ∷ rest) = (info.namespace_events ≡ no_events) × AllSilent rest

  insert-AllSilent :
      (key : Text) (info : NamespaceScaleInfo Q) (m : Map (NamespaceScaleInfo Q))
      → info.namespace_events ≡ no_events
      → AllSilent m
      → AllSilent (insert key info m)
  unfolding insert
  insert-AllSilent key info [] h a = (h, tt)
  insert-AllSilent key info ((stored, old) ∷ rest) h a =
      ground (arith, insert-AllSilent key info rest h a.1)

  limit_entries-AllSilent :
      (budget : ℤ) (m : Map (NamespaceScaleInfo Q))
      → AllSilent m
      → AllSilent (limit_entries budget m).0
  unfolding limit_entries
  limit_entries-AllSilent budget [] a = tt
  limit_entries-AllSilent budget ((key, info) ∷ rest) a = ground (
    arith,
    limit_entries-AllSilent (budget -ℤ pos 1) rest a.1,
    limit_entries-AllSilent budget rest a.1,
  )

  abbrev IsSilent : Text × NamespaceScaleInfo Q → Type 0
  IsSilent (key, info) = info.namespace_events ≡ no_events

  AllSilent-perm : (xs ys : Map (NamespaceScaleInfo Q)) → Permᴰ xs ys → AllSilent xs → AllSilent ys
  AllSilent-perm xs ys Permᴰ.nil a = tt
  AllSilent-perm (x ∷ xs) (y ∷ ys) (Permᴰ.cons e p) a =
      (subst IsSilent e a.0, AllSilent-perm xs ys p a.1)
  AllSilent-perm xs ys (Permᴰ.swap e f) (a, (b, rest)) =
      (subst IsSilent f b, (subst IsSilent e a, rest))
  AllSilent-perm xs ys (Permᴰ.trans p q) a = AllSilent-perm _ ys q (AllSilent-perm xs _ p a)

module _ (k : Quantity) (run : Surroundings k.Q) where
  open k use {Q}

  abbrev Silent : Tally Q → Type 0
  Silent tally = AllSilent tally.ns_info_map

  note_check_error-Silent :
      (namespace : Text) (items : List (ScalingInfo Q)) (state : State) (e : Option Error)
      (tally : Tally Q)
      → Silent tally
      → Silent (note_check_error run namespace items state e tally)
  unfolding note_check_error
  note_check_error-Silent namespace items state none tally a = a
  note_check_error-Silent namespace items state (some e) tally a =
      insert-AllSilent namespace (entry_of run items state false (some e) no_events)
        tally.ns_info_map refl a

  decide_allowed-Silent :
      (namespace : Text) (items : List (ScalingInfo Q)) (state : State) (tally : Tally Q)
      → Silent tally
      → Silent (decide_allowed run namespace items state tally)
  unfolding decide_allowed
  decide_allowed-Silent namespace items state tally a =
      insert-AllSilent namespace (entry_of run items state _ none no_events) tally.ns_info_map refl
        a

  decide_checked-Silent :
      (namespace : Text) (items : List (ScalingInfo Q)) (state : State) (check : QuotaCheck)
      (tally : Tally Q)
      → Silent tally
      → Silent (decide_checked run false namespace items state check tally)
  unfolding decide_checked
  decide_checked-Silent namespace items state check tally a =
      let noted = note_check_error-Silent namespace items state check.error tally a in
      elim (Bool-cases check.allowed) [
        | inl allowed ↦ rw allowed (decide_allowed-Silent namespace items state _ noted)
        | inr denied ↦ rw denied noted
      ]

  limit_namespaces-Silent :
      (round : ℕ) (tally : Tally Q)
      → Permᴰ tally.ns_info_map (run.order round tally.ns_info_map)
      → Silent tally
      → Silent (limit_namespaces run round tally)
  unfolding limit_namespaces
  limit_namespaces-Silent round tally p a =
      limit_entries-AllSilent _ (run.order round tally.ns_info_map) (AllSilent-perm _ _ p a)

  note_check_error-denylist :
      (namespace : Text) (items : List (ScalingInfo Q)) (state : State) (e : Option Error)
      (tally : Tally Q)
      → (note_check_error run namespace items state e tally).denylist ≡ tally.denylist
  unfolding note_check_error
  note_check_error-denylist namespace items state none tally = refl
  note_check_error-denylist namespace items state (some e) tally = refl

  decide_dry-denylist :
      (round : ℕ) (namespace : Text) (items : List (ScalingInfo Q)) (state : State)
      (check : QuotaCheck) (tally : Tally Q)
      → (limit_namespaces run round
          (decide_checked run true namespace items state check tally)).denylist
        ≡ tally.denylist
  unfolding limit_namespaces decide_checked decide_dry_run
  decide_dry-denylist round namespace items state check tally =
      note_check_error-denylist namespace items state check.error tally

  -- Where a range visits the entries of the map once each: outside a dry run no entry carries an
  -- event, so that the namespaces whose quotas were exceeded are not reported as such.
  pub make_namespaces_scale_decisions-AllSilent :
      (grouped : Map (List (ScalingInfo Q))) (definitions : List State)
      (denylist denylist' : List (ScalingInfo Q)) (info : OverallNsInfo Q)
      → ((round : ℕ) (m : Map (NamespaceScaleInfo Q)) → Permᴰ m (run.order round m))
      → make_namespaces_scale_decisions k run grouped definitions false denylist
        ≡ some (denylist', ok info)
      → AllSilent info.ns_scale_info
  make_namespaces_scale_decisions-AllSilent grouped definitions denylist denylist' info visits e =
      let (tally, silent, same, reported) =
        decisions_keep k run Silent definitions false grouped
          (λ css read. (
            (λ round tally a. a),
            (λ namespace items e tally a.
                insert-AllSilent namespace (failed_entry run items e) tally.ns_info_map refl a),
            (λ round namespace items state tally picked a.
                limit_namespaces-Silent round _ (visits round _)
                  (decide_checked-Silent namespace items state _ tally a)),
          ))
          denylist denylist' info tt e in
      rw reported silent

  -- A dry run leaves the deny list as it was, where no other goroutine changes it.
  pub make_namespaces_scale_decisions-dry :
      (grouped : Map (List (ScalingInfo Q))) (definitions : List State)
      (denylist denylist' : List (ScalingInfo Q)) (info : OverallNsInfo Q)
      → ((round : ℕ) (items : List (ScalingInfo Q)) → run.others round items ≡ items)
      → make_namespaces_scale_decisions k run grouped definitions true denylist
        ≡ some (denylist', ok info)
      → denylist' ≡ denylist
  make_namespaces_scale_decisions-dry grouped definitions denylist denylist' info idle e =
      let (tally, kept, same, reported) =
        decisions_keep k run (λ tally. tally.denylist ≡ denylist) definitions true grouped
          (λ css read. (
            (λ round tally h. idle round tally.denylist ∙ h),
            (λ namespace items e tally h. h),
            (λ round namespace items state tally picked h.
                decide_dry-denylist round namespace items state _ tally ∙ h),
          ))
          denylist denylist' info refl e in
      same ∙ kept
