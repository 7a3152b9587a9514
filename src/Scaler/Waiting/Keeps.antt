-- ===== src/Scaler/Waiting/Keeps.antt =====
-- The operations that the scaler's loops make, and the keys of the deny list.
use mathlib.Core.Path.{subst}
use pre_scaling_operator.Common.{
  ℕ, ℤ, Text, ==_refl, Bool, true, Option, none, some, List, Error, Result, ok, err, ◌≡◌, inl, inr,
  refl, arith, ◌∙◌, Option-cases,
}
use pre_scaling_operator.Global.{ScalingInfo}
use pre_scaling_operator.Global.Denylist.{get_deployment_info, remove_from_list, set_scaling_item}
use pre_scaling_operator.Global.Registry.{
  entry, UniqueItems, find-update_or_append, update_or_append-UniqueItems,
}
use pre_scaling_operator.Global.Removal.{find-remove_from_list}
use pre_scaling_operator.Scaler.{
  Cluster, World, Change, ItemType, item_type, refresh, read_item, asked, after_read,
  get_refreshed_scaling_item,
}
use pre_scaling_operator.Scaler.Waiting.{
  Runtime, Run, after, run_of, put_on_list, take_off_list, config_event, deployment_event,
  event_by_type, register_events,
}
use pre_scaling_operator.Scaler.Waiting.Ends.{EndsIn}

module _ {Q : Type 0} where
  -- The deny list has distinct keys, and the changes sent are the given ones.
  abbrev pub Kept : List Change → World Q → Type 0
  Kept changes w = UniqueItems w.denylist × (w.changes ≡ changes)

  -- The workload is on the deny list, in failure.
  abbrev pub ListedFailed : ScalingInfo Q → World Q → Type 0
  ListedFailed item w =
      (found : ScalingInfo Q) × (entry item w.denylist ≡ some found) × (found.failure ≡ true)

module _ {Q : Type 0} (cluster : Cluster Q) where
  abbrev pub Registered : World Q → Option (World Q) → Type 0
  Registered w none = Unit
  Registered w (some w') = (w'.denylist ≡ w.denylist) × (w'.changes ≡ w.changes)

  event_by_type-Registered :
      (type : ItemType) (e : Option Error) (item : ScalingInfo Q) (w : World Q)
      → Registered w (event_by_type cluster type e item w)
  unfolding event_by_type config_event deployment_event
  event_by_type-Registered type e item w = ground arith

  pub register_events-Registered :
      (e : Option Error) (item : ScalingInfo Q) (w : World Q)
      → Registered w (register_events cluster e item w)
  unfolding register_events
  register_events-Registered e item w =
      let known = (get_deployment_info item w.denylist).0 in
      event_by_type-Registered (item_type known.item_type_name) e known w

  pub put_on_list-Kept :
      (item : ScalingInfo Q) (failure : Bool) (text : Text) (desired : ℤ) (changes : List Change)
      (w : World Q)
      → Kept changes w
      → Kept changes (put_on_list cluster item failure text desired w)
  unfolding set_scaling_item
  put_on_list-Kept item failure text desired changes w (u, c) =
      (update_or_append-UniqueItems _ w.denylist u, c)

  pub put_on_list-ListedFailed :
      (item : ScalingInfo Q) (text : Text) (desired : ℤ) (w : World Q)
      → ListedFailed item (put_on_list cluster item true text desired w)
  unfolding set_scaling_item
  put_on_list-ListedFailed item text desired w =
      let failed = record item {
        failure = true;
        failure_message = text;
        desired_replicas = desired;
      } in
      (
        failed,
        find-update_or_append item.name item.namespace failed w.denylist
            ∙ ground (arith, ==_refl item.name, ==_refl item.namespace),
        refl,
      )

  pub after_events :
      {A : Type 0} (Post : A → Type 0) (e : Option Error) (item : ScalingInfo Q) (w : World Q)
      (f : World Q → Run A)
      → ((w' : World Q) → w'.denylist ≡ w.denylist → w'.changes ≡ w.changes → EndsIn Post (f w'))
      → EndsIn Post (after (run_of (register_events cluster e item w)) f)
  after_events Post e item w f h =
      elim (register_events cluster e item w)
          as (λ o. Registered w o → EndsIn Post (after (run_of o) f)) [
            | none ↦ λ r. tt
            | some w' ↦ λ r. h w' r.0 r.1
          ]
        (register_events-Registered e item w)

  abbrev HasRegistered : World Q → Option (World Q) → Type 0
  HasRegistered w none = ⊥
  HasRegistered w (some w') = (w'.denylist ≡ w.denylist) × (w'.changes ≡ w.changes)

  event_by_type-HasRegistered :
      (type : ItemType) (item : ScalingInfo Q) (w : World Q)
      → HasRegistered w (event_by_type cluster type none item w)
  unfolding event_by_type config_event deployment_event
  event_by_type-HasRegistered type item w = ground arith

  -- Without an error there is no panic.
  pub register_events-none :
      (item : ScalingInfo Q) (w : World Q)
      → (w' : World Q) × (register_events cluster none item w ≡ some w')
        × (w'.denylist ≡ w.denylist)
        × (w'.changes ≡ w.changes)
  unfolding register_events
  register_events-none item w =
      let known = (get_deployment_info item w.denylist).0 in
      let type = item_type known.item_type_name in
      elim (Option-cases (event_by_type cluster type none known w)) [
        | inl e ↦ absurd (subst (HasRegistered w) e (event_by_type-HasRegistered type known w))
        | inr (w', e) ↦
            let (d, c) = subst (HasRegistered w) e (event_by_type-HasRegistered type known w) in
            (w', e, d, c)
      ]

  -- RemoveFromList on a list with distinct keys.
  pub take_off_list_lem :
      (runtime : Runtime Q) (item : ScalingInfo Q) (w : World Q)
      → UniqueItems w.denylist
      → (w' : World Q) × (take_off_list cluster runtime item w ≡ some w')
        × UniqueItems w'.denylist
        × (entry item w'.denylist ≡ none)
        × (w'.changes ≡ w.changes)
  take_off_list_lem runtime item w u =
      let (rest, e, found, unique) =
        find-remove_from_list (runtime.early w.calls) item w.denylist u in
      (
        record w { denylist = rest },
        taken (runtime.early w.calls) rest e,
        unique,
        found item.name item.namespace ∙ ground (arith, ==_refl item.name, ==_refl item.namespace),
        refl,
      )
    where
      taken :
          (early : ℕ → Bool) (rest : List (ScalingInfo Q))
          → remove_from_list early item w.denylist ≡ some rest
          → ◌≡◌ {A = Option (World Q)}
              (elim (remove_from_list early item w.denylist) [
                | none ↦ none
                | some denylist ↦ some (record w { denylist = denylist })
              ])
              (some (record w { denylist = rest }))
      taken early rest e = rw e refl

  abbrev pub KeptBy : List Change → Option (World Q × Result (ScalingInfo Q)) → Type 0
  KeptBy changes none = Unit
  KeptBy changes (some (w, answer)) = Kept changes w

  asked-Kept :
      (changes : List Change) (type : ItemType) (w : World Q)
      → Kept changes w
      → Kept changes (asked cluster type w)
  unfolding asked
  asked-Kept changes type w k = ground arith

  after_read-Kept :
      (changes : List Change) (known : ScalingInfo Q) (w : World Q)
      (answer : Result (ScalingInfo Q))
      → Kept changes w
      → Kept changes (after_read cluster known w answer).0
  unfolding after_read refresh set_scaling_item
  after_read-Kept changes known w (err e) k = k
  after_read-Kept changes known w (ok fresh) (u, c) =
      (update_or_append-UniqueItems _ w.denylist u, c)

  pub get_refreshed-KeptBy :
      (changes : List Change) (item : ScalingInfo Q) (w : World Q)
      → Kept changes w
      → KeptBy changes (get_refreshed_scaling_item cluster item w)
  unfolding get_refreshed_scaling_item
  get_refreshed-KeptBy changes item w k =
      let known = (get_deployment_info item w.denylist).0 in
      let type = item_type known.item_type_name in
      elim (read_item cluster type w.calls known.name known.namespace)
        as (λ o. KeptBy changes (elim o [
          | none ↦ none
          | some answer ↦ some (after_read cluster known (asked cluster type w) answer)
        ])) [
          | none ↦ tt
          | some answer ↦
              after_read-Kept changes known (asked cluster type w) answer
                (asked-Kept changes type w k)
        ]
