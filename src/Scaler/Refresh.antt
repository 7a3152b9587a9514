-- ===== src/Scaler/Refresh.antt =====
-- A refresh of a workload brings the deny list up to date with the cluster.
use pre_scaling_operator.Common.{
  Text, ◌==◌, ◌&&◌, some, List, [], if◌then◌else◌, Result, ok, ◌≡◌, ◌≢◌, arith, ==_refl, ap, ◌∙◌,
}
use pre_scaling_operator.Global.{ScalingInfo}
use pre_scaling_operator.Global.Denylist.{get_deployment_info, set_scaling_item, update_or_append}
use pre_scaling_operator.Global.Registry.{
  find, UniqueItems, find-update_or_append, update_or_append-UniqueItems,
  get_deployment_info-set_scaling_item,
}
use pre_scaling_operator.Scaler.{
  Cluster, World, item_type, read_item, refresh, get_refreshed_scaling_item, after_read, asked,
}

module _ {Q : Type 0} where
  -- What the deny list knows of a workload, or else the item that is asked for.
  abbrev pub known_of : ScalingInfo Q → World Q → ScalingInfo Q
  known_of item w = (get_deployment_info item w.denylist).0

  -- What is kept: all that the cluster says, but for what the operator itself decided.
  abbrev pub kept : ScalingInfo Q → ScalingInfo Q → ScalingInfo Q
  kept known fresh = record fresh {
    is_being_scaled = known.is_being_scaled;
    desired_replicas = known.desired_replicas;
  }

  refresh_lem :
      (known fresh : ScalingInfo Q) (denylist : List (ScalingInfo Q))
      → UniqueItems denylist
      → fresh.name ≢ []
      → fresh.namespace ≢ []
      → refresh known fresh denylist
        ≡ (kept known fresh, update_or_append (kept known fresh) denylist)
  unfolding refresh set_scaling_item
  refresh_lem known fresh denylist u named placed =
      let item : ScalingInfo Q = record fresh { is_being_scaled = known.is_being_scaled } in
      let (e, _, _) =
        get_deployment_info-set_scaling_item item item item.failure item.failure_message
          known.desired_replicas denylist u named placed in
      ground (arith, e, ==_refl item.name, ==_refl item.namespace)

module _ {Q : Type 0} (cluster : Cluster Q) where
  asked_lem :
      (type : _) (w : World Q)
      → ((asked cluster type w).denylist ≡ w.denylist)
        × ((asked cluster type w).changes ≡ w.changes)
  unfolding asked
  asked_lem type w = ground arith

  get_refreshed_lem :
      (item fresh : ScalingInfo Q) (w : World Q)
      → let known = known_of item w in
        read_item cluster (item_type known.item_type_name) w.calls known.name known.namespace
          ≡ some (ok fresh)
        → get_refreshed_scaling_item cluster item w
          ≡ some (
              after_read cluster known
                (asked cluster (item_type known.item_type_name) w)
                (ok fresh))
  unfolding get_refreshed_scaling_item
  get_refreshed_lem item fresh w h = rw (h, get_refreshed_scaling_item)

  pair_up : World Q → ScalingInfo Q × List (ScalingInfo Q) → World Q × Result (ScalingInfo Q)
  pair_up mid (item, denylist) = (record mid { denylist = denylist }, ok item)

  after_read_lem :
      (known fresh : ScalingInfo Q) (mid : World Q) (denylist : List (ScalingInfo Q))
      → mid.denylist ≡ denylist
      → UniqueItems denylist
      → fresh.name ≢ []
      → fresh.namespace ≢ []
      → after_read cluster known mid (ok fresh) ≡ (
        record mid { denylist = update_or_append (kept known fresh) denylist },
        ok (kept known fresh),
      )
  unfolding after_read refresh pair_up
  after_read_lem known fresh mid denylist same u named placed =
      rw same (ap (pair_up mid) (refresh_lem known fresh denylist u named placed))

  -- On a deny list with distinct keys, where the cluster gives an object with a name and a
  -- namespace for a workload, GetRefreshedScalingItem hands back what the cluster says of it with
  -- the desired replicas and the mark of being scaled that the deny list had, makes that the
  -- entry under the name, leaves every other entry, keeps the keys distinct and sends no update.
  pub get_refreshed_scaling_item_lem :
      (item fresh : ScalingInfo Q) (w : World Q)
      → UniqueItems w.denylist
      → fresh.name ≢ []
      → fresh.namespace ≢ []
      → read_item cluster
          (item_type (known_of item w).item_type_name)
          w.calls
          (known_of item w).name
          (known_of item w).namespace
        ≡ some (ok fresh)
      → (w' : World Q) × (get_refreshed_scaling_item cluster item w
          ≡ some (w', ok (kept (known_of item w) fresh)))
        × ((name namespace : Text)
            → find name namespace w'.denylist ≡ (
                if name == fresh.name && namespace == fresh.namespace
                then some (kept (known_of item w) fresh)
                else find name namespace w.denylist))
        × UniqueItems w'.denylist
        × (w'.changes ≡ w.changes)
  get_refreshed_scaling_item_lem item fresh w u named placed h =
      let known = known_of item w in
      let mid = asked cluster (item_type known.item_type_name) w in
      let (same, quiet) = asked_lem (item_type known.item_type_name) w in
      let entry = kept known fresh in
      let e = refresh_lem known fresh w.denylist u named placed in
      (
        record mid { denylist = update_or_append entry w.denylist },
        get_refreshed_lem item fresh w h
            ∙ ap some (after_read_lem known fresh mid w.denylist same u named placed),
        (λ name namespace. find-update_or_append name namespace entry w.denylist),
        update_or_append-UniqueItems entry w.denylist u,
        quiet,
      )
