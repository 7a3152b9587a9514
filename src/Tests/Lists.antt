-- ===== src/Tests/Lists.antt =====
-- The deny list on one and two workloads.
use pre_scaling_operator.Common.{
  ℕ, ℤ, pos, Text, bytes, ◌==◌, ◌&&◌, Bool, true, none, some, List, [], ◌∷◌, ◌++◌, ◌≡◌, refl,
  if◌then◌else◌,
}
use pre_scaling_operator.Global.{ScalingInfo, same_key}
use pre_scaling_operator.Global.Denylist.{
  update_or_append, set_scaling_item, get_deployment_info, remove_from_list,
}
use pre_scaling_operator.Global.Registry.{
  find, UniqueItems, find-update_or_append, get_deployment_info-set_scaling_item,
}
use pre_scaling_operator.Global.Removal.{find-remove_from_list}
use pre_scaling_operator.Global.Race.{Reach, start, finished, race_panics}
use pre_scaling_operator.Tests.{web, shop, web_item, db_item, db_listed}

db_missing : find web shop db_listed ≡ none
unfolding find ◌==◌
db_missing = refl

db_unique : UniqueItems db_listed
unfolding find
db_unique = (refl, tt)

web_named : web ≡ [] → ⊥
web_named h = cc

shop_named : shop ≡ [] → ⊥
shop_named h = cc

web_matches : same_key web_item web_item ≡ true
unfolding ◌==◌
web_matches = refl

find-update_or_append_example :
    find web shop (update_or_append web_item db_listed)
    ≡ (if web == web && shop == shop then some web_item else find web shop db_listed)
find-update_or_append_example = find-update_or_append web shop web_item db_listed

get_deployment_info-set_scaling_item_example :
    let (item', items') = set_scaling_item web_item true (bytes "stuck") (pos 4) db_listed in
    (get_deployment_info web_item items' ≡ (
      if same_key web_item web_item then (item', true) else get_deployment_info web_item db_listed))
    × (item' ≡ record web_item {
      failure = true;
      failure_message = bytes "stuck";
      desired_replicas = pos 4;
    })
    × UniqueItems items'
get_deployment_info-set_scaling_item_example =
    get_deployment_info-set_scaling_item web_item web_item true (bytes "stuck") (pos 4) db_listed
      db_unique web_named shop_named

find-remove_from_list_example :
    (rest : List (ScalingInfo ℤ)) × (remove_from_list (λ i. true) db_item db_listed ≡ some rest)
    × ((name namespace : Text)
        → find name namespace rest ≡ (
            if name == db_item.name && namespace == db_item.namespace
            then none
            else find name namespace db_listed))
    × UniqueItems rest
find-remove_from_list_example = find-remove_from_list (λ i. true) db_item db_listed db_unique

race_panics_example :
    Reach web_item web_item
      (start web_item web_item db_listed)
      (finished web_item web_item (db_listed ++ web_item ∷ (web_item ∷ [])))
    × ((early : ℕ → Bool)
        → remove_from_list early web_item (db_listed ++ web_item ∷ (web_item ∷ [])) ≡ none)
race_panics_example = race_panics web_item web_item db_listed web_matches db_missing
