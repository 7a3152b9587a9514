-- ===== src/Tests/Events.antt =====
-- A change of the replicas of the workload "web", and the events of its object.
use pre_scaling_operator.Common.{
  ℤ, pos, Text, bytes, ◌==◌, lookup, true, false, not, parse_bool, ◌&&◌, ◌||◌, Option, some, [],
  ◌∷◌, ◌≡◌, ◌≢◌, ◌⊎◌, ◌↔◌, none, refl, if◌then◌else◌, Result, ok, err, plain,
}
use pre_scaling_operator.Annotations.{get_label_value_bool}
use pre_scaling_operator.Global.{ScalingInfo}
use pre_scaling_operator.Global.Denylist.{
  get_deployment_info, set_scaling_item, update_or_append, is_in_concurrent_list, update,
  is_being_scaled, is_deployment_in_failure_state,
}
use pre_scaling_operator.Global.Registry.{find, UniqueItems, entry, is_some}
use pre_scaling_operator.Global.Convert.{Deployment, convert_deployment_to_item}
use pre_scaling_operator.Scaler.{
  Cluster, World, get_refreshed_scaling_item, scaling_attempt, do_scaling, left_to_autoscaler,
  read_item, item_type,
}
use pre_scaling_operator.Scaler.Refresh.{kept, known_of, get_refreshed_scaling_item_lem}
use pre_scaling_operator.Scaler.Changes.{Retried, SentLast, do_scaling-sent}
use pre_scaling_operator.Validations.{
  Object, deployment, redis_cluster, Updated, key_item, update_func, assess_annotation_change,
}
use pre_scaling_operator.Validations.Filter.{
  opted_in, class_label, replicas_changed, stopped, crashes, opt_in_events, update_func-panics,
  update_func-opted_out, update_func-opted_in,
}
use pre_scaling_operator.Reconciler.{reconcile_item}
use pre_scaling_operator.Reconciler.Rounds.{needs_scaling, redirected, reconcile_item_lem}
use pre_scaling_operator.Tests.{web, shop, web_item, db_listed}

abbrev pub web_deployment : Deployment ℤ
web_deployment = record {
  name = web;
  namespace = shop;
  annotations = web_item.annotations;
  labels = web_item.labels;
  condition_reasons = [];
  container_limits = [];
  replicas = some (pos 2);
  available_replicas = pos 2;
  progress_deadline_seconds = some (pos 600);
}

-- What the conversion makes of it.
abbrev pub fresh_web : ScalingInfo ℤ
fresh_web = record web_item {
  state = [];
  ready_replicas = pos 2;
  resource_list = [];
  progress_deadline = pos 600;
}

abbrev pub cluster : Cluster ℤ
cluster = record {
  deployment = λ n name namespace. ok web_deployment;
  deployment_config = λ n name namespace. err (plain []);
  redis_cluster = λ n name namespace. err (plain []);
  updated = λ n. ok tt;
}

abbrev pub before : World ℤ
before = record { denylist = []; calls = 0; changes = []; events = [] }

abbrev after : World ℤ
after = record {
  denylist = fresh_web ∷ [];
  calls = 3;
  changes =
      record { item_type_name = bytes "Deployment"; name = web; namespace = shop; replicas = pos 3 }
      ∷ [];
  events = [];
}

web_read :
    read_item cluster
      (item_type (known_of web_item before).item_type_name)
      before.calls
      (known_of web_item before).name
      (known_of web_item before).namespace
    ≡ some (ok fresh_web)
unfolding read_item ◌==◌ item_type get_deployment_info convert_deployment_to_item
web_read = refl

web_named : fresh_web.name ≢ []
web_named h = cc

shop_named : fresh_web.namespace ≢ []
shop_named h = cc

get_refreshed_scaling_item_example :
    (w' : World ℤ) × (get_refreshed_scaling_item cluster web_item before
      ≡ some (w', ok (kept (known_of web_item before) fresh_web)))
    × ((name namespace : Text)
        → find name namespace w'.denylist ≡ (
            if name == fresh_web.name && namespace == fresh_web.namespace
            then some (kept (known_of web_item before) fresh_web)
            else find name namespace before.denylist))
    × UniqueItems w'.denylist
    × (w'.changes ≡ before.changes)
get_refreshed_scaling_item_example =
    get_refreshed_scaling_item_lem cluster web_item fresh_web before tt web_named shop_named
      web_read

one_attempt : scaling_attempt cluster web_item (pos 3) before ≡ some (after, ok tt)
unfolding scaling_attempt ◌==◌ get_deployment_info convert_deployment_to_item set_scaling_item
    update_or_append is_in_concurrent_list update lookup parse_bool
one_attempt = refl

-- A retry that makes one attempt.
abbrev try_once :
    (World ℤ → Option (World ℤ × Result (Unit {0})))
    → World ℤ
    → Option (World ℤ × Result (Unit {0}))
try_once f w = f w

tried_once :
    (f : World ℤ → Option (World ℤ × Result (Unit {0}))) (v : World ℤ) → Retried f v (try_once f v)
tried_once f v = Retried.once v.denylist (λ u. u)

scaled : do_scaling cluster try_once web_item (pos 3) before ≡ some (after, ok tt)
unfolding do_scaling scaling_attempt ◌==◌ get_deployment_info convert_deployment_to_item
    set_scaling_item update_or_append is_in_concurrent_list update lookup parse_bool
scaled = refl

do_scaling-sent_example :
    ((left_to_autoscaler web_item (pos 3) ≡ true) × (after ≡ before))
    ⊎ SentLast cluster web_item (pos 3) after
do_scaling-sent_example =
    do_scaling-sent cluster web_item (pos 3) try_once before after tried_once scaled

abbrev web_object : Object
web_object = record {
  kind = deployment;
  name = web;
  namespace = shop;
  labels = web_item.labels;
  annotations = web_item.annotations;
  replicas = some (pos 2);
}

abbrev web_out : Object
web_out = record web_object { labels = [] }

web_is_out : opted_in web_out ≡ false
unfolding lookup get_label_value_bool
web_is_out = refl

web_is_in : opted_in web_object ≡ true
unfolding lookup parse_bool ◌==◌ get_label_value_bool
web_is_in = refl

-- A RedisCluster that opts out.
abbrev redis_object : Object
redis_object = record web_object { kind = redis_cluster }

abbrev redis_out : Object
redis_out = record web_out { kind = redis_cluster }

redis_crashes : crashes redis_object redis_out ≡ true
unfolding lookup parse_bool ◌==◌ get_label_value_bool
redis_crashes = refl

update_func-panics_example :
    (update_func (λ a b. true) redis_object redis_out db_listed ≡ none)
    ↔ (crashes redis_object redis_out ≡ true)
update_func-panics_example = update_func-panics (λ a b. true) redis_object redis_out db_listed

update_func-opted_out_example :
    (after : Updated ℤ) × (update_func (λ a b. true) web_object web_out db_listed ≡ some after)
    × (after.passes ≡ false)
    × (after.events ≡ opt_in_events web_object web_out)
    × ((name namespace : Text)
        → find name namespace after.denylist ≡ (
            if is_being_scaled (key_item web_out) db_listed && (name == web && namespace == shop)
            then some (stopped web_out)
            else find name namespace db_listed))
update_func-opted_out_example =
    update_func-opted_out (λ a b. true) web_object web_out db_listed refl web_is_out

update_func-opted_in_example :
    update_func (λ a b. false) web_object web_object db_listed
    ≡ some (record {
      passes =
          not (class_label web_object == class_label web_object)
          || (not (is_deployment_in_failure_state (key_item web_object) db_listed)
              && (assess_annotation_change (λ a b. false) web_object web_object
                  || (not (is_being_scaled (key_item web_object) db_listed)
                      && (replicas_changed web_object web_object || not (opted_in web_object)))));
      denylist = db_listed;
      events =
          if class_label web_object == class_label web_object
          then opt_in_events web_object web_object
          else [];
    })
update_func-opted_in_example =
    update_func-opted_in (λ a b. false) web_object web_object db_listed refl web_is_in

db_unique : UniqueItems db_listed
unfolding find
db_unique = (refl, tt)

-- "web" is to have five replicas.
abbrev five_item : ScalingInfo ℤ
five_item = record web_item { desired_replicas = pos 5 }

reconcile_item_example :
    ((reconcile_item five_item db_listed).1
      ≡ (needs_scaling five_item && not (is_some (entry five_item db_listed))))
    × ((name namespace : Text)
        → find name namespace (reconcile_item five_item db_listed).0 ≡ (
            if needs_scaling five_item
              && (name == five_item.name && namespace == five_item.namespace)
            then redirected five_item.desired_replicas (entry five_item db_listed)
            else find name namespace db_listed))
    × UniqueItems (reconcile_item five_item db_listed).0
reconcile_item_example = reconcile_item_lem five_item db_listed db_unique web_named shop_named
