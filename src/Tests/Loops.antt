-- ===== src/Tests/Loops.antt =====
-- Waiting for the workload "web" and scaling it.
use pre_scaling_operator.Common.{
  ℕ, ◌+◌, ltb, ◌+ℤ◌, ◌-ℤ◌, ℤ, pos, negsuc, bytes, ◌==◌, lookup, has_prefix, insert, parse_bool,
  true, false, some, [], ◌∷◌, ◌≡◌, ◌≢◌, refl, arith, if◌then◌else◌, Result, ok,
}
use pre_scaling_operator.Global.{ScalingInfo}
use pre_scaling_operator.States.{get_rapid_scaling_setting}
use pre_scaling_operator.Global.Denylist.{
  get_deployment_info, last_match, set_scaling_item, update_or_append, append_missing,
  is_in_concurrent_list, update,
}
use pre_scaling_operator.Global.Convert.{convert_deployment_to_item}
use pre_scaling_operator.Validations.{optin_label_exists}
use pre_scaling_operator.Scaler.{
  Cluster, World, get_refreshed_scaling_item, read_item, item_type, refresh, do_scaling,
  left_to_autoscaler, scaling_attempt, update_scaling_item, opted_in,
}
use pre_scaling_operator.Scaler.Changes.{once}
use pre_scaling_operator.Scaler.Waiting.{
  Runtime, Run, wait_for_ready, wait_loop, poll, after_poll, is_ready,
}
use pre_scaling_operator.Scaler.Waiting.Outcomes.{WaitEnd, wait_for_ready_lem}
use pre_scaling_operator.Scaler.Loops.{
  scale_or_step_scale, step_scale, rapid_scale, rapid_ready, after_rapid, next_step, desired_or,
}
use pre_scaling_operator.Scaler.Loops.Listed.{scaled_by, TakenOff, scale_or_step_scale-TakenOff}
use pre_scaling_operator.Scaler.Loops.Ends.{scale_or_step_scale_ends}
use pre_scaling_operator.Scaler.Loops.Steps.{
  BecomesReady, IsObeyed, Reaches, step_scale-Reaches, IsLeft, step_scale_diverges,
}
use pre_scaling_operator.Tests.{web_item}
use pre_scaling_operator.Tests.Events.{cluster, before, fresh_web, web_deployment}

abbrev pub calm_runtime : Runtime ℤ
calm_runtime = record {
  others = λ n items. items;
  took = λ n. 100;
  early = λ n i. false;
  retry = λ f w. f w;
}

-- The workload is ready at once.
abbrev waited_world : World ℤ
waited_world = record before { denylist = fresh_web ∷ []; calls = 1 }

web_waited :
    wait_for_ready cluster calm_runtime web_item before
    ≡ Run.done (waited_world, (fresh_web, ok tt))
unfolding ◌==◌ lookup wait_for_ready wait_loop poll after_poll is_ready get_refreshed_scaling_item
    read_item item_type refresh get_deployment_info last_match set_scaling_item update_or_append
    append_missing is_in_concurrent_list update convert_deployment_to_item
web_waited = refl

wait_for_ready_example :
    WaitEnd cluster before.changes web_item.spec_replica (waited_world, (fresh_web, ok tt))
wait_for_ready_example =
    wait_for_ready_lem cluster calm_runtime web_item before (waited_world, (fresh_web, ok tt))
      (λ n items u. u) tt web_waited

-- The workload with rapid scaling, to 3 replicas.
abbrev rapid_web : ScalingInfo ℤ
rapid_web = record web_item {
  annotations = (bytes "scaler/rapid-scaling", bytes "true") ∷ [];
  desired_replicas = pos 3;
}

web_is_rapid : get_rapid_scaling_setting rapid_web ≡ true
unfolding get_rapid_scaling_setting ◌==◌ has_prefix insert parse_bool lookup
web_is_rapid = refl

scale_or_step_scale_ends_example :
    scale_or_step_scale cluster calm_runtime 0 rapid_web before ≢ Run.exhausted
scale_or_step_scale_ends_example =
    scale_or_step_scale_ends cluster calm_runtime 0 rapid_web before web_is_rapid

abbrev world_or : World ℤ → Run (World ℤ × Result (Unit {0})) → World ℤ
world_or w Run.exhausted = w
world_or w Run.panicked = w
world_or w (Run.done (w', r)) = w'

abbrev scaled_world : World ℤ
scaled_world = world_or before (
    scaled_by cluster calm_runtime (λ f w. once w.denylist (λ u. u)) (λ n items u. u) 0 rapid_web
      before)

web_scaled :
    scaled_by cluster calm_runtime
      (λ f w. once w.denylist (λ u. u))
      (λ n items u. u)
      0
      rapid_web
      before
    ≡ Run.done (scaled_world, ok tt)
unfolding get_rapid_scaling_setting ◌==◌ has_prefix insert parse_bool lookup rapid_scale rapid_ready
    after_rapid wait_for_ready wait_loop poll after_poll is_ready get_refreshed_scaling_item
    read_item item_type refresh do_scaling left_to_autoscaler scaling_attempt update_scaling_item
    opted_in get_deployment_info last_match set_scaling_item update_or_append append_missing
    is_in_concurrent_list update convert_deployment_to_item optin_label_exists
web_scaled = refl

scale_or_step_scale-TakenOff_example :
    TakenOff cluster calm_runtime
      (λ f w. once w.denylist (λ u. u))
      (λ n items u. u)
      rapid_web
      scaled_world
      (ok tt)
      (scale_or_step_scale cluster calm_runtime 0 rapid_web before)
scale_or_step_scale-TakenOff_example =
    scale_or_step_scale-TakenOff cluster calm_runtime (λ f w. once w.denylist (λ u. u))
      (λ n items u. u) 0 rapid_web before scaled_world (ok tt) tt refl web_scaled

-- A cluster where the workload has one replica before the fifth call, and two from then on.
abbrev pub growing : Cluster ℤ
growing = record cluster {
  deployment = λ n name namespace.
      let count = if ltb n 4 then pos 1 else pos 2 in
      ok (record web_deployment {
        name = name;
        namespace = namespace;
        replicas = some count;
        available_replicas = count;
      });
}

abbrev pub listed_web : ScalingInfo ℤ
listed_web = record fresh_web {
  spec_replica = pos 1;
  ready_replicas = pos 1;
  desired_replicas = pos 2;
  is_being_scaled = true;
}

abbrev pub growing_start : World ℤ
growing_start = record before { denylist = listed_web ∷ [] }

abbrev ready_world : World ℤ
ready_world = record growing_start { calls = 1 }

-- One change later.
abbrev pub grown_world : World ℤ
grown_world = record growing_start {
  calls = 4;
  changes =
      record {
        item_type_name = bytes "Deployment";
        name = web_item.name;
        namespace = web_item.namespace;
        replicas = pos 2;
      }
      ∷ [];
}

abbrev pub grown_web : ScalingInfo ℤ
grown_web = record listed_web { spec_replica = pos 2; ready_replicas = pos 2 }

abbrev pub last_world : World ℤ
last_world = record grown_world { denylist = grown_web ∷ []; calls = 5 }

data At : ℤ → ScalingInfo ℤ → World ℤ → Type 0 where
  first : At (pos 1) listed_web growing_start
  second : At (pos 2) listed_web grown_world

data Ready : ℤ → ScalingInfo ℤ → ScalingInfo ℤ → World ℤ → Type 0 where
  small : Ready (pos 1) listed_web listed_web ready_world
  grown : Ready (pos 2) listed_web grown_web last_world

growing_ready : BecomesReady growing calm_runtime (pos 2) At Ready
unfolding ◌==◌ lookup insert parse_bool has_prefix wait_for_ready wait_loop poll after_poll is_ready
    get_refreshed_scaling_item read_item item_type refresh do_scaling left_to_autoscaler
    scaling_attempt update_scaling_item opted_in get_deployment_info last_match set_scaling_item
    update_or_append append_missing is_in_concurrent_list update convert_deployment_to_item
    optin_label_exists next_step ◌+ℤ◌ ◌-ℤ◌
growing_ready _ _ _ first = (ready_world, listed_web, refl, refl, refl, refl, refl, small)
growing_ready _ _ _ second = (last_world, grown_web, refl, refl, refl, refl, refl, grown)

growing_obeyed : IsObeyed growing calm_runtime (pos 2) At Ready
unfolding ◌==◌ lookup insert parse_bool has_prefix wait_for_ready wait_loop poll after_poll is_ready
    get_refreshed_scaling_item read_item item_type refresh do_scaling left_to_autoscaler
    scaling_attempt update_scaling_item opted_in get_deployment_info last_match set_scaling_item
    update_or_append append_missing is_in_concurrent_list update convert_deployment_to_item
    optin_label_exists next_step ◌+ℤ◌ ◌-ℤ◌
growing_obeyed _ step _ _ _ small apart = (grown_world, refl, second)
growing_obeyed _ step _ _ _ grown apart = absurd (apart refl)

two_given : pos 2 ≢ negsuc 0
two_given e = ground arith

step_scale-Reaches_example :
    Reaches growing calm_runtime
      (pos 2)
      At
      Ready
      growing_ready
      growing_obeyed
      two_given
      (step_scale growing calm_runtime 2 listed_web growing_start)
    × (step_scale growing calm_runtime 1 listed_web growing_start ≡ Run.exhausted)
step_scale-Reaches_example =
    step_scale-Reaches growing calm_runtime (pos 2) At Ready growing_ready growing_obeyed two_given
      (pos 1) listed_web growing_start first

-- The workload with two replicas that wants one, and is left to the autoscaler.
abbrev autoscaled : Cluster ℤ
autoscaled = record cluster {
  deployment = λ n name namespace. ok (record web_deployment {
    annotations = (bytes "scaler/allow-autoscaling", bytes "true") ∷ [];
  });
}

abbrev auto_web : ScalingInfo ℤ
auto_web = record fresh_web {
  annotations = (bytes "scaler/allow-autoscaling", bytes "true") ∷ [];
  desired_replicas = pos 1;
  is_being_scaled = true;
}

abbrev auto_world : ℕ → World ℤ
auto_world n = record before { denylist = auto_web ∷ []; calls = n }

data Spins : ScalingInfo ℤ → World ℤ → Type 0 where
  spin : (n : ℕ) → Spins auto_web (auto_world n)

auto_left : IsLeft autoscaled calm_runtime Spins
unfolding ◌==◌ lookup insert parse_bool has_prefix wait_for_ready wait_loop poll after_poll is_ready
    get_refreshed_scaling_item read_item item_type refresh left_to_autoscaler get_deployment_info
    last_match set_scaling_item update_or_append append_missing is_in_concurrent_list update
    convert_deployment_to_item optin_label_exists next_step ◌+ℤ◌ ◌-ℤ◌ desired_or
auto_left _ _ (spin n) =
    (auto_world (n + 1), auto_web, refl, refl, (λ initial step. refl), spin (n + 1))

step_scale_diverges_example :
    step_scale autoscaled calm_runtime 1000 auto_web (auto_world 0) ≡ Run.exhausted
step_scale_diverges_example =
    step_scale_diverges autoscaled calm_runtime Spins auto_left 1000 auto_web (auto_world 0)
      (spin 0)
