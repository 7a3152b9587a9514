-- ===== src/Tests/Stepping.antt =====
-- The steps of "web" from one replica to two.
use pre_scaling_operator.Common.{
  ◌+ℤ◌, ◌-ℤ◌, ℤ, pos, ◌==◌, lookup, has_prefix, insert, parse_bool, List, [], ◌∷◌, some, map, ◌≡◌,
  refl, ok, arith,
}
use pre_scaling_operator.Global.Denylist.{
  get_deployment_info, last_match, set_scaling_item, update_or_append, append_missing,
  is_in_concurrent_list, update,
}
use pre_scaling_operator.Global.Registry.{find, UniqueItems}
use pre_scaling_operator.Global.Convert.{convert_deployment_to_item}
use pre_scaling_operator.Validations.{optin_label_exists}
use pre_scaling_operator.Scaler.{
  Cluster, Change, get_refreshed_scaling_item, read_item, item_type, refresh, do_scaling,
  left_to_autoscaler, scaling_attempt, update_scaling_item, opted_in,
}
use pre_scaling_operator.Scaler.Named.{IsNamed}
use pre_scaling_operator.Scaler.Changes.{once}
use pre_scaling_operator.Scaler.Waiting.{Run, wait_for_ready, wait_loop, poll, after_poll, is_ready}
use pre_scaling_operator.Scaler.Loops.{
  Round, ends, steps, step_round, step_loop, step_ready, after_step, step_scale, next_step,
  desired_or,
}
use pre_scaling_operator.Scaler.Loops.Nearer.{SendsSteps, Reached, step_scale-SendsSteps}
use pre_scaling_operator.Tests.Events.{cluster, web_deployment}
use pre_scaling_operator.Tests.Loops.{calm_runtime, growing, listed_web, growing_start, last_world}

web_grown :
    step_scale growing calm_runtime 2 listed_web growing_start ≡ Run.done (last_world, ok tt)
unfolding ◌==◌ lookup insert parse_bool has_prefix wait_for_ready wait_loop poll after_poll is_ready
    get_refreshed_scaling_item read_item item_type refresh do_scaling left_to_autoscaler
    scaling_attempt update_scaling_item opted_in get_deployment_info last_match set_scaling_item
    update_or_append append_missing is_in_concurrent_list update convert_deployment_to_item
    optin_label_exists next_step desired_or ◌+ℤ◌ ◌-ℤ◌ step_scale step_loop step_round step_ready
    after_step
web_grown = refl

growing_unique : UniqueItems growing_start.denylist
unfolding find
growing_unique = (refl, tt)

growing_named : IsNamed growing
growing_named = (
  (λ n name namespace d e. ground (arith, e)),
  (λ n name namespace d e. ground (arith, e)),
  (λ n name namespace r e. ground (arith, e)),
)

step_scale-SendsSteps_example :
    SendsSteps growing calm_runtime listed_web growing_start last_world
    × Reached growing calm_runtime listed_web growing_start (ok tt)
step_scale-SendsSteps_example =
    step_scale-SendsSteps growing calm_runtime growing_named (λ f w. once w.denylist (λ u. u))
      (λ n items u. u) 2 listed_web growing_start last_world (ok tt) growing_unique web_grown

-- Someone gave the workload its two replicas, one of which is ready: the step of before is asked for.
abbrev by_hand : Cluster ℤ
by_hand = record cluster {
  deployment = λ n name namespace.
      ok (record web_deployment { replicas = some (pos 2); available_replicas = pos 1 });
}

abbrev asked_for : Round ℤ → List ℤ
asked_for (ends result) = []
asked_for (steps step item w) = map (λ (c : Change). c.replicas) w.changes

taken_back :
    asked_for (step_round by_hand calm_runtime (pos 2) (pos 1) listed_web growing_start)
    ≡ pos 1 ∷ []
unfolding ◌==◌ lookup insert parse_bool has_prefix wait_for_ready wait_loop poll after_poll is_ready
    get_refreshed_scaling_item read_item item_type refresh do_scaling left_to_autoscaler
    scaling_attempt update_scaling_item opted_in get_deployment_info last_match set_scaling_item
    update_or_append append_missing is_in_concurrent_list update convert_deployment_to_item
    optin_label_exists next_step desired_or ◌+ℤ◌ ◌-ℤ◌ step_round step_ready after_step
taken_back = refl
