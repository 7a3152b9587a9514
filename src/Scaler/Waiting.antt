-- ===== src/Scaler/Waiting.antt =====
-- internal/resources/scaler.go: WaitForReady, which reads a workload every two seconds until it is
-- ready, its cluster gives up or the time is over; internal/resources/common.go: RegisterEvents.
pub mod Ends
pub mod Named
pub mod Keeps
pub mod Outcomes
use pre_scaling_operator.Common.{
  ℕ, zero, suc, ◌+◌, ◌*◌, ℤ, pos, negsuc, eqb_ℤ, leb, Text, bytes, ◌==◌, ◌++◌, Bool, true, false,
  ◌||◌, Option, none, some, List, ◌∷◌, Error, plain, message, Result, ok, err, if◌then◌else◌,
}
use pre_scaling_operator.Global.{ScalingInfo, no_item}
use pre_scaling_operator.Global.Denylist.{get_deployment_info, set_scaling_item, remove_from_list}
use pre_scaling_operator.Global.Convert.{Deployment, DeploymentConfig}
use pre_scaling_operator.Scaler.{
  Cluster, World, Event, scaled, scale_error, ItemType, a_deployment, a_deployment_config,
  a_redis_cluster, unknown, item_type, called, get_refreshed_scaling_item,
}

-- What a run depends on besides the cluster.
pub record Runtime (Q : Type 0) : Type 0 where
  -- What other goroutines make of the deny list during the sleep before the call with this number,
  -- and that its lock can be had then and at every later use of the list.
  pub others : ℕ → List (ScalingInfo Q) → List (ScalingInfo Q)
  -- The milliseconds that a round which makes this call takes beyond its sleep.
  pub took : ℕ → ℕ
  -- The schedule of `Iter` in the RemoveFromList after this call.
  pub early : ℕ → ℕ → Bool
  -- retry.RetryOnConflict with the default back-off, and the sleep of its attempts
  pub retry :
      (World Q → Option (World Q × Result (Unit {0})))
      → World Q
      → Option (World Q × Result (Unit {0}))

-- How a computation ends; `exhausted` is that it still runs.
pub data Run (A : Type 0) : Type 0 where
  exhausted : Run A
  panicked : Run A
  done : A → Run A

abbrev pub after : {A B : Type 0} → Run A → (A → Run B) → Run B
after Run.exhausted f = Run.exhausted
after Run.panicked f = Run.panicked
after (Run.done a) f = f a

abbrev pub run_of : {A : Type 0} → Option A → Run A
run_of none = Run.panicked
run_of (some a) = Run.done a

module _ {Q : Type 0} (cluster : Cluster Q) where
  abbrev recorded : Event → World Q → World Q
  recorded event w = record w { calls = w.calls + 1; events = event ∷ w.events }

  -- The event of RegisterEvents on what was read, `item` being what the list has.
  unfoldable pub config_event :
      Option Error → ScalingInfo Q → World Q → Result (DeploymentConfig Q) → Option (World Q)
  config_event scaler_err item w (err _) = some (called cluster w)
  config_event none item w (ok object) =
      some (recorded (scaled object.name object.namespace item.desired_replicas) w)
  config_event (some e) item w (ok object) = some (
      recorded
        (scale_error object.name object.namespace (message e) item.desired_replicas object.replicas)
        w)

  -- The panic is a deployment without replicas in the text of an error.
  unfoldable pub deployment_event :
      Option Error → ScalingInfo Q → World Q → Result (Deployment Q) → Option (World Q)
  deployment_event scaler_err item w (err _) = some (called cluster w)
  deployment_event none item w (ok object) =
      some (recorded (scaled object.name object.namespace item.desired_replicas) w)
  deployment_event (some e) item w (ok object) = elim object.replicas [
    | none ↦ none
    | some replicas ↦ some (
        recorded
          (scale_error object.name object.namespace (message e) item.desired_replicas replicas) w)
  ]

  unfoldable pub event_by_type :
      ItemType → Option Error → ScalingInfo Q → World Q → Option (World Q)
  unfolding config_event deployment_event
  event_by_type a_deployment_config e item w =
      config_event e item w (cluster.deployment_config w.calls item.name item.namespace)
  event_by_type a_deployment e item w =
      deployment_event e item w (cluster.deployment w.calls item.name item.namespace)
  event_by_type a_redis_cluster e item w =
      deployment_event e item w (cluster.deployment w.calls item.name item.namespace)
  event_by_type unknown e item w =
      deployment_event e item w (cluster.deployment w.calls item.name item.namespace)

  unfoldable pub register_events : Option Error → ScalingInfo Q → World Q → Option (World Q)
  unfolding item_type event_by_type
  register_events scaler_err scaling_item w =
      let item = (get_deployment_info scaling_item w.denylist).0 in
      event_by_type (item_type item.item_type_name) scaler_err item w

  -- SetScalingItemOnList and RemoveFromList on the deny list of the world.
  abbrev pub put_on_list : ScalingInfo Q → Bool → Text → ℤ → World Q → World Q
  put_on_list item failure failure_message desired w = record w {
    denylist = (set_scaling_item item failure failure_message desired w.denylist).1;
  }

  abbrev pub take_off_list : Runtime Q → ScalingInfo Q → World Q → Option (World Q)
  take_off_list runtime item w = elim (remove_from_list (runtime.early w.calls) item w.denylist) [
    | none ↦ none
    | some denylist ↦ some (record w { denylist = denylist })
  ]

  -- The item returned and the error.
  abbrev pub Waited : Type 0
  Waited = World Q × (ScalingInfo Q × Result (Unit {0}))

  unfoldable pub timed_out : ScalingInfo Q → World Q → Run Waited
  timed_out item w =
      let e = plain (
        bytes "Message on the cluster: "
        ++ (item.condition_reason
            ++ bytes
                " | The operator decided that it can't scale that deployment or deploymentconfig!")) in
      let item' = record item { is_being_scaled = false } in
      after (run_of (register_events (some e) item' w)) (λ w'.
        Run.done (put_on_list item' true (message e) item.desired_replicas w', (item', err e)))

  -- The workload could not be read; the item is empty then.
  unfoldable pub lost : Runtime Q → Error → World Q → Run Waited
  lost runtime e w = after (run_of (register_events none no_item w)) (λ w'.
      after (run_of (take_off_list runtime no_item w')) (λ w''. Run.done (w'', (no_item, err e))))

  unfoldable pub given_up : ℤ → ScalingInfo Q → World Q → Run Waited
  given_up desired item w =
      let e =
        plain (
          bytes "The deployment is in a failing state on the cluster! ProgressDeadlineExceeded!") in
      let item' = record item { is_being_scaled = false } in
      after
        (run_of (
          register_events (some e) item'
            (put_on_list item' true (bytes "ProgressDeadlineExceeded") desired w)))
        (λ w'. Run.done (w', (item', err e)))

  unfoldable pub is_ready : ℤ → ScalingInfo Q → Bool
  is_ready step item = eqb_ℤ item.ready_replicas step || eqb_ℤ item.spec_replica item.ready_replicas

-- A round of the loop leaves it, or goes on with the item as the cluster has it.
pub data Polled (Q : Type 0) : Type 0 where
  leaves : Run (World Q × (ScalingInfo Q × Result (Unit {0}))) → Polled Q
  goes_on : ScalingInfo Q → World Q → Polled Q

-- The seconds of waitTime, at least 0.
abbrev pub wait_seconds : ℤ → ℕ
wait_seconds (pos n) = n + 1
wait_seconds (negsuc n) = 0

module _ {Q : Type 0} (cluster : Cluster Q) (runtime : Runtime Q) where
  unfoldable pub after_poll : ℤ → ℤ → World Q × Result (ScalingInfo Q) → Polled Q
  unfolding lost given_up is_ready
  after_poll step desired (w, err e) = leaves (lost cluster runtime e w)
  after_poll step desired (w, ok fresh) =
      if fresh.condition_reason == bytes "ProgressDeadlineExceeded"
      then leaves (given_up cluster desired fresh w)
      else if is_ready cluster step fresh
      then leaves (Run.done (w, (fresh, ok tt)))
      else goes_on fresh w

  -- One round: the timeout is looked at before the sleep.
  unfoldable pub poll : ℕ → ℤ → ℤ → ℕ → ScalingInfo Q → World Q → Polled Q
  unfolding timed_out after_poll
  poll wait_time step desired elapsed item w =
      if leb wait_time elapsed
      then leaves (timed_out cluster item w)
      else elim (get_refreshed_scaling_item cluster item
          (record w { denylist = runtime.others w.calls w.denylist })) [
            | none ↦ leaves Run.panicked
            | some answer ↦ after_poll step desired answer
          ]

  -- The loop; `elapsed` is in milliseconds.
  unfoldable pub wait_loop : ℕ → ℕ → ℤ → ℤ → ℕ → ScalingInfo Q → World Q → Run (Waited cluster)
  unfolding poll
  wait_loop zero wait_time step desired elapsed item w = Run.exhausted
  wait_loop (suc rounds) wait_time step desired elapsed item w =
      elim (poll wait_time step desired elapsed item w) [
        | leaves result ↦ result
        | goes_on fresh w' ↦
            wait_loop rounds wait_time step desired (elapsed + 2000 + runtime.took w.calls) fresh w'
      ]

  -- WaitForReady, of at most one round for each second of its time and one more.
  unfoldable pub wait_for_ready : ScalingInfo Q → World Q → Run (Waited cluster)
  unfolding wait_loop
  wait_for_ready item w =
      let seconds = wait_seconds item.progress_deadline in
      wait_loop (suc seconds) (seconds * 1000) item.spec_replica item.desired_replicas 0 item w
