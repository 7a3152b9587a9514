-- ===== src/Scaler/Waiting/Named.antt =====
-- WaitForReady returns the workload that it waits for.
use mathlib.Core.Path.{subst}
use pre_scaling_operator.Common.{
  ℕ, zero, suc, ◌+◌, ◌*◌, ℤ, leb, Bool-cases, Option, none, some, Error, Result, ok, err, ◌≡◌, inl,
  inr, refl, arith, sym, ◌∙◌,
}
use pre_scaling_operator.Global.{ScalingInfo}
use pre_scaling_operator.Scaler.{Cluster, World, get_refreshed_scaling_item}
use pre_scaling_operator.Scaler.Named.{IsNamed, Same, ReadsSame, get_refreshed-ReadsSame}
use pre_scaling_operator.Scaler.Waiting.{
  Runtime, Run, Waited, Polled, leaves, goes_on, timed_out, lost, given_up, wait_seconds,
  after_poll, poll, wait_loop, wait_for_ready,
}
use pre_scaling_operator.Scaler.Waiting.Ends.{
  go_on, wait_loop-suc, read_in_poll, slept, poll-late, poll-early,
}

module _ {Q : Type 0} (cluster : Cluster Q) (runtime : Runtime Q) (item : ScalingInfo Q) where
  -- Where it returns without an error, it is with the workload.
  abbrev WaitsSame : Run (Waited cluster) → Type 0
  WaitsSame Run.exhausted = Unit
  WaitsSame Run.panicked = Unit
  WaitsSame (Run.done (w, (fresh, err e))) = Unit
  WaitsSame (Run.done (w, (fresh, ok _))) = Same fresh item

  abbrev PollsSame : Polled Q → Type 0
  PollsSame (leaves result) = WaitsSame result
  PollsSame (goes_on fresh w) = Same fresh item

  timed_out-WaitsSame :
      (known : ScalingInfo Q) (w : World Q) → WaitsSame (timed_out cluster known w)
  unfolding timed_out
  timed_out-WaitsSame known w = ground arith

  lost-WaitsSame : (e : Error) (w : World Q) → WaitsSame (lost cluster runtime e w)
  unfolding lost
  lost-WaitsSame e w = ground arith

  given_up-WaitsSame :
      (desired : ℤ) (known : ScalingInfo Q) (w : World Q)
      → WaitsSame (given_up cluster desired known w)
  unfolding given_up
  given_up-WaitsSame desired known w = ground arith

  module _ (named : IsNamed cluster) where
    read-PollsSame :
        (known : ScalingInfo Q) (step desired : ℤ)
        (answer : Option (World Q × Result (ScalingInfo Q)))
        → Same known item
        → ReadsSame cluster named known answer
        → PollsSame (read_in_poll cluster runtime step desired answer)
    unfolding after_poll
    read-PollsSame known step desired none same h = tt
    read-PollsSame known step desired (some (w, err e)) same h = lost-WaitsSame e w
    read-PollsSame known step desired (some (w, ok fresh)) same h =
        let n : fresh.name ≡ item.name = h.0 ∙ same.0 in
        let s : fresh.namespace ≡ item.namespace = h.1 ∙ same.1 in
        ground (arith, given_up-WaitsSame desired fresh w)

    poll-PollsSame :
        (wait_time : ℕ) (step desired : ℤ) (elapsed : ℕ) (known : ScalingInfo Q) (w : World Q)
        → Same known item
        → PollsSame (poll cluster runtime wait_time step desired elapsed known w)
    poll-PollsSame wait_time step desired elapsed known w same =
        elim (Bool-cases (leb wait_time elapsed)) [
          | inl late ↦
              subst PollsSame
                (sym
                  (poll-late cluster runtime wait_time step desired elapsed known w (ground arith)))
                (timed_out-WaitsSame known w)
          | inr early ↦
              let mid = slept cluster runtime w in
              subst PollsSame
                (sym (
                  poll-early cluster runtime wait_time step desired elapsed known w
                    (get_refreshed_scaling_item cluster known mid) (ground arith) refl))
                (read-PollsSame known step desired (get_refreshed_scaling_item cluster known mid)
                  same (get_refreshed-ReadsSame cluster named known mid))
        ]

    wait_loop-WaitsSame :
        (rounds wait_time : ℕ) (step desired : ℤ) (elapsed : ℕ) (known : ScalingInfo Q)
        (w : World Q)
        → Same known item
        → WaitsSame (wait_loop cluster runtime rounds wait_time step desired elapsed known w)
    unfolding wait_loop
    wait_loop-WaitsSame zero wait_time step desired elapsed known w same = tt
    wait_loop-WaitsSame (suc rounds) wait_time step desired elapsed known w same =
        subst WaitsSame
          (sym (wait_loop-suc cluster runtime rounds wait_time step desired elapsed known w))
          (elim (poll cluster runtime wait_time step desired elapsed known w)
              as (λ p.
                PollsSame p
                → WaitsSame (
                    go_on cluster runtime rounds wait_time step desired elapsed
                      (runtime.took w.calls) p)) [
                        | leaves result ↦ λ h. h
                        | goes_on fresh w' ↦ λ h.
                            wait_loop-WaitsSame rounds wait_time step desired
                              (elapsed + 2000 + runtime.took w.calls) fresh w' h
                      ]
            (poll-PollsSame wait_time step desired elapsed known w same))

    wait_for_ready-WaitsSame : (w : World Q) → WaitsSame (wait_for_ready cluster runtime item w)
    unfolding wait_for_ready
    wait_for_ready-WaitsSame w =
        let seconds = wait_seconds item.progress_deadline in
        wait_loop-WaitsSame (suc seconds) (seconds * 1000) item.spec_replica item.desired_replicas 0
          item w (refl, refl)

pub wait_for_ready-Same :
    {Q : Type 0} (cluster : Cluster Q) (runtime : Runtime Q)
    → IsNamed cluster
    → (item fresh : ScalingInfo Q) (w w' : World Q)
    → wait_for_ready cluster runtime item w ≡ Run.done (w', (fresh, ok tt))
    → Same fresh item
wait_for_ready-Same cluster runtime named item fresh w w' e =
    subst (WaitsSame cluster runtime item) e (wait_for_ready-WaitsSame cluster runtime item named w)
