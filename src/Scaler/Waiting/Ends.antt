-- ===== src/Scaler/Waiting/Ends.antt =====
-- WaitForReady ends, and how it leaves the deny list.
use mathlib.Core.Path.{subst}
use pre_scaling_operator.Common.{
  ℕ, zero, suc, ◌+◌, ◌*◌, ◌≤◌, ◌<◌, ℤ, leb, true, false, Option, none, some, Error, Result, ok, err,
  ◌≡◌, ◌≢◌, inl, inr, refl, arith, sym, Bool-cases,
}
use pre_scaling_operator.Global.{ScalingInfo}
use pre_scaling_operator.Scaler.{Cluster, World, get_refreshed_scaling_item}
use pre_scaling_operator.Scaler.Waiting.{
  Runtime, Run, Waited, Polled, leaves, goes_on, timed_out, lost, given_up, wait_seconds,
  after_poll, poll, wait_loop, wait_for_ready,
}

-- It ends, and where it returns, with what is asked for.
abbrev pub EndsIn : {A : Type 0} → (A → Type 0) → Run A → Type 0
EndsIn Post Run.exhausted = ⊥
EndsIn Post Run.panicked = Unit
EndsIn Post (Run.done a) = Post a

module _ {Q : Type 0} (cluster : Cluster Q) (runtime : Runtime Q) where
  abbrev pub PollsTo : (World Q → Type 0) → (Waited cluster → Type 0) → ℕ → ℕ → Polled Q → Type 0
  PollsTo P Post wait_time elapsed (leaves result) = EndsIn Post result
  PollsTo P Post wait_time elapsed (goes_on fresh w) = (elapsed < wait_time) × P w

  abbrev pub PollStep : (World Q → Type 0) → (Waited cluster → Type 0) → ℕ → ℤ → ℤ → Type 0
  PollStep P Post wait_time step desired =
      (elapsed : ℕ) (item : ScalingInfo Q) (w : World Q)
      → P w
      → PollsTo P Post wait_time elapsed
          (poll cluster runtime wait_time step desired elapsed item w)

  abbrev pub go_on : ℕ → ℕ → ℤ → ℤ → ℕ → ℕ → Polled Q → Run (Waited cluster)
  go_on rounds wait_time step desired elapsed took (leaves result) = result
  go_on rounds wait_time step desired elapsed took (goes_on fresh w) =
      wait_loop cluster runtime rounds wait_time step desired (elapsed + 2000 + took) fresh w

  pub wait_loop-suc :
      (rounds wait_time : ℕ) (step desired : ℤ) (elapsed : ℕ) (item : ScalingInfo Q) (w : World Q)
      → wait_loop cluster runtime (suc rounds) wait_time step desired elapsed item w
        ≡ go_on rounds wait_time step desired elapsed
            (runtime.took w.calls)
            (poll cluster runtime wait_time step desired elapsed item w)
  unfolding wait_loop
  wait_loop-suc rounds wait_time step desired elapsed item w = ground arith

  go_on-EndsIn :
      (P : World Q → Type 0) (Post : Waited cluster → Type 0) (rounds wait_time : ℕ)
      (step desired : ℤ) (elapsed took : ℕ) (p : Polled Q)
      → PollsTo P Post wait_time elapsed p
      → ((fresh : ScalingInfo Q) (w : World Q)
          → elapsed < wait_time
          → P w
          → EndsIn Post (
              wait_loop cluster runtime rounds wait_time step desired
                (elapsed + 2000 + took)
                fresh
                w))
      → EndsIn Post (go_on rounds wait_time step desired elapsed took p)
  go_on-EndsIn P Post rounds wait_time step desired elapsed took (leaves result) h more = h
  go_on-EndsIn P Post rounds wait_time step desired elapsed took (goes_on fresh w) h more =
      more fresh w h.0 h.1

  -- The rule of the loop: every round takes at least its two seconds off the time.
  wait_loop-EndsIn :
      (P : World Q → Type 0) (Post : Waited cluster → Type 0) (wait_time : ℕ) (step desired : ℤ)
      → PollStep P Post wait_time step desired
      → (rounds elapsed : ℕ) (item : ScalingInfo Q) (w : World Q)
      → wait_time ≤ elapsed + rounds * 2000
      → P w
      → EndsIn Post (wait_loop cluster runtime (suc rounds) wait_time step desired elapsed item w)
  wait_loop-EndsIn P Post wait_time step desired keep zero elapsed item w enough p =
      subst (EndsIn Post) (sym (wait_loop-suc zero wait_time step desired elapsed item w)) (
        go_on-EndsIn P Post zero wait_time step desired elapsed (runtime.took w.calls) _
          (keep elapsed item w p) (λ fresh w' early q. absurd (omega arith)))
  wait_loop-EndsIn P Post wait_time step desired keep (suc rounds) elapsed item w enough p =
      subst (EndsIn Post) (sym (wait_loop-suc (suc rounds) wait_time step desired elapsed item w)) (
        go_on-EndsIn P Post (suc rounds) wait_time step desired elapsed (runtime.took w.calls) _
          (keep elapsed item w p)
          (λ fresh w' early q.
            wait_loop-EndsIn P Post wait_time step desired keep rounds
              (elapsed + 2000 + runtime.took w.calls) fresh w' (omega arith) q))

  pub wait_for_ready-EndsIn :
      (P : World Q → Type 0) (Post : Waited cluster → Type 0) (item : ScalingInfo Q) (w : World Q)
      → PollStep P Post
          (wait_seconds item.progress_deadline * 1000)
          item.spec_replica
          item.desired_replicas
      → P w
      → EndsIn Post (wait_for_ready cluster runtime item w)
  unfolding wait_for_ready
  wait_for_ready-EndsIn P Post item w keep p =
      let seconds = wait_seconds item.progress_deadline in
      wait_loop-EndsIn P Post (seconds * 1000) item.spec_replica item.desired_replicas keep seconds
        0 item w (omega arith) p

  -- A round that the cluster is read in, by the answer.
  abbrev pub read_in_poll : ℤ → ℤ → Option (World Q × Result (ScalingInfo Q)) → Polled Q
  read_in_poll step desired none = leaves Run.panicked
  read_in_poll step desired (some answer) = after_poll cluster runtime step desired answer

  abbrev pub slept : World Q → World Q
  slept w = record w { denylist = runtime.others w.calls w.denylist }

  pub poll-late :
      (wait_time : ℕ) (step desired : ℤ) (elapsed : ℕ) (item : ScalingInfo Q) (w : World Q)
      → wait_time ≤ elapsed
      → poll cluster runtime wait_time step desired elapsed item w
        ≡ leaves (timed_out cluster item w)
  unfolding poll
  poll-late wait_time step desired elapsed item w late =
      let h : leb wait_time elapsed ≡ true = ground arith in rw (h, poll)

  pub poll-early :
      (wait_time : ℕ) (step desired : ℤ) (elapsed : ℕ) (item : ScalingInfo Q) (w : World Q)
      (answer : Option (World Q × Result (ScalingInfo Q)))
      → elapsed < wait_time
      → get_refreshed_scaling_item cluster item (slept w) ≡ answer
      → poll cluster runtime wait_time step desired elapsed item w
        ≡ read_in_poll step desired answer
  unfolding poll
  poll-early wait_time step desired elapsed item w answer early e =
      let h : leb wait_time elapsed ≡ false = ground arith in rw (h, poll) (rw e (split answer))
    where
      split :
          (answer : Option (World Q × Result (ScalingInfo Q)))
          → ◌≡◌ {A = Polled Q}
              (elim answer [
                | none ↦ leaves Run.panicked
                | some a ↦ after_poll cluster runtime step desired a
              ])
              (read_in_poll step desired answer)
      split none = refl
      split (some a) = refl

  abbrev Any : {A : Type 0} → A → Type 0
  Any a = Unit

  timed_out-EndsIn : (item : ScalingInfo Q) (w : World Q) → EndsIn Any (timed_out cluster item w)
  unfolding timed_out
  timed_out-EndsIn item w = ground arith

  lost-EndsIn : (e : Error) (w : World Q) → EndsIn Any (lost cluster runtime e w)
  unfolding lost
  lost-EndsIn e w = ground arith

  given_up-EndsIn :
      (desired : ℤ) (item : ScalingInfo Q) (w : World Q)
      → EndsIn Any (given_up cluster desired item w)
  unfolding given_up
  given_up-EndsIn desired item w = ground arith

  after_poll-EndsIn :
      (wait_time elapsed : ℕ) (step desired : ℤ) (answer : World Q × Result (ScalingInfo Q))
      → elapsed < wait_time
      → PollsTo Any Any wait_time elapsed (after_poll cluster runtime step desired answer)
  unfolding after_poll
  after_poll-EndsIn wait_time elapsed step desired (w, err e) early = lost-EndsIn e w
  after_poll-EndsIn wait_time elapsed step desired (w, ok fresh) early =
      ground (arith, given_up-EndsIn desired fresh w)

  poll-EndsIn : (wait_time : ℕ) (step desired : ℤ) → PollStep Any Any wait_time step desired
  poll-EndsIn wait_time step desired elapsed item w p = elim (Bool-cases (leb wait_time elapsed)) [
    | inl late ↦
        subst (PollsTo Any Any wait_time elapsed)
          (sym (poll-late wait_time step desired elapsed item w (ground arith)))
          (timed_out-EndsIn item w)
    | inr early ↦
        subst (PollsTo Any Any wait_time elapsed)
          (sym (
            poll-early wait_time step desired elapsed item w
              (get_refreshed_scaling_item cluster item (slept w)) (ground arith) refl))
          (split (get_refreshed_scaling_item cluster item (slept w)) (ground arith))
  ]
    where
      split :
          (answer : Option (World Q × Result (ScalingInfo Q)))
          → elapsed < wait_time
          → PollsTo Any Any wait_time elapsed (read_in_poll step desired answer)
      split none early = tt
      split (some a) early = after_poll-EndsIn wait_time elapsed step desired a early

  pub wait_for_ready_ends :
      (item : ScalingInfo Q) (w : World Q) → wait_for_ready cluster runtime item w ≢ Run.exhausted
  wait_for_ready_ends item w e = subst (EndsIn Any) e (
      wait_for_ready-EndsIn Any Any item w
        (poll-EndsIn (wait_seconds item.progress_deadline * 1000) item.spec_replica
          item.desired_replicas)
        tt)
