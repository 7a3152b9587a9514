-- ===== src/States/Priority.antt =====
-- Which of two states has priority.
use pre_scaling_operator.Common.{◌≡◌, ◌≢◌, ◌⊎◌, true, arith, ==_iff, eqb_ℤ_iff, ◌≤ℤ◌, ◌<ℤ◌, ◌↔◌}
use pre_scaling_operator.Global.{State, no_state}
use pre_scaling_operator.States.{eq_state, get_prioritised_state}

pub eq_state_iff : (a b : State) → (eq_state a b ≡ true) ↔ (a ≡ b)
unfolding eq_state
eq_state_iff a b = ground (arith, ==_iff a.name b.name, eqb_ℤ_iff a.priority b.priority)

-- State{} never has priority over a state; of two other states it is the first whose number is
-- smaller than the second's, and else the second; and the priority among three states does not
-- depend on which two are compared first.
pub get_prioritised_state_lem :
    (a b c : State)
    → a ≢ no_state
    → b ≢ no_state
    → (get_prioritised_state no_state c ≡ c)
      × (get_prioritised_state c no_state ≡ c)
      × (((get_prioritised_state a b ≡ a) × (a.priority <ℤ b.priority))
          ⊎ ((get_prioritised_state a b ≡ b) × (b.priority ≤ℤ a.priority)))
      × (get_prioritised_state (get_prioritised_state a b) c
          ≡ get_prioritised_state a (get_prioritised_state b c))
unfolding get_prioritised_state
get_prioritised_state_lem a b c named named' = (
  ground (arith, eq_state_iff no_state no_state, eq_state_iff c no_state),
  ground (arith, eq_state_iff no_state no_state, eq_state_iff c no_state),
  ground (arith, eq_state_iff a no_state, eq_state_iff b no_state, eq_state_iff c no_state),
  ground (arith, eq_state_iff a no_state, eq_state_iff b no_state, eq_state_iff c no_state),
)
