-- ===== src/Tests.antt =====
-- Test data, and each theorem at a concrete input.
mod Events
mod Loops
mod Deciding
mod Requeueing
mod Quiet
mod Rectifying
mod Lists
mod Reconciling
mod Scaling
mod Starting
mod Copying
mod Denied
mod Stepping
mod Sharing
mod Workloads
mod Throughout
use pre_scaling_operator.Common.{
  ℤ, pos, negsuc, ◌+ℤ◌, ◌-ℤ◌, -ℤ_parts, neg, ltb_ℤ, eqb_ℤ, ◌<ℤ◌, Text, bytes, Map, true, false,
  List, [], ◌∷◌, ◌≡◌, ◌↔◌, refl, arith,
}
use pre_scaling_operator.Global.{ScalingInfo, State, no_item}
use pre_scaling_operator.Api.{ClusterScalingState, Config}
use pre_scaling_operator.ResourceMath.{Quantity}

difference_lt : (a b : ℤ) → (ltb_ℤ (a -ℤ b) (pos 0) ≡ true) ↔ (a <ℤ b)
difference_lt a b = ground (arith, -ℤ_parts a b)

difference_eq : (a b : ℤ) → (eqb_ℤ (a -ℤ b) (pos 0) ≡ true) ↔ (a ≡ b)
difference_eq a b = ground (arith, -ℤ_parts a b)

-- Quantities that are whole numbers.
abbrev whole : Quantity
whole = record {
  Q = ℤ;
  unset = pos 0;
  nil = pos 0;
  add = ◌+ℤ◌;
  sub = ◌-ℤ◌;
  negate = neg;
  cmp = ◌-ℤ◌;
  to_text = λ q. [];
  value = λ q. q;
  value-nil = refl;
  value-add = λ a b. refl;
  value-sub = λ a b. refl;
  value-negate = λ a. refl;
  cmp_lt = difference_lt;
  cmp_eq = difference_eq;
}

abbrev web : Text
web = bytes "web"

abbrev shop : Text
shop = bytes "shop"

-- A workload of two replicas that takes 3 of cpu, is opted in and wants 5 replicas in state "peak".
abbrev web_item : ScalingInfo ℤ
web_item = record no_item {
  name = web;
  namespace = shop;
  item_type_name = bytes "Deployment";
  annotations = (bytes "scaler/state-peak-replicas", bytes "5") ∷ [];
  labels = (bytes "scaler/opt-in", bytes "true") ∷ [];
  state = bytes "peak";
  spec_replica = pos 2;
  desired_replicas = negsuc 0;
  resource_list = (bytes "cpu", pos 3) ∷ [];
}

abbrev pub db_item : ScalingInfo ℤ
db_item = record web_item { name = bytes "db" }

-- The deny list with the one workload "db".
abbrev db_listed : List (ScalingInfo ℤ)
db_listed = db_item ∷ []

abbrev peak : State
peak = record { name = bytes "peak"; priority = pos 1 }

abbrev calm : State
calm = record { name = bytes "calm"; priority = pos 5 }

abbrev definitions : List State
definitions = calm ∷ (peak ∷ [])

-- A ClusterScalingState of the class "default" in the state "peak".
abbrev peak_css : ClusterScalingState
peak_css = record {
  spec = record { state = bytes "peak"; scaling_class = [] };
  config = record { dry_run = false };
}
