-- ===== src/Global.antt =====
-- pkg/utils/global: the description of a workload that the operator scales, and the lists of them.
pub mod Denylist
pub mod Registry
pub mod Removal
pub mod Race
pub mod Convert
pub mod Variables
pub mod Uses
use pre_scaling_operator.Common.{ℤ, pos, Text, ◌==◌, Map, Bool, false, [], ◌&&◌}

pub record State : Type 0 where
  pub name : Text
  pub priority : ℤ  -- int32

-- `Q` is the type of a quantity of a resource (cpu, memory).
pub record ScalingInfo (Q : Type 0) : Type 0 where
  pub namespace : Text
  pub name : Text
  pub annotations : Map Text
  pub labels : Map Text
  pub item_type_name : Text  -- ScalingItemType.ItemTypeName
  pub is_being_scaled : Bool
  pub failure : Bool
  pub failure_message : Text
  pub spec_replica : ℤ  -- int32, as are the next two
  pub ready_replicas : ℤ
  pub desired_replicas : ℤ
  pub state : Text
  pub cluster_class_state : State
  pub scaling_class : Text
  pub progress_deadline : ℤ  -- int32
  pub resource_list : Map Q
  pub condition_reason : Text

-- State{}
abbrev pub no_state : State
no_state = record { name = []; priority = pos 0 }

-- ScalingInfo{}
abbrev pub no_item : {Q : Type 0} → ScalingInfo Q
no_item = record {
  namespace = [];
  name = [];
  annotations = [];
  labels = [];
  item_type_name = [];
  is_being_scaled = false;
  failure = false;
  failure_message = [];
  spec_replica = pos 0;
  ready_replicas = pos 0;
  desired_replicas = pos 0;
  state = [];
  cluster_class_state = no_state;
  scaling_class = [];
  progress_deadline = pos 0;
  resource_list = [];
  condition_reason = [];
}

-- item.Name == inList.Value.Name && item.Namespace == inList.Value.Namespace
abbrev pub same_key : {Q : Type 0} → ScalingInfo Q → ScalingInfo Q → Bool
same_key item value = item.name == value.name && item.namespace == value.namespace
