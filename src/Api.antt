-- ===== src/Api.antt =====
-- api/v1alpha1: the custom resources of the operator.
pub mod Copies
use pre_scaling_operator.Common.{ℤ, Text, Bool, List}

-- States: one state of a definition.
pub record StateDefinition : Type 0 where
  pub name : Text
  pub description : Text
  pub priority : ℤ  -- int32

pub record Config : Type 0 where
  pub dry_run : Bool

pub record ClusterScalingStateDefinition : Type 0 where
  pub spec : List StateDefinition
  pub config : Config

pub record ClusterScalingStateSpec : Type 0 where
  pub state : Text
  pub scaling_class : Text

pub record ClusterScalingState : Type 0 where
  pub spec : ClusterScalingStateSpec
  pub config : Config

pub record ScalingStateSpec : Type 0 where
  pub state : Text

pub record ScalingState : Type 0 where
  pub spec : ScalingStateSpec
  pub config : Config
