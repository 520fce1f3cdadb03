-- ===== src/Api/Claims.antt =====
-- The scaffolded MachineClaim and RunnerPool (api/v1alpha1/machineclaim_types.go and
-- api/v1alpha1/runnerpool_types.go).
use hyperfleet_controller.Base.{Text}
use hyperfleet_controller.Api.Meta.{ObjectMeta}

pub record MachineClaimSpec : Type 0 where
  pub foo : Text

-- An empty struct.
pub record MachineClaimStatus : Type 0 where

pub record MachineClaim : Type 0 where
  pub meta : ObjectMeta
  pub spec : MachineClaimSpec

pub record RunnerPoolSpec : Type 0 where
  pub foo : Text

pub record RunnerPoolStatus : Type 0 where

pub record RunnerPool : Type 0 where
  pub meta : ObjectMeta
  pub spec : RunnerPoolSpec
