-- ===== src/Controller/Setup.antt =====
-- SetupWithManager of the four reconcilers (internal/controller).
use hyperfleet_controller.Base.{Text, text}
use hyperfleet_controller.Api.Scheme.{
  ResourceType, hypervisor_cluster_type, hypervisor_cluster_list_type,
  hypervisor_machine_template_type, hypervisor_machine_template_list_type, machine_claim_type,
  machine_claim_list_type, runner_pool_type, runner_pool_list_type,
}

-- What a reconciler gives to the builder of controllers: For, Named.
pub record ControllerSpec : Type 0 where
  pub for : ResourceType
  pub named : Text

abbrev pub hypervisor_cluster_controller : ControllerSpec
hypervisor_cluster_controller = record {
  for = hypervisor_cluster_type;
  named = text "hypervisorcluster";
}

abbrev pub hypervisor_machine_template_controller : ControllerSpec
hypervisor_machine_template_controller = record {
  for = hypervisor_machine_template_type;
  named = text "hypervisormachinetemplate";
}

abbrev pub machine_claim_controller : ControllerSpec
machine_claim_controller = record { for = machine_claim_type; named = text "machineclaim" }

abbrev pub runner_pool_controller : ControllerSpec
runner_pool_controller = record { for = runner_pool_type; named = text "runnerpool" }

-- The controllers of the program.
pub data IsController : ControllerSpec → Type 0 where
  of_hypervisor_cluster : IsController hypervisor_cluster_controller
  of_hypervisor_machine_template : IsController hypervisor_machine_template_controller
  of_machine_claim : IsController machine_claim_controller
  of_runner_pool : IsController runner_pool_controller

-- The type of the lists of the objects that a controller watches.
abbrev pub list_type : {c : ControllerSpec} → IsController c → ResourceType
list_type of_hypervisor_cluster = hypervisor_cluster_list_type
list_type of_hypervisor_machine_template = hypervisor_machine_template_list_type
list_type of_machine_claim = machine_claim_list_type
list_type of_runner_pool = runner_pool_list_type
