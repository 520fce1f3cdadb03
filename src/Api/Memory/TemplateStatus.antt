-- ===== src/Api/Memory/TemplateStatus.antt =====
-- HypervisorMachineTemplateStatus in memory, with its deep copy.
use hyperfleet_controller.Base.{ℕ, Bool, Text, refl}
use hyperfleet_controller.Api.Memory.{
  Pointer, Slice, Alloc, Copier, new_copy, copy_slice, pointer, slice, Kubernetes,
}
use hyperfleet_controller.Api.Memory.Deep.{
  IsDeep, pointer-IsDeep, slice-IsDeep, pair-IsDeep, struct-IsDeep, IsKubernetes,
}

module _ (K : Kubernetes) where
  pub record StoredHypervisorMachineTemplateStatus : Type 0 where
    pub conditions : Slice K.Condition
    pub template_available : Bool
    pub validation_status : Text
    pub last_validated : Pointer K.Time

  unfoldable pub into_hypervisor_machine_template_status :
      StoredHypervisorMachineTemplateStatus → Alloc StoredHypervisorMachineTemplateStatus
  into_hypervisor_machine_template_status x n =
      let (conditions, n₁) = copy_slice K.condition x.conditions n in
      let (last_validated, n₂) = new_copy K.time x.last_validated n₁ in
      (record x { conditions = conditions; last_validated = last_validated }, n₂)

  unfoldable pub erase_hypervisor_machine_template_status :
      StoredHypervisorMachineTemplateStatus → StoredHypervisorMachineTemplateStatus
  erase_hypervisor_machine_template_status x = record x {
    conditions = (slice K.condition).erase x.conditions;
    last_validated = (pointer K.time).erase x.last_validated;
  }

  unfoldable pub HypervisorMachineTemplateStatusRefs :
      (ℕ → Type 0) → StoredHypervisorMachineTemplateStatus → Type 0
  HypervisorMachineTemplateStatusRefs P x =
      (slice K.condition).Refs P x.conditions × ((pointer K.time).Refs P x.last_validated)

  abbrev pub hypervisor_machine_template_status : Copier StoredHypervisorMachineTemplateStatus
  hypervisor_machine_template_status = record {
    into = into_hypervisor_machine_template_status;
    erase = erase_hypervisor_machine_template_status;
    Refs = HypervisorMachineTemplateStatusRefs;
  }

  abbrev pub deep_copy_hypervisor_machine_template_status :
      Pointer StoredHypervisorMachineTemplateStatus
      → Alloc (Pointer StoredHypervisorMachineTemplateStatus)
  deep_copy_hypervisor_machine_template_status = new_copy hypervisor_machine_template_status

module _ (K : Kubernetes) (laws : IsKubernetes K) where
  pub hypervisor_machine_template_status-IsDeep : IsDeep (hypervisor_machine_template_status K)
  unfolding into_hypervisor_machine_template_status erase_hypervisor_machine_template_status
      HypervisorMachineTemplateStatusRefs
  hypervisor_machine_template_status-IsDeep =
      struct-IsDeep
        (pair-IsDeep (slice-IsDeep K.condition laws.condition) (pointer-IsDeep K.time laws.time))
        (hypervisor_machine_template_status K) (λ x. (x.conditions, x.last_validated))
        (λ x a. record x { conditions = a.0; last_validated = a.1 })
        (record {
          into = λ x n. refl;
          erase_set = λ x a. refl;
          erase = λ x. refl;
          refs_set = λ P x a h. h;
        })
