-- ===== src/Api/Memory/Template.antt =====
-- HypervisorMachineTemplate and its list in memory, with their deep copies.
use hyperfleet_controller.Base.{ℕ, refl}
use hyperfleet_controller.Api.Memory.{
  Pointer, Slice, Alloc, Copier, new_copy, copy_slice, slice, Kubernetes, TypeMeta,
}
use hyperfleet_controller.Api.Memory.Deep.{
  IsDeep, slice-IsDeep, pair-IsDeep, struct-IsDeep, IsKubernetes,
}
use hyperfleet_controller.Api.Memory.TemplateContent.{
  StoredHypervisorMachineTemplateSpec, into_hypervisor_machine_template_spec,
  hypervisor_machine_template_spec, hypervisor_machine_template_spec-IsDeep,
}
use hyperfleet_controller.Api.Memory.TemplateStatus.{
  StoredHypervisorMachineTemplateStatus, into_hypervisor_machine_template_status,
  hypervisor_machine_template_status, hypervisor_machine_template_status-IsDeep,
}

module _ (K : Kubernetes) where
  pub record StoredHypervisorMachineTemplate : Type 0 where
    pub type_meta : TypeMeta
    pub object_meta : K.ObjectMeta
    pub spec : StoredHypervisorMachineTemplateSpec
    pub status : StoredHypervisorMachineTemplateStatus K

  unfoldable pub into_hypervisor_machine_template :
      StoredHypervisorMachineTemplate → Alloc StoredHypervisorMachineTemplate
  into_hypervisor_machine_template x n =
      let (object_meta, n₁) = K.object_meta.into x.object_meta n in
      let (spec, n₂) = into_hypervisor_machine_template_spec x.spec n₁ in
      let (status, n₃) = into_hypervisor_machine_template_status K x.status n₂ in
      (
        record x {
          type_meta = x.type_meta;
          object_meta = object_meta;
          spec = spec;
          status = status;
        },
        n₃,
      )

  unfoldable pub erase_hypervisor_machine_template :
      StoredHypervisorMachineTemplate → StoredHypervisorMachineTemplate
  erase_hypervisor_machine_template x = record x {
    object_meta = K.object_meta.erase x.object_meta;
    spec = hypervisor_machine_template_spec.erase x.spec;
    status = (hypervisor_machine_template_status K).erase x.status;
  }

  unfoldable pub HypervisorMachineTemplateRefs :
      (ℕ → Type 0) → StoredHypervisorMachineTemplate → Type 0
  HypervisorMachineTemplateRefs P x =
      K.object_meta.Refs P x.object_meta
      × (hypervisor_machine_template_spec.Refs P x.spec
          × ((hypervisor_machine_template_status K).Refs P x.status))

  abbrev pub hypervisor_machine_template : Copier StoredHypervisorMachineTemplate
  hypervisor_machine_template = record {
    into = into_hypervisor_machine_template;
    erase = erase_hypervisor_machine_template;
    Refs = HypervisorMachineTemplateRefs;
  }

  abbrev pub deep_copy_hypervisor_machine_template :
      Pointer StoredHypervisorMachineTemplate → Alloc (Pointer StoredHypervisorMachineTemplate)
  deep_copy_hypervisor_machine_template = new_copy hypervisor_machine_template

  pub record StoredHypervisorMachineTemplateList : Type 0 where
    pub type_meta : TypeMeta
    pub list_meta : K.ListMeta
    pub items : Slice StoredHypervisorMachineTemplate

  unfoldable pub into_hypervisor_machine_template_list :
      StoredHypervisorMachineTemplateList → Alloc StoredHypervisorMachineTemplateList
  into_hypervisor_machine_template_list x n =
      let (list_meta, n₁) = K.list_meta.into x.list_meta n in
      let (items, n₂) = copy_slice hypervisor_machine_template x.items n₁ in
      (record x { type_meta = x.type_meta; list_meta = list_meta; items = items }, n₂)

  unfoldable pub erase_hypervisor_machine_template_list :
      StoredHypervisorMachineTemplateList → StoredHypervisorMachineTemplateList
  erase_hypervisor_machine_template_list x = record x {
    list_meta = K.list_meta.erase x.list_meta;
    items = (slice hypervisor_machine_template).erase x.items;
  }

  unfoldable pub HypervisorMachineTemplateListRefs :
      (ℕ → Type 0) → StoredHypervisorMachineTemplateList → Type 0
  HypervisorMachineTemplateListRefs P x =
      K.list_meta.Refs P x.list_meta × ((slice hypervisor_machine_template).Refs P x.items)

  abbrev pub hypervisor_machine_template_list : Copier StoredHypervisorMachineTemplateList
  hypervisor_machine_template_list = record {
    into = into_hypervisor_machine_template_list;
    erase = erase_hypervisor_machine_template_list;
    Refs = HypervisorMachineTemplateListRefs;
  }

  abbrev pub deep_copy_hypervisor_machine_template_list :
      Pointer StoredHypervisorMachineTemplateList
      → Alloc (Pointer StoredHypervisorMachineTemplateList)
  deep_copy_hypervisor_machine_template_list = new_copy hypervisor_machine_template_list

module _ (K : Kubernetes) (laws : IsKubernetes K) where
  pub hypervisor_machine_template-IsDeep : IsDeep (hypervisor_machine_template K)
  unfolding into_hypervisor_machine_template erase_hypervisor_machine_template
      HypervisorMachineTemplateRefs
  hypervisor_machine_template-IsDeep =
      struct-IsDeep
        (pair-IsDeep laws.object_meta (
          pair-IsDeep hypervisor_machine_template_spec-IsDeep
            (hypervisor_machine_template_status-IsDeep K laws)))
        (hypervisor_machine_template K) (λ x. (x.object_meta, (x.spec, x.status)))
        (λ x a. record x { object_meta = a.0; spec = a.1.0; status = a.1.1 })
        (record {
          into = λ x n. refl;
          erase_set = λ x a. refl;
          erase = λ x. refl;
          refs_set = λ P x a h. h;
        })

  pub hypervisor_machine_template_list-IsDeep : IsDeep (hypervisor_machine_template_list K)
  unfolding into_hypervisor_machine_template_list erase_hypervisor_machine_template_list
      HypervisorMachineTemplateListRefs
  hypervisor_machine_template_list-IsDeep =
      struct-IsDeep
        (pair-IsDeep laws.list_meta
          (slice-IsDeep (hypervisor_machine_template K) hypervisor_machine_template-IsDeep))
        (hypervisor_machine_template_list K) (λ x. (x.list_meta, x.items))
        (λ x a. record x { list_meta = a.0; items = a.1 })
        (record {
          into = λ x n. refl;
          erase_set = λ x a. refl;
          erase = λ x. refl;
          refs_set = λ P x a h. h;
        })
