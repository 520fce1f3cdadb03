-- ===== src/Api/Memory/ClusterStatus.antt =====
-- The status of a cluster in memory, with its deep copy.
use hyperfleet_controller.Base.{ℕ, ℤ, refl}
use hyperfleet_controller.Api.Memory.{
  Pointer, Slice, Alloc, Copier, new_copy, copy_slice, pointer, slice, Kubernetes,
}
use hyperfleet_controller.Api.Memory.Deep.{
  IsDeep, pointer-IsDeep, slice-IsDeep, pair-IsDeep, struct-IsDeep, IsKubernetes,
}

module _ (K : Kubernetes) where
  pub record StoredResourceSummary : Type 0 where
    pub cpu : Pointer K.Quantity
    pub memory : Pointer K.Quantity
    pub storage : Pointer K.Quantity

  unfoldable pub into_resource_summary : StoredResourceSummary → Alloc StoredResourceSummary
  into_resource_summary x n =
      let (cpu, n₁) = new_copy K.quantity x.cpu n in
      let (memory, n₂) = new_copy K.quantity x.memory n₁ in
      let (storage, n₃) = new_copy K.quantity x.storage n₂ in
      (record x { cpu = cpu; memory = memory; storage = storage }, n₃)

  unfoldable pub erase_resource_summary : StoredResourceSummary → StoredResourceSummary
  erase_resource_summary x = record x {
    cpu = (pointer K.quantity).erase x.cpu;
    memory = (pointer K.quantity).erase x.memory;
    storage = (pointer K.quantity).erase x.storage;
  }

  unfoldable pub ResourceSummaryRefs : (ℕ → Type 0) → StoredResourceSummary → Type 0
  ResourceSummaryRefs P x =
      (pointer K.quantity).Refs P x.cpu
      × ((pointer K.quantity).Refs P x.memory × ((pointer K.quantity).Refs P x.storage))

  abbrev pub resource_summary : Copier StoredResourceSummary
  resource_summary = record {
    into = into_resource_summary;
    erase = erase_resource_summary;
    Refs = ResourceSummaryRefs;
  }

  abbrev pub deep_copy_resource_summary :
      Pointer StoredResourceSummary → Alloc (Pointer StoredResourceSummary)
  deep_copy_resource_summary = new_copy resource_summary

  pub record StoredHypervisorClusterStatus : Type 0 where
    pub conditions : Slice K.Condition
    pub connected_nodes : ℤ
    pub available_resources : Pointer StoredResourceSummary
    pub last_sync_time : Pointer K.Time

  unfoldable pub into_hypervisor_cluster_status :
      StoredHypervisorClusterStatus → Alloc StoredHypervisorClusterStatus
  into_hypervisor_cluster_status x n =
      let (conditions, n₁) = copy_slice K.condition x.conditions n in
      let (available_resources, n₂) = new_copy resource_summary x.available_resources n₁ in
      let (last_sync_time, n₃) = new_copy K.time x.last_sync_time n₂ in
      (
        record x {
          conditions = conditions;
          available_resources = available_resources;
          last_sync_time = last_sync_time;
        },
        n₃,
      )

  unfoldable pub erase_hypervisor_cluster_status :
      StoredHypervisorClusterStatus → StoredHypervisorClusterStatus
  erase_hypervisor_cluster_status x = record x {
    conditions = (slice K.condition).erase x.conditions;
    available_resources = (pointer resource_summary).erase x.available_resources;
    last_sync_time = (pointer K.time).erase x.last_sync_time;
  }

  unfoldable pub HypervisorClusterStatusRefs : (ℕ → Type 0) → StoredHypervisorClusterStatus → Type 0
  HypervisorClusterStatusRefs P x =
      (slice K.condition).Refs P x.conditions
      × ((pointer resource_summary).Refs P x.available_resources
          × ((pointer K.time).Refs P x.last_sync_time))

  abbrev pub hypervisor_cluster_status : Copier StoredHypervisorClusterStatus
  hypervisor_cluster_status = record {
    into = into_hypervisor_cluster_status;
    erase = erase_hypervisor_cluster_status;
    Refs = HypervisorClusterStatusRefs;
  }

  abbrev pub deep_copy_hypervisor_cluster_status :
      Pointer StoredHypervisorClusterStatus → Alloc (Pointer StoredHypervisorClusterStatus)
  deep_copy_hypervisor_cluster_status = new_copy hypervisor_cluster_status

module _ (K : Kubernetes) (laws : IsKubernetes K) where
  pub resource_summary-IsDeep : IsDeep (resource_summary K)
  unfolding into_resource_summary erase_resource_summary ResourceSummaryRefs
  resource_summary-IsDeep =
      struct-IsDeep
        (pair-IsDeep (pointer-IsDeep K.quantity laws.quantity) (
          pair-IsDeep (pointer-IsDeep K.quantity laws.quantity)
            (pointer-IsDeep K.quantity laws.quantity)))
        (resource_summary K) (λ x. (x.cpu, (x.memory, x.storage)))
        (λ x a. record x { cpu = a.0; memory = a.1.0; storage = a.1.1 })
        (record {
          into = λ x n. refl;
          erase_set = λ x a. refl;
          erase = λ x. refl;
          refs_set = λ P x a h. h;
        })

  pub hypervisor_cluster_status-IsDeep : IsDeep (hypervisor_cluster_status K)
  unfolding into_hypervisor_cluster_status erase_hypervisor_cluster_status
      HypervisorClusterStatusRefs
  hypervisor_cluster_status-IsDeep =
      struct-IsDeep
        (pair-IsDeep (slice-IsDeep K.condition laws.condition) (
          pair-IsDeep (pointer-IsDeep (resource_summary K) resource_summary-IsDeep)
            (pointer-IsDeep K.time laws.time)))
        (hypervisor_cluster_status K)
        (λ x. (x.conditions, (x.available_resources, x.last_sync_time)))
        (λ x a. record x { conditions = a.0; available_resources = a.1.0; last_sync_time = a.1.1 })
        (record {
          into = λ x n. refl;
          erase_set = λ x a. refl;
          erase = λ x. refl;
          refs_set = λ P x a h. h;
        })
