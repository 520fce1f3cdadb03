-- ===== src/Api/Memory/Cluster.antt =====
-- HypervisorCluster and its list in memory, with their deep copies.
use hyperfleet_controller.Base.{ℕ, refl}
use hyperfleet_controller.Api.Memory.{
  Pointer, Slice, Alloc, Copier, new_copy, copy_slice, slice, Kubernetes, TypeMeta,
}
use hyperfleet_controller.Api.Memory.Deep.{
  IsDeep, slice-IsDeep, pair-IsDeep, struct-IsDeep, IsKubernetes,
}
use hyperfleet_controller.Api.Memory.ClusterSpec.{
  StoredHypervisorClusterSpec, into_hypervisor_cluster_spec, hypervisor_cluster_spec,
  hypervisor_cluster_spec-IsDeep,
}
use hyperfleet_controller.Api.Memory.ClusterStatus.{
  StoredHypervisorClusterStatus, into_hypervisor_cluster_status, hypervisor_cluster_status,
  hypervisor_cluster_status-IsDeep,
}

module _ (K : Kubernetes) where
  pub record StoredHypervisorCluster : Type 0 where
    pub type_meta : TypeMeta
    pub object_meta : K.ObjectMeta
    pub spec : StoredHypervisorClusterSpec K
    pub status : StoredHypervisorClusterStatus K

  unfoldable pub into_hypervisor_cluster : StoredHypervisorCluster → Alloc StoredHypervisorCluster
  into_hypervisor_cluster x n =
      let (object_meta, n₁) = K.object_meta.into x.object_meta n in
      let (spec, n₂) = into_hypervisor_cluster_spec K x.spec n₁ in
      let (status, n₃) = into_hypervisor_cluster_status K x.status n₂ in
      (
        record x {
          type_meta = x.type_meta;
          object_meta = object_meta;
          spec = spec;
          status = status;
        },
        n₃,
      )

  unfoldable pub erase_hypervisor_cluster : StoredHypervisorCluster → StoredHypervisorCluster
  erase_hypervisor_cluster x = record x {
    object_meta = K.object_meta.erase x.object_meta;
    spec = (hypervisor_cluster_spec K).erase x.spec;
    status = (hypervisor_cluster_status K).erase x.status;
  }

  unfoldable pub HypervisorClusterRefs : (ℕ → Type 0) → StoredHypervisorCluster → Type 0
  HypervisorClusterRefs P x =
      K.object_meta.Refs P x.object_meta
      × ((hypervisor_cluster_spec K).Refs P x.spec
          × ((hypervisor_cluster_status K).Refs P x.status))

  abbrev pub hypervisor_cluster : Copier StoredHypervisorCluster
  hypervisor_cluster = record {
    into = into_hypervisor_cluster;
    erase = erase_hypervisor_cluster;
    Refs = HypervisorClusterRefs;
  }

  abbrev pub deep_copy_hypervisor_cluster :
      Pointer StoredHypervisorCluster → Alloc (Pointer StoredHypervisorCluster)
  deep_copy_hypervisor_cluster = new_copy hypervisor_cluster

  pub record StoredHypervisorClusterList : Type 0 where
    pub type_meta : TypeMeta
    pub list_meta : K.ListMeta
    pub items : Slice StoredHypervisorCluster

  unfoldable pub into_hypervisor_cluster_list :
      StoredHypervisorClusterList → Alloc StoredHypervisorClusterList
  into_hypervisor_cluster_list x n =
      let (list_meta, n₁) = K.list_meta.into x.list_meta n in
      let (items, n₂) = copy_slice hypervisor_cluster x.items n₁ in
      (record x { type_meta = x.type_meta; list_meta = list_meta; items = items }, n₂)

  unfoldable pub erase_hypervisor_cluster_list :
      StoredHypervisorClusterList → StoredHypervisorClusterList
  erase_hypervisor_cluster_list x = record x {
    list_meta = K.list_meta.erase x.list_meta;
    items = (slice hypervisor_cluster).erase x.items;
  }

  unfoldable pub HypervisorClusterListRefs : (ℕ → Type 0) → StoredHypervisorClusterList → Type 0
  HypervisorClusterListRefs P x =
      K.list_meta.Refs P x.list_meta × ((slice hypervisor_cluster).Refs P x.items)

  abbrev pub hypervisor_cluster_list : Copier StoredHypervisorClusterList
  hypervisor_cluster_list = record {
    into = into_hypervisor_cluster_list;
    erase = erase_hypervisor_cluster_list;
    Refs = HypervisorClusterListRefs;
  }

  abbrev pub deep_copy_hypervisor_cluster_list :
      Pointer StoredHypervisorClusterList → Alloc (Pointer StoredHypervisorClusterList)
  deep_copy_hypervisor_cluster_list = new_copy hypervisor_cluster_list

module _ (K : Kubernetes) (laws : IsKubernetes K) where
  pub hypervisor_cluster-IsDeep : IsDeep (hypervisor_cluster K)
  unfolding into_hypervisor_cluster erase_hypervisor_cluster HypervisorClusterRefs
  hypervisor_cluster-IsDeep =
      struct-IsDeep
        (pair-IsDeep laws.object_meta (
          pair-IsDeep (hypervisor_cluster_spec-IsDeep K laws)
            (hypervisor_cluster_status-IsDeep K laws)))
        (hypervisor_cluster K) (λ x. (x.object_meta, (x.spec, x.status)))
        (λ x a. record x { object_meta = a.0; spec = a.1.0; status = a.1.1 })
        (record {
          into = λ x n. refl;
          erase_set = λ x a. refl;
          erase = λ x. refl;
          refs_set = λ P x a h. h;
        })

  pub hypervisor_cluster_list-IsDeep : IsDeep (hypervisor_cluster_list K)
  unfolding into_hypervisor_cluster_list erase_hypervisor_cluster_list HypervisorClusterListRefs
  hypervisor_cluster_list-IsDeep =
      struct-IsDeep
        (pair-IsDeep laws.list_meta (slice-IsDeep (hypervisor_cluster K) hypervisor_cluster-IsDeep))
        (hypervisor_cluster_list K) (λ x. (x.list_meta, x.items))
        (λ x a. record x { list_meta = a.0; items = a.1 })
        (record {
          into = λ x n. refl;
          erase_set = λ x a. refl;
          erase = λ x. refl;
          refs_set = λ P x a h. h;
        })
