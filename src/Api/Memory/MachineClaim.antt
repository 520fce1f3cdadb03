-- ===== src/Api/Memory/MachineClaim.antt =====
-- MachineClaim and its list in memory, with their deep copies.
use hyperfleet_controller.Base.{ℕ, refl}
use hyperfleet_controller.Api.Claims.{MachineClaimSpec, MachineClaimStatus}
use hyperfleet_controller.Api.Memory.{
  Pointer, Slice, Alloc, Copier, new_copy, copy_slice, slice, Kubernetes, TypeMeta,
}
use hyperfleet_controller.Api.Memory.Deep.{
  IsDeep, slice-IsDeep, pair-IsDeep, struct-IsDeep, IsKubernetes,
}

module _ (K : Kubernetes) where
  pub record StoredMachineClaim : Type 0 where
    pub type_meta : TypeMeta
    pub object_meta : K.ObjectMeta
    pub spec : MachineClaimSpec
    pub status : MachineClaimStatus

  unfoldable pub into_machine_claim : StoredMachineClaim → Alloc StoredMachineClaim
  into_machine_claim x n =
      let (object_meta, n₁) = K.object_meta.into x.object_meta n in
      (
        record x {
          type_meta = x.type_meta;
          object_meta = object_meta;
          spec = x.spec;
          status = x.status;
        },
        n₁,
      )

  unfoldable pub erase_machine_claim : StoredMachineClaim → StoredMachineClaim
  erase_machine_claim x = record x { object_meta = K.object_meta.erase x.object_meta }

  unfoldable pub MachineClaimRefs : (ℕ → Type 0) → StoredMachineClaim → Type 0
  MachineClaimRefs P x = K.object_meta.Refs P x.object_meta

  abbrev pub machine_claim : Copier StoredMachineClaim
  machine_claim = record {
    into = into_machine_claim;
    erase = erase_machine_claim;
    Refs = MachineClaimRefs;
  }

  abbrev pub deep_copy_machine_claim :
      Pointer StoredMachineClaim → Alloc (Pointer StoredMachineClaim)
  deep_copy_machine_claim = new_copy machine_claim

  pub record StoredMachineClaimList : Type 0 where
    pub type_meta : TypeMeta
    pub list_meta : K.ListMeta
    pub items : Slice StoredMachineClaim

  unfoldable pub into_machine_claim_list : StoredMachineClaimList → Alloc StoredMachineClaimList
  into_machine_claim_list x n =
      let (list_meta, n₁) = K.list_meta.into x.list_meta n in
      let (items, n₂) = copy_slice machine_claim x.items n₁ in
      (record x { type_meta = x.type_meta; list_meta = list_meta; items = items }, n₂)

  unfoldable pub erase_machine_claim_list : StoredMachineClaimList → StoredMachineClaimList
  erase_machine_claim_list x = record x {
    list_meta = K.list_meta.erase x.list_meta;
    items = (slice machine_claim).erase x.items;
  }

  unfoldable pub MachineClaimListRefs : (ℕ → Type 0) → StoredMachineClaimList → Type 0
  MachineClaimListRefs P x = K.list_meta.Refs P x.list_meta × ((slice machine_claim).Refs P x.items)

  abbrev pub machine_claim_list : Copier StoredMachineClaimList
  machine_claim_list = record {
    into = into_machine_claim_list;
    erase = erase_machine_claim_list;
    Refs = MachineClaimListRefs;
  }

  abbrev pub deep_copy_machine_claim_list :
      Pointer StoredMachineClaimList → Alloc (Pointer StoredMachineClaimList)
  deep_copy_machine_claim_list = new_copy machine_claim_list

module _ (K : Kubernetes) (laws : IsKubernetes K) where
  pub machine_claim-IsDeep : IsDeep (machine_claim K)
  unfolding into_machine_claim erase_machine_claim MachineClaimRefs
  machine_claim-IsDeep =
      struct-IsDeep laws.object_meta (machine_claim K) (λ x. x.object_meta)
        (λ x a. record x { object_meta = a })
        (record {
          into = λ x n. refl;
          erase_set = λ x a. refl;
          erase = λ x. refl;
          refs_set = λ P x a h. h;
        })

  pub machine_claim_list-IsDeep : IsDeep (machine_claim_list K)
  unfolding into_machine_claim_list erase_machine_claim_list MachineClaimListRefs
  machine_claim_list-IsDeep =
      struct-IsDeep
        (pair-IsDeep laws.list_meta (slice-IsDeep (machine_claim K) machine_claim-IsDeep))
        (machine_claim_list K) (λ x. (x.list_meta, x.items))
        (λ x a. record x { list_meta = a.0; items = a.1 })
        (record {
          into = λ x n. refl;
          erase_set = λ x a. refl;
          erase = λ x. refl;
          refs_set = λ P x a h. h;
        })
