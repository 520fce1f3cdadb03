-- ===== src/Api/Memory/Objects.antt =====
-- The resources as runtime.Object, and DeepCopyObject.
use hyperfleet_controller.Base.{ℕ, suc, Option, none, some, ◌≡◌, refl, ap, arith}
use hyperfleet_controller.Api.Memory.{Ref, Pointer, Alloc, Kubernetes, Copier, new_copy, erase_ref}
use hyperfleet_controller.Api.Memory.Deep.{Between, IsDeep, IsKubernetes}
use hyperfleet_controller.Api.Memory.Cluster.{
  StoredHypervisorCluster, hypervisor_cluster, hypervisor_cluster-IsDeep,
  deep_copy_hypervisor_cluster, StoredHypervisorClusterList, hypervisor_cluster_list,
  hypervisor_cluster_list-IsDeep, deep_copy_hypervisor_cluster_list,
}
use hyperfleet_controller.Api.Memory.Template.{
  StoredHypervisorMachineTemplate, hypervisor_machine_template, hypervisor_machine_template-IsDeep,
  deep_copy_hypervisor_machine_template, StoredHypervisorMachineTemplateList,
  hypervisor_machine_template_list, hypervisor_machine_template_list-IsDeep,
  deep_copy_hypervisor_machine_template_list,
}
use hyperfleet_controller.Api.Memory.MachineClaim.{
  StoredMachineClaim, machine_claim, machine_claim-IsDeep, deep_copy_machine_claim,
  StoredMachineClaimList, machine_claim_list, machine_claim_list-IsDeep,
  deep_copy_machine_claim_list,
}
use hyperfleet_controller.Api.Memory.RunnerPool.{
  StoredRunnerPool, runner_pool, runner_pool-IsDeep, deep_copy_runner_pool, StoredRunnerPoolList,
  runner_pool_list, runner_pool_list-IsDeep, deep_copy_runner_pool_list,
}

module _ (K : Kubernetes) where
  -- The pointer types that implement runtime.Object.
  pub data RuntimeObject : Type 0 where
    hypervisor_cluster_object : Ref (StoredHypervisorCluster K) → RuntimeObject
    hypervisor_cluster_list_object : Ref (StoredHypervisorClusterList K) → RuntimeObject
    hypervisor_machine_template_object : Ref (StoredHypervisorMachineTemplate K) → RuntimeObject
    hypervisor_machine_template_list_object :
        Ref (StoredHypervisorMachineTemplateList K) → RuntimeObject
    machine_claim_object : Ref (StoredMachineClaim K) → RuntimeObject
    machine_claim_list_object : Ref (StoredMachineClaimList K) → RuntimeObject
    runner_pool_object : Ref (StoredRunnerPool K) → RuntimeObject
    runner_pool_list_object : Ref (StoredRunnerPoolList K) → RuntimeObject

  -- A nil pointer becomes a nil interface.
  unfoldable pub as_object :
      {A : Type 0} → (Ref A → RuntimeObject) → Pointer A → Option RuntimeObject
  as_object make none = none
  as_object make (some r) = some (make r)

  abbrev pub copy_object_hypervisor_cluster :
      Pointer (StoredHypervisorCluster K) → Alloc (Option RuntimeObject)
  copy_object_hypervisor_cluster x n =
      let (c, n') = deep_copy_hypervisor_cluster K x n in
      (as_object hypervisor_cluster_object c, n')

  abbrev pub copy_object_hypervisor_cluster_list :
      Pointer (StoredHypervisorClusterList K) → Alloc (Option RuntimeObject)
  copy_object_hypervisor_cluster_list x n =
      let (c, n') = deep_copy_hypervisor_cluster_list K x n in
      (as_object hypervisor_cluster_list_object c, n')

  abbrev pub copy_object_hypervisor_machine_template :
      Pointer (StoredHypervisorMachineTemplate K) → Alloc (Option RuntimeObject)
  copy_object_hypervisor_machine_template x n =
      let (c, n') = deep_copy_hypervisor_machine_template K x n in
      (as_object hypervisor_machine_template_object c, n')

  abbrev pub copy_object_hypervisor_machine_template_list :
      Pointer (StoredHypervisorMachineTemplateList K) → Alloc (Option RuntimeObject)
  copy_object_hypervisor_machine_template_list x n =
      let (c, n') = deep_copy_hypervisor_machine_template_list K x n in
      (as_object hypervisor_machine_template_list_object c, n')

  abbrev pub copy_object_machine_claim :
      Pointer (StoredMachineClaim K) → Alloc (Option RuntimeObject)
  copy_object_machine_claim x n =
      let (c, n') = deep_copy_machine_claim K x n in (as_object machine_claim_object c, n')

  abbrev pub copy_object_machine_claim_list :
      Pointer (StoredMachineClaimList K) → Alloc (Option RuntimeObject)
  copy_object_machine_claim_list x n =
      let (c, n') = deep_copy_machine_claim_list K x n in
      (as_object machine_claim_list_object c, n')

  abbrev pub copy_object_runner_pool : Pointer (StoredRunnerPool K) → Alloc (Option RuntimeObject)
  copy_object_runner_pool x n =
      let (c, n') = deep_copy_runner_pool K x n in (as_object runner_pool_object c, n')

  abbrev pub copy_object_runner_pool_list :
      Pointer (StoredRunnerPoolList K) → Alloc (Option RuntimeObject)
  copy_object_runner_pool_list x n =
      let (c, n') = deep_copy_runner_pool_list K x n in (as_object runner_pool_list_object c, n')

  -- DeepCopyObject of the interface: the method of the type that it holds.
  unfoldable pub copy_object : RuntimeObject → Alloc (Option RuntimeObject)
  copy_object (hypervisor_cluster_object r) n = copy_object_hypervisor_cluster (some r) n
  copy_object (hypervisor_cluster_list_object r) n = copy_object_hypervisor_cluster_list (some r) n
  copy_object (hypervisor_machine_template_object r) n =
      copy_object_hypervisor_machine_template (some r) n
  copy_object (hypervisor_machine_template_list_object r) n =
      copy_object_hypervisor_machine_template_list (some r) n
  copy_object (machine_claim_object r) n = copy_object_machine_claim (some r) n
  copy_object (machine_claim_list_object r) n = copy_object_machine_claim_list (some r) n
  copy_object (runner_pool_object r) n = copy_object_runner_pool (some r) n
  copy_object (runner_pool_list_object r) n = copy_object_runner_pool_list (some r) n

  unfoldable pub erase_object : RuntimeObject → RuntimeObject
  erase_object (hypervisor_cluster_object r) =
      hypervisor_cluster_object (erase_ref (hypervisor_cluster K) r)
  erase_object (hypervisor_cluster_list_object r) =
      hypervisor_cluster_list_object (erase_ref (hypervisor_cluster_list K) r)
  erase_object (hypervisor_machine_template_object r) =
      hypervisor_machine_template_object (erase_ref (hypervisor_machine_template K) r)
  erase_object (hypervisor_machine_template_list_object r) =
      hypervisor_machine_template_list_object (erase_ref (hypervisor_machine_template_list K) r)
  erase_object (machine_claim_object r) = machine_claim_object (erase_ref (machine_claim K) r)
  erase_object (machine_claim_list_object r) =
      machine_claim_list_object (erase_ref (machine_claim_list K) r)
  erase_object (runner_pool_object r) = runner_pool_object (erase_ref (runner_pool K) r)
  erase_object (runner_pool_list_object r) =
      runner_pool_list_object (erase_ref (runner_pool_list K) r)

  -- All addresses in an object have the property.
  unfoldable pub ObjectRefs : (ℕ → Type 0) → RuntimeObject → Type 0
  ObjectRefs P (hypervisor_cluster_object r) = P r.address × (hypervisor_cluster K).Refs P r.value
  ObjectRefs P (hypervisor_cluster_list_object r) =
      P r.address × (hypervisor_cluster_list K).Refs P r.value
  ObjectRefs P (hypervisor_machine_template_object r) =
      P r.address × (hypervisor_machine_template K).Refs P r.value
  ObjectRefs P (hypervisor_machine_template_list_object r) =
      P r.address × (hypervisor_machine_template_list K).Refs P r.value
  ObjectRefs P (machine_claim_object r) = P r.address × (machine_claim K).Refs P r.value
  ObjectRefs P (machine_claim_list_object r) = P r.address × (machine_claim_list K).Refs P r.value
  ObjectRefs P (runner_pool_object r) = P r.address × (runner_pool K).Refs P r.value
  ObjectRefs P (runner_pool_list_object r) = P r.address × (runner_pool_list K).Refs P r.value

module _ (K : Kubernetes) (laws : IsKubernetes K) where
  -- What the copy of a pointer that is not nil is.
  as_copy :
      {A : Type 0} (c : Copier A) (deep : IsDeep c) (make : Ref A → RuntimeObject K) (r : Ref A)
      (n : ℕ)
      → let copied : Ref A = record { address = n; value = (c.into r.value (suc n)).0 } in
        ((as_object K make (new_copy c (some r) n).0 ≡ some (make copied))
          × (erase_ref c copied ≡ erase_ref c r)
          × (Between n (new_copy c (some r) n).1 copied.address
              × c.Refs (Between n (new_copy c (some r) n).1) copied.value))
  unfolding as_object new_copy erase_ref
  as_copy c deep make r n =
      let top = (c.into r.value (suc n)).1 in
      let grows = deep.grows r.value (suc n) in
      (
        refl,
        rw (deep.same r.value (suc n)) refl,
        ((omega arith, omega arith), deep.fresh n top r.value (suc n) (omega arith) (omega arith)),
      )

  -- Where the deep copies of the Kubernetes types are deep: DeepCopyObject of each of the eight
  -- resource types returns an object that differs from the original in its addresses only, and
  -- every address in it, of a pointer, a slice or a map at any depth, was allocated by the copy.
  pub copy_object-fresh :
      (o : RuntimeObject K) (n : ℕ)
      → (c : RuntimeObject K) × ((copy_object K o n).0 ≡ some c)
        × (erase_object K c ≡ erase_object K o)
        × ObjectRefs K (Between n (copy_object K o n).1) c
  unfolding copy_object erase_object ObjectRefs
  copy_object-fresh (hypervisor_cluster_object r) n =
      let (made, same, refs) =
        as_copy (hypervisor_cluster K) (hypervisor_cluster-IsDeep K laws) hypervisor_cluster_object
          r n in
      (_, made, ap hypervisor_cluster_object same, refs)
  copy_object-fresh (hypervisor_cluster_list_object r) n =
      let (made, same, refs) =
        as_copy (hypervisor_cluster_list K) (hypervisor_cluster_list-IsDeep K laws)
          hypervisor_cluster_list_object r n in
      (_, made, ap hypervisor_cluster_list_object same, refs)
  copy_object-fresh (hypervisor_machine_template_object r) n =
      let (made, same, refs) =
        as_copy (hypervisor_machine_template K) (hypervisor_machine_template-IsDeep K laws)
          hypervisor_machine_template_object r n in
      (_, made, ap hypervisor_machine_template_object same, refs)
  copy_object-fresh (hypervisor_machine_template_list_object r) n =
      let (made, same, refs) =
        as_copy (hypervisor_machine_template_list K)
          (hypervisor_machine_template_list-IsDeep K laws) hypervisor_machine_template_list_object r
          n in
      (_, made, ap hypervisor_machine_template_list_object same, refs)
  copy_object-fresh (machine_claim_object r) n =
      let (made, same, refs) =
        as_copy (machine_claim K) (machine_claim-IsDeep K laws) machine_claim_object r n in
      (_, made, ap machine_claim_object same, refs)
  copy_object-fresh (machine_claim_list_object r) n =
      let (made, same, refs) =
        as_copy (machine_claim_list K) (machine_claim_list-IsDeep K laws) machine_claim_list_object
          r n in
      (_, made, ap machine_claim_list_object same, refs)
  copy_object-fresh (runner_pool_object r) n =
      let (made, same, refs) =
        as_copy (runner_pool K) (runner_pool-IsDeep K laws) runner_pool_object r n in
      (_, made, ap runner_pool_object same, refs)
  copy_object-fresh (runner_pool_list_object r) n =
      let (made, same, refs) =
        as_copy (runner_pool_list K) (runner_pool_list-IsDeep K laws) runner_pool_list_object r n in
      (_, made, ap runner_pool_list_object same, refs)
