-- ===== src/Api/Memory/RunnerPool.antt =====
-- RunnerPool and its list in memory, with their deep copies.
use hyperfleet_controller.Base.{ℕ, refl}
use hyperfleet_controller.Api.Claims.{RunnerPoolSpec, RunnerPoolStatus}
use hyperfleet_controller.Api.Memory.{
  Pointer, Slice, Alloc, Copier, new_copy, copy_slice, slice, Kubernetes, TypeMeta,
}
use hyperfleet_controller.Api.Memory.Deep.{
  IsDeep, slice-IsDeep, pair-IsDeep, struct-IsDeep, IsKubernetes,
}

module _ (K : Kubernetes) where
  pub record StoredRunnerPool : Type 0 where
    pub type_meta : TypeMeta
    pub object_meta : K.ObjectMeta
    pub spec : RunnerPoolSpec
    pub status : RunnerPoolStatus

  unfoldable pub into_runner_pool : StoredRunnerPool → Alloc StoredRunnerPool
  into_runner_pool x n =
      let (object_meta, n₁) = K.object_meta.into x.object_meta n in
      (
        record x {
          type_meta = x.type_meta;
          object_meta = object_meta;
          spec = x.spec;
          status = x.status;
        },
        n₁,
      )

  unfoldable pub erase_runner_pool : StoredRunnerPool → StoredRunnerPool
  erase_runner_pool x = record x { object_meta = K.object_meta.erase x.object_meta }

  unfoldable pub RunnerPoolRefs : (ℕ → Type 0) → StoredRunnerPool → Type 0
  RunnerPoolRefs P x = K.object_meta.Refs P x.object_meta

  abbrev pub runner_pool : Copier StoredRunnerPool
  runner_pool = record { into = into_runner_pool; erase = erase_runner_pool; Refs = RunnerPoolRefs }

  abbrev pub deep_copy_runner_pool : Pointer StoredRunnerPool → Alloc (Pointer StoredRunnerPool)
  deep_copy_runner_pool = new_copy runner_pool

  pub record StoredRunnerPoolList : Type 0 where
    pub type_meta : TypeMeta
    pub list_meta : K.ListMeta
    pub items : Slice StoredRunnerPool

  unfoldable pub into_runner_pool_list : StoredRunnerPoolList → Alloc StoredRunnerPoolList
  into_runner_pool_list x n =
      let (list_meta, n₁) = K.list_meta.into x.list_meta n in
      let (items, n₂) = copy_slice runner_pool x.items n₁ in
      (record x { type_meta = x.type_meta; list_meta = list_meta; items = items }, n₂)

  unfoldable pub erase_runner_pool_list : StoredRunnerPoolList → StoredRunnerPoolList
  erase_runner_pool_list x = record x {
    list_meta = K.list_meta.erase x.list_meta;
    items = (slice runner_pool).erase x.items;
  }

  unfoldable pub RunnerPoolListRefs : (ℕ → Type 0) → StoredRunnerPoolList → Type 0
  RunnerPoolListRefs P x = K.list_meta.Refs P x.list_meta × ((slice runner_pool).Refs P x.items)

  abbrev pub runner_pool_list : Copier StoredRunnerPoolList
  runner_pool_list = record {
    into = into_runner_pool_list;
    erase = erase_runner_pool_list;
    Refs = RunnerPoolListRefs;
  }

  abbrev pub deep_copy_runner_pool_list :
      Pointer StoredRunnerPoolList → Alloc (Pointer StoredRunnerPoolList)
  deep_copy_runner_pool_list = new_copy runner_pool_list

module _ (K : Kubernetes) (laws : IsKubernetes K) where
  pub runner_pool-IsDeep : IsDeep (runner_pool K)
  unfolding into_runner_pool erase_runner_pool RunnerPoolRefs
  runner_pool-IsDeep =
      struct-IsDeep laws.object_meta (runner_pool K) (λ x. x.object_meta)
        (λ x a. record x { object_meta = a })
        (record {
          into = λ x n. refl;
          erase_set = λ x a. refl;
          erase = λ x. refl;
          refs_set = λ P x a h. h;
        })

  pub runner_pool_list-IsDeep : IsDeep (runner_pool_list K)
  unfolding into_runner_pool_list erase_runner_pool_list RunnerPoolListRefs
  runner_pool_list-IsDeep =
      struct-IsDeep (pair-IsDeep laws.list_meta (slice-IsDeep (runner_pool K) runner_pool-IsDeep))
        (runner_pool_list K) (λ x. (x.list_meta, x.items))
        (λ x a. record x { list_meta = a.0; items = a.1 })
        (record {
          into = λ x n. refl;
          erase_set = λ x a. refl;
          erase = λ x. refl;
          refs_set = λ P x a h. h;
        })
