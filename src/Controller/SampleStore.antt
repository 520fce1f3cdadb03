-- ===== src/Controller/SampleStore.antt =====
-- The sample API server does what `IsLawful` and `IsStore` ask, and its clients of Proxmox leave
-- its objects alone.
use hyperfleet_controller.Base.{
  ℕ, suc, ==_iff, nat_eq_iff, ◌≢◌, ◌≡◌, refl, sym, ap, ◌∙◌, ◌⊎◌, inl, inr, Bool, false, true, none,
  ok, err, if◌then◌else◌, arith, Bool-cases,
}
use hyperfleet_controller.Api.Meta.{ObjectMeta, NamespacedName}
use hyperfleet_controller.Api.Cluster.{HypervisorCluster}
use hyperfleet_controller.Api.Template.{HypervisorMachineTemplate}
use hyperfleet_controller.Controller.Kube.{KubeClient, IsLawful, key_of}
use hyperfleet_controller.Controller.Store.{
  IsStore, ClusterWritten, StatusWritten, TemplateWritten, TemplateGone,
}
use hyperfleet_controller.Controller.System.Preserves.{SameObjects-refl}
use hyperfleet_controller.Controller.Interleaved.{IsOptimistic}
use hyperfleet_controller.Controller.Samples.{
  World, server, server_with, versioned, names, is_current, same_name, missing, get, get_stored,
  put_cluster_status, put_template, put_template_status,
}

same_name-equal : (a b : NamespacedName) → same_name a b ≡ true → a ≡ b
same_name-equal a b h =
    let namespace : a.namespace ≡ b.namespace = ground (arith, ==_iff a.namespace b.namespace) in
    let name : a.name ≡ b.name =
      ground (arith, ==_iff a.namespace b.namespace, ==_iff a.name b.name) in
    ap (λ n. record a { namespace = n }) namespace ∙ ap (λ n. record b { name = n }) name

pub get-ok :
    {A : Type 0} (meta : ObjectMeta) (a b : A) (key : NamespacedName)
    → get meta a key ≡ ok b
    → (key ≡ key_of meta) × (b ≡ a)
get-ok meta a b key h = elim (Bool-cases (same_name key (key_of meta))) [
  | inl e ↦ (same_name-equal key (key_of meta) e, ground arith)
  | inr e ↦ ground arith
]

-- A write at the object's own name, as a Get sees it.
get-write :
    {A : Type 0} (meta : ObjectMeta) (old new : A) (key : NamespacedName)
    → ((get meta new key ≡ get meta old key)
        ⊎ ((key_of meta ≡ key) × (get meta old key ≡ ok old) × (get meta new key ≡ ok new)))
get-write meta old new key = elim (Bool-cases (same_name key (key_of meta))) [
  | inl e ↦ inr (sym (same_name-equal key (key_of meta) e), ground arith, ground arith)
  | inr e ↦ inl (ground arith)
]

-- `b` says whether an update is accepted.
module _ (accepts : HypervisorMachineTemplate → World → Bool) (following : ℕ → ℕ)
    (named : (t : HypervisorMachineTemplate) (w : World)
      → accepts t w ≡ true
      → names t w ≡ true) where
  abbrev k : KubeClient World
  k = server_with accepts following

  cluster_status_stored :
      (c : HypervisorCluster) (w : World) (b : Bool)
      → same_name (key_of c.meta) (key_of w.cluster.meta) ≡ b
      → (put_cluster_status c b w).0 ≡ none
      → (d : HypervisorCluster) × (k.get_cluster (key_of c.meta) (put_cluster_status c b w).1
          ≡ ok d)
        × (d.status ≡ c.status)
  cluster_status_stored c w true p h = (record (w.cluster) { status = c.status }, rw p refl, refl)
  cluster_status_stored c w false p h = cc

  template_stored :
      (t : HypervisorMachineTemplate) (w : World) (b : Bool)
      → (b ≡ true → names t w ≡ true)
      → (put_template accepts following t b w).0 ≡ none
      → t.meta.deletion_timestamp ≡ none
      → (d : HypervisorMachineTemplate) × (k.get_template
            (key_of t.meta)
            (put_template accepts following t b w).1
          ≡ ok d)
        × (d.meta.finalizers ≡ t.meta.finalizers)
        × (d.meta.deletion_timestamp ≡ none)
        × (d.spec ≡ t.spec)
  template_stored t w true p h alive = (_, get_stored t.meta _, refl, alive, refl)
  template_stored t w false p h alive = cc

  template_status_stored :
      (t : HypervisorMachineTemplate) (w : World) (b : Bool)
      → (b ≡ true → names t w ≡ true)
      → (put_template_status accepts following t b w).0 ≡ none
      → (d : HypervisorMachineTemplate) × (k.get_template
            (key_of t.meta)
            (put_template_status accepts following t b w).1
          ≡ ok d)
        × (d.status ≡ t.status)
  template_status_stored t w true p h =
      ((put_template_status accepts following t true w).1.template, rw (p refl) refl, refl)
  template_status_stored t w false p h = cc

  pub server_with-IsLawful : IsLawful k
  server_with-IsLawful = record {
    cluster_status_stored = λ c w h. cluster_status_stored c w _ refl h;
    template_stored = λ t w h alive. template_stored t w _ (named t w) h alive;
    template_status_stored = λ t w h. template_status_stored t w _ (named t w) h;
  }

  cluster_status :
      (c : HypervisorCluster) (w : World) (key : NamespacedName) (b : Bool)
      → same_name (key_of c.meta) (key_of w.cluster.meta) ≡ b
      → let w' = (put_cluster_status c b w).1 in
        (k.get_template key w' ≡ k.get_template key w)
        × ((k.get_cluster key w' ≡ k.get_cluster key w) ⊎ ClusterWritten k c key w w')
  cluster_status c w key true p =
      let new = record (w.cluster) { status = c.status } in
      (
        refl,
        elim (get-write w.cluster.meta w.cluster new key) [
          | inl same ↦ inl same
          | inr (named, found, left) ↦ inr (record {
            named = same_name-equal (key_of c.meta) (key_of w.cluster.meta) p ∙ named;
            before = w.cluster;
            after = new;
            found = found;
            left = left;
            spec = refl;
            status = refl;
          })
        ],
      )
  cluster_status c w key false p = (refl, inl refl)

  template_status :
      (t : HypervisorMachineTemplate) (w : World) (key : NamespacedName) (b : Bool)
      → (b ≡ true → names t w ≡ true)
      → let w' = (put_template_status accepts following t b w).1 in
        (k.get_cluster key w' ≡ k.get_cluster key w)
        × ((k.get_template key w' ≡ k.get_template key w) ⊎ StatusWritten k t key w w')
  template_status t w key true p =
      let new = (put_template_status accepts following t true w).1.template in
      (
        refl,
        elim (get-write w.template.meta w.template new key) [
          | inl same ↦ inl same
          | inr (named, found, left) ↦ inr (record {
            named = same_name-equal (key_of t.meta) (key_of w.template.meta) (p refl) ∙ named;
            before = w.template;
            after = new;
            found = found;
            left = left;
            spec = refl;
            status = refl;
          })
        ],
      )
  template_status t w key false p = (refl, inl refl)

  template_update :
      (t : HypervisorMachineTemplate) (w : World) (key : NamespacedName) (b : Bool)
      → (b ≡ true → names t w ≡ true)
      → let w' = (put_template accepts following t b w).1 in
        (k.get_cluster key w' ≡ k.get_cluster key w)
        × ((k.get_template key w' ≡ k.get_template key w)
            ⊎ (TemplateWritten k t key w w' ⊎ TemplateGone k key w'))
  template_update t w key true p =
      let new = (put_template accepts following t true w).1.template in
      let same = same_name-equal (key_of t.meta) (key_of w.template.meta) (p refl) in
      (
        refl,
        elim (Bool-cases (same_name key (key_of w.template.meta))) [
          | inl e ↦ inr (
              inl (record {
                named = same ∙ sym (same_name-equal key (key_of w.template.meta) e);
                before = w.template;
                after = new;
                found = rw e refl;
                left =
                    ap (get t.meta new) (same_name-equal key (key_of w.template.meta) e ∙ sym same)
                    ∙ get_stored t.meta new;
                spec = refl;
                status = refl;
              }))
          | inr e ↦ inl (ap (λ n. if same_name key n then ok new else err missing) same ∙ rw e refl)
        ],
      )
  template_update t w key false p = (refl, inl refl)

  pub server_with-IsStore : IsStore k
  server_with-IsStore = record {
    template_name = λ key w t found.
        let (named, same) = get-ok w.template.meta w.template t key found in
        ap (λ x. key_of x.meta) same ∙ sym named;
    cluster_name = λ key w c found.
        let (named, same) = get-ok w.cluster.meta w.cluster c key found in
        ap (λ x. key_of x.meta) same ∙ sym named;
    cluster_status = λ c w key. cluster_status c w key _ refl;
    template_status = λ t w key. template_status t w key _ (named t w);
    template_update = λ t w key. template_update t w key _ (named t w);
  }

pub server-IsLawful : IsLawful server
server-IsLawful = server_with-IsLawful names (λ version. version) (λ t w h. h)

pub server-IsStore : IsStore server
server-IsStore = server_with-IsStore names (λ version. version) (λ t w h. h)

current_names :
    (t : HypervisorMachineTemplate) (w : World) → is_current t w ≡ true → names t w ≡ true
current_names t w h = ground arith

pub versioned-IsLawful : IsLawful versioned
versioned-IsLawful = server_with-IsLawful is_current suc current_names

pub versioned-IsStore : IsStore versioned
versioned-IsStore = server_with-IsStore is_current suc current_names

-- A template with another version than the stored one is not current.
not_current :
    (t d : HypervisorMachineTemplate) (w : World)
    → versioned.get_template (key_of t.meta) w ≡ ok d
    → d.meta.resource_version ≢ t.meta.resource_version
    → is_current t w ≡ false
not_current t d w found other =
    let same = ap (λ x. x.meta.resource_version) (get-ok w.template.meta w.template d _ found).1 in
    ground (arith, nat_eq_iff w.template.meta.resource_version t.meta.resource_version, other, same)

pub versioned-IsOptimistic : IsOptimistic versioned
versioned-IsOptimistic = record {
  template = λ t d w found other. rw (not_current t d w found other) (SameObjects-refl versioned w);
  template_status =
      λ t d w found other. rw (not_current t d w found other) (SameObjects-refl versioned w);
}
