-- ===== src/Api/Scheme.antt =====
-- The registration of the resource types (api/v1alpha1/groupversion_info.go, and the functions init
-- of the files of the types), over the schemes of apimachinery and controller-runtime.
use hyperfleet_controller.Base.{
  Text, text, ◌≡◌, refl, ◌∙◌, ◌⊎◌, inl, inr, Option, none, some, List, [], ◌∷◌, Err, M,
}

-- The Go types that are registered.
pub data ResourceType : Type 0 where
  hypervisor_cluster_type hypervisor_cluster_list_type : ResourceType
  hypervisor_machine_template_type hypervisor_machine_template_list_type : ResourceType
  machine_claim_type machine_claim_list_type : ResourceType
  runner_pool_type runner_pool_list_type : ResourceType

-- The names that they have in Go.
unfoldable pub type_name : ResourceType → Text
type_name hypervisor_cluster_type = text "HypervisorCluster"
type_name hypervisor_cluster_list_type = text "HypervisorClusterList"
type_name hypervisor_machine_template_type = text "HypervisorMachineTemplate"
type_name hypervisor_machine_template_list_type = text "HypervisorMachineTemplateList"
type_name machine_claim_type = text "MachineClaim"
type_name machine_claim_list_type = text "MachineClaimList"
type_name runner_pool_type = text "RunnerPool"
type_name runner_pool_list_type = text "RunnerPoolList"

pub record SchemaGroupVersion : Type 0 where
  pub group : Text
  pub version : Text

pub record GroupVersionKind : Type 0 where
  pub group_version : SchemaGroupVersion
  pub kind : Text

-- runtime.Scheme as `S` and scheme.Builder as `B`: Register adds types to a builder, AddToScheme
-- the types of a builder to a scheme. `kind_for` is what a scheme knows of a type.
pub record SchemeLib (S B : Type 0) : Type 0 where
  pub new_scheme : S
  pub new_builder : SchemaGroupVersion → B
  pub register : List ResourceType → B → B
  pub add_to_scheme : B → M S Err
  pub add_client_go : M S Err
  pub kind_for : S → ResourceType → Option GroupVersionKind

-- A type is among those of a call of Register.
abbrev pub IsOneOf : ResourceType → List ResourceType → Type 0
IsOneOf t [] = ⊥
IsOneOf t (x ∷ xs) = (t ≡ x) ⊎ IsOneOf t xs

-- What they document. A builder has its group version and the types that were registered in it.
-- A scheme knows none of the types at first, nor from client-go, and once a builder was added to
-- it, each type of the builder under the group version of the builder and the name of the type.
pub record SchemeLaws {S B : Type 0} (lib : SchemeLib S B) : Type 1 where
  pub version_of : B → SchemaGroupVersion
  pub types_of : B → ResourceType → Type 0
  pub new_version : (gv : SchemaGroupVersion) → version_of (lib.new_builder gv) ≡ gv
  pub register_version :
      (ts : List ResourceType) (b : B) → version_of (lib.register ts b) ≡ version_of b
  pub registered :
      (ts : List ResourceType) (b : B) (t : ResourceType)
      → IsOneOf t ts
      → types_of (lib.register ts b) t
  pub keeps :
      (ts : List ResourceType) (b : B) (t : ResourceType)
      → types_of b t
      → types_of (lib.register ts b) t
  pub new_knows : (t : ResourceType) → lib.kind_for lib.new_scheme t ≡ none
  pub client_go_knows :
      (s : S) (t : ResourceType)
      → lib.kind_for s t ≡ none
      → lib.kind_for (lib.add_client_go s).1 t ≡ none
  pub added :
      (b : B) (s : S) (t : ResourceType)
      → (lib.add_to_scheme b s).0 ≡ none
      → types_of b t
      → lib.kind_for s t ≡ none
      → lib.kind_for (lib.add_to_scheme b s).1 t
        ≡ some (record { group_version = version_of b; kind = type_name t })

-- GroupVersion
abbrev pub group_version : SchemaGroupVersion
group_version = record { group = text "hypervisor.hyperfleet.io"; version = text "v1alpha1" }

module _ {S B : Type 0} (lib : SchemeLib S B) where
  -- The functions init, one for each file of types.
  unfoldable pub register_hypervisor_cluster : B → B
  register_hypervisor_cluster b =
      lib.register (hypervisor_cluster_type ∷ hypervisor_cluster_list_type ∷ []) b

  unfoldable pub register_hypervisor_machine_template : B → B
  register_hypervisor_machine_template b =
      lib.register (hypervisor_machine_template_type ∷ hypervisor_machine_template_list_type ∷ []) b

  unfoldable pub register_machine_claim : B → B
  register_machine_claim b = lib.register (machine_claim_type ∷ machine_claim_list_type ∷ []) b

  unfoldable pub register_runner_pool : B → B
  register_runner_pool b = lib.register (runner_pool_type ∷ runner_pool_list_type ∷ []) b

  -- SchemeBuilder once the package is initialised: the functions run in the order of the files.
  unfoldable pub scheme_builder : B
  scheme_builder = register_runner_pool (
      register_machine_claim (
        register_hypervisor_machine_template
          (register_hypervisor_cluster (lib.new_builder group_version))))

  -- AddToScheme
  unfoldable pub add_to_scheme : M S Err
  add_to_scheme s = lib.add_to_scheme scheme_builder s

  module _ (laws : SchemeLaws lib) where
    scheme_builder-types : (t : ResourceType) → laws.types_of scheme_builder t
    unfolding scheme_builder register_hypervisor_cluster register_hypervisor_machine_template
        register_machine_claim register_runner_pool
    scheme_builder-types hypervisor_cluster_type =
        laws.keeps _ _ _ (laws.keeps _ _ _ (laws.keeps _ _ _ (laws.registered _ _ _ (inl refl))))
    scheme_builder-types hypervisor_cluster_list_type =
        laws.keeps _ _ _
          (laws.keeps _ _ _ (laws.keeps _ _ _ (laws.registered _ _ _ (inr (inl refl)))))
    scheme_builder-types hypervisor_machine_template_type =
        laws.keeps _ _ _ (laws.keeps _ _ _ (laws.registered _ _ _ (inl refl)))
    scheme_builder-types hypervisor_machine_template_list_type =
        laws.keeps _ _ _ (laws.keeps _ _ _ (laws.registered _ _ _ (inr (inl refl))))
    scheme_builder-types machine_claim_type = laws.keeps _ _ _ (laws.registered _ _ _ (inl refl))
    scheme_builder-types machine_claim_list_type =
        laws.keeps _ _ _ (laws.registered _ _ _ (inr (inl refl)))
    scheme_builder-types runner_pool_type = laws.registered _ _ _ (inl refl)
    scheme_builder-types runner_pool_list_type = laws.registered _ _ _ (inr (inl refl))

    scheme_builder-version : laws.version_of scheme_builder ≡ group_version
    unfolding scheme_builder register_hypervisor_cluster register_hypervisor_machine_template
        register_machine_claim register_runner_pool
    scheme_builder-version = simp (laws.register_version, laws.new_version)

    -- Every type is known behind AddToScheme to a scheme that knew it under no other version.
    pub add_to_scheme-kind_for :
        (s : S) (t : ResourceType)
        → (add_to_scheme s).0 ≡ none
        → lib.kind_for s t ≡ none
        → lib.kind_for (add_to_scheme s).1 t
          ≡ some (record { group_version = group_version; kind = type_name t })
    unfolding add_to_scheme
    add_to_scheme-kind_for s t done unknown =
        laws.added scheme_builder s t done (scheme_builder-types t) unknown
        ∙ rw scheme_builder-version refl
