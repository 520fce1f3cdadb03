-- ===== src/Manager/Scheme.antt =====
-- The scheme of the manager (cmd/main.go), and what the controllers find in it.
use hyperfleet_controller.Base.{text, ◌≡◌, refl, ap, ◌∙◌, sym, none, some, to_lower, Err}
use hyperfleet_controller.Api.Scheme.{
  ResourceType, type_name, SchemeLib, SchemeLaws, group_version, add_to_scheme,
  add_to_scheme-kind_for,
}
use hyperfleet_controller.Controller.Template.{Outcome, returns, panics}
use hyperfleet_controller.Controller.Setup.{
  ControllerSpec, IsController, list_type, of_hypervisor_cluster, of_hypervisor_machine_template,
  of_machine_claim, of_runner_pool,
}

module _ {S B : Type 0} (lib : SchemeLib S B) where
  -- utilruntime.Must, and what follows it.
  unfoldable pub must : Err × S → (S → Outcome S) → Outcome S
  must (none, s) rest = rest s
  must (some e, s) rest = panics

  -- The function init: the scheme that main gives to the manager.
  unfoldable pub init_scheme : Outcome S
  init_scheme = must (lib.add_client_go lib.new_scheme) (λ s. must (add_to_scheme lib s) returns)

  -- What a controller needs of the scheme: the kinds of its objects and of their lists. Its name is
  -- the one that controller-runtime would give it, the kind in lower case.
  pub record IsServed {c : ControllerSpec} (controller : IsController c) (s : S) : Type 0 where
    pub objects :
        lib.kind_for s c.for
        ≡ some (record { group_version = group_version; kind = type_name c.for })
    pub lists :
        lib.kind_for s (list_type controller)
        ≡ some (record { group_version = group_version; kind = type_name (list_type controller) })
    pub named : c.named ≡ to_lower (type_name c.for)

named_lem : {c : ControllerSpec} → IsController c → c.named ≡ to_lower (type_name c.for)
unfolding type_name to_lower text
named_lem of_hypervisor_cluster = refl
named_lem of_hypervisor_machine_template = refl
named_lem of_machine_claim = refl
named_lem of_runner_pool = refl

module _ {S B : Type 0} (lib : SchemeLib S B) (laws : SchemeLaws lib) where
  must_returns :
      (r : Err × S) (rest : S → Outcome S) (s : S)
      → must lib r rest ≡ returns s
      → (r.0 ≡ none) × (rest r.1 ≡ returns s)
  unfolding must
  must_returns (none, u) rest s h = (refl, h)
  must_returns (some e, u) rest s h = cc

  returned : (u s : S) → returns u ≡ returns s → u ≡ s
  returned u s h = cc

  -- Where the types were registered without error, the scheme that main gives to the manager knows
  -- the kinds that each of the four controllers watches, and those of their lists, by the names of
  -- their types in the group hypervisor.hyperfleet.io, version v1alpha1; and each controller is
  -- named by its kind in lower case.
  pub init_scheme-IsServed :
      (s : S)
      → init_scheme lib ≡ returns s
      → {c : ControllerSpec} (controller : IsController c) → IsServed lib controller s
  unfolding init_scheme
  init_scheme-IsServed s done {c} controller =
      let client_go = lib.add_client_go lib.new_scheme in
      let (_, rest) = must_returns client_go (λ u. must lib (add_to_scheme lib u) returns) s done in
      let (added, end) = must_returns (add_to_scheme lib client_go.1) returns s rest in
      let same : (add_to_scheme lib client_go.1).1 ≡ s = returned _ s end in
      let known : (t : ResourceType)
          → lib.kind_for s t ≡ some (record { group_version = group_version; kind = type_name t }) =
        λ t.
          sym (ap (λ u. lib.kind_for u t) same)
          ∙ add_to_scheme-kind_for lib laws client_go.1 t added
              (laws.client_go_knows lib.new_scheme t (laws.new_knows t)) in
      record {
        objects = known c.for;
        lists = known (list_type controller);
        named = named_lem controller;
      }
