-- ===== src/Manager/Tests.antt =====
-- The theorems of the startup at concrete inputs.
use mathlib.Core.Logic.{ite, if_pos, if_neg}
use hyperfleet_controller.Base.{
  ◌==◌, text, ◌≡◌, refl, inl, inr, Bool, true, false, ◌||◌, Option, none, some, List, [], ◌∷◌,
  external, Err, arith, if◌then◌else◌,
}
use hyperfleet_controller.Controller.Template.{returns}
use hyperfleet_controller.Path.{join}
use hyperfleet_controller.Manager.{
  Flags, default_flags, TlsServerConfig, SetupCall, add_readyz_check, Log, apply_options,
  manager_options, start_manager,
}
use hyperfleet_controller.Api.Scheme.{
  ResourceType, type_name, SchemaGroupVersion, GroupVersionKind, SchemeLib, SchemeLaws, IsOneOf,
  scheme_builder, add_to_scheme,
}
use hyperfleet_controller.Controller.Setup.{of_machine_claim}
use hyperfleet_controller.Manager.Scheme.{must, init_scheme, IsServed, init_scheme-IsServed}
use hyperfleet_controller.Manager.Servers.{Serves, manager_options-Serves}
use hyperfleet_controller.Manager.Startup.{Progress, startup_calls, start_manager-Progress}

abbrev flags : Flags
flags = record default_flags { webhook_cert_path = text "/certs" }

abbrev blank : TlsServerConfig
blank = record { next_protos = text "h2" ∷ []; get_certificate = none }

-- Every call succeeds but that of the readiness probe.
abbrev no_readyz : Log → SetupCall → Err
no_readyz log add_readyz_check = some (external (text "already started"))
no_readyz log _ = none

manager_options-Serves_example :
    Serves flags true
      (record { cert_file = text "/certs/tls.crt"; key_file = text "/certs/tls.key" })
      blank
      (apply_options (manager_options flags).webhook_tls_opts blank)
    × Serves flags false
        (record { cert_file = text "tls.crt"; key_file = text "tls.key" })
        blank
        (apply_options (manager_options flags).metrics.tls_opts blank)
unfolding join text ◌==◌
manager_options-Serves_example = manager_options-Serves flags blank

start_manager-Progress_example :
    Progress (startup_calls flags) [] (start_manager no_readyz flags [])
start_manager-Progress_example = start_manager-Progress no_readyz flags []

-- A builder is a version with the types that were registered, a scheme what it knows of each type.
abbrev Builder : Type 0
Builder = SchemaGroupVersion × (ResourceType → Bool)

abbrev KnownTypes : Type 0
KnownTypes = ResourceType → Option GroupVersionKind

ResourceType-discrete : Discrete ResourceType
ResourceType-discrete = hlevel

unfoldable among : List ResourceType → ResourceType → Bool
among [] t = false
among (x ∷ xs) t = ite (ResourceType-discrete t x) true (among xs t)

among-IsOneOf : (ts : List ResourceType) (t : ResourceType) → IsOneOf t ts → among ts t ≡ true
unfolding among
among-IsOneOf [] t h = elim h [ ]
among-IsOneOf (x ∷ xs) t h = elim (ResourceType-discrete t x) [
  | yes e ↦ rw (if_pos (ResourceType-discrete t x) e) refl
  | no d ↦ elim h [
    | inl e ↦ elim (d e) [ ]
    | inr rest ↦ rw (if_neg (ResourceType-discrete t x) d) (among-IsOneOf xs t rest)
  ]
]

abbrev learn : Builder → KnownTypes → KnownTypes
learn b s t =
    if b.1 t
    then elim (s t) [
      | none ↦ some (record { group_version = b.0; kind = type_name t })
      | some known ↦ some known
    ]
    else s t

abbrev schemes : SchemeLib KnownTypes Builder
schemes = record {
  new_scheme = λ t. none;
  new_builder = λ gv. (gv, λ t. false);
  register = λ ts b. (b.0, λ t. b.1 t || among ts t);
  add_to_scheme = λ b s. (none, learn b s);
  add_client_go = λ s. (none, s);
  kind_for = λ s t. s t;
}

schemes-SchemeLaws : SchemeLaws schemes
schemes-SchemeLaws = record {
  version_of = λ b. b.0;
  types_of = λ b t. b.1 t ≡ true;
  new_version = λ gv. refl;
  register_version = λ ts b. refl;
  registered = λ ts b t one. ground (arith, among-IsOneOf ts t one);
  keeps = λ ts b t known. rw known refl;
  new_knows = λ t. refl;
  client_go_knows = λ s t unknown. unknown;
  added = λ b s t done member unknown. rw (member, unknown) refl;
}

abbrev main_scheme : KnownTypes
main_scheme = learn (scheme_builder schemes) (λ t. none)

initialised : init_scheme schemes ≡ returns main_scheme
unfolding init_scheme must add_to_scheme
initialised = refl

init_scheme-IsServed_example : IsServed schemes of_machine_claim main_scheme
init_scheme-IsServed_example =
    init_scheme-IsServed schemes schemes-SchemeLaws main_scheme initialised of_machine_claim
