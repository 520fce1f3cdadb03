-- ===== src/Controller/Template.antt =====
-- HypervisorMachineTemplateReconciler
-- (internal/controller/hypervisormachinetemplate_controller.go).
pub mod Reconcile
pub mod Validation
pub mod Lifecycle
pub mod Roundtrip
pub mod Requeue
pub mod View
pub mod Panics
use hyperfleet_controller.Base.{
  ℕ, Text, text, ◌==◌, Bool, true, false, not, ◌&&◌, Option, none, some, List, [], ◌++◌, nat_eq,
  if◌then◌else◌, int_text, is_nonpositive, Error, errorf, wrap, error_text, is_not_found, Err,
  Result, ok, err, M,
}
use hyperfleet_controller.Api.Meta.{
  Time, Condition, ConditionStatus, condition_true, condition_false, NamespacedName,
}
use hyperfleet_controller.Api.Conditions.{set_condition, holds}
use hyperfleet_controller.Api.Cluster.{HypervisorCluster}
use hyperfleet_controller.Api.Template.{
  HypervisorMachineTemplate, HypervisorMachineTemplateStatus, ProxmoxTemplateSpec,
}
use hyperfleet_controller.Provider.{ClientConfig, AuthConfig, HypervisorClient, ClientFactory}
use hyperfleet_controller.Controller.Kube.{
  KubeClient, FinalizerUtil, ReconcileResult, no_requeue, five_minutes,
}

abbrev pub finalizer_name : Text
finalizer_name = text "hypervisormachinetemplate.hyperfleet.io/finalizer"

abbrev pub template_requeue_interval : ℕ
template_requeue_interval = five_minutes

-- seconds
abbrev pub default_provider_timeout : ℕ
default_provider_timeout = 300

abbrev pub condition_template_valid : Text
condition_template_valid = text "TemplateValid"

abbrev pub later : ReconcileResult
later = record { requeue = false; requeue_after = template_requeue_interval }

-- A call that returns, or a nil pointer dereference.
pub data Outcome (A : Type 0) : Type 0 where
  returns : A → Outcome A
  panics : Outcome A

-- template.DeletionTimestamp.IsZero(), which a nil pointer passes.
abbrev pub is_zero : Option Time → Bool
is_zero none = true
is_zero (some t) = nat_eq t 0

-- isClusterReady
unfoldable pub is_cluster_ready : HypervisorCluster → Bool
is_cluster_ready cluster = holds (text "Ready") cluster.status.conditions

-- setTemplateValidCondition at a time
unfoldable pub set_template_valid_condition :
    Time → ConditionStatus → Text → Text → HypervisorMachineTemplate → HypervisorMachineTemplate
set_template_valid_condition now status reason message template =
    let condition : Condition = record {
      type = condition_template_valid;
      status = status;
      observed_generation = 0;
      last_transition_time = now;
      reason = reason;
      message = message;
    } in
    record template {
      status = record (template.status) {
        conditions = set_condition condition template.status.conditions;
      };
    }

-- The key of the referenced cluster, in the template's namespace if the reference has none.
unfoldable pub cluster_key : HypervisorMachineTemplate → NamespacedName
cluster_key template =
    let ref = template.spec.hypervisor_cluster_ref in
    record {
      namespace = if ref.namespace == [] then template.meta.namespace else ref.namespace;
      name = ref.name;
    }

-- The configurations that validateWithProvider builds.
unfoldable pub provider_config : HypervisorCluster → ClientConfig
provider_config cluster = record {
  endpoint = cluster.spec.endpoint;
  tls_config = none;
  timeout = default_provider_timeout;
}

abbrev pub provider_auth : AuthConfig
provider_auth = record {
  type = text "token";
  token_id = [];
  token_secret = [];
  username = [];
  password = [];
}

-- The test of the Proxmox template ID.
unfoldable pub check_proxmox : Option ProxmoxTemplateSpec → Err
check_proxmox none = none
check_proxmox (some proxmox) =
    if is_nonpositive proxmox.template_id
    then some (errorf (text "invalid Proxmox template ID: " ++ int_text proxmox.template_id))
    else none

-- The tests of validateWithProvider, behind the creation of the client.
unfoldable pub check_template : HypervisorMachineTemplate → Err
check_template template = elim (check_proxmox template.spec.template.proxmox) [
  | some e ↦ some e
  | none ↦
      if is_nonpositive template.spec.resources.cpu
      then some
          (errorf (text "invalid CPU specification: " ++ int_text template.spec.resources.cpu))
      else none
]

-- The status of a template that passed.
unfoldable pub mark_valid : Time → HypervisorMachineTemplate → HypervisorMachineTemplate
mark_valid now template =
    let valid =
      set_template_valid_condition now condition_true (text "ValidationSucceeded")
        (text "Template validation succeeded") template in
    record valid {
      status = record (valid.status) {
        template_available = true;
        validation_status = text "Valid";
      };
    }

-- What validateTemplate makes of the result of validateWithProvider.
unfoldable pub conclude : Time → HypervisorMachineTemplate → Err → HypervisorMachineTemplate
conclude now template (some e) =
    set_template_valid_condition now condition_false (text "ValidationFailed") (error_text e)
      template
conclude now template none = mark_valid now template

module _ {W : Type 0} where
  -- What follows the call of CreateClient. The client is closed behind the tests.
  unfoldable pub check_with_client :
      HypervisorMachineTemplate → Result (HypervisorClient W) → M W Err
  check_with_client template (err e) w =
      (some (wrap (text "failed to create provider client") e), w)
  check_with_client template (ok client) w = (check_template template, (client.close w).1)

  -- validateWithProvider. The reconciler's ProviderFactory may be nil.
  unfoldable pub validate_with_provider :
      Option (ClientFactory W) → HypervisorMachineTemplate → HypervisorCluster → M W (Outcome Err)
  validate_with_provider none template cluster w = (panics, w)
  validate_with_provider (some factory) template cluster w =
      let (r, w') =
        factory.create_client cluster.spec.provider (some (provider_config cluster))
          (some provider_auth) w in
      let (e, w'') = check_with_client template r w' in (returns e, w'')

-- Where validateTemplate ends: an error, or a result with the template as it was changed.
abbrev pub Validated : Type 0
Validated = Result (ReconcileResult × HypervisorMachineTemplate)

abbrev pub rejected : Time → Text → Text → HypervisorMachineTemplate → Validated
rejected now reason message template =
    ok (later, set_template_valid_condition now condition_false reason message template)

module _ {W : Type 0} (k : KubeClient W) (factory : Option (ClientFactory W)) where
  abbrev pub after_provider : Time → HypervisorMachineTemplate → Outcome Err → Outcome Validated
  after_provider now template (returns e) = returns (ok (later, conclude now template e))
  after_provider now template panics = panics

  -- The part of validateTemplate for a cluster that was found.
  unfoldable pub validate_against :
      HypervisorMachineTemplate → HypervisorCluster → Time → M W (Outcome Validated)
  validate_against template cluster now w =
      if is_cluster_ready cluster
      then (let (o, w') = validate_with_provider factory template cluster w in
          (after_provider now template o, w'))
      else (
        returns (
            rejected now (text "ClusterNotReady") (text "Referenced HypervisorCluster is not ready")
              template),
        w,
      )

  unfoldable pub validate_template : HypervisorMachineTemplate → Time → M W (Outcome Validated)
  validate_template template now w = elim (k.get_cluster (cluster_key template) w) [
    | err e ↦ (
      returns (
          if is_not_found e
          then rejected now (text "ClusterNotFound") (text "Referenced HypervisorCluster not found")
              template
          else err e),
      w,
    )
    | ok cluster ↦ validate_against template cluster now w
  ]

  -- updateStatus at a time
  unfoldable pub update_status : HypervisorMachineTemplate → Time → M W Err
  update_status template now =
      k.update_template_status
        (record template { status = record (template.status) { last_validated = some now } })
