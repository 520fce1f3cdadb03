-- ===== src/Controller/SystemTests.antt =====
-- The theorems on sequences of reconciliations at concrete inputs.
use mathlib.Core.Path.{subst}
use hyperfleet_controller.Api.Conditions.{NodupTypes, holds, set_condition}
use hyperfleet_controller.Base.{
  error_text, is_not_found, is_nonpositive, Result, text, ◌==◌, ◌≡◌, refl, ap, ◌∙◌, sym, true,
  false, none, some, [], ok, to_lower,
}
use hyperfleet_controller.Api.Cluster.{HypervisorCluster}
use hyperfleet_controller.Api.Template.{HypervisorMachineTemplate}
use hyperfleet_controller.Provider.{ClientFactory}
use hyperfleet_controller.Provider.Factory.{new_client_factory, default_create_client}
use hyperfleet_controller.Provider.Proxmox.{
  proxmox_client, proxmox_test_connection, version_info, new_proxmox_client, create_proxmox_client,
  login_and_test, proxmox_close,
}
use hyperfleet_controller.Controller.Kube.{key_of, ReconcileResult}
use hyperfleet_controller.Controller.Store.{SameObjects}
use hyperfleet_controller.Controller.Samples.{
  World, versioned, proxmox, cluster_with, template_with, fresh, util, util-FinalizerLaws, contains,
}
use hyperfleet_controller.Controller.SampleStore.{versioned-IsLawful, versioned-IsStore, get-ok}
use hyperfleet_controller.Controller.Cluster
use hyperfleet_controller.Controller.Template.{
  finalizer_name, Outcome, Validated, returns, validate_template, update_status, validate_against,
  validate_with_provider, provider_config, check_with_client, mark_valid, conclude,
  set_template_valid_condition, is_cluster_ready, check_template, check_proxmox, cluster_key,
}
use hyperfleet_controller.Controller.Template.Reconcile.{
  reconcile_template, add_finalizer, update_then, finish,
}
use hyperfleet_controller.Controller.System.Passing.{Accepts, IsValid}
use hyperfleet_controller.Controller.Template.Lifecycle.{with_finalizers}
use hyperfleet_controller.Controller.Template.Reconcile
use hyperfleet_controller.Controller.System.{
  AllSound, IsSound, here, next, cluster_reconciled, template_reconciled,
}
use hyperfleet_controller.Controller.System.Factory.{ApiLeaves, new_client_factory-FactoryLeaves}
use hyperfleet_controller.Controller.System.Invariant.{Reach-AllSound}
use hyperfleet_controller.Controller.System.Converges.{three_reconciliations}

unchanged :
    (w w' : World) → w'.cluster ≡ w.cluster → w'.template ≡ w.template → SameObjects versioned w w'
unchanged w w' c t = record { clusters = λ key. rw c refl; templates = λ key. rw t refl }

proxmox-ApiLeaves : ApiLeaves versioned proxmox
proxmox-ApiLeaves = record {
  new_client = λ endpoint tls timeout w. unchanged w w refl refl;
  set_api_token = λ client id secret w. unchanged w w refl refl;
  login = λ client user pass w. unchanged w w refl refl;
  get_version = λ client w. unchanged w (proxmox.get_version client w).1 refl refl;
}

abbrev factory : ClientFactory World
factory = new_client_factory proxmox

new_template : IsSound fresh.template
unfolding holds text
new_template = record { nodup = tt; valid = λ e. cc; available = λ e. cc }

fresh-AllSound : AllSound versioned fresh
fresh-AllSound = record {
  templates = λ key t e.
      subst IsSound (sym (get-ok fresh.template.meta fresh.template t key e).1) new_template;
  clusters = λ key c e.
      subst (λ x. NodupTypes x.status.conditions)
        (sym (get-ok fresh.cluster.meta fresh.cluster c key e).1) tt;
}

abbrev plain : HypervisorMachineTemplate
plain = template_with []

abbrev cluster : HypervisorCluster
cluster = cluster_with []

abbrev once : World
once = (Cluster.reconcile versioned factory none (key_of cluster.meta) 7 fresh).1

abbrev twice : World
twice = (Reconcile.reconcile versioned (some factory) util (key_of plain.meta) 8 9 once).1

Reach-AllSound_example : AllSound versioned twice
Reach-AllSound_example =
    Reach-AllSound versioned versioned-IsStore factory none (some factory) util
      (new_client_factory-FactoryLeaves versioned proxmox proxmox-ApiLeaves)
      (new_client_factory-FactoryLeaves versioned proxmox proxmox-ApiLeaves) fresh twice
      (next (next here (cluster_reconciled (key_of cluster.meta) 7))
        (template_reconciled (key_of plain.meta) 8 9))
      fresh-AllSound

connected : (Cluster.test_connection versioned factory none cluster 7 fresh).0.success ≡ true
unfolding Cluster.with_result Cluster.test_connection Cluster.load_credentials Cluster.load_from
    Cluster.load_token Cluster.get_secret_value Cluster.value_of Cluster.connect Cluster.use_client
    Cluster.probe Cluster.client_config Cluster.insecure_skip_verify Cluster.load_password
    Cluster.ready_condition text ◌==◌ new_client_factory default_create_client to_lower
    new_proxmox_client create_proxmox_client proxmox_client proxmox_test_connection version_info
    error_text is_not_found login_and_test proxmox_close
connected = refl

abbrev thrice : Outcome (Result ReconcileResult) × World
thrice = Reconcile.reconcile versioned (some factory) util (key_of plain.meta) 8 9 twice

refers : cluster_key plain ≡ key_of cluster.meta
unfolding cluster_key ◌==◌
refers = refl

passes_checks : check_template plain ≡ none
unfolding check_template check_proxmox is_nonpositive
passes_checks = refl

plain_found : versioned.get_template (key_of plain.meta) fresh ≡ ok plain
unfolding text ◌==◌
plain_found = refl

cluster_found : versioned.get_cluster (key_of cluster.meta) fresh ≡ ok cluster
unfolding text ◌==◌
cluster_found = refl

plain_unprotected : util.contains plain.meta.finalizers finalizer_name ≡ false
unfolding contains
plain_unprotected = refl

accepts : Accepts factory cluster.spec.provider
unfolding new_client_factory default_create_client to_lower text ◌==◌ new_proxmox_client
    create_proxmox_client
accepts config auth w = (_, refl)

cluster_accepted :
    let test = Cluster.test_connection versioned factory none cluster 7 fresh in
    (versioned.update_cluster_status (Cluster.with_result cluster test.0) test.1).0 ≡ none
unfolding Cluster.with_result Cluster.test_connection Cluster.load_credentials Cluster.load_from
    Cluster.load_token Cluster.get_secret_value Cluster.value_of Cluster.connect Cluster.use_client
    Cluster.probe Cluster.client_config Cluster.insecure_skip_verify Cluster.load_password
    Cluster.ready_condition text ◌==◌ new_client_factory default_create_client to_lower
    new_proxmox_client create_proxmox_client proxmox_client proxmox_test_connection version_info
    error_text is_not_found login_and_test proxmox_close
cluster_accepted = refl

finalizer_accepted :
    (versioned.update_template
      (with_finalizers plain (util.add plain.meta.finalizers finalizer_name))
      once).0
    ≡ none
unfolding Cluster.with_result Cluster.test_connection Cluster.load_credentials Cluster.load_from
    Cluster.load_token Cluster.get_secret_value Cluster.value_of Cluster.connect Cluster.use_client
    Cluster.probe Cluster.client_config Cluster.insecure_skip_verify Cluster.load_password
    Cluster.ready_condition text ◌==◌ new_client_factory default_create_client to_lower
    new_proxmox_client create_proxmox_client proxmox_client proxmox_test_connection version_info
    error_text is_not_found login_and_test proxmox_close Cluster.reconcile Cluster.sync_cluster
    Cluster.update_status set_condition
finalizer_accepted = refl

-- The template of a validation.
abbrev validated_template : Outcome Validated → HypervisorMachineTemplate
validated_template (returns (ok v)) = v.1
validated_template _ = plain

computes :
    (update_status versioned
      (some factory)
      (validated_template (validate_template versioned (some factory) twice.template 8 twice).0)
      9
      (validate_template versioned (some factory) twice.template 8 twice).1).0
    ≡ none
unfolding Cluster.with_result Cluster.test_connection Cluster.load_credentials Cluster.load_from
    Cluster.load_token Cluster.get_secret_value Cluster.value_of Cluster.connect Cluster.use_client
    Cluster.probe Cluster.client_config Cluster.insecure_skip_verify Cluster.load_password
    Cluster.ready_condition text ◌==◌ new_client_factory default_create_client to_lower
    new_proxmox_client create_proxmox_client proxmox_client proxmox_test_connection version_info
    error_text is_not_found login_and_test proxmox_close Cluster.reconcile Cluster.sync_cluster
    Cluster.update_status set_condition Reconcile.reconcile reconcile_template add_finalizer
    update_then finish validate_template validate_against validate_with_provider provider_config
    check_with_client check_template check_proxmox mark_valid conclude set_template_valid_condition
    is_cluster_ready holds cluster_key is_nonpositive contains update_status
computes = refl

status_accepted_for :
    (d after : HypervisorMachineTemplate)
    → twice.template ≡ d
    → validated_template (validate_template versioned (some factory) d 8 twice).0 ≡ after
    → (update_status versioned
        (some factory)
        after
        9
        (validate_template versioned (some factory) d 8 twice).1).0
      ≡ none
status_accepted_for d after same validated =
    subst
      (λ x.
        (update_status versioned (some factory) after 9
          (validate_template versioned (some factory) x 8 twice).1).0
        ≡ none)
      same
      (subst
        (λ x.
          (update_status versioned (some factory) x 9
            (validate_template versioned (some factory) twice.template 8 twice).1).0
          ≡ none)
        (ap (λ x. validated_template (validate_template versioned (some factory) x 8 twice).0) same
          ∙ validated)
        computes)

status_accepted :
    (d after : HypervisorMachineTemplate) (result : ReconcileResult)
    → versioned.get_template (key_of plain.meta) twice ≡ ok d
    → (validate_template versioned (some factory) d 8 twice).0 ≡ returns (ok (result, after))
    → (update_status versioned
        (some factory)
        after
        9
        (validate_template versioned (some factory) d 8 twice).1).0
      ≡ none
status_accepted d after result found validated =
    status_accepted_for d after (sym (get-ok twice.template.meta twice.template d _ found).1)
      (ap validated_template validated)

three_reconciliations_example :
    (result : ReconcileResult) × (thrice.0 ≡ returns (ok result))
    × (d : HypervisorMachineTemplate) × (versioned.get_template (key_of plain.meta) thrice.1 ≡ ok d)
    × IsValid d
three_reconciliations_example =
    three_reconciliations versioned versioned-IsLawful versioned-IsStore util util-FinalizerLaws
      factory none (new_client_factory-FactoryLeaves versioned proxmox proxmox-ApiLeaves) factory
      (new_client_factory-FactoryLeaves versioned proxmox proxmox-ApiLeaves) 7 8 9 fresh cluster
      plain cluster_found plain_found refl plain_unprotected cluster_accepted finalizer_accepted
      status_accepted fresh-AllSound refers passes_checks accepts connected
