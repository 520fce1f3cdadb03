-- ===== src/Controller/Template/View.antt =====
-- The template reconciler reads the conditions of a cluster through their view.
use hyperfleet_controller.Base.{
  ◌==◌, ◌≡◌, refl, Option, none, some, text, List, true, false, if◌then◌else◌,
}
use hyperfleet_controller.Api.Meta.{Time, Condition}
use hyperfleet_controller.Api.Conditions.{NodupTypes, is_true}
use hyperfleet_controller.Api.Conditions.View.{ConditionMap, view, set, holds-set}
use hyperfleet_controller.Api.Cluster.{HypervisorCluster}
use hyperfleet_controller.Api.Template.{HypervisorMachineTemplate}
use hyperfleet_controller.Provider.{ClientFactory}
use hyperfleet_controller.Controller.Kube.{KubeClient}
use hyperfleet_controller.Controller.Template.{
  is_cluster_ready, provider_config, validate_against, validate_with_provider, returns, rejected,
  after_provider,
}

abbrev pub with_conditions : HypervisorCluster → List Condition → HypervisorCluster
with_conditions cluster conditions = record cluster {
  status = record (cluster.status) { conditions = conditions };
}

-- The provider is asked by the spec of the cluster.
provider-view :
    {W : Type 0} (factory : Option (ClientFactory W)) (template : HypervisorMachineTemplate)
    (cluster : HypervisorCluster) (conditions : List Condition) (w : W)
    → validate_with_provider factory template cluster w
      ≡ validate_with_provider factory template (with_conditions cluster conditions) w
unfolding validate_with_provider provider_config
provider-view none template cluster conditions w = refl
provider-view (some factory) template cluster conditions w = refl

-- Where the conditions of a cluster have distinct types and stand for a map in which Ready was set,
-- and then another type, in whatever order the list holds them: if the status that was set for
-- Ready is True, the template is validated with its provider and marked by what comes of it; else
-- it is rejected with the reason ClusterNotReady, and nothing is called. Nothing else of the
-- conditions matters.
pub validate_against-view :
    {W : Type 0} (k : KubeClient W) (factory : Option (ClientFactory W))
    (template : HypervisorMachineTemplate) (cluster : HypervisorCluster)
    (conditions : List Condition) (c d : Condition) (m : ConditionMap) (now : Time) (w : W)
    → NodupTypes conditions
    → view conditions ≡ set d (set c m)
    → (c.type == text "Ready") ≡ true
    → (d.type == text "Ready") ≡ false
    → let (o, w') = validate_with_provider factory template cluster w in
      validate_against k factory template (with_conditions cluster conditions) now w ≡ (
        if is_true c.status then (after_provider k factory now template o, w') else (
          returns (
              rejected now
                (text "ClusterNotReady")
                (text "Referenced HypervisorCluster is not ready")
                template),
          w,
        ))
unfolding validate_against is_cluster_ready
validate_against-view k factory template cluster conditions c d m now w nodup same mine other =
    rw
      (
        holds-set (text "Ready") c d m conditions nodup same mine other,
        provider-view factory template cluster conditions w,
      )
      refl
