-- ===== src/Controller/Template/Validation.antt =====
-- What the validation of a template decides, and what it leaves in the status.
use hyperfleet_controller.Base.{
  zero, suc, ◌<◌, Text, text, ◌≡◌, refl, ◌⊎◌, inl, inr, ◌↔◌, Bool, true, false, Option, none, some,
  arith, ℤ, pos, negsuc, is_nonpositive, if◌then◌else◌, Error, Err, Result, ok, err, is_not_found,
}
use hyperfleet_controller.Api.Meta.{Time, condition_false}
use hyperfleet_controller.Api.Conditions.{
  holds, NodupTypes, holds-set_condition, set_condition-NodupTypes,
}
use hyperfleet_controller.Api.Cluster.{HypervisorCluster}
use hyperfleet_controller.Api.Template.{HypervisorMachineTemplate, ProxmoxTemplateSpec}
use hyperfleet_controller.Provider.{ClientFactory}
use hyperfleet_controller.Controller.Kube.{KubeClient}
use hyperfleet_controller.Controller.Template.{
  after_provider, rejected, condition_template_valid, later, Outcome, returns, panics,
  is_cluster_ready, set_template_valid_condition, cluster_key, check_proxmox, check_template,
  mark_valid, conclude, validate_with_provider, Validated, validate_against, validate_template,
}

abbrev pub IsPositive : ℤ → Type 0
IsPositive (pos n) = 0 < n
IsPositive (negsuc n) = ⊥

abbrev pub HasPositiveId : Option ProxmoxTemplateSpec → Type 0
HasPositiveId none = Unit
HasPositiveId (some proxmox) = IsPositive proxmox.template_id

IsPositive-iff : (i : ℤ) → (is_nonpositive i ≡ false) ↔ IsPositive i
unfolding is_nonpositive
IsPositive-iff (pos zero) = (λ h. cc, λ h. elim h [ ])
IsPositive-iff (pos (suc n)) = (λ h. omega arith, λ h. refl)
IsPositive-iff (negsuc n) = (λ h. cc, λ h. elim h [ ])

check_proxmox-none : (o : Option ProxmoxTemplateSpec) → (check_proxmox o ≡ none) ↔ HasPositiveId o
unfolding check_proxmox
check_proxmox-none none = (λ h. tt, λ h. refl)
check_proxmox-none (some proxmox) = ground (arith, IsPositive-iff proxmox.template_id)

-- A template passes the tests exactly if its Proxmox template ID, where it has one, and its number
-- of CPUs are positive.
pub check_template-none :
    (template : HypervisorMachineTemplate)
    → (check_template template ≡ none)
      ↔ HasPositiveId template.spec.template.proxmox × IsPositive template.spec.resources.cpu
unfolding check_template
check_template-none template = ground (
  arith,
  check_proxmox-none template.spec.template.proxmox,
  IsPositive-iff template.spec.resources.cpu,
)

-- How a validation that returns a template changed it.
pub data Verdict (before after : HypervisorMachineTemplate) : Bool → Type 0 where
  valid :
      NodupTypes after.status.conditions
      → holds condition_template_valid after.status.conditions ≡ true
      → after.status.template_available ≡ true
      → after.status.validation_status ≡ text "Valid"
      → after.spec ≡ before.spec
      → after.meta ≡ before.meta
      → Verdict before after true
  invalid :
      NodupTypes after.status.conditions
      → holds condition_template_valid after.status.conditions ≡ false
      → after.status.template_available ≡ before.status.template_available
      → after.status.validation_status ≡ before.status.validation_status
      → after.spec ≡ before.spec
      → after.meta ≡ before.meta
      → Verdict before after false

module _ (now : Time) (template : HypervisorMachineTemplate)
    (nodup : NodupTypes template.status.conditions) where
  rejected-Verdict :
      (reason message : Text)
      → Verdict template
          (set_template_valid_condition now condition_false reason message template)
          false
  unfolding set_template_valid_condition
  rejected-Verdict reason message =
      invalid (set_condition-NodupTypes _ _ nodup) (holds-set_condition _ _ nodup) refl refl refl
        refl

  mark_valid-Verdict : Verdict template (mark_valid now template) true
  unfolding mark_valid set_template_valid_condition
  mark_valid-Verdict =
      valid (set_condition-NodupTypes _ _ nodup) (holds-set_condition _ _ nodup) refl refl refl refl

validate_with_provider-panics :
    {W : Type 0} (factory : Option (ClientFactory W)) (template : HypervisorMachineTemplate)
    (cluster : HypervisorCluster) (w : W)
    → (validate_with_provider factory template cluster w).0 ≡ panics
    → factory ≡ none
unfolding validate_with_provider
validate_with_provider-panics none template cluster w h = refl
validate_with_provider-panics (some f) template cluster w h = cc

module _ {W : Type 0} (k : KubeClient W) (factory : Option (ClientFactory W)) where
  module _ (template : HypervisorMachineTemplate) (w : W) where
    -- The cluster is found, ready, and its provider accepts the template.
    pub record Passes : Type 0 where
      pub cluster : HypervisorCluster
      pub found : k.get_cluster (cluster_key template) w ≡ ok cluster
      pub ready : is_cluster_ready cluster ≡ true
      pub accepted : (validate_with_provider factory template cluster w).0 ≡ returns none

    -- The cluster is found and ready, and there is no factory to ask.
    pub record HasNoFactory : Type 0 where
      pub cluster : HypervisorCluster
      pub found : k.get_cluster (cluster_key template) w ≡ ok cluster
      pub ready : is_cluster_ready cluster ≡ true
      pub missing : factory ≡ none

    -- What each outcome means. With a result, the next check is after the interval, and the template
    -- is marked valid if it passes, and not valid if it does not.
    abbrev pub Concludes : Outcome Validated → Type 0
    Concludes panics = HasNoFactory
    Concludes (returns (err e)) =
        (k.get_cluster (cluster_key template) w ≡ err e) × (is_not_found e ≡ false)
    Concludes (returns (ok (result, after))) =
        (result ≡ later)
        × ((Passes × Verdict template after true) ⊎ (¬ Passes × Verdict template after false))

    module _ (now : Time) (nodup : NodupTypes template.status.conditions) where
      by_provider :
          (cluster : HypervisorCluster)
          → k.get_cluster (cluster_key template) w ≡ ok cluster
          → is_cluster_ready cluster ≡ true
          → (o : Outcome Err) → (validate_with_provider factory template cluster w).0 ≡ o
          → Concludes (after_provider k factory now template o)
      unfolding conclude
      by_provider cluster found ready panics p = record {
        cluster = cluster;
        found = found;
        ready = ready;
        missing = validate_with_provider-panics factory template cluster w p;
      }
      by_provider cluster found ready (returns none) p = (
        refl,
        inl (
          record { cluster = cluster; found = found; ready = ready; accepted = p },
          mark_valid-Verdict now template nodup,
        ),
      )
      by_provider cluster found ready (returns (some e)) p =
          (refl, inr ((λ q. cc (q.found, q.accepted)), rejected-Verdict now template nodup _ _))

      by_ready :
          (cluster : HypervisorCluster)
          → k.get_cluster (cluster_key template) w ≡ ok cluster
          → (b : Bool) → is_cluster_ready cluster ≡ b
          → Concludes (validate_against k factory template cluster now w).0
      unfolding validate_against
      by_ready cluster found true p = rw p (by_provider cluster found p _ refl)
      by_ready cluster found false p =
          rw p (refl, inr ((λ q. cc (q.found, q.ready)), rejected-Verdict now template nodup _ _))

      by_cluster :
          (g : Result HypervisorCluster)
          → k.get_cluster (cluster_key template) w ≡ g
          → Concludes (validate_template k factory template now w).0
      unfolding validate_template
      by_cluster (ok cluster) p = rw (p, validate_template) (by_ready cluster p _ refl)
      by_cluster (err e) p = rw (p, validate_template) (by_error e p (is_not_found e) refl)
        where
          by_error :
              (e : Error)
              → k.get_cluster (cluster_key template) w ≡ err e
              → (b : Bool) → is_not_found e ≡ b
              → Concludes (
                  returns (
                    if b
                    then rejected now
                        (text "ClusterNotFound")
                        (text "Referenced HypervisorCluster not found")
                        template
                    else err e))
          by_error e p true q =
              (refl, inr ((λ q. cc q.found), rejected-Verdict now template nodup _ _))
          by_error e p false q = (p, q)

      -- For a template whose condition types are distinct: an error is returned only where the
      -- cluster cannot be read for another reason than that it does not exist, and a panic arises
      -- only where the cluster is ready and there is no factory. Else the next check is after the
      -- interval, and the template is marked valid and available exactly if the cluster is found
      -- and ready and its provider accepts the template; else it is marked not valid, and the
      -- availability and the validation status are left as they were. Its spec and its metadata are
      -- unchanged.
      pub validate_template-Concludes : Concludes (validate_template k factory template now w).0
      validate_template-Concludes = by_cluster _ refl
