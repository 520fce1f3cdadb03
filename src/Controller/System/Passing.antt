-- ===== src/Controller/System/Passing.antt =====
-- A validation that can pass does, and what is stored then.
use hyperfleet_controller.Base.{
  Text, ◌≡◌, refl, ap, ◌∙◌, inl, inr, true, none, some, arith, Result, ok, err,
}
use hyperfleet_controller.Api.Meta.{Time}
use hyperfleet_controller.Api.Conditions.{NodupTypes, holds}
use hyperfleet_controller.Api.Cluster.{HypervisorCluster}
use hyperfleet_controller.Api.Template.{HypervisorMachineTemplate}
use hyperfleet_controller.Provider.{ClientConfig, AuthConfig, ClientFactory, HypervisorClient}
use hyperfleet_controller.Controller.Kube.{KubeClient, IsLawful, ReconcileResult, key_of}
use hyperfleet_controller.Controller.Template.{
  provider_config, provider_auth, Outcome, returns, panics, Validated, condition_template_valid,
  cluster_key, check_template, check_with_client, validate_with_provider, validate_template,
  update_status,
}
use hyperfleet_controller.Controller.Template.Validation.{
  Verdict, valid, Passes, Concludes, validate_template-Concludes,
}
use hyperfleet_controller.Controller.Template.Reconcile.{finish}
use hyperfleet_controller.Controller.System.Soundness.{Verdict-spec}
use hyperfleet_controller.Controller.System.Worlds.{finish_world}

-- The factory has a client for each request on this provider.
abbrev pub Accepts : {W : Type 0} → ClientFactory W → Text → Type 0
Accepts {W} factory provider =
    (config : ClientConfig) (auth : AuthConfig) (w : W)
    → (client : HypervisorClient W) × ((factory.create_client provider (some config) (some auth)
          w).0
        ≡ ok client)

-- What validation writes on a template that passes.
pub record IsValid (t : HypervisorMachineTemplate) : Type 0 where
  pub valid : holds condition_template_valid t.status.conditions ≡ true
  pub available : t.status.template_available ≡ true

pub accepted :
    {W : Type 0} (factory : ClientFactory W) (t : HypervisorMachineTemplate) (c : HypervisorCluster)
    (w : W)
    → Accepts factory c.spec.provider
    → check_template t ≡ none
    → (validate_with_provider (some factory) t c w).0 ≡ returns none
unfolding validate_with_provider check_with_client
accepted factory t c w accepts check =
    let (client, e) = accepts (provider_config c) provider_auth w in
    let after =
      (factory.create_client c.spec.provider (some (provider_config c)) (some provider_auth) w).1 in
    ap (λ r. returns (check_with_client t r after).0) e ∙ ap returns check

Verdict-IsValid :
    (before after : HypervisorMachineTemplate) → Verdict before after true → IsValid after
Verdict-IsValid before after (valid n h a v spec meta) = record { valid = h; available = a }

pub cluster_key-same :
    (a b : HypervisorMachineTemplate)
    → a.spec ≡ b.spec
    → key_of a.meta ≡ key_of b.meta
    → cluster_key a ≡ cluster_key b
unfolding cluster_key
cluster_key-same a b spec meta =
    ap (λ s. cluster_key (record a { spec = s })) spec
    ∙ ap (λ n. cluster_key (record b { meta = record (b.meta) { namespace = n } }))
        (ap (λ x. x.namespace) meta)

module _ {W : Type 0} (k : KubeClient W) (factory : ClientFactory W) where
  -- A validation that can pass does.
  pub validates :
      (t : HypervisorMachineTemplate) (now : Time) (w : W)
      → NodupTypes t.status.conditions
      → Passes k (some factory) t w
      → (result : ReconcileResult) × (after : HypervisorMachineTemplate) × ((validate_template k
            (some factory)
            t
            now
            w).0
          ≡ returns (ok (result, after)))
        × IsValid after
        × (after.meta ≡ t.meta)
  validates t now w nodup passes =
      by_outcome _ refl (validate_template-Concludes k (some factory) t w now nodup)
    where
      by_outcome :
          (o : Outcome Validated)
          → (validate_template k (some factory) t now w).0 ≡ o
          → Concludes k (some factory) t w o
          → (result : ReconcileResult) × (after : HypervisorMachineTemplate) × ((validate_template k
                (some factory)
                t
                now
                w).0
              ≡ returns (ok (result, after)))
            × IsValid after
            × (after.meta ≡ t.meta)
      by_outcome panics p c = absurd (cc c.missing)
      by_outcome (returns (err e)) p c = absurd (cc (c.0, passes.found))
      by_outcome (returns (ok (result, after))) p (later, inl (q, v)) =
          (result, after, p, Verdict-IsValid t after v, (Verdict-spec t after true v).1)
      by_outcome (returns (ok (result, after))) p (later, inr (fails, v)) = absurd (fails passes)

  finish-ok :
      (result : ReconcileResult) (after : HypervisorMachineTemplate) (time : Time) (w : W)
      → (update_status k (some factory) after time w).0 ≡ none
      → (finish k (some factory) (returns (ok (result, after))) time w).0 ≡ returns (ok result)
  unfolding finish
  finish-ok result after time w h = ground arith

  -- What Reconcile returns and stores for a template that was found valid.
  pub finish-stored :
      (law : IsLawful k) (result : ReconcileResult) (after : HypervisorMachineTemplate)
      (time : Time) (w : W) (out : Outcome (Result ReconcileResult) × W)
      → IsValid after
      → (update_status k (some factory) after time w).0 ≡ none
      → out ≡ finish k (some factory) (returns (ok (result, after))) time w
      → (out.0 ≡ returns (ok result))
        × (d : HypervisorMachineTemplate) × (k.get_template (key_of after.meta) out.1 ≡ ok d)
        × IsValid d
  unfolding update_status
  finish-stored law result after time w out is_valid stored same =
      let new = record after { status = record (after.status) { last_validated = some time } } in
      let (d, get, status) = law.template_status_stored new w stored in
      let left : out.1 ≡ (k.update_template_status new w).1 =
        ap (λ r. r.1) same ∙ finish_world k (some factory) result after time w in
      (
        ap (λ r. r.0) same ∙ finish-ok result after time w stored,
        d,
        ap (k.get_template (key_of after.meta)) left ∙ get,
        record {
          valid = ap (λ s. holds condition_template_valid s.conditions) status ∙ is_valid.valid;
          available = ap (λ s. s.template_available) status ∙ is_valid.available;
        },
      )
