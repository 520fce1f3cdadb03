-- ===== src/Controller/System/Soundness.antt =====
-- Every step keeps the stored statuses true.
use mathlib.Core.Path.{subst}
use hyperfleet_controller.Base.{
  Text, ◌≡◌, refl, sym, ap, ◌∙◌, inl, inr, Bool, true, false, Option, none, some, List, arith, ok,
}
use hyperfleet_controller.Api.Meta.{Time, NamespacedName}
use hyperfleet_controller.Api.Conditions.{NodupTypes, holds}
use hyperfleet_controller.Api.Cluster.{HypervisorCluster}
use hyperfleet_controller.Api.Template.{HypervisorMachineTemplate}
use hyperfleet_controller.Provider.{ClientFactory}
use hyperfleet_controller.Controller.Kube.{KubeClient, key_of, ReconcileResult}
use hyperfleet_controller.Controller.Store.{SameObjects, IsStore}
use hyperfleet_controller.Controller.Template.{
  returns, condition_template_valid, check_template, check_with_client, validate_with_provider,
}
use hyperfleet_controller.Controller.Template.Validation.{Concludes, Verdict, valid, invalid}
use hyperfleet_controller.Controller.Template.Lifecycle.{with_finalizers}
use hyperfleet_controller.Controller.System.{IsSound, AllSound}

pub ok-injective : {A : Type 0} {a b : A} → ok a ≡ ok b → a ≡ b
ok-injective h = cc

pub check_template-spec :
    (a b : HypervisorMachineTemplate) → a.spec ≡ b.spec → check_template a ≡ check_template b
unfolding check_template
check_template-spec a b h = ap (λ s. check_template (record a { spec = s })) h

-- Soundness is a matter of the spec and the status.
pub IsSound-same :
    (a b : HypervisorMachineTemplate)
    → b.spec ≡ a.spec
    → b.status ≡ a.status
    → IsSound a
    → IsSound b
IsSound-same a b spec status h = record {
  nodup = subst (λ s. NodupTypes s.conditions) (sym status) h.nodup;
  valid = λ e.
      check_template-spec b a spec
      ∙ h.valid (ap (λ s. holds condition_template_valid s.conditions) (sym status) ∙ e);
  available = λ e.
      check_template-spec b a spec ∙ h.available (ap (λ s. s.template_available) (sym status) ∙ e);
}

pub accepted-check_template :
    {W : Type 0} (factory : Option (ClientFactory W)) (t : HypervisorMachineTemplate)
    (c : HypervisorCluster) (w : W)
    → (validate_with_provider factory t c w).0 ≡ returns none
    → check_template t ≡ none
unfolding validate_with_provider check_with_client
accepted-check_template none t c w h = cc
accepted-check_template (some factory) t c w h = ground arith

pub Verdict-IsSound :
    (before after : HypervisorMachineTemplate) (b : Bool)
    → (b ≡ true → check_template before ≡ none)
    → Verdict before after b
    → IsSound before
    → IsSound after
Verdict-IsSound before after b passes (valid n h a v spec meta) s =
    let checked = check_template-spec after before spec ∙ passes refl in
    record { nodup = n; valid = λ e. checked; available = λ e. checked }
Verdict-IsSound before after b passes (invalid n h a v spec meta) s = record {
  nodup = n;
  valid = λ e. cc;
  available = λ e. check_template-spec after before spec ∙ s.available (sym a ∙ e);
}

pub Verdict-spec :
    (before after : HypervisorMachineTemplate) (b : Bool)
    → Verdict before after b
    → (after.spec ≡ before.spec) × (after.meta ≡ before.meta)
Verdict-spec before after b (valid n h a v spec meta) = (spec, meta)
Verdict-spec before after b (invalid n h a v spec meta) = (spec, meta)

-- The status update writes when it was made, which is no matter of soundness.
pub last_validated-IsSound :
    (t : HypervisorMachineTemplate) (now : Time)
    → IsSound t
    → IsSound (record t { status = record (t.status) { last_validated = some now } })
unfolding check_template
last_validated-IsSound t now sound = record {
  nodup = sound.nodup;
  valid = sound.valid;
  available = sound.available;
}

-- A validation leaves a sound template sound, and its spec and its metadata as they were.
pub Concludes-IsSound :
    {W : Type 0} (k : KubeClient W) (factory : Option (ClientFactory W))
    (t : HypervisorMachineTemplate) (w : W)
    → IsSound t
    → (result : ReconcileResult) (after : HypervisorMachineTemplate)
    → Concludes k factory t w (returns (ok (result, after)))
    → IsSound after × (after.spec ≡ t.spec) × (after.meta ≡ t.meta)
Concludes-IsSound k factory t w sound result after (same, inl (passes, verdict)) =
    let checked = accepted-check_template factory t passes.cluster w passes.accepted in
    let (spec, meta) = Verdict-spec t after true verdict in
    (Verdict-IsSound t after true (λ e. checked) verdict sound, spec, meta)
Concludes-IsSound k factory t w sound result after (same, inr (fails, verdict)) =
    let (spec, meta) = Verdict-spec t after false verdict in
    (Verdict-IsSound t after false (λ e. cc) verdict sound, spec, meta)

module _ {W : Type 0} (k : KubeClient W) (store : IsStore k) where
  pub AllSound-same : (w w' : W) → SameObjects k w w' → AllSound k w → AllSound k w'
  AllSound-same w w' same h = record {
    templates = λ key t e. h.templates key t (sym (same.templates key) ∙ e);
    clusters = λ key c e. h.clusters key c (sym (same.clusters key) ∙ e);
  }

  pub AllSound-cluster_status :
      (c : HypervisorCluster) (w : W)
      → NodupTypes c.status.conditions
      → AllSound k w
      → AllSound k (k.update_cluster_status c w).1
  AllSound-cluster_status c w nodup h = record {
    templates = λ key t e. h.templates key t (sym (store.cluster_status c w key).0 ∙ e);
    clusters = λ key d e. elim (store.cluster_status c w key).1 [
      | inl same ↦ h.clusters key d (sym same ∙ e)
      | inr written ↦
          let status : d.status ≡ c.status =
            ap (λ x. x.status) (ok-injective (sym e ∙ written.left)) ∙ written.status in
          subst (λ s. NodupTypes s.conditions) (sym status) nodup
    ];
  }

  -- What is stored at a key under two names is one template.
  found_once :
      (key other : NamespacedName) (w : W) (t u : HypervisorMachineTemplate)
      → k.get_template key w ≡ ok t
      → key_of t.meta ≡ other
      → k.get_template other w ≡ ok u
      → u ≡ t
  found_once key other w t u found named e =
      let same : key ≡ other = sym (store.template_name key w t found) ∙ named in
      ok-injective (sym e ∙ ap (λ x. k.get_template x w) (sym same) ∙ found)

  module _ (key : NamespacedName) (w : W) (t : HypervisorMachineTemplate)
      (found : k.get_template key w ≡ ok t) (h : AllSound k w) where
    pub AllSound-template_update :
        (finalizers : List Text) → AllSound k (k.update_template (with_finalizers t finalizers) w).1
    AllSound-template_update finalizers =
        let new = with_finalizers t finalizers in
        record {
          templates = λ other d e. elim (store.template_update new w other).1 [
            | inl same ↦ h.templates other d (sym same ∙ e)
            | inr (inr gone) ↦ absurd (cc (gone.gone, e))
            | inr (inl written) ↦
                let before =
                  found_once key other w t written.before found written.named written.found in
                let same = ok-injective (sym e ∙ written.left) in
                IsSound-same t d (ap (λ x. x.spec) same ∙ written.spec)
                  (ap (λ x. x.status) same ∙ written.status ∙ ap (λ x. x.status) before)
                  (h.templates key t found)
          ];
          clusters =
              λ other c e. h.clusters other c (sym (store.template_update new w other).0 ∙ e);
        }

    pub AllSound-template_status :
        (new : HypervisorMachineTemplate)
        → new.spec ≡ t.spec
        → new.meta ≡ t.meta
        → IsSound new
        → AllSound k (k.update_template_status new w).1
    AllSound-template_status new spec meta sound = record {
      templates = λ other d e. elim (store.template_status new w other).1 [
        | inl same ↦ h.templates other d (sym same ∙ e)
        | inr written ↦
            let named = ap key_of (sym meta) ∙ written.named in
            let before = found_once key other w t written.before found named written.found in
            let same = ok-injective (sym e ∙ written.left) in
            IsSound-same new d
              (ap (λ x. x.spec) same ∙ written.spec ∙ ap (λ x. x.spec) before ∙ sym spec)
              (ap (λ x. x.status) same ∙ written.status) sound
      ];
      clusters = λ other c e. h.clusters other c (sym (store.template_status new w other).0 ∙ e);
    }
