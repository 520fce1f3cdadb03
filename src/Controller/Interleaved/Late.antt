-- ===== src/Controller/Interleaved/Late.antt =====
-- Updates that a worker makes some time after it has read the template.
use native.Mathlib.Decide.{ℕ_discrete}
use hyperfleet_controller.Base.{ℕ, ◌≡◌, sym, ap, ◌∙◌, inl, inr, Text, List, ok}
use hyperfleet_controller.Api.Meta.{NamespacedName}
use hyperfleet_controller.Api.Template.{HypervisorMachineTemplate}
use hyperfleet_controller.Controller.Kube.{KubeClient, key_of}
use hyperfleet_controller.Controller.Store.{IsStore, TemplateWritten, StatusWritten}
use hyperfleet_controller.Controller.Template.Lifecycle.{with_finalizers}
use hyperfleet_controller.Controller.System.{IsSound, AllSound}
use hyperfleet_controller.Controller.System.Soundness.{ok-injective, IsSound-same}
use hyperfleet_controller.Controller.Interleaved.{IsOptimistic}
use hyperfleet_controller.Controller.Interleaved.Jobs.{IsCurrent}

module _ {W : Type 0} (k : KubeClient W) (store : IsStore k) (optimistic : IsOptimistic k) where
  -- Updates of a template that was read at some time before, with what others have done since.
  module _ (n : ℕ) (w : W) (t : HypervisorMachineTemplate) (current : IsCurrent k n w t)
      (h : AllSound k w) where
    pub late_template_update :
        (finalizers : List Text) → AllSound k (k.update_template (with_finalizers t finalizers) w).1
    late_template_update finalizers = record {
      templates = λ key d e. elim (store.template_update new w key).1 [
        | inl same ↦ h.templates key d (sym same ∙ e)
        | inr (inr gone) ↦ absurd (cc (gone.gone, e))
        | inr (inl written) ↦ after_write key d e written
      ];
      clusters = λ key c e. h.clusters key c (sym (store.template_update new w key).0 ∙ e);
    }
      where
        new : HypervisorMachineTemplate
        new = with_finalizers t finalizers

        after_write :
            (key : NamespacedName) (d : HypervisorMachineTemplate)
            → k.get_template key (k.update_template new w).1 ≡ ok d
            → TemplateWritten k new key w (k.update_template new w).1
            → IsSound d
        after_write key d e written =
            let before = written.before in
            let found = ap (λ x. k.get_template x w) written.named ∙ written.found in
            elim (ℕ_discrete before.meta.resource_version t.meta.resource_version) [
              | yes same ↦
                  let after = ok-injective (sym e ∙ written.left) in
                  IsSound-same before d
                    (ap (λ x. x.spec) after ∙ written.spec ∙ sym (current.spec before found same))
                    (ap (λ x. x.status) after ∙ written.status)
                    (h.templates key before written.found)
              | no other ↦
                  let same = optimistic.template new before w found other in
                  h.templates key d (sym (same.templates key) ∙ e)
            ]

    pub late_template_status :
        (new : HypervisorMachineTemplate)
        → new.spec ≡ t.spec
        → new.meta ≡ t.meta
        → IsSound new
        → AllSound k (k.update_template_status new w).1
    late_template_status new spec meta sound = record {
      templates = λ key d e. elim (store.template_status new w key).1 [
        | inl same ↦ h.templates key d (sym same ∙ e)
        | inr written ↦ after_write key d e written
      ];
      clusters = λ key c e. h.clusters key c (sym (store.template_status new w key).0 ∙ e);
    }
      where
        after_write :
            (key : NamespacedName) (d : HypervisorMachineTemplate)
            → k.get_template key (k.update_template_status new w).1 ≡ ok d
            → StatusWritten k new key w (k.update_template_status new w).1
            → IsSound d
        after_write key d e written =
            let before = written.before in
            let found = ap (λ x. k.get_template x w) written.named ∙ written.found in
            elim (ℕ_discrete before.meta.resource_version new.meta.resource_version) [
              | yes same ↦
                  let after = ok-injective (sym e ∙ written.left) in
                  let read =
                    current.spec before (ap (λ m. k.get_template (key_of m) w) (sym meta) ∙ found)
                      (same ∙ ap (λ m. m.resource_version) meta) in
                  IsSound-same new d (ap (λ x. x.spec) after ∙ written.spec ∙ read ∙ sym spec)
                    (ap (λ x. x.status) after ∙ written.status) sound
              | no other ↦
                  let same = optimistic.template_status new before w found other in
                  h.templates key d (sym (same.templates key) ∙ e)
            ]
