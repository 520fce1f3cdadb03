-- ===== src/Controller/Template/Roundtrip.antt =====
-- A template gets the finalizer and loses it again: what becomes of its other finalizers.
use mathlib.Core.Path.{subst}
use hyperfleet_controller.Base.{
  Text, ◌==◌, ==_iff, ◌≡◌, refl, sym, ap, ◌∙◌, true, false, Option, none, List, if◌then◌else◌,
  Bool-cases, inl, inr, ok,
}
use hyperfleet_controller.Api.Meta.{Time}
use hyperfleet_controller.Api.Template.{HypervisorMachineTemplate}
use hyperfleet_controller.Provider.{ClientFactory}
use hyperfleet_controller.Controller.Kube.{
  KubeClient, IsLawful, FinalizerUtil, FinalizerLaws, key_of, no_requeue,
}
use hyperfleet_controller.Controller.Template.{finalizer_name, is_zero, returns}
use hyperfleet_controller.Controller.Template.Reconcile.{reconcile}
use hyperfleet_controller.Controller.Template.Lifecycle.{
  needs_finalizer, with_finalizers, updated, updated-none, reconcile-finalizer, reconcile-deletion,
}

-- The finalizers of a template that was found without the reconciler's, after the reconciliation
-- that sets it and after the one that removes it.
restored :
    (util : FinalizerUtil) (before during after : List Text)
    → util.contains before finalizer_name ≡ false
    → ((g : Text)
        → util.contains during g ≡ (if finalizer_name == g then true else util.contains before g))
    → ((g : Text)
        → util.contains after g ≡ (if finalizer_name == g then false else util.contains during g))
    → (g : Text) → util.contains after g ≡ util.contains before g
restored util before during after absent added removed g = elim (Bool-cases (finalizer_name == g)) [
  | inl e ↦
      removed g
      ∙ rw e
          (sym (subst (λ x. util.contains before x ≡ false) ((==_iff finalizer_name g).0 e) absent))
  | inr e ↦ removed g ∙ rw e (added g ∙ rw e refl)
]

module _ {W : Type 0} (k : KubeClient W) (factory : Option (ClientFactory W)) (util : FinalizerUtil)
    (checked validated : Time) (laws : FinalizerLaws util) (law : IsLawful k) where
  -- With a lawful API server and finalizer utility: for a template that lacks the reconciler's
  -- finalizer and gets it from a reconciliation that succeeds, the reconciliation that finds it
  -- deleted, with the finalizers that were stored then, makes one update, which leaves it exactly
  -- the finalizers that it had at first.
  pub finalizer_roundtrip :
      (w : W) (template : HypervisorMachineTemplate)
      → let key = key_of template.meta in
        k.get_template key w ≡ ok template
        → template.meta.deletion_timestamp ≡ none
        → util.contains template.meta.finalizers finalizer_name ≡ false
        → (reconcile k factory util key checked validated w).0 ≡ returns (ok needs_finalizer)
        → (stored deleted : HypervisorMachineTemplate) (later : W)
        → k.get_template key (reconcile k factory util key checked validated w).1 ≡ ok stored
        → k.get_template key later ≡ ok deleted
        → deleted.meta.finalizers ≡ stored.meta.finalizers
        → is_zero deleted.meta.deletion_timestamp ≡ false
        → (finalizers : List Text) × (reconcile k factory util key checked validated later
            ≡ updated no_requeue (k.update_template (with_finalizers deleted finalizers)) later)
          × ((g : Text) → util.contains finalizers g ≡ util.contains template.meta.finalizers g)
  finalizer_roundtrip w template found alive absent added stored deleted later get get_later same
        gone =
      let key = key_of template.meta in
      let (during, made, contains) =
        reconcile-finalizer k factory util checked validated laws key w template found
          (rw alive refl) absent in
      let new = with_finalizers template during in
      let written =
        updated-none needs_finalizer needs_finalizer (k.update_template new) w
          (sym (ap (λ r. r.0) made) ∙ added) in
      let (d, get_new, fs, deletion, spec) = law.template_stored new w written alive in
      let read : stored ≡ d = cc (get, ap (λ r. k.get_template key r.1) made, get_new) in
      let finalizers_then : deleted.meta.finalizers ≡ during =
        same ∙ ap (λ x. x.meta.finalizers) read ∙ fs in
      let (finalizers, removed, contains_then) =
        reconcile-deletion k factory util checked validated laws key later deleted get_later gone in
      (
        finalizers,
        removed,
        restored util template.meta.finalizers during finalizers absent contains (
            subst
              (λ fs'.
                (g : Text)
                → util.contains finalizers g
                  ≡ (if finalizer_name == g then false else util.contains fs' g))
              finalizers_then contains_then),
      )
