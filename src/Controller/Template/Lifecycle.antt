-- ===== src/Controller/Template/Lifecycle.antt =====
-- The finalizer of a template, and the order of the steps of its reconciliation.
use hyperfleet_controller.Base.{
  Text, sym, ◌==◌, ==_refl, ◌≡◌, refl, ◌∙◌, ap, true, false, Option, none, some, List, arith,
  if◌then◌else◌, Err, Result, ok, err, M,
}
use hyperfleet_controller.Api.Meta.{Time, NamespacedName}
use hyperfleet_controller.Api.Template.{HypervisorMachineTemplate}
use hyperfleet_controller.Provider.{ClientFactory}
use hyperfleet_controller.Controller.Kube.{
  KubeClient, IsLawful, FinalizerUtil, FinalizerLaws, key_of, ReconcileResult, no_requeue,
}
use hyperfleet_controller.Controller.Template.{
  finalizer_name, is_zero, Outcome, returns, validate_template,
}
use hyperfleet_controller.Controller.Template.Reconcile.{
  finish, update_then, handle_deletion, add_finalizer, reconcile_template, reconcile,
}

abbrev pub needs_finalizer : ReconcileResult
needs_finalizer = record { requeue = true; requeue_after = 0 }

abbrev pub with_finalizers : HypervisorMachineTemplate → List Text → HypervisorMachineTemplate
with_finalizers template finalizers = record template {
  meta = record (template.meta) { finalizers = finalizers };
}

-- What an update returns, as the end of a reconciliation.
abbrev pub updated :
    {W : Type 0} → ReconcileResult → M W Err → W → Outcome (Result ReconcileResult) × W
updated result update w =
    (returns (elim (update w).0 [ some e ↦ err e | none ↦ ok result ]), (update w).1)

module _ {W : Type 0} (k : KubeClient W) (factory : Option (ClientFactory W)) (util : FinalizerUtil)
    (checked validated : Time) where
  update_then_lem :
      (result : ReconcileResult) (template : HypervisorMachineTemplate) (w : W)
      → update_then k factory result template w ≡ updated result (k.update_template template) w
  unfolding update_then
  update_then_lem result template w = ground arith

  module _ (laws : FinalizerLaws util) (key : NamespacedName) (w : W)
      (template : HypervisorMachineTemplate) (found : k.get_template key w ≡ ok template) where
    reconcile-found :
        reconcile k factory util key checked validated w
        ≡ reconcile_template k factory util template checked validated w
    unfolding reconcile
    reconcile-found = ground arith

    -- A template that is being deleted is not validated: one update is made, with the finalizers
    -- that it had except the reconciler's own, and the reconciliation ends with what the update
    -- returns.
    pub reconcile-deletion :
        is_zero template.meta.deletion_timestamp ≡ false
        → (finalizers : List Text) × (reconcile k factory util key checked validated w
            ≡ updated no_requeue (k.update_template (with_finalizers template finalizers)) w)
          × ((g : Text)
              → util.contains finalizers g
                ≡ (if finalizer_name == g then false else util.contains template.meta.finalizers g))
    unfolding reconcile_template handle_deletion
    reconcile-deletion deleted =
        let finalizers = util.remove template.meta.finalizers finalizer_name in
        (
          finalizers,
          reconcile-found
              ∙ rw (deleted, reconcile_template, handle_deletion)
                  (update_then_lem no_requeue (with_finalizers template finalizers) w),
          laws.contains-remove template.meta.finalizers finalizer_name,
        )

    module _ (alive : is_zero template.meta.deletion_timestamp ≡ true) where
      -- A template that is not being deleted and lacks the reconciler's finalizer is not validated:
      -- one update is made, with the finalizers that it had and the reconciler's, and the
      -- reconciliation asks to be called again at once or ends with the error of the update.
      pub reconcile-adds :
          util.contains template.meta.finalizers finalizer_name ≡ false
          → reconcile k factory util key checked validated w ≡ (
              updated needs_finalizer
                (k.update_template
                  (with_finalizers template (util.add template.meta.finalizers finalizer_name)))
                w)
      unfolding reconcile_template add_finalizer
      reconcile-adds absent =
          reconcile-found
          ∙ rw (alive, reconcile_template, absent, add_finalizer)
              (update_then_lem needs_finalizer
                (with_finalizers template (util.add template.meta.finalizers finalizer_name)) w)

      pub reconcile-finalizer :
          util.contains template.meta.finalizers finalizer_name ≡ false
          → (finalizers : List Text) × (reconcile k factory util key checked validated w
              ≡ updated needs_finalizer (k.update_template (with_finalizers template finalizers)) w)
            × ((g : Text)
                → util.contains finalizers g ≡ (
                    if finalizer_name == g then true else util.contains template.meta.finalizers g))
      reconcile-finalizer absent = (
        util.add template.meta.finalizers finalizer_name,
        reconcile-adds absent,
        laws.contains-add template.meta.finalizers finalizer_name,
      )

      -- A template with the finalizer is validated, and the reconciliation ends with what comes of
      -- the validation.
      pub reconcile-validates :
          util.contains template.meta.finalizers finalizer_name ≡ true
          → reconcile k factory util key checked validated w ≡ (
              let o = validate_template k factory template checked w in
              finish k factory o.0 validated o.1)
      unfolding reconcile_template
      reconcile-validates present = reconcile-found ∙ rw (alive, present)

pub updated-none :
    {W : Type 0} (result other : ReconcileResult) (update : M W Err) (w : W)
    → (updated result update w).0 ≡ returns (ok other)
    → (update w).0 ≡ none
updated-none result other update w h = ground arith

-- With a lawful API server and finalizer utility: for a template that is not being deleted and
-- lacks the finalizer, once the update that sets it succeeds, the next reconciliation finds the
-- template with the finalizer and the same spec, and validates it.
pub reconcile-twice :
    {W : Type 0} (k : KubeClient W) (factory : Option (ClientFactory W)) (util : FinalizerUtil)
    (checked validated : Time)
    → FinalizerLaws util
    → IsLawful k
    → (w : W) (template : HypervisorMachineTemplate)
    → let key = key_of template.meta in
      k.get_template key w ≡ ok template
      → template.meta.deletion_timestamp ≡ none
      → util.contains template.meta.finalizers finalizer_name ≡ false
      → (reconcile k factory util key checked validated w).0 ≡ returns (ok needs_finalizer)
      → let w' = (reconcile k factory util key checked validated w).1 in
        (d : HypervisorMachineTemplate) × (k.get_template key w' ≡ ok d)
        × (d.spec ≡ template.spec)
        × (util.contains d.meta.finalizers finalizer_name ≡ true)
        × (reconcile k factory util key checked validated w' ≡ (
            let o = validate_template k factory d checked w' in finish k factory o.0 validated o.1))
reconcile-twice k factory util checked validated laws law w template found alive absent added =
    let key = key_of template.meta in
    let after = (reconcile k factory util key checked validated w).1 in
    let (finalizers, made, contains) =
      reconcile-finalizer k factory util checked validated laws key w template found (rw alive refl)
        absent in
    let new = with_finalizers template finalizers in
    let update = k.update_template new in
    let stored =
      updated-none needs_finalizer needs_finalizer update w (sym (ap (λ r. r.0) made) ∙ added) in
    let (d, get, fs, deletion, spec) = law.template_stored new w stored alive in
    let get' : k.get_template key after ≡ ok d = ap (λ r. k.get_template key r.1) made ∙ get in
    let present : util.contains d.meta.finalizers finalizer_name ≡ true =
      rw fs (contains finalizer_name ∙ rw (==_refl finalizer_name)) in
    (
      d,
      get',
      spec,
      present,
      reconcile-validates k factory util checked validated laws key after d get' (rw deletion refl)
          present,
    )
