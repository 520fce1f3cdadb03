-- ===== src/Controller/Template/Requeue.antt =====
-- The requests that the reconciler of the templates puts back into its queue at once.
use mathlib.Core.Path.{subst}
use hyperfleet_controller.Base.{
  ℕ, suc, ◌≤◌, ==_refl, ◌≡◌, refl, sym, ap, ◌∙◌, Bool, true, false, Option, none, arith, Bool-cases,
  inl, inr, is_not_found, Result, Err, M, ok, err,
}
use hyperfleet_controller.Api.Meta.{Time, NamespacedName}
use hyperfleet_controller.Api.Template.{HypervisorMachineTemplate}
use hyperfleet_controller.Provider.{ClientFactory}
use hyperfleet_controller.Controller.Kube.{
  KubeClient, IsLawful, FinalizerUtil, FinalizerLaws, ReconcileResult,
}
use hyperfleet_controller.Controller.Store.{IsStore}
use hyperfleet_controller.Controller.Template.{
  finalizer_name, is_zero, Outcome, returns, panics, Validated, validate_with_provider,
  validate_against, validate_template,
}
use hyperfleet_controller.Controller.Template.Reconcile.{
  finish, update_then, handle_deletion, reconcile_template, reconcile,
}
use hyperfleet_controller.Controller.Template.Lifecycle.{
  needs_finalizer, with_finalizers, updated, reconcile-finalizer,
}

-- The reconciliation has asked to be called again at once.
abbrev pub requeues : Outcome (Result ReconcileResult) → Bool
requeues (returns (ok result)) = result.requeue
requeues (returns (err e)) = false
requeues panics = false

abbrev later_requeues : Outcome Validated → Bool
later_requeues (returns (ok (result, template))) = result.requeue
later_requeues _ = false

updated-requeues :
    {W : Type 0} (update : M W Err) (w : W)
    → requeues (updated needs_finalizer update w).0 ≡ true
    → (update w).0 ≡ none
updated-requeues update w h = ground arith

module _ {W : Type 0} (k : KubeClient W) (factory : Option (ClientFactory W))
    (util : FinalizerUtil) where
  validate_template-requeues :
      (template : HypervisorMachineTemplate) (now : Time) (w : W)
      → later_requeues (validate_template k factory template now w).0 ≡ false
  unfolding validate_template validate_against validate_with_provider
  validate_template-requeues template now w = ground arith

  finish-requeues :
      (o : Outcome Validated) (now : Time) (w : W)
      → later_requeues o ≡ false
      → requeues (finish k factory o now w).0 ≡ false
  unfolding finish
  finish-requeues panics now w h = refl
  finish-requeues (returns (err e)) now w h = refl
  finish-requeues (returns (ok (result, template))) now w h = ground arith

  -- A template that a request asks to reconcile and that the reconciler is to protect first.
  record Unprotected (key : NamespacedName) (w : W) : Type 0 where
    template : HypervisorMachineTemplate
    found : k.get_template key w ≡ ok template
    alive : is_zero template.meta.deletion_timestamp ≡ true
    absent : util.contains template.meta.finalizers finalizer_name ≡ false

  module _ (key : NamespacedName) (checked validated : Time) (w : W) where
    template_requeues :
        (template : HypervisorMachineTemplate)
        → requeues (reconcile_template k factory util template checked validated w).0 ≡ true
        → (is_zero template.meta.deletion_timestamp ≡ true)
          × (util.contains template.meta.finalizers finalizer_name ≡ false)
    unfolding reconcile_template handle_deletion update_then
    template_requeues template asked =
        let o = validate_template k factory template checked w in
        ground
          (arith, finish-requeues o.0 validated o.1 (validate_template-requeues template checked w))

    result_requeues :
        (r : Result HypervisorMachineTemplate)
        → k.get_template key w ≡ r
        → requeues (reconcile k factory util key checked validated w).0 ≡ true
        → Unprotected key w
    unfolding reconcile
    result_requeues (err e) got asked = elim (Bool-cases (is_not_found e)) [
      | inl h ↦ cc
      | inr h ↦ cc
    ]
    result_requeues (ok template) got asked =
        let step : reconcile k factory util key checked validated w
            ≡ reconcile_template k factory util template checked validated w =
          rw (reconcile, got) refl in
        let (alive, absent) =
          template_requeues template (sym (ap (λ r. requeues r.0) step) ∙ asked) in
        record { template = template; found = got; alive = alive; absent = absent }

    requeues-Unprotected :
        requeues (reconcile k factory util key checked validated w).0 ≡ true → Unprotected key w
    requeues-Unprotected = result_requeues (k.get_template key w) refl

  -- What others do between two reconciliations: none takes the finalizer from a template.
  pub record KeepsFinalizers (w w' : W) : Type 0 where
    pub kept :
        (key : NamespacedName) (old new : HypervisorMachineTemplate)
        → k.get_template key w ≡ ok old
        → util.contains old.meta.finalizers finalizer_name ≡ true
        → k.get_template key w' ≡ ok new
        → util.contains new.meta.finalizers finalizer_name ≡ true

  -- A request that is reconciled `n` times in a row because each reconciliation before asked for it,
  -- while others change what they will but the finalizers.
  pub data Requeued (key : NamespacedName) : ℕ → W → Type 0 where
    first : {w : W} → Requeued key 0 w
    again :
        {n : ℕ} {w w' : W} (checked validated : Time)
        → requeues (reconcile k factory util key checked validated w).0 ≡ true
        → KeepsFinalizers (reconcile k factory util key checked validated w).1 w'
        → Requeued key n w'
        → Requeued key (suc n) w

  module _ (laws : FinalizerLaws util) (law : IsLawful k) (store : IsStore k)
      (key : NamespacedName) where
    -- A reconciliation that asks to be called again has stored the finalizer.
    requeues-stores :
        (checked validated : Time) (w : W)
        → ((t : HypervisorMachineTemplate)
            → k.get_template key w ≡ ok t
            → is_zero t.meta.deletion_timestamp ≡ true
            → t.meta.deletion_timestamp ≡ none)
        → requeues (reconcile k factory util key checked validated w).0 ≡ true
        → (d : HypervisorMachineTemplate) × (k.get_template key
              (reconcile k factory util key checked validated w).1
            ≡ ok d)
          × (util.contains d.meta.finalizers finalizer_name ≡ true)
    requeues-stores checked validated w times asked =
        let u = requeues-Unprotected key checked validated w asked in
        let template = u.template in
        let (finalizers, made, contains) =
          reconcile-finalizer k factory util checked validated laws key w template u.found u.alive
            u.absent in
        let new = with_finalizers template finalizers in
        let stored : (k.update_template new w).0 ≡ none =
          updated-requeues (k.update_template new) w (sym (ap (λ r. requeues r.0) made) ∙ asked) in
        let (d, get, fs, deletion, spec) =
          law.template_stored new w stored (times template u.found u.alive) in
        (
          d,
          ap (λ r. k.get_template key r.1) made
              ∙ subst (λ x. k.get_template x (k.update_template new w).1 ≡ ok d)
                  (store.template_name key w template u.found) get,
          rw fs (contains finalizer_name ∙ rw (==_refl finalizer_name)),
        )

    -- With a lawful API server and finalizer utility, while no one takes the finalizer away: the
    -- reconciler asks at most once to be called again at once, whatever it finds and whatever its
    -- calls return. A deletion time that the template has at first is not the zero time.
    pub reconcile-Requeued :
        (n : ℕ) (w : W)
        → ((t : HypervisorMachineTemplate)
            → k.get_template key w ≡ ok t
            → is_zero t.meta.deletion_timestamp ≡ true
            → t.meta.deletion_timestamp ≡ none)
        → Requeued key n w
        → n ≤ 1
    reconcile-Requeued n w times first = omega arith
    reconcile-Requeued n w times (again checked validated asked keeps first) = omega arith
    reconcile-Requeued n w times (again checked validated asked keeps (again c v asked' keeps' r)) =
        let (d, get, present) = requeues-stores checked validated w times asked in
        let u = requeues-Unprotected key c v _ asked' in
        cc (keeps.kept key d u.template get present u.found, u.absent)
