-- ===== src/Controller/InterleavedTests.antt =====
-- The theorems on the workers at concrete inputs: a conflict.
use mathlib.Core.Path.{subst}
use hyperfleet_controller.Base.{
  ◌≤◌, ap, ◌∙◌, text, ◌==◌, ◌≡◌, refl, sym, false, none, some, [], arith, inr, ok,
}
use hyperfleet_controller.Api.Conditions.{NodupTypes, holds}
use hyperfleet_controller.Api.Template.{HypervisorMachineTemplate}
use hyperfleet_controller.Provider.{ClientFactory}
use hyperfleet_controller.Provider.Factory.{new_client_factory}
use hyperfleet_controller.Controller.Kube.{key_of}
use hyperfleet_controller.Controller.Store.{SameObjects}
use hyperfleet_controller.Controller.Samples.{
  World, get, get_stored, versioned, proxmox, template_with, fresh, util, contains,
}
use hyperfleet_controller.Controller.SampleStore.{versioned-IsStore, versioned-IsOptimistic, get-ok}
use hyperfleet_controller.Controller.Template.{finalizer_name}
use hyperfleet_controller.Controller.Template.Reconcile.{add_finalizer, update_then}
use hyperfleet_controller.Controller.System.{UserChange, kept, IsSound}
use hyperfleet_controller.Controller.System.Preserves.{SameObjects-refl}
use hyperfleet_controller.Controller.System.Factory.{ApiLeaves, new_client_factory-FactoryLeaves}
use hyperfleet_controller.Controller.Interleaved.{
  idle, template_read, with_job, Assigned, State, Moves, none_yet, and_then, read_template,
  protect_template, users,
}
use hyperfleet_controller.Controller.Interleaved.Jobs.{IsSafe, SameObjects-Assigned}
use hyperfleet_controller.Controller.Interleaved.Invariant.{Moves-IsSafe}

unchanged :
    (w w' : World) → w'.cluster ≡ w.cluster → w'.template ≡ w.template → SameObjects versioned w w'
unchanged w w' c t = record { clusters = λ key. rw c refl; templates = λ key. rw t refl }

proxmox-ApiLeaves : ApiLeaves versioned proxmox
proxmox-ApiLeaves = record {
  new_client = λ endpoint tls timeout w. unchanged w w refl refl;
  set_api_token = λ client id secret w. unchanged w w refl refl;
  login = λ client user pass w. unchanged w w refl refl;
  get_version = λ client w. unchanged w (proxmox.get_version client w).1 refl refl;
}

abbrev factory : ClientFactory World
factory = new_client_factory proxmox

new_template : IsSound fresh.template
unfolding holds text
new_template = record { nodup = tt; valid = λ e. cc; available = λ e. cc }

abbrev start : State World
start = record { world = fresh; revision = 1; jobs = λ i. idle }

start-IsSafe : IsSafe versioned start
start-IsSafe = record {
  sound = record {
    templates = λ key t e.
        subst IsSound (sym (get-ok fresh.template.meta fresh.template t key e).1) new_template;
    clusters = λ key c e.
        subst (λ x. NodupTypes x.status.conditions)
          (sym (get-ok fresh.cluster.meta fresh.cluster c key e).1) tt;
  };
  bounded = λ key d e.
      subst (λ x. x.meta.resource_version ≤ 1)
        (sym (get-ok fresh.template.meta fresh.template d key e).1) (omega arith);
  jobs = λ i. (tt, tt);
}

abbrev plain : HypervisorMachineTemplate
plain = template_with []

plain_found : versioned.get_template (key_of plain.meta) fresh ≡ ok plain
unfolding text ◌==◌
plain_found = refl

plain_unprotected : util.contains plain.meta.finalizers finalizer_name ≡ false
unfolding contains
plain_unprotected = refl

-- A user relabels the template, which makes a second revision.
abbrev relabelled : World
relabelled = record fresh {
  template = record (fresh.template) {
    meta = record (fresh.template.meta) { resource_version = 2 };
  };
}

relabel : UserChange versioned fresh relabelled
relabel = record {
  templates = λ key t e.
      let (named, same) = get-ok relabelled.template.meta relabelled.template t key e in
      kept fresh.template
        (ap (get fresh.template.meta fresh.template) named
          ∙ get_stored fresh.template.meta fresh.template)
        (ap (λ x. x.spec) same) (ap (λ x. x.status) same);
  clusters = λ key c e. kept c e refl;
}

-- A world with another template, of a second version.
second_version : (w : World) → w.template.meta.resource_version ≡ 2 → Assigned versioned 1 2 fresh w
second_version w two = record {
  grows = omega arith;
  versions = λ key d e.
      let same = ap (λ x. x.meta.resource_version) (get-ok w.template.meta w.template d key e).1 in
      inr (omega (arith, same, two), omega (arith, same, two));
}

-- The worker sets the finalizer on the template that it has read before, which is a conflict.
conflict : (add_finalizer versioned (some factory) util plain relabelled).1 ≡ relabelled
unfolding add_finalizer update_then text ◌==◌
conflict = refl

conflict-Assigned :
    Assigned versioned 2 2 relabelled
      (add_finalizer versioned (some factory) util plain relabelled).1
conflict-Assigned = SameObjects-Assigned versioned 2 relabelled _ (
    subst (SameObjects versioned relabelled) (sym conflict) (SameObjects-refl versioned relabelled))

abbrev reading : State World
reading = record start { jobs = with_job start.jobs 0 (template_read plain) }

abbrev end : State World
end = record {
  world = (add_finalizer versioned (some factory) util plain relabelled).1;
  revision = 2;
  jobs = with_job reading.jobs 0 idle;
}

late_update : Moves versioned factory none (some factory) util start end
late_update =
    and_then
      (and_then (and_then none_yet (read_template 0 (key_of plain.meta) plain refl plain_found))
        (users 2 relabelled relabel (second_version relabelled refl)))
      (protect_template 0 2 plain refl refl plain_unprotected conflict-Assigned)

Moves-IsSafe_example : IsSafe versioned end
Moves-IsSafe_example =
    Moves-IsSafe versioned versioned-IsStore versioned-IsOptimistic factory none (some factory) util
      (new_client_factory-FactoryLeaves versioned proxmox proxmox-ApiLeaves)
      (new_client_factory-FactoryLeaves versioned proxmox proxmox-ApiLeaves) start end late_update
      start-IsSafe
