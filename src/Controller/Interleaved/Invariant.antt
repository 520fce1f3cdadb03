-- ===== src/Controller/Interleaved/Invariant.antt =====
-- The invariant of the workers, whatever comes between their calls.
use mathlib.Core.Path.{subst}
use hyperfleet_controller.Base.{
  ℕ, ◌≤◌, arith, ◌≡◌, refl, sym, ap, ◌∙◌, inl, Text, Option, List, ok, err,
}
use hyperfleet_controller.Api.Meta.{Time, NamespacedName}
use hyperfleet_controller.Api.Cluster.{HypervisorCluster}
use hyperfleet_controller.Api.Template.{HypervisorMachineTemplate}
use hyperfleet_controller.Provider.{ClientFactory}
use hyperfleet_controller.Controller.Kube.{KubeClient, FinalizerUtil, key_of}
use hyperfleet_controller.Controller.Store.{SameObjects, IsStore, FactoryLeaves}
use hyperfleet_controller.Controller.Cluster.{
  ConnectionResult, factory_of, with_result, test_connection,
}
use hyperfleet_controller.Controller.Cluster
use hyperfleet_controller.Controller.Cluster.Status.{with_result-Records}
use hyperfleet_controller.Controller.Template.{
  Outcome, returns, panics, Validated, validate_template, update_status, finalizer_name,
}
use hyperfleet_controller.Controller.Template.Validation.{Concludes, validate_template-Concludes}
use hyperfleet_controller.Controller.Template.Lifecycle.{with_finalizers}
use hyperfleet_controller.Controller.Template.Reconcile.{handle_deletion, add_finalizer}
use hyperfleet_controller.Controller.System.{IsSound, AllSound}
use hyperfleet_controller.Controller.System.Preserves.{
  OptionLeaves, SameObjects-refl, test_connection-SameObjects, validate_template-SameObjects,
}
use hyperfleet_controller.Controller.System.Soundness.{
  ok-injective, Concludes-IsSound, last_validated-IsSound, AllSound-same, AllSound-cluster_status,
}
use hyperfleet_controller.Controller.System.Worlds.{update_then_world}
use hyperfleet_controller.Controller.System.Invariant.{UserChange-AllSound}
use hyperfleet_controller.Controller.Interleaved.{
  Job, idle, template_read, template_validated, cluster_read, cluster_tested, with_job,
  after_validation, IsOptimistic, Assigned, State, Move, read_template, delete_template,
  protect_template, validate, store_template_status, read_cluster, test, store_cluster_status,
  users, Moves, none_yet, and_then,
}
use hyperfleet_controller.Controller.Interleaved.Late.{late_template_update, late_template_status}
use hyperfleet_controller.Controller.Interleaved.Jobs.{
  JobIsSound, IsCurrent, JobIsCurrent, IsSafe, SameObjects-Assigned, IsCurrent-Assigned,
  IsSafe-Assigned, IsSafe-moved,
}

module _ {W : Type 0} (k : KubeClient W) (store : IsStore k) (optimistic : IsOptimistic k)
    (default : ClientFactory W) (cluster_factory template_factory : Option (ClientFactory W))
    (util : FinalizerUtil) (cluster_leaves : FactoryLeaves k (factory_of default cluster_factory))
    (template_leaves : OptionLeaves k template_factory) where
  module _ (s : State W) (safe : IsSafe k s) where
    held :
        (i : ℕ) (job : Job)
        → s.jobs i ≡ job
        → JobIsSound job × JobIsCurrent k s.revision s.world job
    held i job p = subst (λ j. JobIsSound j × JobIsCurrent k s.revision s.world j) p (safe.jobs i)

    -- A move that leaves the objects alone.
    moved_beside :
        (w : W) (i : ℕ) (job : Job)
        → SameObjects k s.world w
        → JobIsSound job × JobIsCurrent k s.revision w job
        → IsSafe k (record s { world = w; jobs = with_job s.jobs i job })
    moved_beside w i job same here =
        IsSafe-moved k s s.revision w i job safe (SameObjects-Assigned k s.revision s.world w same)
          (AllSound-same k store s.world w same safe.sound) here

    just_read :
        (key : NamespacedName) (t : HypervisorMachineTemplate)
        → k.get_template key s.world ≡ ok t
        → IsSound t × IsCurrent k s.revision s.world t
    just_read key t found = (
      safe.sound.templates key t found,
      record {
        known = safe.bounded key t found;
        spec = λ d e same.
            let stored =
              ap (λ x. k.get_template x s.world) (store.template_name key s.world t found) in
            ap (λ x. x.spec) (ok-injective (sym e ∙ stored ∙ found));
      },
    )

    -- The worker changes the finalizers of the template that it holds.
    finalizers_moved :
        (i n : ℕ) (t : HypervisorMachineTemplate) (finalizers : List Text) (w : W)
        → s.jobs i ≡ template_read t
        → w ≡ (k.update_template (with_finalizers t finalizers) s.world).1
        → Assigned k s.revision n s.world w
        → IsSafe k (record { world = w; revision = n; jobs = with_job s.jobs i idle })
    finalizers_moved i n t finalizers w p made assigned =
        let (sound, current) = held i (template_read t) p in
        IsSafe-moved k s n w i idle safe assigned
          (subst (AllSound k) (sym made) (
            late_template_update k store optimistic s.revision s.world t current safe.sound
              finalizers))
          (tt, tt)

    status_moved :
        (i n : ℕ) (t : HypervisorMachineTemplate) (validated : Time)
        → s.jobs i ≡ template_validated t
        → let w = (update_status k template_factory t validated s.world).1 in
          Assigned k s.revision n s.world w
          → IsSafe k (record { world = w; revision = n; jobs = with_job s.jobs i idle })
    unfolding update_status
    status_moved i n t validated p assigned =
        let (sound, current) = held i (template_validated t) p in
        IsSafe-moved k s n _ i idle safe assigned
          (late_template_status k store optimistic s.revision s.world t current safe.sound _ refl
            refl (last_validated-IsSound t validated sound))
          (tt, tt)

    after_validation_lem :
        (t : HypervisorMachineTemplate) (w : W) (o : Outcome Validated)
        → IsSound t
        → IsCurrent k s.revision w t
        → Concludes k template_factory t s.world o
        → JobIsSound (after_validation o) × JobIsCurrent k s.revision w (after_validation o)
    after_validation_lem t w panics sound current c = (tt, tt)
    after_validation_lem t w (returns (err e)) sound current c = (tt, tt)
    after_validation_lem t w (returns (ok (result, after))) sound current c =
        let (sound_after, spec, meta) =
          Concludes-IsSound k template_factory t s.world sound result after c in
        (
          sound_after,
          record {
            known = subst (λ m. m.resource_version ≤ s.revision) (sym meta) current.known;
            spec = λ d e same.
                current.spec d (ap (λ m. k.get_template (key_of m) w) (sym meta) ∙ e)
                  (same ∙ ap (λ m. m.resource_version) meta)
                ∙ sym spec;
          },
        )

    validated_moved :
        (i : ℕ) (t : HypervisorMachineTemplate) (checked : Time)
        → s.jobs i ≡ template_read t
        → let o = validate_template k template_factory t checked s.world in
          IsSafe k (record s { world = o.1; jobs = with_job s.jobs i (after_validation o.0) })
    validated_moved i t checked p =
        let (sound, current) = held i (template_read t) p in
        let o = validate_template k template_factory t checked s.world in
        let same =
          validate_template-SameObjects k template_factory template_leaves t checked s.world in
        moved_beside o.1 i (after_validation o.0) same (
          after_validation_lem t o.1 o.0 sound
            (IsCurrent-Assigned k s.revision s.revision s.world o.1
              (SameObjects-Assigned k s.revision s.world o.1 same) t current)
            (validate_template-Concludes k template_factory t s.world checked sound.nodup))

    cluster_moved :
        (i : ℕ) (c : HypervisorCluster) (result : ConnectionResult)
        → s.jobs i ≡ cluster_tested c result
        → IsSafe k (record s {
          world = (Cluster.update_status k c result s.world).1;
          jobs = with_job s.jobs i idle;
        })
    unfolding Cluster.update_status
    cluster_moved i c result p =
        let (nodup, _) = held i (cluster_tested c result) p in
        let new = with_result c result in
        let w = (k.update_cluster_status new s.world).1 in
        IsSafe-moved k s s.revision w i idle safe
          (record {
            grows = omega arith;
            versions = λ key d e. inl (sym (store.cluster_status new s.world key).0 ∙ e);
          })
          (AllSound-cluster_status k store new s.world (with_result-Records c result nodup).nodup
            safe.sound)
          (tt, tt)

  Move-IsSafe :
      (s u : State W)
      → Move k default cluster_factory template_factory util s u
      → IsSafe k s
      → IsSafe k u
  unfolding handle_deletion add_finalizer
  Move-IsSafe s _ (read_template i key t p found) safe =
      moved_beside s safe s.world i (template_read t) (SameObjects-refl k s.world)
        (just_read s safe key t found)
  Move-IsSafe s _ (delete_template i n t p deleted assigned) safe =
      finalizers_moved s safe i n t (util.remove t.meta.finalizers finalizer_name) _ p
        (update_then_world k template_factory _ _ s.world) assigned
  Move-IsSafe s _ (protect_template i n t p alive absent assigned) safe =
      finalizers_moved s safe i n t (util.add t.meta.finalizers finalizer_name) _ p
        (update_then_world k template_factory _ _ s.world) assigned
  Move-IsSafe s _ (validate i t checked p alive present) safe = validated_moved s safe i t checked p
  Move-IsSafe s _ (store_template_status i n t validated p assigned) safe =
      status_moved s safe i n t validated p assigned
  Move-IsSafe s _ (read_cluster i key c p found) safe =
      moved_beside s safe s.world i (cluster_read c) (SameObjects-refl k s.world)
        (safe.sound.clusters key c found, tt)
  Move-IsSafe s _ (test i c now p) safe =
      let same =
        test_connection-SameObjects k default cluster_factory cluster_leaves c now s.world in
      moved_beside s safe _ i (cluster_tested c _) same ((held s safe i (cluster_read c) p).0, tt)
  Move-IsSafe s _ (store_cluster_status i c result p) safe = cluster_moved s safe i c result p
  Move-IsSafe s _ (users n w change assigned) safe =
      IsSafe-Assigned k s n w safe assigned (UserChange-AllSound k s.world w change safe.sound)

  -- Any number of workers, each of which reads an object, tests or validates it and writes it at
  -- some later time, while users create, delete, relabel and edit as before: safety is kept by
  -- every sequence of moves. A state is safe if each stored status is sound, and each worker holds
  -- a sound object whose version is no newer than the revision and, for a template, stands for no
  -- other spec in the store. The API server refuses the update of a template that holds another
  -- version than the stored one, and gives a template that is not as before a version newer than
  -- the revision.
  pub Moves-IsSafe :
      (s u : State W)
      → Moves k default cluster_factory template_factory util s u
      → IsSafe k s
      → IsSafe k u
  Moves-IsSafe s _ none_yet safe = safe
  Moves-IsSafe s _ (and_then moves move) safe = Move-IsSafe _ _ move (Moves-IsSafe s _ moves safe)
