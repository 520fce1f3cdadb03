-- ===== src/Controller/Interleaved/Jobs.antt =====
-- What holds of the object in the hands of a worker, and what others change of it.
use hyperfleet_controller.Base.{ℕ, ◌≤◌, ◌≡◌, sym, ◌∙◌, inl, inr, arith, ok, nat_eq, Bool-cases}
use hyperfleet_controller.Api.Meta.{NamespacedName}
use hyperfleet_controller.Api.Conditions.{NodupTypes}
use hyperfleet_controller.Api.Template.{HypervisorMachineTemplate}
use hyperfleet_controller.Controller.Kube.{KubeClient, key_of}
use hyperfleet_controller.Controller.Store.{SameObjects}
use hyperfleet_controller.Controller.System.{IsSound, AllSound}
use hyperfleet_controller.Controller.Interleaved.{
  Job, idle, template_read, template_validated, cluster_read, cluster_tested, Jobs, with_job,
  Assigned, State,
}

abbrev pub JobIsSound : Job → Type 0
JobIsSound idle = Unit
JobIsSound (template_read t) = IsSound t
JobIsSound (template_validated t) = IsSound t
JobIsSound (cluster_read c) = NodupTypes c.status.conditions
JobIsSound (cluster_tested c result) = NodupTypes c.status.conditions

with_job-all :
    (P : Job → Type 0) (jobs : Jobs) (i : ℕ) (job : Job)
    → ((j : ℕ) → P (jobs j))
    → P job
    → (j : ℕ) → P (with_job jobs i job j)
with_job-all P jobs i job all here j = elim (Bool-cases (nat_eq i j)) [
  | inl e ↦ rw e here
  | inr e ↦ rw e (all j)
]

module _ {W : Type 0} (k : KubeClient W) where
  -- A template that was read at a revision up to `n`: what is stored under its version has its spec.
  pub record IsCurrent (n : ℕ) (w : W) (t : HypervisorMachineTemplate) : Type 0 where
    pub known : t.meta.resource_version ≤ n
    pub spec :
        (d : HypervisorMachineTemplate)
        → k.get_template (key_of t.meta) w ≡ ok d
        → d.meta.resource_version ≡ t.meta.resource_version
        → d.spec ≡ t.spec

  abbrev pub JobIsCurrent : ℕ → W → Job → Type 0
  JobIsCurrent n w (template_read t) = IsCurrent n w t
  JobIsCurrent n w (template_validated t) = IsCurrent n w t
  JobIsCurrent n w job = Unit

  -- The invariant: what is stored and what the workers hold is sound, and no worker holds a version
  -- that is newer than the revision, or that stands for another spec now.
  pub record IsSafe (s : State W) : Type 0 where
    pub sound : AllSound k s.world
    pub bounded :
        (key : NamespacedName) (d : HypervisorMachineTemplate)
        → k.get_template key s.world ≡ ok d
        → d.meta.resource_version ≤ s.revision
    pub jobs : (i : ℕ) → JobIsSound (s.jobs i) × JobIsCurrent s.revision s.world (s.jobs i)

  pub SameObjects-Assigned : (n : ℕ) (w w' : W) → SameObjects k w w' → Assigned k n n w w'
  SameObjects-Assigned n w w' same = record {
    grows = omega arith;
    versions = λ key d e. inl (sym (same.templates key) ∙ e);
  }

  module _ (n n' : ℕ) (w w' : W) (assigned : Assigned k n n' w w') where
    pub IsCurrent-Assigned : (t : HypervisorMachineTemplate) → IsCurrent n w t → IsCurrent n' w' t
    IsCurrent-Assigned t current = record {
      known = omega (arith, current.known, assigned.grows);
      spec = λ d e same. elim (assigned.versions (key_of t.meta) d e) [
        | inl before ↦ current.spec d before same
        | inr (newer, old) ↦ absurd (omega (arith, newer, same, current.known))
      ];
    }

    JobIsCurrent-Assigned : (job : Job) → JobIsCurrent n w job → JobIsCurrent n' w' job
    JobIsCurrent-Assigned idle h = tt
    JobIsCurrent-Assigned (template_read t) h = IsCurrent-Assigned t h
    JobIsCurrent-Assigned (template_validated t) h = IsCurrent-Assigned t h
    JobIsCurrent-Assigned (cluster_read c) h = tt
    JobIsCurrent-Assigned (cluster_tested c result) h = tt

  -- The world is another one.
  pub IsSafe-Assigned :
      (s : State W) (n : ℕ) (w : W)
      → IsSafe s
      → Assigned k s.revision n s.world w
      → AllSound k w
      → IsSafe (record s { world = w; revision = n })
  IsSafe-Assigned s n w safe assigned sound = record {
    sound = sound;
    bounded = λ key d e. elim (assigned.versions key d e) [
      | inl before ↦ omega (arith, safe.bounded key d before, assigned.grows)
      | inr (newer, old) ↦ old
    ];
    jobs = λ j.
        let (sound_before, current) = safe.jobs j in
        (sound_before, JobIsCurrent-Assigned s.revision n s.world w assigned (s.jobs j) current);
  }

  -- And one worker has another job.
  pub IsSafe-moved :
      (s : State W) (n : ℕ) (w : W) (i : ℕ) (job : Job)
      → IsSafe s
      → Assigned k s.revision n s.world w
      → AllSound k w
      → JobIsSound job × JobIsCurrent n w job
      → IsSafe (record { world = w; revision = n; jobs = with_job s.jobs i job })
  IsSafe-moved s n w i job safe assigned sound here =
      let after = IsSafe-Assigned s n w safe assigned sound in
      record {
        sound = sound;
        bounded = after.bounded;
        jobs = with_job-all (λ j. JobIsSound j × JobIsCurrent n w j) s.jobs i job after.jobs here;
      }
