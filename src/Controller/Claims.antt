-- ===== src/Controller/Claims.antt =====
-- The scaffolded reconcilers of MachineClaim and RunnerPool
-- (internal/controller/machineclaim_controller.go and runnerpool_controller.go), which do nothing.
use hyperfleet_controller.Base.{Result, ok, M}
use hyperfleet_controller.Api.Meta.{NamespacedName}
use hyperfleet_controller.Controller.Kube.{ReconcileResult, no_requeue}

module _ {W : Type 0} where
  unfoldable pub reconcile_machine_claim : NamespacedName → M W (Result ReconcileResult)
  reconcile_machine_claim key w = (ok no_requeue, w)

  unfoldable pub reconcile_runner_pool : NamespacedName → M W (Result ReconcileResult)
  reconcile_runner_pool key w = (ok no_requeue, w)
