-- ===== src/Lib.antt =====
-- A model of the hyperfleet controller: a Kubernetes operator that keeps clusters of hypervisors
-- and templates of virtual machines, and the bootstrap service that runs a CI runner on such a
-- machine once and then shuts it down.
--
-- The parts, and the files that model them:
-- * The bootstrap service (cmd/bootstrap-service/main.go and interfaces.go) is Bootstrap. `Run` is
--   `run_bootstrap` of Bootstrap/Process.antt: downloadGitHubRunner (Bootstrap/Download.antt,
--   whose loop over the archive is Bootstrap/Archive.antt), configureRunner and runAndMonitor
--   (Bootstrap/Runner.antt), and cleanup with shutdownVM and its four methods
--   (Bootstrap/Shutdown.antt). main, loadRunnerConfig and performSPIFFEAttestation are in
--   Bootstrap/Process.antt, RunnerConfig with its defaults, getOSArch and buildDownloadURL in
--   Bootstrap/Config.antt. The interfaces FileSystem, CommandExecutor, SystemOperations and
--   HTTPClient are one type `Call` in Bootstrap/System.antt. The state is the list of the calls so
--   far with their results; an environment answers each call by all the calls before it. It also
--   holds what Go's decoders make of the configuration file and of the downloaded archive.
--   Bootstrap/Disk.antt reads off a trace what is known of each file of the machine, and says what
--   unpacking an archive is to do. A failed write may have written a part and a command may change
--   any file, so what is known is lost there. Base/Cost.antt counts calls. Bootstrap/Protocol.antt
--   is the protocol of the calls, a step relation on phases that Base/Protocol.antt gives the
--   rules of. The adapters of the operating system (cmd/bootstrap-service/implementations.go) are
--   Bootstrap/Adapters.antt, over the Go library; the pause keeps the wrap-around of int64.
-- * filepath.Clean, Join and Dir, on which the check of the archive's paths rests, are Path, as
--   the package path/filepath documents them for Unix.
-- * The API types (api/v1alpha1) are Api; Api/Conditions.antt is the update of a list of
--   conditions that both reconcilers write out as a loop, and Api/Conditions/View.antt the map
--   that the list stands for, a quotient that forgets its order.
-- * The generated deep copies (api/v1alpha1/zz_generated.deepcopy.go) are Api/Memory.antt and the
--   modules below it. A type is given there as it is stored: a pointer, a slice or a map is an
--   address with the value behind it, and an allocation takes the next address. A `Copier` is a
--   DeepCopyInto with two views of a type, its values without addresses and the addresses in them.
--   Strings are never written to, so that copies may share them.
-- * internal/provider is Provider: the interfaces in Provider.antt, the factory in
--   Provider/Factory.antt, the Proxmox client in Provider/Proxmox.antt, and the mock of mock.go in
--   Provider/Mock.antt.
-- * internal/controller is Controller: the reconciler of clusters in Controller/Cluster.antt, the
--   one of templates in Controller/Template.antt and Controller/Template/Reconcile.antt, the
--   scaffolds for claims and runner pools in Controller/Claims.antt. They meet in the Ready
--   condition, which the first writes and the second reads: Controller/Readiness.antt.
--   Controller/System.antt puts both to work on one API server, in any order and with users that
--   create, delete, relabel and edit: `Step` is the step relation, `Reach` its closure.
--   Controller/Store.antt says what an update does to the objects that it is not for.
--   Controller/Interleaved.antt takes a reconciliation apart: `Move` is a step of one worker of
--   many, between its read and its write, or of the users; a template that was changed in between
--   is a conflict of versions. Controller/Setup.antt holds what each SetupWithManager gives to the
--   builder of controllers.
-- * The registration of the types (api/v1alpha1/groupversion_info.go and the functions init of the
--   types' files) is Api/Scheme.antt.
-- * The startup of the manager (cmd/main.go) is Manager: the flags, the TLS options of the servers
--   and the calls of controller-runtime, each with the exit behind it; and in Manager/Scheme.antt
--   the function init, which panics where a registration fails.
--
-- Code outside the repository is a parameter: the Kubernetes client (`KubeClient`, with the laws
-- `IsLawful`, `IsStore` and `IsOptimistic`), the functions of controllerutil on
-- finalizers (`FinalizerUtil`, `FinalizerLaws`), the deep copies of the Kubernetes types
-- (`Kubernetes`, `IsKubernetes`), the Go library (`Standard`), the schemes (`SchemeLib`,
-- `SchemeLaws`) and the Proxmox library (`ProxmoxApi`). The clients of a hypervisor are taken to
-- leave the API server alone (`FactoryLeaves`), which Controller/System/Factory.antt derives for
-- Proxmox from `ApiLeaves`. A call on the outside takes the state of the world, a type that stays
-- abstract, and returns a result with the next state. Get reads the manager's cache, so it leaves
-- the state as it is. The results of metav1.Now are arguments.
--
-- An `error` is `none` for nil or a value of `Error`, with its text and what it wraps. A call on a
-- nil interface is the outcome `panics`. Text is a list of bytes, also where Go has runes:
-- strings.ToLower, which the factory compares with `proxmox`, is modelled on ASCII letters, and no
-- other rune is lowered to one of these letters but the Kelvin sign, whose `k` the word lacks.
-- Loops are structural recursion on the list that they range over. The one fuel is that of
-- `decimal`, which prints a number n with fuel n + 1: each digit divides the rest by ten.
--
-- Not modelled: logging but for the adapter, contexts and their cancellation, the parsing of
-- flags, and the end-to-end tests with their utilities. The reconcilers of claims and runner pools
-- are scaffolds. In Controller/Interleaved.antt a test or a validation is one move: what others do
-- while it asks the hypervisor is not modelled.
pub mod Base
pub mod Path
pub mod Bootstrap
pub mod Api
pub mod Provider
pub mod Controller
pub mod Manager
