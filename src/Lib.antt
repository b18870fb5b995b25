-- ===== src/Lib.antt =====
-- kbrain runs coding agents on Kubernetes: an AgentTask asks for one run of an agent on a
-- repository, and an AgentPool limits how many tasks run at once. The operator has two controllers.
-- The task controller (internal/controller/agenttask_controller.go) takes a task through its
-- phases: it waits for a slot if the task names a pool, builds and creates a pod with the pod
-- builders (internal/podbuilder), watches the pod and its timeout, and at the end asks the git
-- client (internal/gitops) for a merge request. The pool controller
-- (internal/controller/agentpool_controller.go) sorts the tasks of a pool by phase and grants free
-- slots to the tasks that wait longest, by an annotation that the task controller reads. The two
-- controllers meet only in the stored tasks.
--
-- How the code is modelled. A handler is a program (Effects/Programs): a tree of the calls that it
-- makes on the Kubernetes API, the clock, Go's map iteration and the git host (Effects/Calls), with
-- a branch for every answer, so that a statement on every path covers stale reads, conflicts and
-- failures of any kind; a panic is a leaf. A statement on an ordered run takes a server, any
-- function from a state and a call to an answer and a new state (Effects/Servers). An object that a
-- Go handler changes in place is passed on as a value; where the client writes the stored object
-- back into its argument, as on an update, the program goes on with the answered object. Only in
-- Memory are objects cells that pointers share: it is about the copies that caches and clients make
-- of them, for which a value may stand. Errors are values with their reason and their wrapping
-- (Effects/Errors). Functions of the standard library and of the Kubernetes libraries that compute
-- a value and are not defined here are the fields of the record Libs (Effects/Library), an argument
-- of the definitions that use them; where a theorem needs more of one of them than its type, that
-- is a hypothesis (SortLaws of PoolController/Grants for sort.Slice, TiesByPosition of System/Ties
-- for what it does with equal elements, FinalizerLaws of TaskController/Stages for
-- ContainsFinalizer, Stores of TaskController/Storing for a cluster that stores what is written).
--
-- Which file models what:
--   Prelude         numbers, integers, lists and texts: a Go string is its list of bytes, an int32
--                   is reduced modulo 2^32 where the code converts to it, a map is a list of pairs.
--   Api             api/v1alpha1/agenttask_types.go (Api/Task), agentpool_types.go (Api/Pool), and
--                   the parts of Kubernetes objects that the operator uses (Api/Meta, Api/Core).
--   PodBuilder      internal/podbuilder: podbuilder.go (Base, and Build for NewPodBuilder and the
--                   interface), cloud.go (Cloud), ollama.go (Ollama).
--   GitOps          internal/gitops/gitops.go: the string functions it calls (Strings),
--                   parseGitHubRepo and parseGitLabProject (Urls), CreatePullRequest,
--                   createGitHubPR and createGitLabMR (Client).
--   TaskController  internal/controller/agenttask_controller.go: setPhase and setFailed (Status),
--                   handlePending (Pending), handleInitializing (Initializing), handleRunning and
--                   getExitCode (Running), handleCreatingMR and resolveSecretValue (CreatingMr),
--                   truncate (Title), handleDeletion (Deletion), Reconcile (Reconcile).
--   PoolController  internal/controller/agentpool_controller.go: listPoolTasks, mapTaskToPool and
--                   the sorting by phase (Tasks), the free slots and the loop that grants them
--                   (Slots), Reconcile (Reconcile).
--   Memory          api/v1alpha1/zz_generated.deepcopy.go: memory as cells at addresses (Heap),
--                   objects with their pointers and slices (Objects, Cells), what an object stands
--                   for and the cells it is made of (Views, Shapes, Values), the steps of the
--                   generated functions (Copying) and DeepCopyInto, DeepCopy and DeepCopyObject
--                   (DeepCopy).
--   Manager         api/v1alpha1/groupversion_info.go, with the init functions of the types
--                   (Registration); cmd/main.go: the flags (Flags), the TLS options (Tls), the
--                   options of the manager and SetupWithManager of both controllers (Options), and
--                   init and main (Main) as a tree of calls of the controller library that fail or
--                   not (Boot).
--   System          both controllers, interleaved with users who create, edit and delete the tasks
--                   of one pool: the steps of the system and its reachable states (Steps), the
--                   tasks that take or wait for a slot (Counting), a machine of three counters that
--                   says what a pool promises (Slots), how the two are related (Refinement), the
--                   system with stale copies of the tasks (Late, Stale), runs that are stored whole
--                   (Filling), and a task that holds its slot for good (Stuck).
--   Tests           sample data, runs on it, and instances of the theorems.
-- The other files of each folder hold the proofs and are named for what they are about.
--
-- The system of System/Steps. Its state is the list of the pool's tasks in the order of their
-- creation. A run of the pool controller of a pool without a selector lists all of them in any
-- order, with tasks that do not name the pool, which it drops; one of a pool with a selector lists
-- by labels, and the step lets it list anything, so the theorems on the limit are about pools
-- without a selector. Each of the updates that grant a slot is stored or fails; a run of the task
-- controller stores any status write that the handler of the task's phase makes on any path, so
-- every answer of the cluster is covered. Such a step reads and writes at one point of the run. In
-- the histories of System/Late a run of the pool controller works on any earlier state instead, as
-- with a stale cache, and several such runs stand for one whose grants are interleaved with other
-- steps; a write is stored only where the task has not changed, which the cluster ensures by the
-- resource version. Updates by others keep a task's phase, pool, time of creation and grant. Times
-- of creation are distinct, but for the system of System/Ties.
--
-- Bounds and fuel. Loops are structural recursion on the list that they walk. Only the printing of
-- a number in decimal runs on fuel, n + 1 for the number n, which has fewer digits than that. The
-- lengths that become an int32 are below 2^31 by hypothesis where a theorem reads them as numbers.
--
-- Not modelled: logging; the client library's retries, caches and queues, whose effects are answers
-- and orders of runs; JSON, HTTP and the parsing of durations, quantities and selectors, which are
-- fields of Libs; the copying of the Kubernetes libraries' own types, a parameter of Memory; the
-- manager of the controller library, which cmd/main.go only calls; tests, test/utils, images, and
-- manifests.
pub mod Prelude
pub mod Api
pub mod Effects
pub mod PodBuilder
pub mod GitOps
pub mod TaskController
pub mod PoolController
pub mod Memory
pub mod Manager
pub mod System
pub mod Tests
