-- ===== src/Lib.antt =====
-- KubeNAS: the operator that turns the disks of Kubernetes nodes into a NAS.
--
-- The program. A controller per resource kind (controllers/) reads resources through the Kubernetes
-- API, decides, writes statuses and dependent objects, and asks the agent of a node to mount disks and
-- pools and to take a SnapRAID configuration. A Disk is the base; an Array groups Disks, a Pool mounts
-- the data disks of an Array as one mergerfs file system, a Share publishes a Pool by SMB or NFS. A
-- ParitySchedule makes cron jobs for SnapRAID, a RebalanceJob walks a state machine, a DiskFailure is
-- opened and resolved as its Disk fails and recovers, and the PlacementScheduler picks a disk. The
-- operator and the agents talk by ConfigMaps: an operation is posted as one and polled until its state
-- is Success or Failed (controllers/kubernetes_agent_client.go). A node's agent (node-agent/) lists
-- these ConfigMaps, executes each operation, writes its state, and reports the node's disks in another
-- one. The tree operator/ is a copy of api/, controllers/ and cmd/ with other import paths.
--
-- The files.
--   Base: shared names. Base/Int is int64 with its wrap-around written out, Base/Float the interface
--     of float64 (Go's operations on it are parameters), Base/Text the texts of fmt and strings, with
--     Base/Fields and Base/ParseInt for what is read of a text (Base/Text/Decimal, Base/Fields/Split and
--     Base/Fields/Lines are about reading what was printed and split), Base/Dict a map of texts,
--     Base/Order what orders a list, and Base/Outcome a Go value with its error.
--   Api: the resources of api/v1alpha1, a file for each kind, the webhooks' checks (Api/Webhook), and
--     in Api/V1 the resources of api/v1.
--   Cluster: the Kubernetes API as a record of answers, each a function of all calls made so far, so
--     that any interleaving with other writers is covered; an action takes the calls so far and returns
--     its value and the calls after it. Cluster/Core has the fields of pods, services and cron jobs,
--     Cluster/Host the calls of a node's operating system.
--   Agent: the interface NodeAgentClient and its values (controllers/agent_client.go). Agent/Helpers
--     has setCondition, containsString and removeString, Agent/Laws the law that the controllers take as
--     a hypothesis, KeepsObjects: an agent writes no object but ConfigMaps.
--   AgentClient: controllers/kubernetes_agent_client.go, which fills that interface.
--     AgentClient/Waiting, with Ends, is about the polling, Acknowledged about what an answer rests on,
--     Keeps about the interface's law.
--   Controllers: Disk, Array, Pool, Share, Parity and Rebalance are the files
--     controllers/<name>_controller.go, Placement and Failure the two halves of
--     controllers/placement_failure_controllers.go. Each operation has the name of its Go method in
--     snake case; parts of a long Reconcile are functions of their own (reconcile_disk, assemble, plan).
--     A file Laws below a controller has its theorems, with Best, Sorting, Balanced and Optimal for
--     Placement, Reach for a job over many reconciliations and Spread for the imbalance of a pool,
--     Config for the SnapRAID configuration and Members for the branches of a Pool.
--   Controllers/Cache and Controllers/Policy are cachepool_controller.go and
--     placementpolicy_controller.go. Controllers/Array/Rendered is about the configuration of an Array
--     up to the ConfigMap, over AgentClient/Snapraid and its Lines. Controllers/Parity/Admitted is about
--     an Array that the webhook let in. Controllers/V1 is controllers/new_arch_controllers.go, over the
--     resources of Api/V1 (api/v1/types.go). Api/V1/Copies is api/v1/zz_generated.deepcopy.go with the
--     maps of a resource in a store, by their addresses, and Controllers/V1/Shared the reconciliation of
--     a Disk over this store (Lost is about a write that fails).
--   Node: the node agent. Node/Disk and Node/Smart are node-agent/pkg/disk/disk.go and
--     node-agent/pkg/smart/smart.go, over Node/Host, the answers of the operating system. Node/Agent,
--     Node/Discovery, Node/Operations and Node/Loop are node-agent/cmd/kubenas-node-agent/main.go: the
--     types, the reports, the operations, and the select loop as a sequence of ticks. Node/Starts counts
--     the starts of an operation in the calls, by a scan that what the host is asked does not change,
--     Node/Loop/Quiet and Node/Loop/Once are about them over the loop, Node/Operations/Outcome is about
--     one operation and Node/Operations/Conflict about its last write, Node/Keys about the keys of the
--     reports, Node/Status about what the operator reads of them, and Node/Protocol, with Requests and
--     Parity, about the operator's client and the agent together, over an API that stores what it takes.
--     Node/Disk/Fstab, Node/Disk/Once and Node/Smart/Score are about the functions of their parents.
--     Node/Sizes is about the devices of a discovery and their v1 Disks. Node/Parity is
--     node-agent/pkg/parity/parity.go, with Counts on what it reads of an output and Scrub on the
--     percentage, Node/Snapraid node-agent/snapraid/snapraid.go, and Node/Mount
--     node-agent/mount/mount.go.
--   Storage: storage/scheduler/scheduler.go (Storage/Scheduler, with Laws on its relation to the
--     controllers' scheduler and Selection on Select), in Storage/Options the texts of
--     storage/mergerfs/options.go and storage/snapraid/config.go, and in Storage/Process the calls of
--     storage/mergerfs/pool.go and storage/snapraid/commands.go.
--   Csi: kubenas/csi/driver.go, over Base/Path (filepath.Join and Clean); Csi/Volumes is about the
--     directory of a volume.
--   Startup: cmd/main.go, where the manager is a record of answers; Startup/Started is about the order
--     of its calls.
--   Tests: the theorems at concrete inputs, with the data in Tests/Samples and Tests/Hosts, and an
--     insertion sort in Tests/Sorting.
--
-- Conventions. A call is recorded whether it succeeds or not; `effects` are the calls that write an
-- object other than a ConfigMap, the newest first. A text that the API restricts to an enumeration is
-- a data type, with `unset` for the empty text. Logging is left out. Loops over slices are recursions
-- on lists. The one loop with a bound of its own, the polling, is a recursion on its 24 rounds, the
-- bound that the source has, so no fuel is added.
--
-- Parameters. The Kubernetes API (`Cluster`), the controller manager (`Manager`), the operating system
-- (`Host`), encoding/json (`Codec` for the operator, `Json` for the agent), the format of a time
-- (`format`), float64 (`Float64`), sort.Slice (`sort`, assumed to keep the elements and to put one
-- first before which no other is), SetControllerReference (`own`), operatorNamespace() (`namespace`)
-- and GroupVersion.String() (`api_version`). What the API promises of writes and reads are the
-- hypotheses `Versioned` of Node/Operations/Conflict (a stale resource version is refused) and
-- `Serves` of Node/Protocol (a read finds what was stored last), at the theorems that name them.
--
-- Not modelled: the flags, the scheme and the logger of cmd/main.go, the methods SetupWithManager, the
-- registration of the types, the building of clients in the agent's main, types that nothing uses
-- (controllers/types.go, controllers/share_rbac.go), and the tree operator/, which is a copy.
pub mod Base
pub mod Api
pub mod Cluster
pub mod Agent
pub mod Controllers
pub mod AgentClient
pub mod Storage
pub mod Node
pub mod Csi
pub mod Startup
mod Tests
