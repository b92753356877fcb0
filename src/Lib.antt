-- ===== src/Lib.antt =====
-- A model of the phoenixNAP Bare Metal Cloud provider of the Cluster API, with its correctness.
--
-- The program is a Kubernetes controller manager. `main.go` reads its configuration and starts two
-- reconcilers. One turns a BMCCluster into an address block of the BMC API and the endpoint of a
-- control plane, the other turns a BMCMachine into a server. A reconciler is called again and again
-- with the name of an object. Each call looks the object up, makes at most one call of the BMC API
-- (to create, to poll or to tear down), changes the object by the answer, and hands it to a patch
-- helper. The two meet in the objects: a machine waits until its cluster is ready, and a control
-- plane machine is put into the block whose id the cluster's annotation holds.
--
-- What models what:
-- - Api: the objects of api/v1beta1/bmcmachine_types.go and api/v1beta1/bmccluster_types.go, each
--   with the part of the metadata that the controllers use. Choices has the string types that list
--   their constants; in the objects they are texts, as another value may be stored there.
-- - Constants: the names that controllers/bmcmachine_controller.go and controllers/closures.go
--   give to statuses, event reasons, annotations and event types.
-- - Go: errors, results, panics, maps that may be nil, decimal numbers, and IPv4 addresses, as the
--   language and its standard library define them; Base64 has base64.StdEncoding, Json
--   what json.Marshal makes of the requests, the reader of JSON texts and what json.Unmarshal stores
--   in fields, Unicode the characters of codes, and Text and Lines what the release notes tool uses
--   of texts.
-- - Outside: Kubernetes objects, HTTP requests with their answers, and the effects that a run
--   leaves, in their order, in a trace: events, calls of the BMC API, patches of a node.
-- - MachineController: controllers/bmcmachine_controller.go. State has the MachineContext of
--   controllers/closures.go with its methods, NodeRef its SetNodeRef; Create, Synchronize and Delete
--   have reconcileCreate, reconcileSynchronize and reconcileDelete, Codec the JSON of the request;
--   Reconcile has Reconcile and reconcileLive, Mapper has BMCClusterToBMCMachines. PollSpec is the table of what a poll should
--   do, RequestSpec the object that BMC is to read a request as. The other files hold theorems.
-- - ClusterController: controllers/bmccluster_controller.go, laid out in the same way. Answer reads
--   BMC's answers into a BMCClusterStatus by the tags of api/v1beta1/bmccluster_types.go, Lifetime
--   follows a cluster from its creation on.
-- - System: the parts together. Servers and Turns have the calls of one run for a control plane
--   machine, Placement runs of both reconcilers in any order, Store the API server that keeps a
--   machine between its runs and removes it, Abandoned the end of a machine that is marked as
--   deleted, Bootstrap the way of a machine from its creation to its readiness.
-- - Startup: main.go. Main has main behind flag.Parse(), one function for each of its statements that
--   may end the process; Order says how a start goes, independently of it.
-- - Watches: the registration of the types in the scheme (api/v1beta1/groupversion_info.go and the
--   init functions) and both SetupWithManager. Setup has what they ask of the controller builder,
--   Known and Wakes hold theorems.
-- - DeepCopy: api/v1beta1/zz_generated.deepcopy.go, and the objects of all three files of types as
--   they lie in memory. Objects has the types, Heap the memory, Copy each DeepCopyInto and Methods
--   each DeepCopy and DeepCopyObject. The other files say what a deep copy is and hold theorems.
-- - Release: hack/tools/release/notes.go. Commits and Notes have the two loops of run with trimTitle
--   and formatMerge, Run the rest with lastTag and firstCommit; the other files hold theorems.
-- - Tests: concrete objects and environments, and the theorems at them.
--
-- A function of the source that changes its context becomes a function from a context to a context
-- and an outcome: a result with an error that may be nil, or a panic. The context after a panic is
-- the one that the deferred patch sees. Each `switch` is one function, with the rest of the method
-- behind its success case. The clients, the Cluster API helpers and json.Unmarshal of the status of
-- a machine are fields of an environment or of a record of lookups, which answer as they do during
-- one run; a theorem on several runs lets them answer otherwise in each.
--
-- In System/Placement every machine is one of the control plane of the one cluster, a lookup of the
-- BMCCluster finds what its last run left, and the Cluster API reports the Cluster as ready only if
-- the BMCCluster is: that is the record Sees. Prints says that the library prints no address as the
-- empty text. In System/Store the API server is a parameter, and Collects states what its
-- documentation says of finalizers. In Watches the controller runtime, the scheme and the helpers of
-- the Cluster API are parameters, with their documented behaviour in IsLawful and Runtime.
--
-- In DeepCopy a pointer, a slice or a map is the address of a cell, so two of them share all that
-- they refer to, or nothing. The copies of metadata and of quantities are library code: they are
-- parameters, and a theorem that needs them to be deep says so by the hypothesis IsDeep. In Release
-- git is a function from a command to its answer, and a text is its sequence of characters.
--
-- Numbers: HTTP codes, ports and bytes are natural numbers; the addition on the last byte of an
-- address keeps its wrap-around. A decimal number is printed with a fuel of one more than the
-- number, which is at least its count of digits. The reader of JSON has twice as much fuel as
-- its text has characters, and Go/Json/Enough says why that is enough; Go's own limit on the depth
-- of a text, 10000, is left out. All else recurs on the structure of its argument.
--
-- Not modelled: log lines, deadlines, the OAuth exchange, the transport of HTTP, the patch itself,
-- the reader of BMC's answers about servers and the IPv6 part of the address reader and printer
-- (parameters), the parsing of the command line of the release notes tool, and the deployment files.
-- The patch and its helper are taken to succeed.
pub mod Base
pub mod Go
pub mod Api
pub mod Outside
pub mod Constants
pub mod MachineController
pub mod ClusterController
pub mod Startup
pub mod Watches
pub mod System
pub mod Release
pub mod DeepCopy
mod Tests
