-- ===== src/Lib.antt =====
-- The ENS provider of the cluster autoscaler: an externalgrpc service that orders, reports and
-- releases edge instances, as definitions that compute and theorems about them.
--
-- The parts and how they interact. main.go reads the configuration (groups.go), starts the parts in a
-- fixed order and serves. The autoscaler calls the gRPC service (server.go), which works on two
-- interfaces, the cloud (ens.go) and the cluster (kube.go). The cloud half keeps one region inventory
-- behind a cache, and orders instances under a lock for each group: the join script (userdata.go) is
-- built around a token, a fresh inventory is reconciled with the reservations of earlier orders
-- (reservations.go), the ceiling guard and the deadline budget decide, the order is reserved, and only
-- then submitted. The background loop (main.go) patches provider ids, runs the janitor (janitor.go),
-- which may release dead instances, and deletes the Node objects of instances that are gone. One
-- replica serves at a time (leader.go).
--
-- Which file models what:
--   Prelude        native numbers and their tests, lists, texts (a text is the list of its bytes),
--                  integers and the 32-bit wrap `int32`, decimal numerals
--   Config         groups.go: the records of the configuration, GroupByID, GroupForNodeLabels,
--                  GroupForInstanceName, ProviderID, InstanceIDFromProviderID, StrictEdgeInstanceID
--   Config/Environment
--                  groups.go: env, envInt, envDuration and what LoadConfig reads with them
--   Config/Load, Config/Validate
--                  groups.go: the rest of LoadConfig, validate, validateTemplate
--   Template       template.go: BuildTemplateNode
--   Errors         ens.go: sanitizeErr, isAmbiguousTransport, isInstanceGone
--   Inventory      ens.go: describeRegion with its cache, OwnedInstances, InstanceByID
--   Reservation    reservations.go: effectiveOwned on the map of reservations, kept as an association
--                  list
--   Order          ens.go and reservations.go: maxGuard, orderBudget, executeGuardedOrder; under
--                  Order/Ceiling a region with its unlisted instances, as a step relation
--   Submit         ens.go: submitOrder, awaitOpInstances, RunInstances, ReleaseInstance;
--                  Submit/Prepare has RunInstances with the join script and the parameters it sends,
--                  Submit/Disk the system disk among them
--   Userdata       userdata.go: joinLabels, buildNodeSpec with the text that json.Marshal prints,
--                  BuildUserdata with base64; Userdata/Quoting reads a script as a shell reads quotes;
--                  Userdata/AttachToken is buildAttachScriptsRequest and FetchAttachToken (ens.go)
--   Provider       the state of Cloud with every group, and runs of RunInstances beside what ENS does
--   Server         server.go: the handlers, over an `Environment` for CloudAPI and KubeAPI that answers
--                  by the calls made so far; Server/Delete is NodeGroupDeleteNodes,
--                  Server/TemplateNode is NodeGroupTemplateNodeInfo
--   Janitor        janitor.go: janitorScan, runJanitor, staleNodeCandidates, runNodeCleanup;
--                  Janitor/Drain follows the cleanup over several passes
--   Leader         leader.go: the serving state, admission, terms and interceptors; Leader/Steps has
--                  every interleaving of the goroutines, Leader/Routing the retries on the pod label,
--                  Leader/Term onStartedLeading, Leader/Election StartElection, Leader/Stop demotion
--                  and Shutdown, and Leader/Stop/Timed the waits of Shutdown with the callback of
--                  runServer (main.go) under their common deadline
--   Process        main.go: main up to runServer, teeSetter, panicRecover, the end of runServer;
--                  Process/Background is backgroundLoop
--   Kube           kube.go: ListManagedNodes (Kube/Managed), JoinedInstanceIDs, ManagedNodeKeys,
--                  ReconcileProviderIDs, DeleteNodeObject, ClearLeaseHolder
--   Readiness      readiness.go: readinessLoop
--   Metrics        metrics.go: the counters and gauges; Metrics/Page is render
--   Examples       runs on concrete inputs
--
-- Conventions. A handler takes the list of calls made so far, the newest first, and returns it with
-- its own calls in front. A lock is no part of the state: an operation under a lock is one function. Go's
-- int32 and the products of durations keep their wraps as `int32` and `int64`; times and durations are nanoseconds in ℤ, and in the timed Shutdown
-- natural numbers from its start. What the environment decides (the answers of ENS and of the cluster,
-- the environment variables, the clock, random bytes, time.Parse and time.ParseDuration, the Kubernetes
-- validators and quantity parser, client-go's elector) is an argument. strings.TrimSpace and
-- strings.EqualFold are theirs on ASCII.
--
-- Fuel. `fetch_pages` reads pages on fuel, since ENS decides when the last page is reached;
-- fuel that covers the count ENS gives, at a hundred instances a page, is enough.
-- `digits` of Prelude/Decimal has as much fuel as the number is large, more than it has digits, and
-- its numeral is read back in the same file. Every other loop is a recursion on a list.
--
-- Not modelled: the JSON of NODE_GROUPS, the text of log lines and of gRPC messages, the construction
-- of the SDK and Kubernetes clients, the HTTP server of the metrics page, Group.Debug, the refresh of
-- the inventory at the start of a term, and the generated protocol code. They are I/O, or calls of
-- libraries whose code the repository does not hold.
mod Prelude
pub mod Config
pub mod Errors
pub mod Inventory
pub mod Metrics
pub mod Reservation
pub mod Order
pub mod Submit
pub mod Server
pub mod Janitor
pub mod Template
pub mod Readiness
pub mod Kube
pub mod Leader
mod Examples
pub mod Userdata
pub mod Process
pub mod Provider
