-- ===== src/Lib.antt =====
-- muvee, a platform that builds and deploys projects from git repositories, images and compose
-- files. A control plane (cmd/muvee/server.go, internal/api, internal/scheduler) keeps its state in
-- PostgreSQL (internal/store); agents on builder and deploy nodes poll it for tasks, run them and
-- report back.
--
-- How the parts meet. TriggerDeployment (internal/scheduler/scheduler.go) creates a queued
-- deployment and advances the project's queue; AdvanceDeployQueue (internal/store/store.go) decides
-- which deployment runs, and the scheduler creates its first task. An agent's reports come in through
-- completeTask (internal/api/server.go), which moves the deployment and the queue on; a completed
-- build is followed by a deploy in checkBuildCompletions (cmd/muvee/server.go).
--
-- Which file models what:
--   Db          the rows of internal/store/models.go and the statements of internal/store/store.go
--               that scheduling uses; Db/Eviction is about GetLRUDatasetsForNode.
--   Queue       AdvanceDeployQueue, ListProjectsWithQueuedDeployments, FailOrphanedTasksForNode; its
--               children hold the proofs: Counts and Serial about deployments in flight, Order about
--               the waiting ones, Lost, Reaped and Reap about the lost ones, Advance, Outcome and
--               Contract about one call, Stable about a second one, Progress about a queue that a lost
--               deployment holds.
--   Scheduler   internal/scheduler/scheduler.go: Pick chooses a node, Payload and Dispatch create
--               tasks, Trigger starts deployments and moves queues on. Keeps shows what these leave
--               alone, Settled what the queue does to single rows; Serial, Refusals, FirstTask,
--               Placement and Binding are about what they guarantee.
--   Agent       registerNode, pollTasks and completeTask of internal/api/server.go; Agent/Loops is
--               checkBuildCompletions and checkNodeFailovers of cmd/muvee/server.go. Inspect, Retire,
--               Complete, Reports and Serial are about the reports, Builds and Failover about the loops.
--   Events      internal/projectevents/events.go; Events/Window is about the newest elements of a list,
--               Events/Follow about what a follower gets.
--   Limiter     internal/builder/limiter.go, which caps the builds that a builder runs at once.
--   Datasets    ScanDataset of internal/monitor/monitor.go with its statements of
--               internal/store/store.go; Datasets/Diff, Datasets/Replay and Datasets/Versions are about
--               the changes it records, the history it reads and the row it writes.
--   Watch       internal/scheduler/autodeploy.go; Watch/Images and Watch/Credentials are
--               internal/scheduler/imagewatch.go. Intervals, Once, Quiet and Serial are about the polls.
--   Pause       the handlers of internal/api/server.go that pause, resume and restart a project;
--               Pause/Undone is about them.
--   Access      the allow-lists and access requests of internal/store/store.go and their handlers in
--               internal/api/server.go; Grants is about decisions, Requests about pending requests.
--   Login       cmd/muvee/login_token.go, and in Login/State cmd/muvee/oauth_state.go; SingleUse,
--               Overlap and Provenance are about what a poll of a login token gives.
--   Tunnel      internal/api/tunnel.go: frames, streams and the read loop, and in Tunnel/Registry who
--               connects under which prefix and where a request goes. Frames, Given, Delivery and
--               Wiring are about the streams, Ownership and Routing about the registry.
--   Client      cmd/muveectl/tunnel.go: the client end of a tunnel, which carries what it receives to the
--               local service; Given and Requests are about a request that comes in on a stream.
--   Control     internal/api/agentcontrol.go: the sessions of an agent's control channel; Control/Panics
--               is about a session that ends while a frame is on its way.
--   Domains     internal/domains/domains.go; Matching is about Match, Listing about Parse and
--               ParseSubset.
--   Sms         internal/sms/phone.go; Digits and Spelling are about the spellings of a number.
--   Text        the functions of Go's strings and unicode packages that these call.
--   Examples    a small installation on which the theorems are applied.
--   Prelude     tests, lists as tables, primary keys.
--
-- How it is modelled. The database is one record, Db, and a function that reads and writes it takes
-- it and returns it. A table is the list of its rows. Functions that may fail are computations M of
-- Scheduler.antt: a failure keeps what was written before it, as statements outside a transaction do.
-- Errors of the database driver are not modelled. A uuid is a number, uuid.Nil is 0, and uuid.New()
-- takes the next of a stream of numbers; that it returns an unused one is a hypothesis where it is
-- needed. Times are nanoseconds, and the present time is an argument. sort.Slice on the floating-point
-- scores of nodes is a parameter of the Scheduler, of which theorems assume that it keeps the
-- elements; JSON is a parameter of the agents' reports. What the store decrypts is a function of the
-- id under which it is kept. Loops over rows are recursion on lists. The one loop on fuel cuts a
-- request into chunks: the fuel is the request's length, and every round takes a byte at least. Error
-- and log texts are without the ids and the host names' addresses that they print.
--
-- Texts that the program takes apart are lists of code points, others are strings. unicode.ToLower,
-- strings.TrimSpace on strings, strconv.Atoi, net/url, JSON, base64 and HMAC are arguments, as are the
-- answers of git, of image registries, of OAuth providers and of the YAML parser. Where handlers and
-- goroutines interleave (tunnels, login tokens, access requests), their steps are events, and theorems
-- are about every list of events. A poll of a login token is two steps, its lookup and its answer, in
-- Login/SingleUse and Login/Overlap; Login/Provenance takes a poll whose two steps follow each other.
--
-- Not modelled: request decoding and most handlers of the HTTP layer, its authentication, the agents'
-- use of docker and git, the walk over a dataset's files, certificates, the command line client but
-- for its tunnel, the web interface and the traefik plugin. Columns that no modelled function reads
-- are left out of the rows.
pub mod Prelude
pub mod Text
pub mod Sms
pub mod Domains
pub mod Tunnel
pub mod Client
pub mod Control
pub mod Login
pub mod Access
pub mod Pause
pub mod Db
pub mod Queue
pub mod Scheduler
pub mod Agent
pub mod Watch
pub mod Events
pub mod Limiter
pub mod Datasets
pub mod Examples
