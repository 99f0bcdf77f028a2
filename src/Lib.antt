-- ===== src/Lib.antt =====
-- Quickworks is a control plane for development workspaces. A server keeps users, workspaces, builds,
-- provisioners and agents in SQLite; provisioners claim queued builds under a lease and run Terraform;
-- the agent in a started VM enrols, keeps a tunnel open and reports the workbench ready.
--
-- The parts and the files that model them:
--
-- - Base, Results, Text, Table: tests on numbers, Go's (value, error) results, strings, and SQL. A table
--   is the list of its rows; count, select, first, update, delete, insert and sort stand for the SQL
--   statements of the same names, and Table/ holds the lemmas on them.
-- - Database: the rows of the tables of internal/database/migration, as records named like the tables,
--   and the inserts that check primary keys and unique indexes.
-- - Workspaces: internal/server/workspace/service.go. Create holds Create and
--   CreateRepositoryIdempotent, Transitions holds Transition, StopIdle and Touch, Queries the reads,
--   Names petName. The proofs: Soundness (the table invariant), Quotas, Creation, Idempotency, Repeats,
--   Outcomes, IdleSweep, Spared, Decided.
-- - Scheduler: the provisioner's transactions of internal/server/router.go. Labels holds validLabels and
--   labelsContain, Claim registration, expireLeases and claimMatchingBuild, Leases renewal, completion
--   and logs. The proofs: Slots, Expiry, Claiming, Lifecycle.
-- - AgentHub: internal/server/agenthub/agenthub.go; AgentHub/Presence holds its heartbeats and readiness.
-- - Router: the handlers claim, lease and agentReady of internal/server/router.go with their guards and
--   status codes, which compose the parts above; Router/Accounting carries an invariant through them.
--   Router/Browser holds create, transition, builds and logs of a signed-in user, and Router/Tenancy
--   what they keep of everyone's tables. Machines holds enroll and agentConnect, and Joined what an
--   enrollment leads to. Pages holds the workbench, navigation, template availability and Reconcile, and
--   Proxied and Reconciled what they keep and let through; Visits applies both to concrete data.
-- - Auth: internal/server/auth/auth.go, the guards of browser requests. Auth/Credentials holds the stored
--   GitHub tokens and the clone credentials, over an interface of AES-GCM (Box) with its one law. SignIn
--   holds Begin and Callback, over the token exchange, the user lookup and the JWT library (Outside), and
--   Repositories the lookup of a repository. The proofs: Bits (subtleEqual), Requests, Consumed,
--   SignedIn and Welcome (who gets a session, and who it is of afterwards).
-- - Config: internal/config/config.go. Config/Validation says what a server configuration that passes is
--   known to be; Config/Agreement compares a provisioner's with what the router accepts of the claim that
--   internal/provisioner/worker.go sends.
-- - Tunnel: internal/protocol/agent/frame.go. Tunnel/Messages holds writeWebSocketFrames and the frame
--   loop of internal/agent/tunnel.go, Tunnel/Responses its forwardHTTPRequest and the loop of Request in
--   internal/server/agenthub/tunnel.go. The proofs: Reassembly, Delivery.
-- - Connections: internal/server/agenthub/tunnel.go, its channels. Schedules lets the goroutines take their
--   steps in any order; Closing, Opening, Shutting and Soundness prove what no order breaks. Registry holds
--   Tunnels and internal/server/agenthub/tcp.go, Registry/Reconnected an agent that connects again.
-- - Environment: internal/agent/dotenv.go and internal/agent/supervisor.go. Dotenv is about ParseDotenv,
--   Merge and Merged about mergeEnvironment, Workbench and Started about Command, Restart about
--   waitForHealth and RunWithRestart.
-- - Startup: internal/agent/enroll.go, internal/agent/clone.go and RunAgent of internal/app/agent.go, over what
--   the calls of a VM come to. The proofs: Prepared, and Restarted, which composes a second start with the
--   server's enroll.
-- - SelfUpdate: internal/agent/selfupdate.go, the download of a release; SelfUpdate/Machine holds the files of
--   the VM, UpdateSelf and MaintainSelfUpdate. The proofs: Released, Again.
-- - Identity: internal/agent/identity.go, the agent's key and the races for its file; the proofs: Kept.
-- - Worker: internal/provisioner/worker.go, the calls of a round; Worker/Build holds copyTemplate, command,
--   execute and runOnce. The proofs: Redaction, Order and Completed.
-- - Bundle: the name checks of internal/agent/bundle.go; Bundle/Links holds symlinkStaysInRoot. The proofs are in
--   Bundle/Containment and Bundle/Links.
-- - Snapshots: internal/provisioner/state/local.go, the backups of Terraform states. The proofs: Restored,
--   Pruned.
-- - Migrations: Apply of internal/database/migration/migration.go, once and in order; the proofs: Applied.
--
-- Each part has its Examples, which apply its theorems to concrete data.
--
-- Transactions: SQLite runs one at a time (the connection asks for immediate locks), so an operation is
-- a function from a Database to a Result that carries the next Database, and a failed one changes
-- nothing. The failures modelled are those of the program and of the tables' constraints; a disk error
-- of the driver is not. An operation reads the clock once, and times are seconds. Random bytes, IDs,
-- secrets and the SHA-256 of hash() are arguments; crypto/rand does not fail.
--
-- Loops are structural, but for two of them. The creation loops try 20 times, as the source does, and then fail
-- as it does. The loop that splits a message into frames runs on fuel: the number of its bytes, which is
-- enough since every round takes one at least, and Reassembly shows that the whole message comes out.
-- LoadOrCreateIdentity calls itself over a list of what its calls come to, and ticks and attempts are lists.
-- A tunnel write that fails ends its loop, so what was sent is a beginning of the list of frames.
--
-- Not modelled: encoding of JSON and the HTML pages, the reference cost of a usage row, and the parts of
-- the program that the list above does not name (dialling and proxying, the extraction of bundles). Texts
-- that are checked byte by byte are taken to be ASCII where Go counts bytes; the bytes of others would be
-- refused just the same.
pub mod Base
pub mod Results
pub mod Table
pub mod Text
pub mod Database
pub mod Workspaces
pub mod Scheduler
pub mod AgentHub
pub mod Router
pub mod Tunnel
pub mod Config
pub mod Auth
pub mod Bundle
pub mod Connections
pub mod Environment
pub mod SelfUpdate
pub mod Identity
pub mod Worker
pub mod Snapshots
pub mod Startup
pub mod Migrations
