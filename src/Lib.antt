-- ===== src/Lib.antt =====
-- The backend of the ticket-to-pull-request service, as far as its core logic goes. Paths are from
-- the repository's root; `B/` stands for backend/src/backend/.
--
-- Parts
--   Base            Shared names, Python's `dict`, exceptions as values, Boolean tests and text.
--   Github          B/integrations/github/: what the service may do with a repository.
--     BranchProtection  branch_protection.py: the check of a branch's protection.
--     Permissions   permissions.py: the permissions that an operation needs.
--     Drift         drift.py and minting.py: `PermissionDriftScanner` and `InstallationTokenMinter`.
--   Runtime         B/runtime/: one ticket's way to a pull request.
--     Models        models.py: the run, its artifacts and requests; Readiness is
--                   `TaskListArtifact.validate_for_repo_write`.
--     Context       context.py: `LocalFirstContextResolver.resolve`.
--     Planner       planner.py: the constitution loader and the rule-based planner.
--     Repository    B/persistence/testing/runtime.py: `InMemoryRunRepository`.
--     Workflow      workflow.py: the node handlers; Graph has the routers and the edges, Engine the
--                   walk along them, `execute` and `resume`.
--   Governance      B/governance/: what a run may spend.
--     Budget        budget.py and `InMemoryBudgetLedger` of B/persistence/testing/governance.py.
--     Catalog       catalog.py and `InMemoryModelCatalog`: models, fallbacks and token caps.
--     Health        routing.py and `InMemoryProviderHealthStore`: a circuit breaker per provider.
--     Routing       routing.py: `RuleBasedProviderRouter`.
--     Metering      metering.py and `InMemoryMeteringLedger`: usage records and rollups; Reports has
--                   `run_reconciliation`, RateCards the rate cards.
--     SharedBudget  `PostgresBudgetLedger` of B/persistence/governance.py: the reads and the counters;
--                   Operations has the public methods.
--     SharedHealth  `RedisSharedProviderHealthStore` of B/persistence/governance.py.
--   Platform        B/platform/: who works on what.
--     Queue         queue.py: `WeightedFairDispatcher.select_next_job`.
--     Worker        B/persistence/testing/worker.py: `InMemoryWorkerController`.
--   Security        B/security/: what may reach the service.
--     Webhook       webhook.py and `InMemoryWebhookGuard` of B/persistence/testing/security.py.
--     Auth          auth.py: claims, roles and `AuthorizationPolicy.authorize`.
--     Policies      repository.py, prompt.py and credentials.py.
--   ControlPlane    B/control_plane/: the configuration of the graph and of the agents.
--     Graph         graph.py: nodes, edges and `GraphConfigValidator._paths_to_target`.
--     Validator     graph.py: `GraphConfigValidator.validate`.
--     Agents        agents.py: `AgentConfigValidator` and the default configurations.
--     Shadow        shadow.py: `ShadowModeEvaluator`.
--     Tables        The rows of B/persistence/schema.py and the creation of versions.
--     Postgres      `PostgresControlPlaneStore` of B/persistence/control_plane.py: activation and
--                   rollback; Runs has the bindings of runs and the clean-up of snapshots.
--                   Postgres.Spec says what a change of the store may do.
--     Registry      `SnapshotDrivenHandlerRegistry` of B/persistence/control_plane.py.
--   Operations      B/operations/: the policies of whoever runs the service. Retention, Release, Slo,
--                   Resilience, Quality, Observability and StatusPage are the files of these names,
--                   Flags is feature_flags.py, FlagService is feature_flag_service.py, and
--                   Health is B/persistence/health.py.
-- Each of them has its tests in Examples. A child module that is not named here has lemmas about
-- its parent.
--
-- How they interact: `execute` checks the sinks with the repository, walks the graph from
-- `load_constitution`, and saves the run. A handler calls the planner, the resolver and the branch
-- protection verifier, and changes the run; the router of its node reads the run to pick the next
-- node. The router asks the catalog for a model and its fallback, and the health store whether their
-- providers may be called; a caller reserves at the ledger before it calls a provider, settles
-- afterwards and records the usage. The worker controller counts the active jobs of each tenant and
-- lets the dispatcher pick the next one. An activation moves the control plane store to a new
-- snapshot, publishes its identifier, and each registry that hears of it drops its cache. The status
-- page reads the health service. The minter refuses an installation that the scanner marked.
--
-- Conventions: state is passed explicitly, and an object that a method mutates is what the method
-- returns. A method that may raise returns a `Result`; one that raises after it changed the state
-- returns both. An amount of money is a whole number of the smallest unit. What `uuid4`, sha256 and
-- the GitHub API give are parameters.
--
-- LangGraph is not part of the repository: an engine is a parameter of `execute`, with the
-- hypothesis `Follows` that a walk along the compiled edges which reaches `END` within the recursion
-- limit is what it returns. `Interpreter` has a concrete one on fuel. The bound
-- `superstep_bound` on the supersteps of a request is enough fuel for it. The search for paths in a
-- graph runs on fuel too: a path passes no node twice, so one step more than there are edges is enough.
--
-- Postgres and Redis: a table is a `Dict` from its primary key, a transaction is a function that
-- returns the tables or raises and leaves them, and transactions run one after the other. The
-- foreign keys are those of the migration alembic/versions/20260418_0002 of backend/: they are
-- tests where a run is bound and where a snapshot is deleted; the rows that an activation or a
-- rollback writes refer to rows that it has just read or inserted. Of the table of runs the keys
-- are all that is used. The clock and the identifiers are arguments. SharedBudget counts amounts
-- in millionths of a dollar and the counters of Redis in cents, rounded half up as in the
-- source; a script of Redis is one step, and a hash of SharedHealth ends with its expiry time.
-- Row-level security is not modelled.
--
-- Not modelled: HTTP routing, the Postgres metering ledger, model catalog and run repository,
-- migrations, encryption, telemetry and logging, since they are calls of other packages; the parser
-- of Prometheus text; decimal division of `SliEvaluator.evaluate`; time stamps that nothing reads.
pub mod Base
pub mod ControlPlane
pub mod Github
pub mod Governance
pub mod Operations
pub mod Platform
pub mod Runtime
pub mod Security
