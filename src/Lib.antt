-- ===== src/Lib.antt =====
-- Verification library of pwnproxy, a web security proxy: its message buses, job and task state,
-- sessions, crawler, detection chains, triage of findings, interceptor and LLM client.
--
-- The parts, with the files that model them (paths from the repository's root):
--   * Bus/Topics: pwnproxy/shared/bus/topics.py, the QoS class of each topic and channel.
--   * Bus/Queue: pwnproxy/shared/bus/qos.py, QoSClassifiedQueue. A queue is a record of the inner
--     asyncio queue, the retry buffer and the counters; an operation takes the clock's reading in
--     milliseconds and the queue. Children: Bounds (well-formedness), Accounts (where events
--     go), Latest (coalescing), Fifo (order), Retries (the ticks).
--   * Bus/Hooks: pwnproxy/shared/hooks.py, HookBus over those queues: one queue for each
--     subscriber of a channel, messages held back until there is one.
--   * Bus/InProcess: pwnproxy/shared/bus/transports/inprocess.py, InProcessBus over the same queues;
--     Isolation compares it with a bus whose subscribers know nothing of each other.
--   * Jobs/State: pwnproxy/shared/contracts/job.py, JobState and `transition`. Machine is the
--     diagram as a relation.
--   * Jobs/Storage: pwnproxy/services/crawler/storage.py, JobStorage. A table is a list of rows;
--     `transition_status` is a walk of compare-and-set writes, and what other writers do before
--     each database access is a function from the access to a change of the table. Terminal is
--     about any such writers, Calm and Outcome about none.
--   * Jobs/Urls: DiscoveredURLStorage of the same file; Kept is about what saves leave in its table.
--   * Jobs/Lifecycle: pwnproxy/services/jobs/lifecycle.py, the commands over the job table.
--   * Tasks: pwnproxy/services/session/store.py, TaskStore, which reads its states through the
--     machine of Jobs/State. Legal is about the admitted moves, Steps about the operations.
--   * Chain: pwnproxy/plugins/core/chain.py, DetectionChain and BudgetChain. A stage is its order,
--     its depth and what `execute` answers; a run logs its calls. Log reads the log back,
--     Escalation is about the plain chain, Budget about the waves.
--   * Llm/Breaker, Llm/Client: pwnproxy/ai/llm/client.py, CircuitBreaker and
--     UnifiedLLMClient.generate. What the providers answer is a parameter of a run.
--   * Autoscan: pwnproxy/plugins/core/autoscan.py, AutoScanTracker; Events is about what it emits.
--   * Interceptor: pwnproxy/services/proxy/interceptor, the addon and the controller, over the
--     Flow of pwnproxy/shared/models.py. Snapshots is about what is shown, Release about what is
--     let go.
--   * Canary: pwnproxy/shared/canary.py, the registry of canary tokens, with Callbacks about which
--     callbacks count.
--   * Session/Scope, Session/Manager: pwnproxy/services/session/manager.py, ScopeConfig and the
--     SessionManager over a directory of sessions, with the requests of pwnproxy/transport/rest that
--     rename a session and toggle the capture. Saved and Steps are about what the files of the
--     active session hold, Reached about any calls. What a session keeps of the modules is a
--     parameter of the manager, which Session/Providers fills with Plugins/Loader and Interceptor.
--   * Crawl, Crawl/Run: pwnproxy/services/crawler/engine.py, CrawlEngine, and `is_disallowed` of
--     fetcher.py. A run is a step relation, in which the fetches of a batch finish in any order and
--     a cancellation comes at any time. Frontier and Invariant are about what is fetched, Bounds
--     about the counters, Ends and Progress about the end of a run, Candidates about the links.
--     It tests its URLs by the scope of Session/Scope.
--   * Findings: pwnproxy/shared/findings/storage.py, FindingStorage; History is about the triage
--     columns and the history.
--   * Triage/Heuristic, Triage/Pipeline: pwnproxy/ai/triage/heuristic.py, config.py and pipeline.py,
--     over the finding storage. Saves, verdicts and the worker's calls of the judge are steps in
--     any order. Budget is about the calls, Verdicts about what a finding's score leads to.
--   * Plugins/Loader: pwnproxy/plugins/core/loader.py, the loading, activation and deactivation of
--     plugins over Bus/Hooks; Tasks is about their consumer tasks.
--   * Scan/Params: pwnproxy/shared/scan/params.py, the injection points of a flow of Interceptor;
--     Leaves is about JSON bodies.
--   * Intruder: pwnproxy/services/intruder/generator.py; Requests is about the requests of the sniper,
--     Totals about the numbers of requests and about the choices of the cluster bomb.
--   * Dict is Python's dict; Prelude holds the shared names, tests, lists, the stable sort and
--     `str.lower`; Examples applies the theorems at concrete inputs.
--
-- Bounds: numbers are natural numbers and Python's integers do not wrap. All loops are structural
-- recursion over the list that the source walks, and `_try_provider` over the retries left, which
-- the source's counter bounds; no definition runs on fuel but `drain` of Bus/Queue/Fifo, a loop of
-- gets, with one round more than the queue holds.
--
-- Left out: log lines; the database and JSON layers, whose columns are values here; HTTP, the
-- scanners' stages and the providers, which are parameters; the interfaces (REST, WebSocket,
-- terminal, web); the scanners, the engine of the intruder, the reports and the extraction of
-- links, which is an input of the crawl. Floats are a parameter with their comparisons, and so are
-- `urlparse` and `fnmatch`.
pub mod Prelude
pub mod Dict
pub mod Bus
pub mod Jobs
pub mod Tasks
pub mod Chain
pub mod Llm
pub mod Autoscan
pub mod Interceptor
pub mod Canary
pub mod Examples
pub mod Session
pub mod Crawl
pub mod Findings
pub mod Triage
pub mod Plugins
pub mod Scan
pub mod Intruder
